-- ===== src/Queue/Invariant/Starts.antt =====
-- The start of a job, by `claim` or by the admission of a ticket (src/queue/repository.ts), and the
-- invariant.
use mathlib.Core.Path.{ap₂, subst₂}
use mathlib.Core.Bool.{false≢true}
use my_discord_agent.Base.{
  if◌then◌else◌, Bool-cases, update_rows, Memᴰ-update_rows, suc, ◌≤◌, ◌<◌, ◌≡◌, refl, sym, subst,
  ◌∙◌, ◌⊎◌, inl, inr, Bool, true, false, List, [], ◌∷◌, map, Memᴰ,
}
use my_discord_agent.Queue.Invariant.Defs.{RowInv, Inv}
use my_discord_agent.Queue.Rows.{is_active, is_terminal, JobRow}

-- `r` is `s`, started.
pub record IsStarted (s r : JobRow) : Type 0 where
  pub same_id : r.id ≡ s.id
  pub same_session : r.session_id ≡ s.session_id
  pub same_sequence : r.sequence ≡ s.sequence
  pub was_open : is_terminal s.status ≡ false
  pub row : RowInv s → RowInv r
  pub token : s.fencing_token ≤ r.fencing_token

-- Every earlier job of the session has ended.
abbrev pub IsFirst : List JobRow → JobRow → Type 0
IsFirst jobs s =
    (b : JobRow)
    → Memᴰ b jobs
    → b.session_id ≡ s.session_id
    → b.sequence < s.sequence
    → is_terminal b.status ≡ true

module _ (p : JobRow → Bool) (f : JobRow → JobRow) (jobs : List JobRow)
    (start : (s : JobRow) → Memᴰ s jobs → p s ≡ true → IsStarted s (f s) × IsFirst jobs s) where
  -- How a row of the new table comes from one of the old table.
  record IsNext (s r : JobRow) : Type 0 where
    same_id : r.id ≡ s.id
    same_session : r.session_id ≡ s.session_id
    same_sequence : r.sequence ≡ s.sequence
    stays_terminal : is_terminal s.status ≡ true → is_terminal r.status ≡ true
    row : RowInv s → RowInv r
    first : is_active r.status ≡ true → (is_active s.status ≡ true) ⊎ IsFirst jobs s

  IsNext-if : (s : JobRow) → Memᴰ s jobs → IsNext s (if p s then f s else s)
  IsNext-if s at = elim (Bool-cases (p s)) [
    | inr miss ↦ rw miss (record {
      same_id = refl;
      same_session = refl;
      same_sequence = refl;
      stays_terminal = λ h. h;
      row = λ h. h;
      first = λ h. inl h;
    })
    | inl hit ↦
        let (st, before) = start s at hit in
        rw hit (record {
          same_id = st.same_id;
          same_session = st.same_session;
          same_sequence = st.same_sequence;
          stays_terminal = λ h. absurd (false≢true (sym st.was_open ∙ h));
          row = st.row;
          first = λ _. inr before;
        })
  ]

  IsNext-of : {r : JobRow} → Memᴰ r (update_rows p f jobs) → (s : JobRow) × Memᴰ s jobs × IsNext s r
  IsNext-of m =
      let (s, at, e) = Memᴰ-update_rows p f jobs m in
      (s, at, subst (IsNext s) (sym e) (IsNext-if s at))

  map-started :
      (xs : List JobRow)
      → ((s : JobRow) → Memᴰ s xs → Memᴰ s jobs)
      → map (λ r. r.id) (update_rows p f xs) ≡ map (λ r. r.id) xs
  unfolding update_rows
  map-started [] inside = refl
  map-started (x ∷ xs) inside =
      ap₂ ◌∷◌ (IsNext-if x (inside x (Memᴰ.head refl))).same_id
        (map-started xs (λ s m. inside s (Memᴰ.tail m)))

  pub update_rows-start-Inv : Inv jobs → Inv (update_rows p f jobs)
  update_rows-start-Inv inv = record {
    ids = rw (map-started jobs (λ s m. m)) inv.ids;
    numbered = λ a b ma mb e k.
        let (s, ms, cs) = IsNext-of ma in
        let (t, mt, ct) = IsNext-of mb in
        cs.same_id
        ∙ inv.numbered s t ms mt (sym cs.same_session ∙ e ∙ ct.same_session)
            (sym cs.same_sequence ∙ k ∙ ct.same_sequence)
        ∙ sym ct.same_id;
    serial = λ a b ma mb e active before.
        let (s, ms, cs) = IsNext-of ma in
        let (t, mt, ct) = IsNext-of mb in
        let session : s.session_id ≡ t.session_id = sym cs.same_session ∙ e ∙ ct.same_session in
        let earlier : t.sequence < s.sequence =
          subst₂ (λ x y. suc x ≤ y) ct.same_sequence cs.same_sequence before in
        ct.stays_terminal (elim (cs.first active) [
          | inl was ↦ inv.serial s t ms mt session was earlier
          | inr is_first ↦ is_first t mt (sym session) earlier
        ]);
    rows = λ a ma. let (s, ms, cs) = IsNext-of ma in cs.row (inv.rows s ms);
  }

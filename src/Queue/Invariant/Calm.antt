-- ===== src/Queue/Invariant/Calm.antt =====
-- Updates of a row that start no work (src/queue/repository.ts), and the invariant.
use mathlib.Core.Path.{ap₂, subst₂}
use my_discord_agent.Base.{
  if◌then◌else◌, Bool-cases, update_rows, Memᴰ-update_rows, suc, ◌≤◌, ◌≡◌, refl, sym, subst, ◌∙◌,
  inl, inr, Bool, true, List, [], ◌∷◌, map, Memᴰ, arith,
}
use my_discord_agent.Queue.Invariant.Defs.{RowInv, Inv}
use my_discord_agent.Queue.Rows.{is_active, is_terminal, JobRow}

-- `r` is what an UPDATE made of `s`.
pub record IsCalm (s r : JobRow) : Type 0 where
  pub same_id : r.id ≡ s.id
  pub same_session : r.session_id ≡ s.session_id
  pub same_sequence : r.sequence ≡ s.sequence
  pub was_active : is_active r.status ≡ true → is_active s.status ≡ true
  pub stays_terminal : is_terminal s.status ≡ true → is_terminal r.status ≡ true
  pub row : RowInv s → RowInv r
  pub token : s.fencing_token ≤ r.fencing_token

pub IsCalm-refl : (s : JobRow) → IsCalm s s
IsCalm-refl s = record {
  same_id = refl;
  same_session = refl;
  same_sequence = refl;
  was_active = λ h. h;
  stays_terminal = λ h. h;
  row = λ h. h;
  token = omega arith;
}

module _ (p : JobRow → Bool) (f : JobRow → JobRow)
    (calm : (s : JobRow) → p s ≡ true → IsCalm s (f s)) where
  IsCalm-if : (s : JobRow) → IsCalm s (if p s then f s else s)
  IsCalm-if s = elim (Bool-cases (p s)) [
    | inl hit ↦ rw hit (calm s hit)
    | inr miss ↦ rw miss (IsCalm-refl s)
  ]

  map-calm : (xs : List JobRow) → map (λ r. r.id) (update_rows p f xs) ≡ map (λ r. r.id) xs
  unfolding update_rows
  map-calm [] = refl
  map-calm (x ∷ xs) = ap₂ ◌∷◌ (IsCalm-if x).same_id (map-calm xs)

  -- Each new row comes from an old one.
  pub origin :
      (jobs : List JobRow) {r : JobRow}
      → Memᴰ r (update_rows p f jobs)
      → (s : JobRow) × Memᴰ s jobs × IsCalm s r
  origin jobs m =
      let (s, at, e) = Memᴰ-update_rows p f jobs m in
      (s, at, subst (IsCalm s) (sym e) (IsCalm-if s))

  pub update_rows-Inv : (jobs : List JobRow) → Inv jobs → Inv (update_rows p f jobs)
  update_rows-Inv jobs inv = record {
    ids = rw (map-calm jobs) inv.ids;
    numbered = λ a b ma mb e k.
        let (s, ms, cs) = origin jobs ma in
        let (t, mt, ct) = origin jobs mb in
        cs.same_id
        ∙ inv.numbered s t ms mt (sym cs.same_session ∙ e ∙ ct.same_session)
            (sym cs.same_sequence ∙ k ∙ ct.same_sequence)
        ∙ sym ct.same_id;
    serial = λ a b ma mb e active before.
        let (s, ms, cs) = origin jobs ma in
        let (t, mt, ct) = origin jobs mb in
        ct.stays_terminal (
          inv.serial s t ms mt (sym cs.same_session ∙ e ∙ ct.same_session) (cs.was_active active)
            (subst₂ (λ x y. suc x ≤ y) ct.same_sequence cs.same_sequence before));
    rows = λ a ma. let (s, ms, cs) = origin jobs ma in cs.row (inv.rows s ms);
  }

-- ===== src/Queue/Invariant/Appends.antt =====
-- The insertion of a job at the end of its session (src/queue/repository.ts) and the invariant.
use mathlib.Core.List.Memᴰ
use mathlib.Core.List.{map-append}
use mathlib.Core.Logic.{◌≢◌}
use mathlib.Core.Bool.{false≢true}
use my_discord_agent.Base.{
  Unique-append, ℕ, ◌<◌, String, ◌≡◌, sym, ap, subst, ◌∙◌, ◌≢◌, ◌⊎◌, inl, inr, false, List, [], ◌∷◌,
  ◌++◌, map, Memᴰ, arith, eq_iff,
}
use my_discord_agent.Queue.Enqueue.{next_sequence}
use my_discord_agent.Queue.Invariant.Defs.{RowInv, Inv}
use my_discord_agent.Queue.Rows.{is_active, JobRow}

next_sequence-lt :
    (session : String) (jobs : List JobRow) {b : JobRow}
    → Memᴰ b jobs
    → b.session_id ≡ session
    → b.sequence < next_sequence session jobs
unfolding next_sequence
next_sequence-lt session [] m e = absurd (Memᴰ.not-nil m)
next_sequence-lt session (r ∷ rows) {b} (Memᴰ.head h) e =
    let same : r.session_id ≡ session = subst (λ z. z.session_id ≡ session) h e in
    let hit = (eq_iff r.session_id session).1 same in
    let seq : b.sequence ≡ r.sequence = ap (λ z. z.sequence) h in ground (arith, hit, seq)
next_sequence-lt session (r ∷ rows) (Memᴰ.tail m) e =
    let rest = next_sequence-lt session rows m e in ground (arith, rest)

-- A row as an INSERT makes it.
pub record IsFresh (session : String) (sequence : ℕ) (r : JobRow) : Type 0 where
  pub in_session : r.session_id ≡ session
  pub at_end : r.sequence ≡ sequence
  pub is_idle : is_active r.status ≡ false
  pub sound : RowInv r

module _ (session : String) (jobs : List JobRow) (row : JobRow)
    (fresh : IsFresh session (next_sequence session jobs) row) (inv : Inv jobs)
    (new : (b : JobRow) → Memᴰ b jobs → b.id ≢ row.id) where
  old_or_new : {b : JobRow} → Memᴰ b (jobs ++ row ∷ []) → Memᴰ b jobs ⊎ (b ≡ row)
  old_or_new m = elim (Memᴰ.append_cases jobs m) [
    | inl old ↦ inl old
    | inr last ↦ inr (Memᴰ.eq_of_singleton last)
  ]

  before_row :
      (b : JobRow) → Memᴰ b jobs → b.session_id ≡ row.session_id → b.sequence < row.sequence
  before_row b m e =
      subst (λ n. b.sequence < n) (sym fresh.at_end)
        (next_sequence-lt session jobs m (e ∙ fresh.in_session))

  ids_of : (b : String) → Memᴰ b (map (λ r. r.id) jobs) → b ≢ row.id
  ids_of b m = let (s, at, e) = Memᴰ.of_map (λ (r : JobRow). r.id) jobs m in λ h. new s at (e ∙ h)

  pub append-Inv : Inv (jobs ++ row ∷ [])
  append-Inv = record {
    ids =
        rw (map-append (λ (r : JobRow). r.id) jobs (row ∷ []))
          (Unique-append (map (λ r. r.id) jobs) row.id inv.ids ids_of);
    numbered = λ a b ma mb e k. elim (old_or_new ma) [
      | inl oa ↦ elim (old_or_new mb) [
        | inl ob ↦ inv.numbered a b oa ob e k
        | inr nb ↦
            let lt = before_row a oa (e ∙ ap (λ z. z.session_id) nb) in
            let eq = ap (λ z. z.sequence) nb in absurd (omega (arith, lt, eq, k))
      ]
      | inr na ↦ elim (old_or_new mb) [
        | inl ob ↦
            let lt = before_row b ob (sym e ∙ ap (λ z. z.session_id) na) in
            let eq = ap (λ z. z.sequence) na in absurd (omega (arith, lt, eq, k))
        | inr nb ↦ ap (λ z. z.id) (na ∙ sym nb)
      ]
    ];
    serial = λ a b ma mb e active before. elim (old_or_new ma) [
      | inr na ↦
          let idle = fresh.is_idle in
          let same = ap (λ z. is_active z.status) na in
          absurd (false≢true (sym idle ∙ sym same ∙ active))
      | inl oa ↦ elim (old_or_new mb) [
        | inl ob ↦ inv.serial a b oa ob e active before
        | inr nb ↦
            let lt = before_row a oa (e ∙ ap (λ z. z.session_id) nb) in
            let eq = ap (λ z. z.sequence) nb in absurd (omega (arith, lt, eq, before))
      ]
    ];
    rows = λ a ma. elim (old_or_new ma) [
      | inl oa ↦ inv.rows a oa
      | inr na ↦ subst RowInv (sym na) fresh.sound
    ];
  }

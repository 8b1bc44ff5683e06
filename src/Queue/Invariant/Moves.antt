-- ===== src/Queue/Invariant/Moves.antt =====
-- The move of a cron job to the front of its destination session: `provisionCronJob` of
-- src/queue/repository.ts, which the delivery worker calls while it delivers the job's result.
use mathlib.Core.Bool.{false≢true}
use my_discord_agent.Base.{
  if◌then◌else◌, Bool-cases, update_rows, Memᴰ-update_rows, Unique, map-update_rows, ℕ, suc, ◌<◌,
  String, ◌≡◌, refl, sym, ap, subst, ◌∙◌, inl, inr, true, false, Option, none, some, List, map,
  Memᴰ, arith, str_eq, eq_iff,
}
use my_discord_agent.Queue.Invariant.Defs.{RowInv, Inv}
use my_discord_agent.Queue.Keeps.{Keeps-undone}
use my_discord_agent.Queue.Payload.{Object}
use my_discord_agent.Queue.Provision.{
  shift_row, front_of_session, provisioned_payload, provision_found, provision_in_transaction,
  provision_cron_job,
}
use my_discord_agent.Queue.Rows.{is_active, is_terminal, JobRow}
use my_discord_agent.Queue.Store.{
  Db, ◌>>=◌, pure, query, after, transaction, update_jobs, job_by_id,
}

-- Where a row goes: to the front, one place back, or nowhere.
data IsPlaced (id session : String) (s r : JobRow) : Type 0 where
  front : s.id ≡ id → r.session_id ≡ session → r.sequence ≡ 0 → IsPlaced id session s r
  back :
      s.session_id ≡ session
      → r.session_id ≡ session
      → r.sequence ≡ suc s.sequence
      → IsPlaced id session s r
  elsewhere :
      str_eq s.session_id session ≡ false
      → r.session_id ≡ s.session_id
      → r.sequence ≡ s.sequence
      → IsPlaced id session s r

record IsMoved (id session : String) (s r : JobRow) : Type 0 where
  same_id : r.id ≡ s.id
  same_status : r.status ≡ s.status
  row : RowInv s → RowInv r
  place : IsPlaced id session s r

module _ (id session : String) (payload : Object) (now : ℕ) where
  moved : JobRow → JobRow
  moved s =
      let t = if str_eq s.session_id session then shift_row s else s in
      if str_eq t.id id then front_of_session session payload now t else t

  moved-IsMoved : (s : JobRow) → IsMoved id session s (moved s)
  unfolding moved shift_row front_of_session
  moved-IsMoved s = elim (Bool-cases (str_eq s.session_id session)) [
    | inl inside ↦ elim (Bool-cases (str_eq s.id id)) [
      | inl hit ↦
          rw (inside, hit)
            (record {
              same_id = refl;
              same_status = refl;
              row =
                  λ h. record { capped = h.capped; unleased = h.unleased; unadopted = h.unadopted };
              place = front ((eq_iff s.id id).0 hit) refl refl;
            })
      | inr miss ↦
          rw (inside, miss)
            (record {
              same_id = refl;
              same_status = refl;
              row =
                  λ h. record { capped = h.capped; unleased = h.unleased; unadopted = h.unadopted };
              place =
                  back ((eq_iff s.session_id session).0 inside)
                    ((eq_iff s.session_id session).0 inside) (omega arith);
            })
    ]
    | inr outside ↦ elim (Bool-cases (str_eq s.id id)) [
      | inl hit ↦
          rw (outside, hit)
            (record {
              same_id = refl;
              same_status = refl;
              row =
                  λ h. record { capped = h.capped; unleased = h.unleased; unadopted = h.unadopted };
              place = front ((eq_iff s.id id).0 hit) refl refl;
            })
      | inr miss ↦
          rw (outside, miss)
            (record {
              same_id = refl;
              same_status = refl;
              row =
                  λ h. record { capped = h.capped; unleased = h.unleased; unadopted = h.unadopted };
              place = elsewhere outside refl refl;
            })
    ]
  ]

  module _ (jobs : List JobRow)
      (ended : (s : JobRow) → Memᴰ s jobs → s.id ≡ id → is_terminal s.status ≡ true)
      (inv : Inv jobs) where
    table : List JobRow
    table =
        update_rows (λ r. str_eq r.id id) (front_of_session session payload now)
          (update_rows (λ r. str_eq r.session_id session) shift_row jobs)

    from_old : {r : JobRow} → Memᴰ r table → (s : JobRow) × Memᴰ s jobs × IsMoved id session s r
    unfolding table moved
    from_old m =
        let (t, mt, e) = Memᴰ-update_rows _ (front_of_session session payload now) _ m in
        let (s, ms, h) = Memᴰ-update_rows _ shift_row jobs mt in
        (
          s,
          ms,
          subst (IsMoved id session s)
              (sym (
                e
                ∙ ap (λ z. if str_eq z.id id then front_of_session session payload now z else z) h))
              (moved-IsMoved s),
        )

    ids_kept : map (λ r. r.id) table ≡ map (λ r. r.id) jobs
    unfolding table front_of_session shift_row
    ids_kept =
        map-update_rows (λ r. r.id) _ (front_of_session session payload now) _ (λ x. refl)
        ∙ map-update_rows (λ r. r.id) _ shift_row jobs (λ x. refl)

    same_place :
        {a b s t : JobRow}
        → Memᴰ s jobs
        → Memᴰ t jobs
        → IsPlaced id session s a
        → IsPlaced id session t b
        → a.session_id ≡ b.session_id
        → a.sequence ≡ b.sequence
        → s.id ≡ t.id
    same_place ms mt (front i u n) (front j v m) e k = i ∙ sym j
    same_place ms mt (front i u n) (back j v m) e k = absurd (omega (arith, n, m, k))
    same_place ms mt (front i u n) (elsewhere j v m) e k =
        absurd (false≢true (sym j ∙ (eq_iff _ session).1 (sym v ∙ sym e ∙ u)))
    same_place ms mt (back i u n) (front j v m) e k = absurd (omega (arith, n, m, k))
    same_place {s = s} {t = t} ms mt (back i u n) (back j v m) e k =
        inv.numbered s t ms mt (i ∙ sym j) (omega (arith, n, m, k))
    same_place ms mt (back i u n) (elsewhere j v m) e k =
        absurd (false≢true (sym j ∙ (eq_iff _ session).1 (sym v ∙ sym e ∙ u)))
    same_place ms mt (elsewhere i u n) (front j v m) e k =
        absurd (false≢true (sym i ∙ (eq_iff _ session).1 (sym u ∙ e ∙ v)))
    same_place ms mt (elsewhere i u n) (back j v m) e k =
        absurd (false≢true (sym i ∙ (eq_iff _ session).1 (sym u ∙ e ∙ v)))
    same_place {s = s} {t = t} ms mt (elsewhere i u n) (elsewhere j v m) e k =
        inv.numbered s t ms mt (sym u ∙ e ∙ v) (sym n ∙ k ∙ m)

    -- An was_active row keeps its earlier rows, but for the one that has moved and has ended.
    still_first :
        {a b s t : JobRow}
        → Memᴰ s jobs
        → Memᴰ t jobs
        → IsPlaced id session s a
        → IsPlaced id session t b
        → a.session_id ≡ b.session_id
        → is_active s.status ≡ true
        → b.sequence < a.sequence
        → is_terminal t.status ≡ true
    still_first ms mt (front i u n) q e was_active before = absurd (omega (arith, n, before))
    still_first {t = t} ms mt (back i u n) (front j v m) e was_active before = ended t mt j
    still_first {s = s} {t = t} ms mt (back i u n) (back j v m) e was_active before =
        inv.serial s t ms mt (i ∙ sym j) was_active (omega (arith, n, m, before))
    still_first ms mt (back i u n) (elsewhere j v m) e was_active before =
        absurd (false≢true (sym j ∙ (eq_iff _ session).1 (sym v ∙ sym e ∙ u)))
    still_first {t = t} ms mt (elsewhere i u n) (front j v m) e was_active before = ended t mt j
    still_first ms mt (elsewhere i u n) (back j v m) e was_active before =
        absurd (false≢true (sym i ∙ (eq_iff _ session).1 (sym u ∙ e ∙ v)))
    still_first {s = s} {t = t} ms mt (elsewhere i u n) (elsewhere j v m) e was_active before =
        inv.serial s t ms mt (sym u ∙ e ∙ v) was_active (omega (arith, n, m, before))

    table-Inv : Inv table
    table-Inv = record {
      ids = subst Unique (sym ids_kept) inv.ids;
      numbered = λ a b ma mb e k.
          let (s, ms, cs) = from_old ma in
          let (t, mt, ct) = from_old mb in
          cs.same_id ∙ same_place ms mt cs.place ct.place e k ∙ sym ct.same_id;
      serial = λ a b ma mb e was_active before.
          let (s, ms, cs) = from_old ma in
          let (t, mt, ct) = from_old mb in
          let was = sym (ap is_active cs.same_status) ∙ was_active in
          ap is_terminal ct.same_status ∙ still_first ms mt cs.place ct.place e was before;
      rows = λ a ma. let (s, ms, cs) = from_old ma in cs.row (inv.rows s ms);
    }

-- No row with this id is still open.
abbrev pub IsEnded : String → List JobRow → Type 0
IsEnded id jobs = (s : JobRow) → Memᴰ s jobs → s.id ≡ id → is_terminal s.status ≡ true

provision_found-Inv :
    (now : ℕ) (id session : String) (patch : Object) (o : Option JobRow) (db : Db)
    → IsEnded id db.jobs
    → Inv db.jobs
    → Inv (after (provision_found now id session patch o db)).jobs
unfolding provision_found pure ◌>>=◌ update_jobs table query
provision_found-Inv now id session patch none db ended inv = inv
provision_found-Inv now id session patch (some row) db ended inv =
    table-Inv id session (provisioned_payload session row.payload patch) now db.jobs ended inv

-- Where every job with the id has ended, provisionCronJob keeps the invariant of the table of jobs,
-- whether it finds the job or not.
pub provision_cron_job-Inv :
    (now : ℕ) (id session : String) (patch : Object) (db : Db)
    → IsEnded id db.jobs
    → Inv db.jobs
    → Inv (after (provision_cron_job now id session patch db)).jobs
unfolding provision_cron_job transaction provision_in_transaction query ◌>>=◌
provision_cron_job-Inv now id session patch db ended inv =
    Keeps-undone (λ d. Inv d.jobs) (provision_found now id session patch (job_by_id id db) db) db
      inv (provision_found-Inv now id session patch (job_by_id id db) db ended inv)

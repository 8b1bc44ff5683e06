-- ===== src/Queue/Invariant/Results.antt =====
-- The adoption of a result, the end of tickets and the patch of a payload (src/queue/repository.ts),
-- and properties that calm updates keep.
use my_discord_agent.Base.{
  update_rows, ℕ, String, ◌≡◌, refl, Bool, true, Option, none, some, List, [], ◌∷◌,
}
use my_discord_agent.Queue.Admission.{
  Admission, end_ticket, complete_admission, cancel_admission, recover_admissions,
}
use my_discord_agent.Queue.Commit.{
  ConversationEntries, CommitOptions, Host, insert_deliveries, insert_conversation, complete_key,
  link_delivery, commit_in_transaction, commit_result,
}
use my_discord_agent.Queue.Fenced.{holds}
use my_discord_agent.Queue.Invariant.Calm.{IsCalm}
use my_discord_agent.Queue.Invariant.Rows.{
  completed-IsCalm, linked-IsCalm, ticket-IsCalm, patched-IsCalm,
}
use my_discord_agent.Queue.Keeps.{
  Keeps, Keeps-bind, Keeps-then, Keeps-pure, Keeps-query, Keeps-require, Keeps-or_throw,
  Keeps-transaction, unless_exists_keeps,
}
use my_discord_agent.Queue.Payload.{Object}
use my_discord_agent.Queue.Provision.{patch_found, patch_in_transaction, patch_job_payload}
use my_discord_agent.Queue.Rows.{
  JobStatus, dead_letter, is_terminal, is_queued, ResultValue, JobRow, DeliveryRow,
}
use my_discord_agent.Queue.Store.{Ambient, M, update_jobs, insert_delivery, update_keys}

module _ {κ} (J : List JobRow → Type κ)
    (J-calm : (p : JobRow → Bool) (f : JobRow → JobRow)
      → ((s : JobRow) → p s ≡ true → IsCalm s (f s))
      → (jobs : List JobRow) → J jobs
      → J (update_rows p f jobs)) where
  abbrev KeepsJobs : {A : Type 0} → M A → Type κ
  KeepsJobs = Keeps (λ db. J db.jobs)

  update_jobs-KeepsJobs :
      (p : JobRow → Bool) (f : JobRow → JobRow)
      → ((s : JobRow) → p s ≡ true → IsCalm s (f s))
      → KeepsJobs (update_jobs p f)
  unfolding update_jobs
  update_jobs-KeepsJobs p f calm = record { keeps = λ db h. J-calm p f calm db.jobs h }

  insert_delivery-KeepsJobs : (d : DeliveryRow) → KeepsJobs (insert_delivery d)
  unfolding insert_delivery
  insert_delivery-KeepsJobs d = record {
    keeps = λ db h. unless_exists_keeps (λ db. J db.jobs) _ _ db h h;
  }

  insert_deliveries-KeepsJobs : (rows : List DeliveryRow) → KeepsJobs (insert_deliveries rows)
  unfolding insert_deliveries
  insert_deliveries-KeepsJobs [] = Keeps-pure _ tt
  insert_deliveries-KeepsJobs (row ∷ rows) =
      Keeps-then _ (insert_delivery-KeepsJobs row) (insert_deliveries-KeepsJobs rows)

  insert_conversation-KeepsJobs :
      (env : Ambient) (id : String) (group : Option String) (b : Bool)
      (c : Option ConversationEntries)
      → KeepsJobs (insert_conversation env id group b c)
  unfolding insert_conversation
  insert_conversation-KeepsJobs env id group b none = record { keeps = λ db h. h }
  insert_conversation-KeepsJobs env id none b (some c) = record { keeps = λ db h. h }
  insert_conversation-KeepsJobs env id (some group) b (some c) = record {
    keeps = λ db h. unless_exists_keeps (λ db. J db.jobs) _ _ db h h;
  }

  complete_key-KeepsJobs : (now : ℕ) (k : Option String) → KeepsJobs (complete_key now k)
  unfolding complete_key update_keys
  complete_key-KeepsJobs now none = Keeps-pure _ tt
  complete_key-KeepsJobs now (some k) = record { keeps = λ db h. h }

  link_delivery-KeepsJobs : (id : String) (d : Option DeliveryRow) → KeepsJobs (link_delivery id d)
  unfolding link_delivery
  link_delivery-KeepsJobs id none = Keeps-pure _ tt
  link_delivery-KeepsJobs id (some d) =
      Keeps-bind _ (update_jobs-KeepsJobs _ _ (λ s h. linked-IsCalm d.id s)) (λ n. Keeps-pure _ tt)

  pub commit_result-KeepsJobs :
      (host : Host) (env : Ambient) (id : String) (token : ℕ) (result : ResultValue)
      (options : CommitOptions)
      → KeepsJobs (commit_result host env id token result options)
  unfolding commit_result commit_in_transaction
  commit_result-KeepsJobs host env id token result options = Keeps-then _ (Keeps-require _ _ _) (
      Keeps-transaction _ (
        Keeps-bind _ (Keeps-query _ _) λ found. Keeps-bind _ (Keeps-or_throw _ _ _) λ row.
          Keeps-bind _
            (update_jobs-KeepsJobs (holds id token) _
              (completed-IsCalm id token env options result))
            λ n. Keeps-then _ (Keeps-require _ _ _) (
              Keeps-then _ (insert_conversation-KeepsJobs _ _ _ _ _) (
                Keeps-then _ (insert_deliveries-KeepsJobs _) (
                  Keeps-then _ (link_delivery-KeepsJobs _ _)
                    (Keeps-then _ (complete_key-KeepsJobs _ _) (Keeps-pure _ _)))))))

  end_ticket-KeepsJobs :
      (in_state : JobStatus → Bool) (status : JobStatus) (reason : Option String) (now : ℕ)
      (a : Admission)
      → is_terminal status ≡ true
      → KeepsJobs (end_ticket in_state status reason now a)
  unfolding end_ticket
  end_ticket-KeepsJobs in_state status reason now a h =
      Keeps-bind _ (update_jobs-KeepsJobs _ _ (λ s _. ticket-IsCalm status reason now s h))
        (λ n. Keeps-pure _ tt)

  pub complete_admission-KeepsJobs :
      (now : ℕ) (a : Admission) → KeepsJobs (complete_admission now a)
  unfolding complete_admission
  complete_admission-KeepsJobs now a = end_ticket-KeepsJobs _ _ _ now a refl

  pub cancel_admission-KeepsJobs : (now : ℕ) (a : Admission) → KeepsJobs (cancel_admission now a)
  unfolding cancel_admission
  cancel_admission-KeepsJobs now a = end_ticket-KeepsJobs _ _ _ now a refl

  pub cancel_blocked-KeepsJobs :
      (now : ℕ) (a : Admission)
      → KeepsJobs (end_ticket is_queued dead_letter (some "cancelled") now a)
  cancel_blocked-KeepsJobs now a = end_ticket-KeepsJobs _ _ _ now a refl

  pub recover_admissions-KeepsJobs : (now : ℕ) → KeepsJobs (recover_admissions now)
  unfolding recover_admissions
  recover_admissions-KeepsJobs now = Keeps-transaction _ (
      Keeps-bind _ (update_jobs-KeepsJobs _ _ (λ s _. ticket-IsCalm _ _ now s refl))
        (λ n. Keeps-pure _ tt))

  patch_found-KeepsJobs :
      (id : String) (patch : Object) (row : Option JobRow) → KeepsJobs (patch_found id patch row)
  unfolding patch_found
  patch_found-KeepsJobs id patch none = Keeps-pure _ none
  patch_found-KeepsJobs id patch (some row) =
      Keeps-bind _ (update_jobs-KeepsJobs _ _ (λ s _. patched-IsCalm _ s))
        λ n. Keeps-bind _ (Keeps-query _ _) (λ r. Keeps-pure _ _)

  pub patch_job_payload-KeepsJobs :
      (id : String) (patch : Object) → KeepsJobs (patch_job_payload id patch)
  unfolding patch_job_payload patch_in_transaction
  patch_job_payload-KeepsJobs id patch =
      Keeps-transaction _
        (Keeps-bind _ (Keeps-query _ _) (λ row. patch_found-KeepsJobs id patch row))

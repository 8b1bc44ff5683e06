-- ===== src/Agent/AdmissionWait.antt =====
-- A direct Bot call waits for its ticket: `withBotTaskSessionAdmission` of src/queue/session-admission.ts.
use my_discord_agent.Base.{
  if◌then◌else◌, ℕ, zero, suc, Bool, Option, none, some, List, [], ◌∷◌, ◌++◌,
}
use my_discord_agent.Queue.Admission.{Admitted}

-- What a call of the repository or of the callback was.
pub data TicketCall : Type 0 where
  asked ran completed_ticket cancelled_ticket : TicketCall

pub data TicketEnd : Type 0 where
  returned callback_threw wait_aborted predecessor_blocks not_available ask_threw end_threw :
      TicketEnd

-- The calls in their order, and how the function ends.
pub record TicketRun : Type 0 where
  pub calls : List TicketCall
  pub ended : TicketEnd

-- What is thrown beside the answers of the repository: by the callback, which settles, and by the call
-- of the repository in `finally`.
pub record Throws : Type 0 where
  pub by_callback : Bool
  pub by_end : Bool

-- An error of `finally` takes the place of what the function ends with.
unfoldable pub ended_with : Throws → TicketEnd → TicketEnd
ended_with throws e = if throws.by_end then end_threw else e

-- The callback, and `finally` with `admitted`.
unfoldable pub run_admitted : Throws → List TicketCall → TicketRun
run_admitted throws before = record {
  calls = before ++ ran ∷ completed_ticket ∷ [];
  ended = ended_with throws (if throws.by_callback then callback_threw else returned);
}

-- `finally` without `admitted`.
unfoldable pub give_up_ticket : Throws → TicketEnd → List TicketCall → TicketRun
give_up_ticket throws why before = record {
  calls = before ++ cancelled_ticket ∷ [];
  ended = ended_with throws why;
}

-- Of round `i`: whether the signal is aborted before it, whether the repository throws in it, what it
-- answers, and whether the signal is aborted in the wait after it.
pub record Rounds : Type 0 where
  pub aborted_before : ℕ → Bool
  pub fails : ℕ → Bool
  pub admits : ℕ → Bool
  pub aborted_waiting : ℕ → Bool

-- The waiting loop from round `i`, with fuel.
unfoldable pub wait_for_ticket : ℕ → Rounds → Throws → ℕ → List TicketCall → Option TicketRun
wait_for_ticket zero rounds throws i before = none
wait_for_ticket (suc n) rounds throws i before =
    let rest = wait_for_ticket n rounds throws (suc i) (before ++ asked ∷ []) in
    if rounds.aborted_before i
    then some (give_up_ticket throws wait_aborted before)
    else if rounds.fails i
    then some (give_up_ticket throws ask_threw (before ++ asked ∷ []))
    else if rounds.admits i
    then some (run_admitted throws (before ++ asked ∷ []))
    else if rounds.aborted_waiting i
    then some (give_up_ticket throws wait_aborted (before ++ asked ∷ []))
    else rest

-- With `failIfBlocked`, the repository is asked once; `outcome` is its answer, none where it throws.
unfoldable pub ask_once : Option Admitted → Throws → TicketRun
ask_once none throws = give_up_ticket throws ask_threw (asked ∷ [])
ask_once (some Admitted.admitted) throws = run_admitted throws (asked ∷ [])
ask_once (some Admitted.blocked) throws = give_up_ticket throws predecessor_blocks (asked ∷ [])
ask_once (some Admitted.unavailable) throws = give_up_ticket throws not_available (asked ∷ [])

unfoldable pub with_admission : Bool → ℕ → Rounds → Option Admitted → Throws → Option TicketRun
with_admission fail_if_blocked fuel rounds outcome throws =
    if fail_if_blocked
    then some (ask_once outcome throws)
    else wait_for_ticket fuel rounds throws 0 []

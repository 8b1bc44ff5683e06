-- ===== src/Agent/AdmissionEnds.antt =====
-- How the wait of src/queue/session-admission.ts for a ticket ends.
use my_discord_agent.Agent.AdmissionWait.{
  TicketCall, ran, completed_ticket, cancelled_ticket, returned, callback_threw, end_threw,
  TicketRun, Rounds,
}
use my_discord_agent.Base.{if◌then◌else◌, ℕ, suc, ◌≡◌, ◌⊎◌, Bool, true, false, ◌||◌, List, [], ◌∷◌}

-- How often a ticket is completed, cancelled, and its callback run.
abbrev pub count_calls : (TicketCall → Bool) → List TicketCall → ℕ
count_calls p [] = 0
count_calls p (c ∷ cs) = if p c then suc (count_calls p cs) else count_calls p cs

abbrev pub is_ran : TicketCall → Bool
is_ran ran = true
is_ran _ = false

abbrev pub is_completion : TicketCall → Bool
is_completion completed_ticket = true
is_completion _ = false

abbrev pub is_cancellation : TicketCall → Bool
is_cancellation cancelled_ticket = true
is_cancellation _ = false

-- The ticket ends once: it is completed after the one run of the callback, or cancelled without one.
abbrev pub EndsOnce : TicketRun → Type 0
EndsOnce r =
    (((r.ended ≡ returned) ⊎ ((r.ended ≡ callback_threw) ⊎ (r.ended ≡ end_threw)))
      × (count_calls is_ran r.calls ≡ 1)
      × (count_calls is_completion r.calls ≡ 1)
      × (count_calls is_cancellation r.calls ≡ 0))
    ⊎ ((count_calls is_ran r.calls ≡ 0)
        × (count_calls is_completion r.calls ≡ 0)
        × (count_calls is_cancellation r.calls ≡ 1))

-- Calls that neither run the callback nor end the ticket.
abbrev OnlyAsked : List TicketCall → Type 0
OnlyAsked cs =
    (count_calls is_ran cs ≡ 0)
    × (count_calls is_completion cs ≡ 0)
    × (count_calls is_cancellation cs ≡ 0)

-- A round that ends the wait: it finds the signal aborted, the repository throws, or admits.
abbrev pub stops_in : Rounds → ℕ → Bool
stops_in rounds j =
    rounds.aborted_before j || rounds.fails j || rounds.admits j || rounds.aborted_waiting j

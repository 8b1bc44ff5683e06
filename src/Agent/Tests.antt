-- ===== src/Agent/Tests.antt =====
-- Concrete runs of the registry, of the wait for a ticket and of the ledger.
use my_discord_agent.Agent.ActiveRuns.{
  RunKey, ActiveRuns, register_active_run, unregister, stop_active_run, stop_settles,
}
use my_discord_agent.Agent.AdmissionWait.{
  asked, ran, completed_ticket, returned, Throws, ended_with, run_admitted, Rounds, wait_for_ticket,
  with_admission,
}
use my_discord_agent.Agent.Ledger.{
  CaptureTurn, is_export, has_export, record_export, row_of, ledger_remembers,
}
use my_discord_agent.Agent.Registry.{stop_joins}
use my_discord_agent.Agent.RegistryMap.{run_map, set_run, remove_run, registry_is_a_map}
use my_discord_agent.Base.{
  ◌==◌, get_or, is_some, is_none, find_row, any_row, update_rows, ◌≡◌, refl, true, false, ◌||◌,
  none, some, [], ◌∷◌,
}

abbrev main_key : RunKey
main_key = record { group_name = "g"; agent_id = "main"; session_id = "s" }

abbrev no_runs : ActiveRuns
no_runs = record { runs = []; stop_calls = [] }

abbrev one_run : ActiveRuns
one_run = record {
  runs = record { key = main_key; run = 7; has_stop = true; stop_promise = none } ∷ [];
  stop_calls = [];
}

abbrev one_stopping : ActiveRuns
one_stopping = record {
  runs = record { key = main_key; run = 7; has_stop = true; stop_promise = some 1 } ∷ [];
  stop_calls = 7 ∷ [];
}

registers : register_active_run main_key 7 true no_runs ≡ some one_run
unfolding register_active_run any_row
registers = refl

registers_no_second : register_active_run main_key 8 true one_run ≡ none
unfolding register_active_run any_row
registers_no_second = refl

stops : stop_active_run main_key 1 one_run ≡ (some 1, one_stopping)
unfolding stop_active_run find_row update_rows
stops = refl

stop_is_over : stop_settles 7 1 one_stopping ≡ record one_run { stop_calls = 7 ∷ [] }
unfolding stop_settles update_rows
stop_is_over = refl

stop_joins_example : stop_active_run main_key 2 one_stopping ≡ (some 1, one_stopping)
stop_joins_example = stop_joins main_key 1 2 1 one_run stops

-- The second round admits.
abbrev second_round : Rounds
second_round = record {
  aborted_before = λ i. false;
  fails = λ i. false;
  admits = λ i. i == 1;
  aborted_waiting = λ i. false;
}

abbrev no_throws : Throws
no_throws = record { by_callback = false; by_end = false }

waits_one_round :
    with_admission false 2 second_round none no_throws
    ≡ some (record { calls = asked ∷ asked ∷ ran ∷ completed_ticket ∷ []; ended = returned })
unfolding with_admission wait_for_ticket run_admitted ended_with
waits_one_round = refl

abbrev one_turn : CaptureTurn
one_turn = record { group_name = "g"; source_kind = "run"; source_id = "1" }

ledger_remembers_example :
    (has_export "b" one_turn (record_export "t0" "a" one_turn [])
      ≡ (has_export "b" one_turn [] || is_export "b" one_turn (row_of "t0" "a" one_turn)))
    × (record_export "t1" "a" one_turn (record_export "t0" "a" one_turn [])
        ≡ record_export "t0" "a" one_turn [])
ledger_remembers_example = ledger_remembers "t0" "t1" "a" one_turn "b" one_turn []

registry_is_a_map_example :
    (is_some (register_active_run main_key 8 true one_run) ≡ is_none (run_map one_run main_key))
    × (run_map (get_or (register_active_run main_key 8 true one_run) one_run) main_key
        ≡ set_run main_key 8 (run_map one_run) main_key)
    × (run_map (unregister main_key 8 one_run) main_key
        ≡ remove_run main_key 8 (run_map one_run) main_key)
    × (run_map (stop_active_run main_key 1 one_run).1 main_key ≡ run_map one_run main_key)
    × (run_map (stop_settles 8 1 one_run) main_key ≡ run_map one_run main_key)
registry_is_a_map_example = registry_is_a_map main_key 8 1 true one_run main_key

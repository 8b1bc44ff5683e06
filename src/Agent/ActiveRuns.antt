-- ===== src/Agent/ActiveRuns.antt =====
-- The registry of active runs: src/agent/active-run-registry.ts.
use my_discord_agent.Base.{
  ◌==◌, if◌then◌else◌, select, find_row, any_row, update_rows, ℕ, String, Bool, false, ◌&&◌, not,
  Option, none, some, List, [], ◌∷◌, ◌++◌, str_eq,
}

-- `runKey`: the JSON of an array of three texts names the three.
pub record RunKey : Type 0 where
  pub group_name : String
  pub agent_id : String
  pub session_id : String

abbrev pub same_key : RunKey → RunKey → Bool
same_key k l =
    str_eq k.group_name l.group_name
    && str_eq k.agent_id l.agent_id
    && str_eq k.session_id l.session_id

-- An `ActiveRun` under its key. `run` is the identity of the object, and `stop_promise` that of the
-- promise of a stop that has not settled.
pub record ActiveRun : Type 0 where
  pub key : RunKey
  pub run : ℕ
  pub has_stop : Bool
  pub stop_promise : Option ℕ

-- `stop_calls` are the runs whose `stop` was called, the last one first.
pub record ActiveRuns : Type 0 where
  pub runs : List ActiveRun
  pub stop_calls : List ℕ

abbrev pub is_key : RunKey → ActiveRun → Bool
is_key key r = same_key r.key key

-- `none` where it throws.
unfoldable pub register_active_run : RunKey → ℕ → Bool → ActiveRuns → Option ActiveRuns
register_active_run key run has_stop s =
    if any_row (is_key key) s.runs
    then none
    else some (record s {
      runs =
          s.runs ++ record { key = key; run = run; has_stop = has_stop; stop_promise = none } ∷ [];
    })

-- The function that a registration returns: it deletes its own run only.
unfoldable pub unregister : RunKey → ℕ → ActiveRuns → ActiveRuns
unregister key run s = elim (find_row (is_key key) s.runs) [
  | none ↦ s
  | some r ↦
      if r.run == run
      then record s { runs = select (λ (q : ActiveRun). not (is_key key q)) s.runs }
      else s
]

unfoldable pub acquire_active_run : RunKey → ActiveRuns → Option ℕ
acquire_active_run key s = elim (find_row (is_key key) s.runs) [ none ↦ none | some r ↦ some r.run ]

-- `stopActiveRun`, where `promise` is the new promise if `stop` is called: the promise that it awaits.
unfoldable pub stop_active_run : RunKey → ℕ → ActiveRuns → Option ℕ × ActiveRuns
stop_active_run key promise s = elim (find_row (is_key key) s.runs) [
  | none ↦ (none, s)
  | some r ↦ if not r.has_stop then (none, s) else elim r.stop_promise [
    | some p ↦ (some p, s)
    | none ↦ (
      some promise,
      record {
        runs =
            update_rows (is_key key) (λ (q : ActiveRun). record q { stop_promise = some promise })
              s.runs;
        stop_calls = r.run ∷ s.stop_calls;
      },
    )
  ]
]

-- A stop settles.
unfoldable pub stop_settles : ℕ → ℕ → ActiveRuns → ActiveRuns
stop_settles run promise s = record s {
  runs =
      update_rows
        (λ (q : ActiveRun).
          (q.run == run) && elim q.stop_promise [ none ↦ false | some p ↦ p == promise ])
        (λ (q : ActiveRun). record q { stop_promise = none }) s.runs;
}

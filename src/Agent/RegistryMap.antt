-- ===== src/Agent/RegistryMap.antt =====
-- The registry of src/agent/active-run-registry.ts as a map from keys to runs.
use my_discord_agent.Agent.ActiveRuns.{
  same_key, RunKey, ActiveRun, ActiveRuns, is_key, register_active_run, unregister,
  acquire_active_run, stop_active_run, stop_settles,
}
use my_discord_agent.Agent.Registry.{
  same_key-eq, same_key_refl, stop_absent, stop_without, stop_under_way, stopping, stop_new,
}
use my_discord_agent.Base.{
  ◌==◌, if◌then◌else◌, Bool-cases, Option-cases, get_or, is_some, is_none, select, find_row,
  any_row, update_rows, find_row_absent, find_row_present, find_row_added, ℕ, ◌≡◌, refl, sym, ap,
  subst, ◌∙◌, inl, inr, Bool, true, false, ◌&&◌, not, Option, none, some, List, [], ◌∷◌, ◌++◌,
}

abbrev run_of : Option ActiveRun → Option ℕ
run_of none = none
run_of (some r) = some r.run

-- What the registry shows of itself: the run of each key.
abbrev pub run_map : ActiveRuns → RunKey → Option ℕ
run_map s key = acquire_active_run key s

abbrev pub is_run : Option ℕ → ℕ → Bool
is_run none run = false
is_run (some r) run = r == run

-- The abstract operations on such a map: a key that is taken is not set, and a key is removed with its
-- own run only.
abbrev pub set_run : RunKey → ℕ → (RunKey → Option ℕ) → RunKey → Option ℕ
set_run key run m k = if is_none (m key) && same_key key k then some run else m k

abbrev pub remove_run : RunKey → ℕ → (RunKey → Option ℕ) → RunKey → Option ℕ
remove_run key run m k = if is_run (m key) run && same_key key k then none else m k

run_map_lem : (s : ActiveRuns) (k : RunKey) → run_map s k ≡ run_of (find_row (is_key k) s.runs)
unfolding acquire_active_run
run_map_lem s k = elim (Option-cases (find_row (is_key k) s.runs)) [
  | inl nothing ↦ rw (acquire_active_run, nothing) refl
  | inr (r, found) ↦ rw (acquire_active_run, found) refl
]

-- Two keys that differ fit no row together.
other_key :
    (key k : RunKey) (r : ActiveRun)
    → same_key key k ≡ false
    → is_key key r ≡ true
    → is_key k r ≡ false
other_key key k r differs fits = ap (λ z. same_key z k) (same_key-eq r.key key fits) ∙ differs

find_row_past :
    (k : RunKey) (r : ActiveRun) (runs : List ActiveRun)
    → is_key k r ≡ false
    → find_row (is_key k) (runs ++ r ∷ []) ≡ find_row (is_key k) runs
unfolding find_row
find_row_past k r [] miss = rw miss refl
find_row_past k r (x ∷ runs) miss = elim (Bool-cases (is_key k x)) [
  | inl hit ↦ rw hit refl
  | inr other ↦ rw other (find_row_past k r runs miss)
]

find_row_without :
    (key k : RunKey) (runs : List ActiveRun)
    → same_key key k ≡ false
    → find_row (is_key k) (select (λ (q : ActiveRun). not (is_key key q)) runs)
      ≡ find_row (is_key k) runs
unfolding find_row select
find_row_without key k [] differs = refl
find_row_without key k (x ∷ runs) differs = elim (Bool-cases (is_key key x)) [
  | inl gone ↦ rw (gone, other_key key k x differs gone) (find_row_without key k runs differs)
  | inr kept ↦ elim (Bool-cases (is_key k x)) [
    | inl hit ↦ rw kept (rw hit refl)
    | inr miss ↦ rw kept (rw miss (find_row_without key k runs differs))
  ]
]

find_row_removed :
    (key : RunKey) (runs : List ActiveRun)
    → find_row (is_key key) (select (λ (q : ActiveRun). not (is_key key q)) runs) ≡ none
unfolding find_row select
find_row_removed key [] = refl
find_row_removed key (x ∷ runs) = elim (Bool-cases (is_key key x)) [
  | inl gone ↦ rw gone (find_row_removed key runs)
  | inr kept ↦ rw kept (rw kept (find_row_removed key runs))
]

run_of-update_rows :
    (k : RunKey) (p : ActiveRun → Bool) (f : ActiveRun → ActiveRun) (runs : List ActiveRun)
    → ((r : ActiveRun) → is_key k (f r) ≡ is_key k r)
    → ((r : ActiveRun) → (f r).run ≡ r.run)
    → run_of (find_row (is_key k) (update_rows p f runs)) ≡ run_of (find_row (is_key k) runs)
unfolding find_row update_rows
run_of-update_rows k p f [] keys same = refl
run_of-update_rows k p f (x ∷ runs) keys same = elim (Bool-cases (p x)) [
  | inl touched ↦ elim (Bool-cases (is_key k x)) [
    | inl hit ↦ rw touched (rw (keys x ∙ hit, hit) (ap some (same x)))
    | inr miss ↦ rw touched (rw (keys x ∙ miss, miss) (run_of-update_rows k p f runs keys same))
  ]
  | inr kept ↦ elim (Bool-cases (is_key k x)) [
    | inl hit ↦ rw kept (rw hit refl)
    | inr miss ↦ rw kept (rw miss (run_of-update_rows k p f runs keys same))
  ]
]

register_maps :
    (key : RunKey) (run : ℕ) (has_stop : Bool) (s : ActiveRuns) (k : RunKey)
    → run_map (get_or (register_active_run key run has_stop s) s) k ≡ set_run key run (run_map s) k
unfolding register_active_run
register_maps key run has_stop s k = elim (Bool-cases (any_row (is_key key) s.runs)) [
  | inl taken ↦
      let (r, found) = find_row_present (is_key key) s.runs taken in
      let there : run_map s key ≡ some r.run = run_map_lem s key ∙ ap run_of found in
      rw (taken, there) refl
  | inr free ↦
      let absent : run_map s key ≡ none =
        run_map_lem s key ∙ ap run_of (find_row_absent (is_key key) s.runs free) in
      let row : ActiveRun = record {
        key = key;
        run = run;
        has_stop = has_stop;
        stop_promise = none;
      } in
      let after : ActiveRuns = record s { runs = s.runs ++ row ∷ [] } in
      elim (Bool-cases (same_key key k)) [
        | inl same ↦
            let is = same_key-eq key k same in
            rw (free, absent, same)
              (subst (λ z. run_map after z ≡ some run) is
                (run_map_lem after key
                  ∙ ap run_of (find_row_added (is_key key) row s.runs (same_key_refl key) free)))
        | inr other ↦
            rw (free, absent, other)
              (run_map_lem after k
                ∙ ap run_of (find_row_past k row s.runs other)
                ∙ sym (run_map_lem s k))
      ]
]

register_if_free :
    (key : RunKey) (run : ℕ) (has_stop : Bool) (s : ActiveRuns)
    → is_some (register_active_run key run has_stop s) ≡ is_none (run_map s key)
unfolding register_active_run
register_if_free key run has_stop s = elim (Bool-cases (any_row (is_key key) s.runs)) [
  | inl taken ↦
      let (r, found) = find_row_present (is_key key) s.runs taken in
      rw (taken, run_map_lem s key ∙ ap run_of found) refl
  | inr free ↦
      rw (free, run_map_lem s key ∙ ap run_of (find_row_absent (is_key key) s.runs free)) refl
]

unregister_absent :
    (key : RunKey) (run : ℕ) (s : ActiveRuns)
    → find_row (is_key key) s.runs ≡ none
    → unregister key run s ≡ s
unfolding unregister
unregister_absent key run s found = simp (unregister, found)

unregister_other :
    (key : RunKey) (run : ℕ) (s : ActiveRuns) (r : ActiveRun)
    → find_row (is_key key) s.runs ≡ some r
    → (r.run == run) ≡ false
    → unregister key run s ≡ s
unfolding unregister
unregister_other key run s r found other = simp (unregister, found, other)

unregister_own :
    (key : RunKey) (run : ℕ) (s : ActiveRuns) (r : ActiveRun)
    → find_row (is_key key) s.runs ≡ some r
    → (r.run == run) ≡ true
    → unregister key run s
      ≡ record s { runs = select (λ (q : ActiveRun). not (is_key key q)) s.runs }
unfolding unregister
unregister_own key run s r found own = simp (unregister, found, own)

unregister_maps :
    (key : RunKey) (run : ℕ) (s : ActiveRuns) (k : RunKey)
    → run_map (unregister key run s) k ≡ remove_run key run (run_map s) k
unregister_maps key run s k = elim (Option-cases (find_row (is_key key) s.runs)) [
  | inl nothing ↦
      let absent : run_map s key ≡ none = run_map_lem s key ∙ ap run_of nothing in
      rw (unregister_absent key run s nothing, absent) refl
  | inr (r, found) ↦
      let there : run_map s key ≡ some r.run = run_map_lem s key ∙ ap run_of found in
      elim (Bool-cases (r.run == run)) [
        | inr other ↦ rw (unregister_other key run s r found other, there, other) refl
        | inl own ↦
            let after : ActiveRuns = record s {
              runs = select (λ (q : ActiveRun). not (is_key key q)) s.runs;
            } in
            elim (Bool-cases (same_key key k)) [
              | inl same ↦
                  rw (unregister_own key run s r found own, there, own, same)
                    (subst (λ z. run_map after z ≡ none) (same_key-eq key k same)
                      (run_map_lem after key ∙ ap run_of (find_row_removed key s.runs)))
              | inr differs ↦
                  rw (unregister_own key run s r found own, there, own, differs)
                    (run_map_lem after k
                      ∙ ap run_of (find_row_without key k s.runs differs)
                      ∙ sym (run_map_lem s k))
            ]
      ]
]

stop_maps :
    (key : RunKey) (promise : ℕ) (s : ActiveRuns) (k : RunKey)
    → run_map (stop_active_run key promise s).1 k ≡ run_map s k
stop_maps key promise s k = elim (Option-cases (find_row (is_key key) s.runs)) [
  | inl nothing ↦ ap (λ z. run_map z.1 k) (stop_absent key promise s nothing)
  | inr (r, found) ↦ elim (Bool-cases r.has_stop) [
    | inr without ↦ ap (λ z. run_map z.1 k) (stop_without key promise s r found without)
    | inl has ↦ elim (Option-cases r.stop_promise) [
      | inr (p, under) ↦ ap (λ z. run_map z.1 k) (stop_under_way key promise p s r found has under)
      | inl idle ↦
          ap (λ z. run_map z.1 k) (stop_new key promise s r found has idle)
          ∙ run_map_lem (stopping key promise r s) k
          ∙ run_of-update_rows k (is_key key)
              (λ (q : ActiveRun). record q { stop_promise = some promise }) s.runs (λ q. refl)
              (λ q. refl)
          ∙ sym (run_map_lem s k)
    ]
  ]
]

stop_settles_maps :
    (run promise : ℕ) (s : ActiveRuns) (k : RunKey)
    → run_map (stop_settles run promise s) k ≡ run_map s k
unfolding stop_settles
stop_settles_maps run promise s k =
    run_map_lem (stop_settles run promise s) k
    ∙ run_of-update_rows k
        (λ (q : ActiveRun).
          (q.run == run) && elim q.stop_promise [ none ↦ false | some p ↦ p == promise ])
        (λ (q : ActiveRun). record q { stop_promise = none }) s.runs (λ q. refl) (λ q. refl)
    ∙ sym (run_map_lem s k)

-- The registry implements a map from keys to runs: a registration sets a key that is free and is
-- refused otherwise, its function removes the key if it still has its own run, and a stop and its end
-- change nothing of the map.
pub registry_is_a_map :
    (key : RunKey) (run promise : ℕ) (has_stop : Bool) (s : ActiveRuns) (k : RunKey)
    → (is_some (register_active_run key run has_stop s) ≡ is_none (run_map s key))
      × (run_map (get_or (register_active_run key run has_stop s) s) k
          ≡ set_run key run (run_map s) k)
      × (run_map (unregister key run s) k ≡ remove_run key run (run_map s) k)
      × (run_map (stop_active_run key promise s).1 k ≡ run_map s k)
      × (run_map (stop_settles run promise s) k ≡ run_map s k)
registry_is_a_map key run promise has_stop s k = (
  register_if_free key run has_stop s,
  register_maps key run has_stop s k,
  unregister_maps key run s k,
  stop_maps key promise s k,
  stop_settles_maps run promise s k,
)

-- ===== src/Agent/Registry.antt =====
-- What the registry of src/agent/active-run-registry.ts promises.
use mathlib.Core.Option
use my_discord_agent.Agent.ActiveRuns.{
  same_key, RunKey, ActiveRun, ActiveRuns, is_key, register_active_run, unregister,
  acquire_active_run, stop_active_run,
}
use my_discord_agent.Base.{
  ◌==◌, Bool-cases, Option-cases, select, find_row, any_row, update_rows, find_row-update_rows,
  find_row_added, ℕ, ◌≡◌, refl, sym, ap, subst, ◌∙◌, inl, inr, Bool, true, false, not, Option, none,
  some, List, [], ◌∷◌, ◌++◌, arith, str_eq, eq_iff,
}

pub same_key-eq : (k l : RunKey) → same_key k l ≡ true → k ≡ l
same_key-eq k l h =
    let g : str_eq k.group_name l.group_name ≡ true = ground arith in
    let a : str_eq k.agent_id l.agent_id ≡ true = ground arith in
    let s : str_eq k.session_id l.session_id ≡ true = ground arith in
    let ge = (eq_iff k.group_name l.group_name).0 g in
    let ae = (eq_iff k.agent_id l.agent_id).0 a in
    let se = (eq_iff k.session_id l.session_id).0 s in
    subst (λ x. k ≡ record { group_name = x; agent_id = l.agent_id; session_id = l.session_id }) ge
      (subst
        (λ x. k ≡ record { group_name = k.group_name; agent_id = x; session_id = l.session_id }) ae
        (subst
          (λ x. k ≡ record { group_name = k.group_name; agent_id = k.agent_id; session_id = x }) se
          refl))

pub same_key_refl : (k : RunKey) → same_key k k ≡ true
same_key_refl k =
    let g = (eq_iff k.group_name k.group_name).1 refl in
    let a = (eq_iff k.agent_id k.agent_id).1 refl in
    let s = (eq_iff k.session_id k.session_id).1 refl in rw (g, a, s) refl

select_fresh :
    {A : Type 0} (p : A → Bool) (x : A) (xs : List A)
    → any_row p xs ≡ false
    → p x ≡ true
    → select (λ (q : A). not (p q)) (xs ++ x ∷ []) ≡ xs
unfolding select any_row
select_fresh p x [] none_is hit = rw hit refl
select_fresh p x (y ∷ xs) none_is hit =
    let miss : p y ≡ false = ground arith in
    rw miss (ap (◌∷◌ y) (select_fresh p x xs (ground (arith, miss)) hit))

acquire_found :
    (key : RunKey) (s : ActiveRuns) (r : ActiveRun)
    → find_row (is_key key) s.runs ≡ some r
    → acquire_active_run key s ≡ some r.run
unfolding acquire_active_run
acquire_found key s r found = simp (acquire_active_run, found)

unregister_found :
    (key : RunKey) (run : ℕ) (s : ActiveRuns) (r : ActiveRun)
    → find_row (is_key key) (s.runs ++ r ∷ []) ≡ some r
    → r.run ≡ run
    → select (λ (q : ActiveRun). not (is_key key q)) (s.runs ++ r ∷ []) ≡ s.runs
    → unregister key run (record s { runs = s.runs ++ r ∷ [] }) ≡ s
unfolding unregister
unregister_found key run s r found own rest =
    let mine : (r.run == run) ≡ true = ground arith in simp (unregister, found, mine, rest)

-- A run that was registered is the one that is acquired, and the function that the registration
-- returned takes the registry back to what it was.
pub register_round_trip :
    (key : RunKey) (run : ℕ) (has_stop : Bool) (s : ActiveRuns) {t : ActiveRuns}
    → register_active_run key run has_stop s ≡ some t
    → (acquire_active_run key t ≡ some run) × (unregister key run t ≡ s)
unfolding register_active_run
register_round_trip key run has_stop s {t} e = elim (Bool-cases (any_row (is_key key) s.runs)) [
  | inl taken ↦ absurd (let nothing : none ≡ some t = rw taken at e in ground (arith, nothing))
  | inr free ↦
      let row : ActiveRun = record {
        key = key;
        run = run;
        has_stop = has_stop;
        stop_promise = none;
      } in
      let is : record s { runs = s.runs ++ row ∷ [] } ≡ t =
        Option.some-injective _ _ (rw free at e) in
      let found = find_row_added (is_key key) row s.runs (same_key_refl key) free in
      subst (λ z. (acquire_active_run key z ≡ some run) × (unregister key run z ≡ s)) is
        (
          acquire_found key _ row found,
          unregister_found key run s row found refl
              (select_fresh (is_key key) row s.runs free (same_key_refl key)),
        )
]

pub stop_absent :
    (key : RunKey) (promise : ℕ) (s : ActiveRuns)
    → find_row (is_key key) s.runs ≡ none
    → stop_active_run key promise s ≡ (none, s)
unfolding stop_active_run
stop_absent key promise s found = simp (stop_active_run, found)

pub stop_without :
    (key : RunKey) (promise : ℕ) (s : ActiveRuns) (r : ActiveRun)
    → find_row (is_key key) s.runs ≡ some r
    → r.has_stop ≡ false
    → stop_active_run key promise s ≡ (none, s)
unfolding stop_active_run
stop_without key promise s r found has = simp (stop_active_run, found, has)

pub stop_under_way :
    (key : RunKey) (promise p : ℕ) (s : ActiveRuns) (r : ActiveRun)
    → find_row (is_key key) s.runs ≡ some r
    → r.has_stop ≡ true
    → r.stop_promise ≡ some p
    → stop_active_run key promise s ≡ (some p, s)
unfolding stop_active_run
stop_under_way key promise p s r found has under = simp (stop_active_run, found, has, under)

-- The registry after a stop is called.
abbrev pub stopping : RunKey → ℕ → ActiveRun → ActiveRuns → ActiveRuns
stopping key promise r s = record {
  runs =
      update_rows (is_key key) (λ (q : ActiveRun). record q { stop_promise = some promise }) s.runs;
  stop_calls = r.run ∷ s.stop_calls;
}

pub stop_new :
    (key : RunKey) (promise : ℕ) (s : ActiveRuns) (r : ActiveRun)
    → find_row (is_key key) s.runs ≡ some r
    → r.has_stop ≡ true
    → r.stop_promise ≡ none
    → stop_active_run key promise s ≡ (some promise, stopping key promise r s)
unfolding stop_active_run
stop_new key promise s r found has idle = simp (stop_active_run, found, has, idle)

-- A stop that is asked for while another is on its way joins it: it awaits the same promise, and
-- `stop` is not called again.
pub stop_joins :
    (key : RunKey) (promise again q : ℕ) (s : ActiveRuns) {t : ActiveRuns}
    → stop_active_run key promise s ≡ (some q, t)
    → stop_active_run key again t ≡ (some q, t)
stop_joins key promise again q s {t} e = elim (Option-cases (find_row (is_key key) s.runs)) [
  | inl nothing ↦
      absurd (let is = sym (stop_absent key promise s nothing) ∙ e in ground (arith, is))
  | inr (r, found) ↦ elim (Bool-cases r.has_stop) [
    | inr without ↦
        absurd (let is = sym (stop_without key promise s r found without) ∙ e in ground (arith, is))
    | inl has ↦ elim (Option-cases r.stop_promise) [
      | inr (p, under) ↦
          subst Joins (sym (stop_under_way key promise p s r found has under) ∙ e)
            (stop_under_way key again p s r found has under)
      | inl idle ↦ subst Joins (sym (stop_new key promise s r found has idle) ∙ e) (
          stop_under_way key again promise (stopping key promise r s)
            (record r { stop_promise = some promise })
            (find_row-update_rows (is_key key)
              (λ (q : ActiveRun). record q { stop_promise = some promise }) s.runs (λ y. refl)
              found)
            has refl)
    ]
  ]
]
  where
    Joins : Option ℕ × ActiveRuns → Type 0
    Joins out = stop_active_run key again out.1 ≡ out

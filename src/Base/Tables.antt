-- ===== src/Base/Tables.antt =====
-- SQL statements over one table: a table is the list of its rows in rowid order.
use Prim.Native.Nat.{ℕ, suc}
use mathlib.Core.Path.{◌≡◌, refl, sym, ap, ◌∙◌}
use mathlib.Core.Logic.{inl, inr, ◌≢◌}
use mathlib.Core.Bool.{Bool, true, false, ◌||◌}
use mathlib.Core.Option.{Option, none, some}
use mathlib.Core.List.{List, [], ◌∷◌, ◌++◌, map, Memᴰ}
use mathlib.Core.List.Memᴰ
use native.Mathlib.Omega.{arith}
use my_discord_agent.Base.Lists.{length}
use my_discord_agent.Base.Tests.{if◌then◌else◌, Bool-cases}

module _ {ℓ} {A : Type ℓ} where
  -- SELECT * … WHERE p
  unfoldable pub select : (A → Bool) → List A → List A
  select p [] = []
  select p (x ∷ xs) = let rest = select p xs in if p x then x ∷ rest else rest

  -- The first row that a SELECT finds.
  unfoldable pub find_row : (A → Bool) → List A → Option A
  find_row p [] = none
  find_row p (x ∷ xs) = if p x then some x else find_row p xs

  -- EXISTS (SELECT 1 … WHERE p)
  unfoldable pub any_row : (A → Bool) → List A → Bool
  any_row p [] = false
  any_row p (x ∷ xs) = p x || any_row p xs

  -- UPDATE … SET f WHERE p
  unfoldable pub update_rows : (A → Bool) → (A → A) → List A → List A
  update_rows p f [] = []
  update_rows p f (x ∷ xs) = (if p x then f x else x) ∷ update_rows p f xs

  -- The number of rows that such an UPDATE changes.
  unfoldable pub changes : (A → Bool) → List A → ℕ
  changes p [] = 0
  changes p (x ∷ xs) = let rest = changes p xs in if p x then suc rest else rest

  pub Memᴰ-update_rows :
      (p : A → Bool) (f : A → A) (xs : List A) {y : A}
      → Memᴰ y (update_rows p f xs)
      → (x : A) × Memᴰ x xs × (y ≡ (if p x then f x else x))
  unfolding update_rows
  Memᴰ-update_rows p f [] m = absurd (Memᴰ.not-nil m)
  Memᴰ-update_rows p f (x ∷ xs) (Memᴰ.head e) = (x, Memᴰ.head refl, e)
  Memᴰ-update_rows p f (x ∷ xs) (Memᴰ.tail m) =
      let (z, at, e) = Memᴰ-update_rows p f xs m in (z, Memᴰ.tail at, e)

  pub update_rows-Memᴰ :
      (p : A → Bool) (f : A → A) (xs : List A) {x : A}
      → Memᴰ x xs
      → Memᴰ (if p x then f x else x) (update_rows p f xs)
  unfolding update_rows
  update_rows-Memᴰ p f [] m = absurd (Memᴰ.not-nil m)
  update_rows-Memᴰ p f (y ∷ xs) (Memᴰ.head e) = Memᴰ.head (ap (λ z. if p z then f z else z) e)
  update_rows-Memᴰ p f (y ∷ xs) (Memᴰ.tail m) = Memᴰ.tail (update_rows-Memᴰ p f xs m)

  pub Memᴰ-select :
      (p : A → Bool) (xs : List A) {x : A} → Memᴰ x (select p xs) → Memᴰ x xs × (p x ≡ true)
  unfolding select
  Memᴰ-select p [] m = absurd (Memᴰ.not-nil m)
  Memᴰ-select p (y ∷ xs) {x} m = elim (Bool-cases (p y)) [
    | inl hit ↦ elim (Memᴰ.cases_cons (rw hit at m)) [
      | inl e ↦ (Memᴰ.head e, ap p e ∙ hit)
      | inr rest ↦ let (at, holds) = Memᴰ-select p xs rest in (Memᴰ.tail at, holds)
    ]
    | inr miss ↦ let (at, holds) = Memᴰ-select p xs (rw miss at m) in (Memᴰ.tail at, holds)
  ]

  pub select-Memᴰ :
      (p : A → Bool) (xs : List A) {x : A} → Memᴰ x xs → p x ≡ true → Memᴰ x (select p xs)
  unfolding select
  select-Memᴰ p [] m h = absurd (Memᴰ.not-nil m)
  select-Memᴰ p (y ∷ xs) (Memᴰ.head e) h = let hit = ap p (sym e) ∙ h in rw hit (Memᴰ.head e)
  select-Memᴰ p (y ∷ xs) {x} (Memᴰ.tail m) h =
      let rest : Memᴰ x (select p xs) = select-Memᴰ p xs m h in
      elim (Bool-cases (p y)) [ inl hit ↦ rw hit (Memᴰ.tail rest) | inr miss ↦ rw miss rest ]

  pub find_row-Memᴰ :
      (p : A → Bool) (xs : List A) {x : A} → find_row p xs ≡ some x → Memᴰ x xs × (p x ≡ true)
  unfolding find_row
  find_row-Memᴰ p [] e = cc
  find_row-Memᴰ p (y ∷ xs) {x} e = elim (Bool-cases (p y)) [
    | inl hit ↦ let same : x ≡ y = ground arith in (Memᴰ.head same, ap p same ∙ hit)
    | inr miss ↦ let (at, holds) = find_row-Memᴰ p xs (ground arith) in (Memᴰ.tail at, holds)
  ]

  pub find_row-none :
      (p : A → Bool) (xs : List A) {x : A} → find_row p xs ≡ none → Memᴰ x xs → p x ≡ false
  unfolding find_row
  find_row-none p [] e m = absurd (Memᴰ.not-nil m)
  find_row-none p (y ∷ xs) e (Memᴰ.head h) = rw h (ground arith)
  find_row-none p (y ∷ xs) e (Memᴰ.tail m) = find_row-none p xs (ground arith) m

  pub any_row-false :
      (p : A → Bool) (xs : List A) {x : A} → any_row p xs ≡ false → Memᴰ x xs → p x ≡ false
  unfolding any_row
  any_row-false p [] e m = absurd (Memᴰ.not-nil m)
  any_row-false p (y ∷ xs) e (Memᴰ.head h) = rw h (ground arith)
  any_row-false p (y ∷ xs) e (Memᴰ.tail m) = any_row-false p xs (ground arith) m

  pub any_row_none :
      (p : A → Bool) (xs : List A) → ((x : A) → Memᴰ x xs → p x ≡ false) → any_row p xs ≡ false
  unfolding any_row
  any_row_none p [] none_is = refl
  any_row_none p (x ∷ xs) none_is =
      rw (none_is x (Memᴰ.head refl)) (any_row_none p xs (λ y m. none_is y (Memᴰ.tail m)))

  pub any_row-true :
      (p : A → Bool) (xs : List A) → any_row p xs ≡ true → (x : A) × Memᴰ x xs × (p x ≡ true)
  unfolding any_row
  any_row-true p [] e = cc
  any_row-true p (y ∷ xs) e = elim (Bool-cases (p y)) [
    | inl hit ↦ (y, Memᴰ.head refl, hit)
    | inr miss ↦ let (x, at, holds) = any_row-true p xs (ground arith) in (x, Memᴰ.tail at, holds)
  ]

  pub update_rows_id :
      (p : A → Bool) (f : A → A) (xs : List A) → changes p xs ≡ 0 → update_rows p f xs ≡ xs
  unfolding changes update_rows
  update_rows_id p f [] e = refl
  update_rows_id p f (x ∷ xs) e = elim (Bool-cases (p x)) [
    | inl hit ↦ absurd (ground arith)
    | inr miss ↦ rw miss (ap (◌∷◌ x) (update_rows_id p f xs (ground arith)))
  ]

  pub changes_none : (p : A → Bool) (xs : List A) → any_row p xs ≡ false → changes p xs ≡ 0
  unfolding changes any_row
  changes_none p [] e = refl
  changes_none p (x ∷ xs) e =
      let rest : any_row p xs ≡ false → changes p xs ≡ 0 = changes_none p xs in
      elim (Bool-cases (p x)) [
        | inl hit ↦ absurd (ground (arith, hit))
        | inr miss ↦ rw miss (rest (ground (arith, miss)))
      ]

  pub find_row_absent : (p : A → Bool) (xs : List A) → any_row p xs ≡ false → find_row p xs ≡ none
  unfolding find_row any_row
  find_row_absent p [] e = refl
  find_row_absent p (x ∷ xs) e = elim (Bool-cases (p x)) [
    | inl hit ↦ absurd (ground (arith, hit))
    | inr miss ↦ rw miss (find_row_absent p xs (ground (arith, miss)))
  ]

  pub length-update_rows :
      (p : A → Bool) (f : A → A) (xs : List A) → length (update_rows p f xs) ≡ length xs
  unfolding update_rows
  length-update_rows p f [] = refl
  length-update_rows p f (x ∷ xs) = ap suc (length-update_rows p f xs)

  pub any_row-append :
      (p : A → Bool) (xs ys : List A) → any_row p (xs ++ ys) ≡ (any_row p xs || any_row p ys)
  unfolding any_row
  any_row-append p [] ys = refl
  any_row-append p (x ∷ xs) ys = elim (Bool-cases (p x)) [
    | inl hit ↦ rw hit refl
    | inr miss ↦ rw miss (any_row-append p xs ys)
  ]

  pub any_row-update_rows :
      (p q : A → Bool) (f : A → A) (xs : List A)
      → ((x : A) → p (f x) ≡ p x)
      → any_row p (update_rows q f xs) ≡ any_row p xs
  unfolding any_row update_rows
  any_row-update_rows p q f [] keeps = refl
  any_row-update_rows p q f (x ∷ xs) keeps = elim (Bool-cases (q x)) [
    | inl hit ↦ rw (hit, keeps x, any_row-update_rows p q f xs keeps) refl
    | inr miss ↦ rw (miss, any_row-update_rows p q f xs keeps) refl
  ]

  pub find_row-update_rows :
      (p : A → Bool) (f : A → A) (xs : List A) {x : A}
      → ((y : A) → p (f y) ≡ p y)
      → find_row p xs ≡ some x
      → find_row p (update_rows p f xs) ≡ some (f x)
  unfolding find_row update_rows
  find_row-update_rows p f [] keeps found = cc
  find_row-update_rows p f (y ∷ xs) {x} keeps found = elim (Bool-cases (p y)) [
    | inl hit ↦
        let same : some y ≡ some x = rw hit at found in
        rw hit (
          rw (keeps y ∙ hit)
            (ap (λ o. elim o as (λ _. Option A) [ none ↦ none | some z ↦ some (f z) ]) same))
    | inr miss ↦ rw miss (rw miss (find_row-update_rows p f xs keeps (rw miss at found)))
  ]

  pub find_row_present :
      (p : A → Bool) (xs : List A) → any_row p xs ≡ true → (x : A) × (find_row p xs ≡ some x)
  unfolding find_row any_row
  find_row_present p [] h = cc
  find_row_present p (y ∷ xs) h = elim (Bool-cases (p y)) [
    | inl hit ↦ (y, rw hit refl)
    | inr miss ↦ let (x, found) = find_row_present p xs (ground (arith, miss)) in (x, rw miss found)
  ]

  pub find_row_added :
      (p : A → Bool) (x : A) (xs : List A)
      → p x ≡ true
      → any_row p xs ≡ false
      → find_row p (xs ++ x ∷ []) ≡ some x
  unfolding find_row any_row
  find_row_added p x [] hit h = rw hit refl
  find_row_added p x (y ∷ xs) hit h = elim (Bool-cases (p y)) [
    | inl mine ↦ absurd (ground (arith, mine))
    | inr miss ↦ rw miss (find_row_added p x xs hit (ground (arith, miss)))
  ]

  -- Keys that no two rows share: PRIMARY KEY and UNIQUE.
  unfoldable pub Unique : List A → Type ℓ
  Unique [] = Unit
  Unique (x ∷ xs) = ((y : A) → Memᴰ y xs → x ≢ y) × Unique xs

  pub Unique-append :
      (xs : List A) (x : A) → Unique xs → ((y : A) → Memᴰ y xs → y ≢ x) → Unique (xs ++ x ∷ [])
  unfolding Unique
  Unique-append [] x u fresh = (λ y m. absurd (Memᴰ.not-nil m), tt)
  Unique-append (z ∷ xs) x u fresh = (
    λ y m. elim (Memᴰ.append_cases xs m) [
      | inl old ↦ u.0 y old
      | inr new ↦ λ e. fresh z (Memᴰ.head refl) (e ∙ Memᴰ.eq_of_singleton new)
    ],
    Unique-append xs x u.1 (λ y m. fresh y (Memᴰ.tail m)),
  )

module _ {ℓ κ} {A : Type ℓ} {B : Type κ} (key : A → B) where
  pub map-update_rows :
      (p : A → Bool) (f : A → A) (xs : List A)
      → ((x : A) → key (f x) ≡ key x)
      → map key (update_rows p f xs) ≡ map key xs
  unfolding update_rows
  map-update_rows p f [] keeps = refl
  map-update_rows p f (x ∷ xs) keeps = ground (arith, keeps x, map-update_rows p f xs keeps)

  -- A key names one row.
  pub same_row :
      (xs : List A) {x y : A} → Unique (map key xs) → Memᴰ x xs → Memᴰ y xs → key x ≡ key y → x ≡ y
  unfolding Unique
  same_row [] u m n e = absurd (Memᴰ.not-nil m)
  same_row (z ∷ xs) u (Memᴰ.head h) (Memᴰ.head k) e = h ∙ sym k
  same_row (z ∷ xs) {x} {y} u (Memᴰ.head h) (Memᴰ.tail n) e =
      absurd (u.0 (key y) (Memᴰ.map key n) (ap key (sym h) ∙ e))
  same_row (z ∷ xs) {x} {y} u (Memᴰ.tail m) (Memᴰ.head k) e =
      absurd (u.0 (key x) (Memᴰ.map key m) (ap key (sym k) ∙ sym e))
  same_row (z ∷ xs) u (Memᴰ.tail m) (Memᴰ.tail n) e = same_row xs u.1 m n e

-- A key that a test pins down: the test finds one row.
module _ {ℓ κ} {A : Type ℓ} {B : Type κ} (key : A → B) (p : A → Bool) (x : A) (hit : p x ≡ true)
    (only : (y : A) → p y ≡ true → key y ≡ key x) where
  pub changes-one : (xs : List A) → Unique (map key xs) → Memᴰ x xs → changes p xs ≡ 1
  unfolding changes Unique
  changes-one [] u m = absurd (Memᴰ.not-nil m)
  changes-one (y ∷ ys) u m = elim (Bool-cases (p y)) [
    | inl mine ↦
        let none_after : any_row p ys ≡ false = any_row_none p ys (λ z mz. elim (Bool-cases (p z)) [
          | inl again ↦ absurd (u.0 (key z) (Memᴰ.map key mz) (only y mine ∙ sym (only z again)))
          | inr clear ↦ clear
        ]) in
        rw (mine, changes_none p ys none_after) refl
    | inr other ↦ elim (Memᴰ.cases_cons m) [
      | inl e ↦ absurd (ground (arith, other, hit, ap p e))
      | inr rest ↦ let one : changes p ys ≡ 1 = changes-one ys u.1 rest in rw (other, one) refl
    ]
  ]

  pub find_row-only : (xs : List A) → Unique (map key xs) → Memᴰ x xs → find_row p xs ≡ some x
  unfolding find_row Unique
  find_row-only [] u m = absurd (Memᴰ.not-nil m)
  find_row-only (y ∷ ys) u m = elim (Bool-cases (p y)) [
    | inl mine ↦ rw mine (ap some (same_row key (y ∷ ys) u (Memᴰ.head refl) m (only y mine)))
    | inr other ↦ elim (Memᴰ.cases_cons m) [
      | inl e ↦ absurd (ground (arith, other, hit, ap p e))
      | inr rest ↦ rw other (find_row-only ys u.1 rest)
    ]
  ]

-- ===== src/Queue/Keeps.antt =====
-- Rules for showing that an action keeps a property of the database, whether it returns or throws.
use my_discord_agent.Base.{if◌then◌else◌, Bool, true, false, Option, none, some}
use my_discord_agent.Queue.Store.{
  Db, Error, Outcome, done, threw, M, ◌>>=◌, ◌>>◌, pure, throw, require, query, or_throw, after,
  transaction, unless_exists,
}

module _ {κ} (I : Db → Type κ) where
  pub record Keeps {A : Type 0} (m : M A) : Type κ where
    pub keeps : (db : Db) → I db → I (after (m db))

  -- What follows an action, once what the action itself did is known.
  pub Keeps-outcome :
      {A B : Type 0} (r : Outcome A) (f : A → M B)
      → ((a : A) → Keeps (f a))
      → I (after r)
      → I (after (elim r as (λ _. Outcome B) [ done a db ↦ f a db | threw e db ↦ threw e db ]))
  Keeps-outcome (done a db) f next h = (next a).keeps db h
  Keeps-outcome (threw e db) f next h = h

  pub Keeps-bind :
      {A B : Type 0} {m : M A} {f : A → M B} → Keeps m → ((a : A) → Keeps (f a)) → Keeps (m >>= f)
  unfolding ◌>>=◌
  Keeps-bind {m = m} {f = f} first next = record {
    keeps = λ db h. Keeps-outcome (m db) f next (first.keeps db h);
  }

  pub Keeps-then : {B : Type 0} {m : M (Unit {0})} {k : M B} → Keeps m → Keeps k → Keeps (m >> k)
  unfolding ◌>>◌
  Keeps-then {m = m} {k = k} first next = record {
    keeps = λ db h. Keeps-outcome (m db) (λ _. k) (λ _. next) (first.keeps db h);
  }

  pub Keeps-pure : {A : Type 0} (a : A) → Keeps (pure a)
  unfolding pure
  Keeps-pure a = record { keeps = λ db h. h }

  pub Keeps-throw : {A : Type 0} (e : Error) → Keeps (throw {A = A} e)
  unfolding throw
  Keeps-throw e = record { keeps = λ db h. h }

  pub Keeps-query : {A : Type 0} (f : Db → A) → Keeps (query f)
  unfolding query
  Keeps-query f = record { keeps = λ db h. h }

  pub Keeps-require : (b : Bool) (e : Error) → Keeps (require b e)
  unfolding require
  Keeps-require true e = record { keeps = λ db h. h }
  Keeps-require false e = record { keeps = λ db h. h }

  pub Keeps-or_throw : {A : Type 0} (o : Option A) (e : Error) → Keeps (or_throw o e)
  unfolding or_throw
  Keeps-or_throw none e = record { keeps = λ db h. h }
  Keeps-or_throw (some a) e = record { keeps = λ db h. h }

  pub Keeps-if :
      {A : Type 0} (b : Bool) {m n : M A} → Keeps m → Keeps n → Keeps (if b then m else n)
  Keeps-if true hm hn = hm
  Keeps-if false hm hn = hn

  pub Keeps-undone :
      {A : Type 0} (r : Outcome A) (db : Db)
      → I db
      → I (after r)
      → I (
          after
            (elim r as (λ _. Outcome A) [ done a next ↦ done a next | threw e next ↦ threw e db ]))
  Keeps-undone (done a next) db h h' = h'
  Keeps-undone (threw e next) db h h' = h

  -- A body that throws is undone, so only what it returns counts.
  pub Keeps-transaction : {A : Type 0} {m : M A} → Keeps m → Keeps (transaction m)
  unfolding transaction
  Keeps-transaction {m = m} body = record {
    keeps = λ db h. Keeps-undone (m db) db h (body.keeps db h);
  }

  -- A statement that a constraint refuses changes nothing.
  pub unless_exists_keeps :
      (b : Bool) (next db : Db) → I db → I next → I (after (unless_exists b next db))
  unfolding unless_exists
  unless_exists_keeps true next db h h' = h
  unless_exists_keeps false next db h h' = h'

-- ===== src/Queue/Runs.antt =====
-- How a sequence of actions runs, once it is known what its first action does.
use my_discord_agent.Base.{
  update_rows, changes, ◌≡◌, refl, ap, Bool, true, false, Option, none, some,
}
use my_discord_agent.Queue.Rows.{JobRow, DeliveryRow}
use my_discord_agent.Queue.Store.{
  Db, Error, Outcome, done, threw, M, ◌>>=◌, ◌>>◌, pure, require, query, or_throw, transaction,
  update_jobs, update_deliveries,
}

module _ {A B : Type 0} (m : M A) (f : A → M B) (db : Db) where
  pub run_done : {a : A} {next : Db} → m db ≡ done a next → (m >>= f) db ≡ f a next
  unfolding ◌>>=◌
  run_done {a} {next} e =
      ap (λ r. elim r as (λ _. Outcome B) [ done b d ↦ f b d | threw w d ↦ threw w d ]) e

  pub run_threw : {e : Error} {next : Db} → m db ≡ threw e next → (m >>= f) db ≡ threw e next
  unfolding ◌>>=◌
  run_threw {e} {next} h =
      ap (λ r. elim r as (λ _. Outcome B) [ done b d ↦ f b d | threw w d ↦ threw w d ]) h

module _ {B : Type 0} (m : M (Unit {0})) (k : M B) (db : Db) where
  pub then_done : {next : Db} → m db ≡ done tt next → (m >> k) db ≡ k next
  unfolding ◌>>◌
  then_done {next} e =
      ap (λ r. elim r as (λ _. Outcome B) [ done b d ↦ k d | threw w d ↦ threw w d ]) e

  pub then_threw : {e : Error} {next : Db} → m db ≡ threw e next → (m >> k) db ≡ threw e next
  unfolding ◌>>◌
  then_threw {e} {next} h =
      ap (λ r. elim r as (λ _. Outcome B) [ done b d ↦ k d | threw w d ↦ threw w d ]) h

module _ {A : Type 0} (m : M A) (db : Db) where
  pub commits : {a : A} {next : Db} → m db ≡ done a next → transaction m db ≡ done a next
  unfolding transaction
  commits {a} {next} e =
      ap (λ r. elim r as (λ _. Outcome A) [ done b d ↦ done b d | threw w d ↦ threw w db ]) e

  -- A transaction that throws is rolled back.
  pub rolls_back : {e : Error} {next : Db} → m db ≡ threw e next → transaction m db ≡ threw e db
  unfolding transaction
  rolls_back {e} {next} h =
      ap (λ r. elim r as (λ _. Outcome A) [ done b d ↦ done b d | threw w d ↦ threw w db ]) h

pub query_run :
    {A B : Type 0} (g : Db → A) (f : A → M B) (db : Db) → (query g >>= f) db ≡ f (g db) db
unfolding ◌>>=◌ query
query_run g f db = refl

pub or_throw-none :
    {A : Type 0} (o : Option A) (e : Error) (db : Db) → o ≡ none → or_throw o e db ≡ threw e db
unfolding or_throw
or_throw-none o e db h = ap (λ x. or_throw x e db) h

pub or_throw-some :
    {A : Type 0} (o : Option A) (e : Error) (a : A) (db : Db)
    → o ≡ some a
    → or_throw o e db ≡ done a db
unfolding or_throw
or_throw-some o e a db h = ap (λ x. or_throw x e db) h

pub require-true : (b : Bool) (e : Error) (db : Db) → b ≡ true → require b e db ≡ done tt db
unfolding require
require-true b e db h = ap (λ x. require x e db) h

pub require-false : (b : Bool) (e : Error) (db : Db) → b ≡ false → require b e db ≡ threw e db
unfolding require
require-false b e db h = ap (λ x. require x e db) h

pub update_jobs_run :
    (p : JobRow → Bool) (f : JobRow → JobRow) (db : Db)
    → update_jobs p f db ≡ done (changes p db.jobs) (record db { jobs = update_rows p f db.jobs })
unfolding update_jobs
update_jobs_run p f db = refl

pub update_deliveries_run :
    (p : DeliveryRow → Bool) (f : DeliveryRow → DeliveryRow) (db : Db)
    → update_deliveries p f db
      ≡ done (changes p db.deliveries) (record db { deliveries = update_rows p f db.deliveries })
unfolding update_deliveries
update_deliveries_run p f db = refl

pub pure_run : {A : Type 0} (a : A) (db : Db) → pure a db ≡ done a db
unfolding pure
pure_run a db = refl

-- ===== src/Pool.antt =====
-- app/services/db/core.py: the connection pool. `open_pool` is the answer of `pool.open()`, and
-- `look` that of the query for the tables, at each try.
mod Tests
pub mod Waiting
use revix.Prelude.{
  ℕ, zero, suc, ◌+◌, Text, codes, text_eq, Bool, true, false, Option, none, some, List, [], ◌∷◌,
  ◌++◌, any, if◌then◌else◌,
}
use revix.Effects.{Exception, exception, runtime_error, Result, ok, raised}
use revix.Config.{Settings, db_pool_max_size}

-- the sizes that `AsyncConnectionPool` is given
pub record Pool : Type 0 where
  pub min_size : ℕ
  pub max_size : ℕ

abbrev pub pool_of : Settings → Pool
pool_of s = record { min_size = s.db_pool_min_size; max_size = db_pool_max_size s }

-- The attribute is set before the pool is opened, and stays set where that fails.
unfoldable pub connect :
    Settings → (open_pool : Result (Unit {0})) → Option Pool → Result (Unit {0}) × Option Pool
unfolding db_pool_max_size
connect s opened (some p) = (ok tt, some p)
connect s opened none = (opened, some (pool_of s))

-- The attribute is set to None after the pool is closed, and stays set where that fails.
unfoldable pub disconnect :
    (close_pool : Result (Unit {0})) → Option Pool → Result (Unit {0}) × Option Pool
disconnect closed none = (ok tt, none)
disconnect (ok u) (some p) = (ok tt, none)
disconnect (raised e) (some p) = (raised e, some p)

unfoldable pub get_pool : Option Pool → Result Pool
get_pool (some p) = ok p
get_pool none =
    raised (exception runtime_error (codes "Database pool not initialized. Call connect() first."))

abbrev pub has_all : List Text → List Text → Bool
has_all [] existing = true
has_all (t ∷ ts) existing = if any (text_eq t) existing then has_all ts existing else false

-- a try that finds the tables; an exception is logged
abbrev pub is_ready : List Text → Result (List Text) → Bool
is_ready tables (ok existing) = has_all tables existing
is_ready tables (raised e) = false

-- The loop, from try `i` on: the number of the try that finds the tables.
unfoldable pub tries : (look : ℕ → Result (List Text)) → List Text → (retries i : ℕ) → Option ℕ
tries look tables zero i = none
tries look tables (suc n) i =
    let rest = tries look tables n (i + 1) in if is_ready tables (look i) then some i else rest

abbrev pub never_created : Text → Exception
never_created tables =
    exception runtime_error (codes "Required tables " ++ tables ++ codes " were never created.")

-- its result, and how many times it slept; `repr` prints a list of texts
abbrev pub waited : (repr : List Text → Text) → List Text → ℕ → Option ℕ → Result (Unit {0}) × ℕ
waited repr tables retries (some i) = (ok tt, i)
waited repr tables retries none = (raised (never_created (repr tables)), retries)

abbrev pub then_wait : Result Pool → Result (Unit {0}) × ℕ → Result (Unit {0}) × ℕ
then_wait (ok p) r = r
then_wait (raised e) r = (raised e, 0)

unfoldable pub wait_for_tables :
    (repr : List Text → Text) (look : ℕ → Result (List Text))
    → List Text
    → (retries : ℕ) → Option Pool
    → Result (Unit {0}) × ℕ
unfolding get_pool tries
wait_for_tables repr look tables retries pool =
    then_wait (get_pool pool) (waited repr tables retries (tries look tables retries 0))

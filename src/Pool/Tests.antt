-- ===== src/Pool/Tests.antt =====
-- The theorem on the wait for the tables at a database that gets them at the second look.
use revix.Prelude.{ℕ, zero, suc, ◌<◌, Text, codes, ◌≡◌, ◌⊎◌, true, List, [], ◌∷◌}
use revix.Prelude.{some}
use revix.Effects.{Exception, Result, ok, raised}
use revix.Pool.{Pool, is_ready, wait_for_tables}
use revix.Pool.Waiting.{NoneReady, wait_for_tables_lem}

abbrev second_look : ℕ → Result (List Text)
second_look zero = ok []
second_look (suc n) = ok (codes "jobs" ∷ [])

abbrev jobs_only : List Text
jobs_only = codes "jobs" ∷ []

abbrev small_pool : Pool
small_pool = record { min_size = 1; max_size = 2 }

abbrev no_repr : List Text → Text
no_repr ts = []

wait_for_tables_lem_example :
    let res = wait_for_tables no_repr second_look jobs_only 3 (some small_pool) in
    ((j : ℕ) × (res ≡ (ok tt, j))
      × (j < 3)
      × (is_ready jobs_only (second_look j) ≡ true)
      × NoneReady second_look jobs_only 0 j)
    ⊎ ((e : Exception) × (res ≡ (raised e, 3)) × NoneReady second_look jobs_only 0 3)
wait_for_tables_lem_example = wait_for_tables_lem no_repr second_look jobs_only 3 small_pool

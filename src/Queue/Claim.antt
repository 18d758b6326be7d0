-- ===== src/Queue/Claim.antt =====
-- `claim_job`: the best job that is due and that no other transaction has locked.
use revix.Prelude.{
  ℕ, ◌+◌, Text, Bool, not, ◌&&◌, ◌||◌, Option, none, some, List, [], ◌∷◌, ltb, leb, ◌==◌,
  if◌then◌else◌, update_where,
}
use revix.Effects.{Result, ok}
use revix.Schema.{Job, is_pending, processing, Db}
use revix.Queue.Rows.{has_id, upsert_heartbeat}

-- the WHERE clause of the inner SELECT
unfoldable pub is_due : ℕ → Job → Bool
is_due now j = is_pending j.status && leb j.scheduled_at now && ltb j.attempt_count j.max_attempts

-- and FOR UPDATE SKIP LOCKED
unfoldable pub is_open : (locked : ℕ → Bool) (now : ℕ) → Job → Bool
is_open locked now j = is_due now j && not (locked j.id)

-- `ORDER BY priority DESC, created_at ASC`: `a` comes strictly before `b`
unfoldable pub before : Job → Job → Bool
before a b =
    ltb b.priority a.priority || (a.priority == b.priority && ltb a.created_at b.created_at)

unfoldable pub choose : Job → Option Job → Job
unfolding before
choose j none = j
choose j (some k) = if before k j then k else j

-- `LIMIT 1`; of equal rows the first in the table is taken
unfoldable pub next_job : (locked : ℕ → Bool) (now : ℕ) → List Job → Option Job
unfolding is_due is_open choose
next_job locked now [] = none
next_job locked now (j ∷ js) =
    let rest = next_job locked now js in if is_open locked now j then some (choose j rest) else rest

-- the SET clause
unfoldable pub start : (now : ℕ) → Text → Job → Job
start now worker j = record j {
  status = processing;
  started_at = some now;
  worker_id = some worker;
  attempt_count = j.attempt_count + 1;
}

unfoldable pub claim_next : (now : ℕ) → Text → Option Job → Db → Result (Option Job) × Db
unfolding start update_where upsert_heartbeat
claim_next now worker none db = (ok none, db)
claim_next now worker (some j) db = (
  ok (some (start now worker j)),
  record db {
    jobs = update_where (has_id j.id) (start now worker) db.jobs;
    worker_heartbeats = upsert_heartbeat now j.id worker db.worker_heartbeats;
  },
)

unfoldable pub claim_job : (locked : ℕ → Bool) (now : ℕ) → Text → Db → Result (Option Job) × Db
unfolding next_job claim_next
claim_job locked now worker db = claim_next now worker (next_job locked now db.jobs) db

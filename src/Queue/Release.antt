-- ===== src/Queue/Release.antt =====
-- `release_job`: a worker gives a job back.
use revix.Prelude.{ℕ, ◌+◌, ◌&&◌, none, update_where}
use revix.Effects.{Result, ok}
use revix.Schema.{Job, pending, is_processing, Db}
use revix.Queue.Rows.{has_fence, drop_heartbeat}

-- the SET clause
unfoldable pub requeue : (now delay : ℕ) → Job → Job
requeue now delay j = record j {
  status = pending;
  worker_id = none;
  scheduled_at = now + delay;
  fence_token = j.fence_token + 1;
}

unfoldable pub release_job : (now job_id fence delay : ℕ) → Db → Result (Unit {0}) × Db
unfolding requeue update_where drop_heartbeat
release_job now i f delay db = (
  ok tt,
  record db {
    jobs =
        update_where (λ j. has_fence i f j && is_processing j.status) (requeue now delay) db.jobs;
    worker_heartbeats = drop_heartbeat i db.worker_heartbeats;
  },
)

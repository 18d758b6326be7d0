-- ===== src/Queue/Reconcile.antt =====
-- `reconcile_stale_jobs`: jobs of dead workers are retried or buried, heartbeats of no running job
-- are deleted, and jobs that waited for an hour are given up.
use revix.Prelude.{
  ℕ, ◌+◌, ◌*◌, codes, Bool, not, ◌&&◌, ◌||◌, none, some, List, map, any, ltb, leb, if◌then◌else◌,
  update_where, delete_where, select_where,
}
use revix.Effects.{Result, ok}
use revix.Config.{Settings}
use revix.Schema.{Job, pending, dead, is_pending, is_processing, Heartbeat, Db}
use revix.Queue.Rows.{has_id, beats_for}

-- the two EXISTS tests of the subquery: there is no heartbeat, or an old one
abbrev pub is_lost : (now stale_seconds : ℕ) → List Heartbeat → Job → Bool
is_lost now stale hs j =
    not (any (beats_for j.id) hs)
    || any (λ h. beats_for j.id h && ltb (h.heartbeat_at + stale) now) hs

abbrev pub is_stale : (locked : ℕ → Bool) (now stale_seconds : ℕ) → List Heartbeat → Job → Bool
is_stale locked now stale hs j =
    is_processing j.status && is_lost now stale hs j && not (locked j.id)

abbrev pub is_exhausted : Job → Bool
is_exhausted j = leb j.max_attempts j.attempt_count

-- the SET clause of the first UPDATE
unfoldable pub reclaim : (now backoff : ℕ) → Job → Job
reclaim now backoff j = record j {
  status = if is_exhausted j then dead else pending;
  fence_token = j.fence_token + 1;
  scheduled_at = if is_exhausted j then j.scheduled_at else now + backoff * j.attempt_count;
  worker_id = none;
}

-- `pending for over 1 hour`
abbrev pub is_expired : ℕ → Job → Bool
is_expired now j = is_pending j.status && ltb (j.created_at + 3600) now

-- the last UPDATE
unfoldable pub expire : Job → Job
expire j = record j {
  status = dead;
  error_message = some (codes "Timed out: pending for over 1 hour");
}

-- the heartbeats that the DELETE takes
abbrev pub is_orphan : List Job → Heartbeat → Bool
is_orphan jobs h = not (any (λ j. has_id h.job_id j && is_processing j.status) jobs)

unfoldable pub reconcile_stale_jobs :
    (settings : Settings) (locked : ℕ → Bool) (now : ℕ) → Db → Result (List Job) × Db
unfolding reclaim expire update_where delete_where select_where
reconcile_stale_jobs settings locked now db =
    let stale = is_stale locked now settings.worker_heartbeat_stale_seconds db.worker_heartbeats in
    let recover = reclaim now settings.worker_retry_backoff_seconds in
    let jobs = update_where stale recover db.jobs in
    (
      ok (map recover (select_where stale db.jobs)),
      record db {
        jobs = update_where (is_expired now) expire jobs;
        worker_heartbeats = delete_where (is_orphan jobs) db.worker_heartbeats;
      },
    )

-- ===== src/Queue/Rows.antt =====
-- The WHERE tests and the heartbeat statements that several methods of the queue share.
use revix.Prelude.{
  ℕ, Text, text_eq, Bool, false, ◌&&◌, Option, none, some, List, [], ◌∷◌, ◌++◌, any, ◌==◌,
  if◌then◌else◌, update_where, delete_where,
}
use revix.Schema.{Job, Heartbeat}

abbrev pub has_id : ℕ → Job → Bool
has_id i j = j.id == i

abbrev pub has_sha : Text → Job → Bool
has_sha sha j = text_eq j.commit_sha sha

-- `id = %s AND fence_token = %s`
abbrev pub has_fence : (job_id fence : ℕ) → Job → Bool
has_fence i f j = j.id == i && j.fence_token == f

-- `worker_id = %s`, which NULL never satisfies
abbrev pub is_text : Option Text → Text → Bool
is_text none w = false
is_text (some v) w = text_eq v w

abbrev pub beats_for : ℕ → Heartbeat → Bool
beats_for i h = h.job_id == i

-- INSERT ... ON CONFLICT (job_id) DO UPDATE SET heartbeat_at = NOW(), worker_id = %s
unfoldable pub upsert_heartbeat : (now job_id : ℕ) (worker : Text) → List Heartbeat → List Heartbeat
unfolding update_where
upsert_heartbeat now i w hs =
    if any (beats_for i) hs
    then update_where (beats_for i) (λ h. record h { heartbeat_at = now; worker_id = w }) hs
    else hs ++ (record { job_id = i; worker_id = w; heartbeat_at = now } ∷ [])

-- DELETE FROM worker_heartbeats WHERE job_id = %s
unfoldable pub drop_heartbeat : ℕ → List Heartbeat → List Heartbeat
unfolding delete_where
drop_heartbeat i = delete_where (beats_for i)

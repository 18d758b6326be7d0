-- ===== src/Queue/Heartbeats.antt =====
-- `update_heartbeat`, `set_check_run_id` and `get_check_run_id`.
use revix.Prelude.{
  ℕ, Text, text_eq, Bool, true, false, ◌&&◌, Option, none, some, List, [], ◌∷◌, leb, ◌==◌,
  if◌then◌else◌, is_some, update_where, find_where,
}
use revix.Effects.{Result, ok}
use revix.Schema.{Job, is_processing, Db}
use revix.Queue.Rows.{has_id, is_text, beats_for}

-- `id = %s AND worker_id = %s`
abbrev pub is_run_by : ℕ → Text → Job → Bool
is_run_by i w j = j.id == i && is_text j.worker_id w

abbrev pub is_running : Option Job → Bool
is_running none = false
is_running (some j) = is_processing j.status

unfoldable pub update_heartbeat : (now job_id : ℕ) → Text → Db → Result Bool × Db
unfolding update_where find_where
update_heartbeat now i w db =
    if is_running (find_where (is_run_by i w) db.jobs)
    then (
      ok true,
      record db {
        worker_heartbeats =
            update_where (λ h. beats_for i h && text_eq h.worker_id w)
              (λ h. record h { heartbeat_at = now }) db.worker_heartbeats;
      },
    )
    else (ok false, db)

-- the SET clause
unfoldable pub set_check_run : ℕ → Job → Job
set_check_run c j = record j { github_check_run_id = some c }

unfoldable pub set_check_run_id : (job_id check_run_id : ℕ) → Db → Result (Unit {0}) × Db
unfolding update_where set_check_run
set_check_run_id i c db =
    (ok tt, record db { jobs = update_where (has_id i) (set_check_run c) db.jobs })

abbrev is_checked : (repo : Text) (pr_number : ℕ) (sha : Text) → Job → Bool
is_checked repo pr sha j =
    text_eq j.repo_full_name repo
    && j.pr_number == pr
    && text_eq j.commit_sha sha
    && is_some j.github_check_run_id

abbrev newer : Job → Option Job → Job
newer j none = j
newer j (some k) = if leb k.created_at j.created_at then j else k

-- `ORDER BY created_at DESC LIMIT 1`
latest_checked : Text → ℕ → Text → List Job → Option Job
latest_checked repo pr sha [] = none
latest_checked repo pr sha (j ∷ js) =
    let rest = latest_checked repo pr sha js in
    if is_checked repo pr sha j then some (newer j rest) else rest

abbrev check_run_of : Option Job → Option ℕ
check_run_of none = none
check_run_of (some j) = j.github_check_run_id

unfoldable pub get_check_run_id : Text → ℕ → Text → Db → Option ℕ
unfolding latest_checked
get_check_run_id repo pr sha db = check_run_of (latest_checked repo pr sha db.jobs)

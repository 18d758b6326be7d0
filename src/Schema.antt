-- ===== src/Schema.antt =====
-- The tables of migrations/versions/0001_initial_schema.py, a record for the rows of each, and the
-- database that every repository works on. A UUID or a timestamp (in seconds) is a number. The
-- indexes change no result and are left out.
use revix.Prelude.{ℕ, Text, Json, Option, none, List, [], Bool, true, false}

-- The texts that the code writes to `jobs.status`.
pub data Status : Type 0 where
  pending processing dead success failure : Status

abbrev pub is_pending : Status → Bool
is_pending pending = true
is_pending _ = false

abbrev pub is_processing : Status → Bool
is_processing processing = true
is_processing _ = false

pub record Job : Type 0 where
  pub id : ℕ
  pub commit_sha : Text
  pub pr_number : ℕ
  pub repo_full_name : Text
  pub payload : Json
  pub status : Status
  pub priority : ℕ
  pub attempt_count : ℕ
  pub max_attempts : ℕ
  pub worker_id : Option Text
  pub heartbeat_at : Option ℕ
  pub scheduled_at : ℕ
  pub started_at : Option ℕ
  pub completed_at : Option ℕ
  pub error_message : Option Text
  pub result : Option Json
  pub otel_context : Option Json
  pub fence_token : ℕ
  pub github_check_run_id : Option ℕ
  pub created_date : ℕ
  pub created_at : ℕ

pub record Heartbeat : Type 0 where
  pub job_id : ℕ
  pub worker_id : Text
  pub heartbeat_at : ℕ

pub record ReviewRecord : Type 0 where
  pub id : ℕ
  pub job_id : ℕ
  pub commit_sha : Text
  pub pr_number : ℕ
  pub repo_full_name : Text
  pub feedback : Json
  pub model_map : Text
  pub model_reduce : Text
  pub chunk_count : ℕ
  pub created_at : ℕ

pub record InstallationToken : Type 0 where
  pub installation_id : ℕ
  pub token : Text
  pub expires_at : ℕ

pub record RepoSymbol : Type 0 where
  pub repo_full_name : Text
  pub name : Text
  pub qualified_name : Text
  pub kind : Text
  pub file_path : Text
  pub start_line : ℕ
  pub end_line : ℕ
  pub signature : Text
  pub parent : Option Text

pub record RepoReference : Type 0 where
  pub repo_full_name : Text
  pub symbol_name : Text
  pub file_path : Text
  pub line : ℕ
  pub context_line : Text
  pub ref_type : Text

pub record Db : Type 0 where
  pub jobs : List Job
  pub worker_heartbeats : List Heartbeat
  pub review_records : List ReviewRecord
  pub installation_tokens : List InstallationToken
  pub repo_symbols : List RepoSymbol
  pub repo_references : List RepoReference

-- The values that an INSERT into `jobs` leaves to the column defaults: the rest of the row is what
-- `enqueue_if_new` names. `day` is CURRENT_DATE.
abbrev pub default_job : (id now day : ℕ) → Job
default_job id now day = record {
  id = id;
  commit_sha = [];
  pr_number = 0;
  repo_full_name = [];
  payload = Json.null;
  status = pending;
  priority = 0;
  attempt_count = 0;
  max_attempts = 3;
  worker_id = none;
  heartbeat_at = none;
  scheduled_at = now;
  started_at = none;
  completed_at = none;
  error_message = none;
  result = none;
  otel_context = none;
  fence_token = 0;
  github_check_run_id = none;
  created_date = day;
  created_at = now;
}

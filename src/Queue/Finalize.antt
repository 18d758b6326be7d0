-- ===== src/Queue/Finalize.antt =====
-- `finalize_job`: the fenced commit of a review.
use revix.Prelude.{
  ℕ, codes, uuid_text, decimal, Json, Fields, truthy, Option, none, some, List, [], ◌∷◌, ◌++◌, any,
  ◌==◌, if◌then◌else◌, update_where, find_where,
}
use revix.Effects.{Exception, exception, runtime_error, unique_violation, Result, ok, raised}
use revix.Effects.{transaction}
use revix.Config.{Settings}
use revix.Schema.{Status, Job, ReviewRecord, Db}
use revix.Queue.Rows.{has_fence, drop_heartbeat}
use revix.Queue.Enqueue.{reviews_sha}

abbrev if_truthy : Json → Option Json
if_truthy j = if truthy j then some j else none

-- `json.dumps(ai_feedback) if ai_feedback else None`
abbrev pub given : Option Json → Option Json
given none = none
given (some j) = if_truthy j

abbrev or_braces : Option Json → Json
or_braces none = Json.obj Fields.end
or_braces (some j) = j

-- the SET clause of the first UPDATE
unfoldable pub close : (now : ℕ) → Status → Option Json → Job → Job
close now status feedback j = record j {
  status = status;
  completed_at = some now;
  result = given feedback;
}

abbrev pub review_of : (settings : Settings) (fresh now : ℕ) → Option Json → Job → ReviewRecord
review_of settings fresh now feedback j = record {
  id = fresh;
  job_id = j.id;
  commit_sha = j.commit_sha;
  pr_number = j.pr_number;
  repo_full_name = j.repo_full_name;
  feedback = or_braces (given feedback);
  model_map = settings.ai_model_map;
  model_reduce = settings.ai_model_reduce;
  chunk_count = 1;
  created_at = now;
}

-- `feedback = EXCLUDED.feedback`
unfoldable pub set_feedback : Json → ReviewRecord → ReviewRecord
set_feedback j r = record r { feedback = j }

-- INSERT INTO review_records ... ON CONFLICT (commit_sha) DO UPDATE SET feedback = EXCLUDED.feedback
unfoldable pub upsert_review : ReviewRecord → List ReviewRecord → Result (List ReviewRecord)
unfolding update_where set_feedback
upsert_review r rs =
    if any (reviews_sha r.commit_sha) rs
    then ok (update_where (reviews_sha r.commit_sha) (set_feedback r.feedback) rs)
    else if any (λ x. x.id == r.id) rs
    then raised (exception unique_violation [])
    else ok (rs ++ (r ∷ []))

unfoldable pub stale_fence : (job_id fence : ℕ) → Exception
unfolding uuid_text decimal
stale_fence i f = exception runtime_error (
    codes "Job "
    ++ uuid_text i
    ++ codes " was reclaimed; fence_token "
    ++ decimal f
    ++ codes " is stale")

-- the end of the block: the new reviews and the DELETE
unfoldable pub store_reviews :
    (job_id : ℕ) → Result (List ReviewRecord) → Db → Result (Unit {0}) × Db
unfolding drop_heartbeat
store_reviews i (raised e) db = (raised e, db)
store_reviews i (ok rs) db = (
  ok tt,
  record db { review_records = rs; worker_heartbeats = drop_heartbeat i db.worker_heartbeats },
)

-- what follows the statement with RETURNING, by the row does with the row that came back
unfoldable pub commit_review :
    (settings : Settings) (fresh now job_id fence : ℕ)
    → Option Json
    → Option Job
    → Db
    → Result (Unit {0}) × Db
unfolding upsert_review stale_fence store_reviews
commit_review settings fresh now i f feedback none db = (raised (stale_fence i f), db)
commit_review settings fresh now i f feedback (some j) db =
    store_reviews i (upsert_review (review_of settings fresh now feedback j) db.review_records) db

-- the body of `async with conn`
unfoldable pub finalize_block :
    (settings : Settings) (fresh now job_id fence : ℕ)
    → Status
    → Option Json
    → Db
    → Result (Unit {0}) × Db
unfolding close commit_review update_where find_where
finalize_block settings fresh now i f status feedback db =
    let jobs = update_where (has_fence i f) (close now status feedback) db.jobs in
    commit_review settings fresh now i f feedback (find_where (has_fence i f) jobs)
      (record db { jobs = jobs })

unfoldable pub finalize_job :
    (settings : Settings) (fresh now job_id fence : ℕ)
    → Status
    → Option Json
    → Db
    → Result (Unit {0}) × Db
unfolding finalize_block
finalize_job settings fresh now i f status feedback =
    transaction (finalize_block settings fresh now i f status feedback)

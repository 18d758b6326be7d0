-- ===== src/Queue/Enqueue.antt =====
-- `_generate_lock_id` and `enqueue_if_new`. The advisory lock makes two calls for one commit run one
-- after the other, which transactions here always do.
use Prim.Native.Nat.{◌^◌}
use revix.Prelude.{
  ℕ, ◌+◌, ◌-◌, ◌*◌, Text, text_eq, codes, Json, Fields, Bool, true, false, Option, none, some, List,
  [], ◌∷◌, ◌++◌, any, take, ltb, if◌then◌else◌,
}
use revix.Prelude.Int.{ℤ, pos, negsuc}
use revix.Effects.{exception, unique_violation, Result, ok, raised}
use revix.Schema.{Job, pending, ReviewRecord, Db, default_job}
use revix.Queue.Rows.{has_id, has_sha}

-- `int.from_bytes(bytes, byteorder="big")`, on what was read before
from_bytes : ℕ → List ℕ → ℕ
from_bytes acc [] = acc
from_bytes acc (b ∷ bs) = from_bytes (acc * 256 + b) bs

-- the same of eight bytes, with `signed=True`
unfoldable pub signed_64 : List ℕ → ℤ
unfolding from_bytes
signed_64 bs = let n = from_bytes 0 bs in if ltb n (2 ^ 63) then pos n else negsuc (2 ^ 64 - n - 1)

unfoldable pub generate_lock_id : (md5 : Text → List ℕ) → Text → ℤ
unfolding signed_64
generate_lock_id md5 sha = signed_64 (take 8 (md5 sha))

abbrev pub reviews_sha : Text → ReviewRecord → Bool
reviews_sha sha r = text_eq r.commit_sha sha

abbrev or_empty : Option Json → Json
or_empty none = Json.obj Fields.end
or_empty (some j) = j

-- what `propagate.inject`, the webhook's payload and the draw of a UUID give to one call
pub record Request : Type 0 where
  pub sha : Text
  pub repo : Text
  pub pull_number : ℕ
  pub installation_id : ℕ
  pub trace_context : Option Json
  pub fresh : ℕ
  pub now : ℕ
  pub today : ℕ

unfoldable pub new_job : Request → Job
new_job r = record (default_job r.fresh r.now r.today) {
  commit_sha = r.sha;
  pr_number = r.pull_number;
  repo_full_name = r.repo;
  payload =
      Json.obj
        (Fields.field (codes "installation_id") (Json.num (pos r.installation_id)) Fields.end);
  otel_context = some (or_empty r.trace_context);
  status = pending;
  fence_token = 0;
}

-- A UUID that is taken already would break the primary key; `ON CONFLICT (commit_sha)` covers only
-- the commit.
unfoldable pub enqueue_if_new : Request → Db → Result Bool × Db
unfolding new_job
enqueue_if_new r db =
    if any (reviews_sha r.sha) db.review_records
    then (ok false, db)
    else if any (has_sha r.sha) db.jobs
    then (ok true, db)
    else if any (has_id r.fresh) db.jobs
    then (raised (exception unique_violation []), db)
    else (ok true, record db { jobs = db.jobs ++ (new_job r ∷ []) })

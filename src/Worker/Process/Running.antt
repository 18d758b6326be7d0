-- ===== src/Worker/Process/Running.antt =====
-- The state of the queue while `process_job` runs, and what keeps it.
use revix.Prelude.{
  ℕ, ◌+◌, Text, Json, ◌≡◌, refl, ap, ◌⊎◌, inl, inr, Bool, true, false, ◌&&◌, Option, none, some,
  List, Memᴰ, any, ◌==◌, ==_refl, arith, mem-update_where, any-delete_where, find_where,
}
use revix.Effects.{Result, ok, raised}
use revix.Config.{Settings}
use revix.Schema.{
  pending, is_processing, Job, ReviewRecord, InstallationToken, RepoSymbol, RepoReference, Db,
}
use revix.Queue.Rows.{has_id, has_fence, beats_for, drop_heartbeat}
use revix.Queue.Constraints.{
  IsValid, beside-IsValid, set_check_run_id-IsValid, release_job-IsValid, finalize_job-IsValid,
}
use revix.Queue.Heartbeats.{set_check_run, set_check_run_id}
use revix.Queue.Finalize.{finalize_job}
use revix.Queue.Stored.{finished}
use revix.Queue.Release.{requeue, release_job}
use revix.Queue.Workers.{outcome}
use revix.Queue.Fencing.{is_done}
use revix.Queue.Commit.{finalize_commits}
use revix.Github.Tokens.{is_fresh, keep_token, use_cached, get_token}

-- The job `i` runs with the fence token `f`, and `fresh` is the id of no review.
pub record IsRunning (i f fresh : ℕ) (db : Db) : Type 0 where
  pub valid : IsValid db
  pub row : Job
  pub present : Memᴰ row db.jobs
  pub same_id : row.id ≡ i
  pub same_fence : row.fence_token ≡ f
  pub running : is_processing row.status ≡ true
  pub free : any (λ (x : ReviewRecord). x.id == fresh) db.review_records ≡ false

-- The job is finished, or it waits under the next fence token. No heartbeat of it is left.
pub record IsSettled (i f : ℕ) (db : Db) : Type 0 where
  pub valid : IsValid db
  pub row : Job
  pub present : Memᴰ row db.jobs
  pub same_id : row.id ≡ i
  pub settled : (is_done row.status ≡ true) ⊎ ((row.status ≡ pending) × (row.fence_token ≡ f + 1))
  pub quiet : any (beats_for i) db.worker_heartbeats ≡ false

-- Writes to the tables beside the queue.
pub beside-IsRunning :
    (i f fresh : ℕ) (db : Db) (ts : List InstallationToken) (ss : List RepoSymbol)
    (rs : List RepoReference)
    → IsRunning i f fresh db
    → IsRunning i f fresh
        (record db { installation_tokens = ts; repo_symbols = ss; repo_references = rs })
beside-IsRunning i f fresh db ts ss rs h = record {
  valid = beside-IsValid db ts ss rs h.valid;
  row = h.row;
  present = h.present;
  same_id = h.same_id;
  same_fence = h.same_fence;
  running = h.running;
  free = h.free;
}

keep_token-IsRunning :
    (i f fresh now inst : ℕ) (r : Result Text) (db : Db)
    → IsRunning i f fresh db
    → IsRunning i f fresh (keep_token now inst r db).1
unfolding keep_token
keep_token-IsRunning i f fresh now inst (ok token) db h =
    beside-IsRunning i f fresh db _ db.repo_symbols db.repo_references h
keep_token-IsRunning i f fresh now inst (raised e) db h = h

pub get_token-IsRunning :
    (i f fresh now inst : ℕ) (fetch : ℕ → Result Text) (db : Db)
    → IsRunning i f fresh db
    → IsRunning i f fresh (get_token fetch now inst db).1
unfolding get_token use_cached
get_token-IsRunning i f fresh now inst fetch db h =
    go (find_where (is_fresh now inst) db.installation_tokens)
  where
    go : (o : Option InstallationToken) → IsRunning i f fresh (use_cached fetch now inst o db).1
    go none = keep_token-IsRunning i f fresh now inst (fetch inst) db h
    go (some t) = h

pub set_check_run_id-IsRunning :
    (i f fresh check : ℕ) (db : Db)
    → IsRunning i f fresh db
    → IsRunning i f fresh (set_check_run_id i check db).1
unfolding set_check_run_id set_check_run
set_check_run_id-IsRunning i f fresh check db h =
    let p : has_id i h.row ≡ true = rw h.same_id (==_refl i) in
    record {
      valid = set_check_run_id-IsValid i check db h.valid;
      row = set_check_run check h.row;
      present = rw p at (mem-update_where (has_id i) (set_check_run check) db.jobs h.present);
      same_id = h.same_id;
      same_fence = h.same_fence;
      running = h.running;
      free = h.free;
    }

outcome-done : (passed : Bool) → is_done (outcome passed) ≡ true
outcome-done true = refl
outcome-done false = refl

-- A commit with the job's token returns, and settles the job.
pub finalize_job-IsSettled :
    (settings : Settings) (i f fresh now : ℕ) (passed : Bool) (feedback : Option Json) (db : Db)
    → IsRunning i f fresh db
    → let (res, db') = finalize_job settings fresh now i f (outcome passed) feedback db in
      (res ≡ ok tt) × IsSettled i f db'
unfolding drop_heartbeat
finalize_job-IsSettled settings i f fresh now passed feedback db h =
    let (rs, done, _, _) =
      finalize_commits settings fresh now i f (outcome passed) feedback db h.row h.valid h.present
        h.same_id h.same_fence h.free in
    let fits : has_fence i f h.row ≡ true = ground (arith, h.same_id, h.same_fence) in
    let v = finalize_job-IsValid settings fresh now i f (outcome passed) feedback db h.valid in
    rw done (
      refl,
      record {
        valid = rw done at v;
        row = finished now (outcome passed) feedback h.row;
        present = rw fits at (
            mem-update_where (has_fence i f) (finished now (outcome passed) feedback) db.jobs
              h.present);
        same_id = h.same_id;
        settled = inl (outcome-done passed);
        quiet = any-delete_where (beats_for i) db.worker_heartbeats;
      },
    )

pub release_job-IsSettled :
    (i f fresh now delay : ℕ) (db : Db)
    → IsRunning i f fresh db
    → IsSettled i f (release_job now i f delay db).1
unfolding release_job requeue drop_heartbeat
release_job-IsSettled i f fresh now delay db h =
    let fits : (has_fence i f h.row && is_processing h.row.status) ≡ true =
      ground (arith, h.same_id, h.same_fence, h.running) in
    record {
      valid = release_job-IsValid now i f delay db h.valid;
      row = requeue now delay h.row;
      present = rw fits at (
          mem-update_where (λ j. has_fence i f j && is_processing j.status) (requeue now delay)
            db.jobs h.present);
      same_id = h.same_id;
      settled = inr (refl, ap (λ (n : ℕ). n + 1) h.same_fence);
      quiet = any-delete_where (beats_for i) db.worker_heartbeats;
    }

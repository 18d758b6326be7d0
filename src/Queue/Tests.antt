-- ===== src/Queue/Tests.antt =====
-- The theorems on the queue at a small run: one job, two workers, one reconciliation.
use revix.Prelude.{
  ◌==◌, ◌&&◌, delete_where, find_where, text_eq, ℕ, ◌+◌, update_where, Text, codes, ◌≡◌, refl, ◌≢◌,
  Bool, true, false, none, List, [], Memᴰ, arith, any,
}
use revix.Effects.{ok, raised, OnOk}
use revix.Config.{default_settings}
use revix.Schema.{pending, dead, success, Job, Heartbeat, ReviewRecord}
use revix.Queue.Enqueue.{Request, new_job, enqueue_if_new}
use revix.Queue.Claim.{start, claim_job}
use revix.Queue.Finalize.{stale_fence, finalize_job}
use revix.Queue.Release.{release_job}
use revix.Queue.Reconcile.{is_stale, reclaim, expire, reconcile_stale_jobs}
use revix.Queue.Workers.{Claim, World, add_claim, outcome, Step, Reach}
use revix.Queue.Ownership.{IsFenced, Step-IsFenced, Reach-IsFenced}
use revix.Queue.Heartbeats.{update_heartbeat}
use revix.Queue.Beating.{beat_keeps_job}
use revix.Queue.Tracking.{Tracks}
use revix.Queue.Fencing.{stale_commit_rejected, one_owner, done_is_final, is_done}
use revix.Queue.Stored.{finished, first_review, IsRecorded}
use revix.Queue.Commit.{finalize_commits, reviewed_not_enqueued, enqueue_twice}
use revix.Queue.Recovery.{
  Claims, claim_job-Claims, dead_worker_recovered, old_retry_buried, stale_release_loses_job,
}

abbrev no_jobs : World
no_jobs = record {
  db = record {
    jobs = [];
    worker_heartbeats = [];
    review_records = [];
    installation_tokens = [];
    repo_symbols = [];
    repo_references = [];
  };
  claims = [];
}

no_jobs-IsFenced : IsFenced no_jobs
no_jobs-IsFenced = record {
  valid = record { ids = tt; shas = tt; beats = tt; reviews = tt; linked = tt; attempts = tt };
  held = tt;
  once = tt;
}

abbrev push : Request
push = record {
  sha = codes "abc";
  repo = codes "o/r";
  pull_number = 5;
  installation_id = 3;
  trace_context = none;
  fresh = 7;
  now = 100;
  today = 0;
}

abbrev unlocked : ℕ → Bool
unlocked i = false

abbrev ann : Text
ann = codes "a"

abbrev bob : Text
bob = codes "b"

-- `ann` claims the job and dies; 900 seconds later it is reclaimed, and `bob` claims it.
abbrev queued : World
queued = record no_jobs { db = (enqueue_if_new push no_jobs.db).1 }

abbrev claimed : ℕ → Text → World → World
claimed now worker w = record {
  db = (claim_job unlocked now worker w.db).1;
  claims = add_claim worker (claim_job unlocked now worker w.db).0 w.claims;
}

abbrev reconciled : ℕ → World → World
reconciled now w = record w { db = (reconcile_stale_jobs default_settings unlocked now w.db).1 }

abbrev by_ann : World
by_ann = claimed 100 ann queued

abbrev returned : World
returned = reconciled 1000 by_ann

abbrev by_bob : World
by_bob = claimed 1200 bob returned

queued-by_ann : Reach default_settings no_jobs by_ann
queued-by_ann =
    Reach.next (Reach.next Reach.here (Step.enqueue push no_jobs))
      (Step.claim unlocked 100 ann queued)

ann-bob : Reach default_settings returned by_bob
ann-bob = Reach.next Reach.here (Step.claim unlocked 1200 bob returned)

ann-returned : Reach default_settings no_jobs returned
ann-returned = Reach.next queued-by_ann (Step.reconcile unlocked 1000 by_ann)

returned-IsFenced : IsFenced returned
returned-IsFenced = Reach-IsFenced ann-returned no_jobs-IsFenced

stale_commit_rejected_example :
    finalize_job default_settings 8 1300 7 0 success none by_bob.db
    ≡ (raised (stale_fence 7 0), by_bob.db)
unfolding enqueue_if_new claim_job reconcile_stale_jobs
stale_commit_rejected_example =
    stale_commit_rejected default_settings returned by_bob 7 0 8 1300 success none returned-IsFenced
      (((λ _. omega arith), tt), refl) ann-bob

one_owner_example : let c : Claim = record { worker = bob; job_id = 7; fence = 1 } in c ≡ c
unfolding enqueue_if_new claim_job reconcile_stale_jobs
one_owner_example =
    one_owner default_settings returned by_bob (record { worker = bob; job_id = 7; fence = 1 })
      (record { worker = bob; job_id = 7; fence = 1 }) returned-IsFenced ann-bob (Memᴰ.head refl)
      (Memᴰ.head refl) refl refl

Reach-IsFenced_example : IsFenced by_bob
Reach-IsFenced_example = Reach-IsFenced ann-bob returned-IsFenced

-- the job as `bob` has it
abbrev anns_job : Job
anns_job = start 100 ann (new_job push)

abbrev bobs_job : Job
bobs_job = start 1200 bob (reclaim 1000 120 anns_job)

finalize_commits_example :
    (rs : List ReviewRecord) × (finalize_job default_settings 8 1300 7 1 success none by_bob.db ≡ (
      ok tt,
      record by_bob.db {
        jobs =
            update_where
              (λ (x : Job). x.id == 7 && x.fence_token == 1)
              (finished 1300 success none)
              by_bob.db.jobs;
        review_records = rs;
        worker_heartbeats =
            delete_where (λ (h : Heartbeat). h.job_id == 7) by_bob.db.worker_heartbeats;
      },
    ))
    × IsRecorded (first_review default_settings 8 1300 none bobs_job) by_bob.db.review_records rs
    × (any (λ (r : ReviewRecord). text_eq r.commit_sha bobs_job.commit_sha) rs ≡ true)
unfolding enqueue_if_new claim_job reconcile_stale_jobs new_job start reclaim
finalize_commits_example =
    finalize_commits default_settings 8 1300 7 1 success none by_bob.db bobs_job
      Reach-IsFenced_example.valid (Memᴰ.head refl) refl refl refl

abbrev push_again : Request
push_again = record push { fresh = 9; now = 2000 }

reviewed_not_enqueued_example :
    let db' = (finalize_job default_settings 8 1300 7 1 success none by_bob.db).1 in
    enqueue_if_new push_again db' ≡ (ok false, db')
unfolding enqueue_if_new claim_job reconcile_stale_jobs new_job start reclaim
reviewed_not_enqueued_example =
    reviewed_not_enqueued default_settings 8 1300 7 1 success none by_bob.db bobs_job push_again
      Reach-IsFenced_example.valid (Memᴰ.head refl) refl refl refl refl

enqueue_twice_example :
    enqueue_if_new push_again (enqueue_if_new push no_jobs.db).1
    ≡ (ok true, (enqueue_if_new push no_jobs.db).1)
unfolding enqueue_if_new
enqueue_twice_example = enqueue_twice push push_again no_jobs.db true refl refl

claim_job-Claims_example :
    Claims unlocked 1200 bob returned.db.jobs (claim_job unlocked 1200 bob returned.db).0
claim_job-Claims_example = claim_job-Claims unlocked 1200 bob returned.db

dead_worker_recovered_example :
    let k = reclaim 1000 120 anns_job in
    let db' = (reconcile_stale_jobs default_settings unlocked 1000 by_ann.db).1 in
    Memᴰ k db'.jobs
    × (k.fence_token ≡ anns_job.fence_token + 1)
    × ((claim_job unlocked 1200 bob db').0 ≢ ok none)
unfolding enqueue_if_new claim_job new_job start
dead_worker_recovered_example =
    dead_worker_recovered default_settings unlocked unlocked 1000 1200 bob by_ann.db anns_job
      (Memᴰ.head refl) refl refl (omega arith) (omega arith) refl

old_retry_buried_example :
    let k = reclaim 5000 120 anns_job in
    let rows = (reconcile_stale_jobs default_settings unlocked 5000 by_ann.db).0 in
    let db' = (reconcile_stale_jobs default_settings unlocked 5000 by_ann.db).1 in
    (k.status ≡ pending)
    × OnOk (λ rs. Memᴰ k rs) rows
    × ((expire k).status ≡ dead)
    × Memᴰ (expire k) db'.jobs
unfolding enqueue_if_new claim_job new_job start
old_retry_buried_example =
    old_retry_buried default_settings unlocked 5000 by_ann.db anns_job (Memᴰ.head refl) refl refl
      (omega arith)

stale_release_loses_job_example :
    let db' = (release_job 1300 7 0 60 by_bob.db).1 in
    Memᴰ bobs_job db'.jobs × (is_stale unlocked 1301 90 db'.worker_heartbeats bobs_job ≡ true)
unfolding enqueue_if_new claim_job reconcile_stale_jobs new_job start reclaim
stale_release_loses_job_example =
    stale_release_loses_job unlocked 1300 7 0 60 1301 90 by_bob.db bobs_job
      ((λ _ e. absurd (omega (arith, e))), tt) (Memᴰ.head refl) refl refl refl

-- the job in the dead letter queue, and a worker that asks for one
abbrev buried : World
buried = reconciled 5000 queued

buried-IsFenced : IsFenced buried
buried-IsFenced =
    Step-IsFenced {settings = default_settings} (Step.reconcile unlocked 5000 queued)
      (Step-IsFenced {settings = default_settings} (Step.enqueue push no_jobs) no_jobs-IsFenced)

-- the finished_world job
abbrev finished_world : World
finished_world = record by_bob {
  db = (finalize_job default_settings 8 1300 7 1 (outcome true) none by_bob.db).1;
}

finished-IsFenced : IsFenced finished_world
unfolding enqueue_if_new claim_job reconcile_stale_jobs
finished-IsFenced =
    Step-IsFenced {settings = default_settings}
      (Step.finalize 8 1300 true none (record { worker = bob; job_id = 7; fence = 1 }) by_bob
        (Memᴰ.head refl))
      Reach-IsFenced_example

done_is_final_example :
    Tracks 7
      (λ j. (is_done j.status ≡ true) × (j.fence_token ≡ 1))
      (reconciled 9000 finished_world).db.jobs
unfolding enqueue_if_new claim_job reconcile_stale_jobs finalize_job
done_is_final_example =
    done_is_final default_settings finished_world (reconciled 9000 finished_world) 7 1
      finished-IsFenced (((λ _. (refl, refl)), tt), refl)
      (Reach.next Reach.here (Step.reconcile unlocked 9000 finished_world))

beat_keeps_job_example :
    let db' = (update_heartbeat 160 7 ann by_ann.db).1 in
    is_stale unlocked 200 default_settings.worker_heartbeat_stale_seconds db'.worker_heartbeats
      anns_job
    ≡ false
unfolding enqueue_if_new claim_job start new_job find_where text_eq
beat_keeps_job_example =
    beat_keeps_job default_settings unlocked 160 200 7 ann by_ann.db
      (record { job_id = 7; worker_id = ann; heartbeat_at = 100 }) anns_job
      (Reach-IsFenced queued-by_ann no_jobs-IsFenced).valid (Memᴰ.head refl) refl refl refl
      (omega arith) refl

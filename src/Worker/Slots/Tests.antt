-- ===== src/Worker/Slots/Tests.antt =====
-- The theorems on the slots of a worker, at two tasks of one job.
use revix.Prelude.{ℕ, codes, refl, Bool, true, List, [], ◌∷◌, Memᴰ, All, arith}
use revix.Schema.{Job, default_job, Db}
use revix.Queue.Claim.{start, claim_job}
use revix.Queue.Reconcile.{reclaim}
use revix.Worker.Slots.{
  Phase, Entry, Worker, start_worker, on_acquired, on_claimed, on_done, shutdown, Step, Reach,
}
use revix.Worker.Slots.Balanced.{IsBalanced, Reach-IsBalanced}
use revix.Worker.Slots.Released.{IsReleased, shutdown-IsReleased, forgotten_job}

-- one job that waits
abbrev waiting_job : Job
waiting_job = record (default_job 7 100 0) { commit_sha = codes "abc" }

abbrev db_of : List Job → Db
db_of jobs = record {
  jobs = jobs;
  worker_heartbeats = [];
  review_records = [];
  installation_tokens = [];
  repo_symbols = [];
  repo_references = [];
}

abbrev unlocked : ℕ → Bool
unlocked i = Bool.false

abbrev queued : Db
queued = db_of (waiting_job ∷ [])

abbrev acquired : Worker
acquired = on_acquired (start_worker 2)

abbrev busy : Worker × Db
busy = let (res, db) = claim_job unlocked 100 (codes "a") queued in (on_claimed res acquired, db)

busy-Reach : Reach (start_worker 2, queued) busy
unfolding start_worker on_acquired
busy-Reach =
    Reach.next (Reach.next Reach.here (Step.acquire (start_worker 2) queued refl (omega arith)))
      (Step.claim unlocked 100 (codes "a") acquired queued refl)

Reach-IsBalanced_example : IsBalanced 2 busy.0
Reach-IsBalanced_example = Reach-IsBalanced 2 queued busy busy-Reach

-- the job as the worker has claimed it twice
abbrev first_claim : Job
first_claim = start 100 (codes "a") waiting_job

abbrev second_claim : Job
second_claim = start 2000 (codes "a") (reclaim 1500 120 first_claim)

-- Both tasks run, and the dict has the second token.
abbrev twice : Worker
twice = record {
  running = true;
  permits = 0;
  phase = Phase.waiting;
  tasks = first_claim ∷ second_claim ∷ [];
  active = record { job_id = 7; fence_token = 1 } ∷ [];
}

abbrev always : Entry → Bool
always e = true

shutdown-IsReleased_example :
    let e : Entry = record { job_id = 7; fence_token = 1 } in
    All (IsReleased e) (shutdown always 2100 twice (db_of (second_claim ∷ []))).jobs
shutdown-IsReleased_example =
    shutdown-IsReleased always 2100 twice (db_of (second_claim ∷ []))
      (record { job_id = 7; fence_token = 1 }) (Memᴰ.head refl) refl

forgotten_job_example :
    let s = on_done [] first_claim (second_claim ∷ []) twice in
    Memᴰ second_claim s.tasks
    × Memᴰ second_claim (shutdown always 2100 s (db_of (second_claim ∷ []))).jobs
unfolding start reclaim
forgotten_job_example =
    forgotten_job always 2100 twice (db_of (second_claim ∷ [])) [] (second_claim ∷ []) first_claim
      second_claim second_claim (Memᴰ.head refl) refl (Memᴰ.head refl) refl

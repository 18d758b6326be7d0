-- ===== src/Queue/Workers.antt =====
-- The queue under any number of workers: every transaction that the program sends to it, in any
-- order, by workers that may stall and come back with an old token. `claims` lists the tokens that
-- `claim_job` has handed out; a worker may use one at any later time.
use revix.Prelude.{ℕ, Text, Json, Bool, Option, some, List, ◌∷◌, Memᴰ}
use revix.Effects.{Result, ok}
use revix.Config.{Settings}
use revix.Schema.{Status, success, failure, Job, InstallationToken, RepoSymbol, RepoReference, Db}
use revix.Queue.Enqueue.{Request, enqueue_if_new}
use revix.Queue.Claim.{claim_job}
use revix.Queue.Heartbeats.{update_heartbeat, set_check_run_id}
use revix.Queue.Finalize.{finalize_job}
use revix.Queue.Release.{release_job}
use revix.Queue.Reconcile.{reconcile_stale_jobs}

-- `job["id"]` and `job["fence_token"]` of a claimed row, and who has it
pub record Claim : Type 0 where
  pub worker : Text
  pub job_id : ℕ
  pub fence : ℕ

pub record World : Type 0 where
  pub db : Db
  pub claims : List Claim

abbrev pub add_claim : Text → Result (Option Job) → List Claim → List Claim
add_claim w (ok (some j)) cs = record { worker = w; job_id = j.id; fence = j.fence_token } ∷ cs
add_claim w _ cs = cs

-- the two statuses that `process_job` gives to `finalize_job`
abbrev pub outcome : Bool → Status
outcome Bool.true = success
outcome Bool.false = failure

module _ (settings : Settings) where
  pub data Step : World → World → Type 0 where
    enqueue : (r : Request) (w : World) → Step w (record w { db = (enqueue_if_new r w.db).1 })
    claim :
        (locked : ℕ → Bool) (now : ℕ) (worker : Text) (w : World)
        → Step w (record {
          db = (claim_job locked now worker w.db).1;
          claims = add_claim worker (claim_job locked now worker w.db).0 w.claims;
        })
    heartbeat :
        (now : ℕ) (c : Claim) (w : World)
        → Step w (record w { db = (update_heartbeat now c.job_id c.worker w.db).1 })
    check :
        (check_run_id : ℕ) (c : Claim) (w : World)
        → Step w (record w { db = (set_check_run_id c.job_id check_run_id w.db).1 })
    finalize :
        (fresh now : ℕ) (passed : Bool) (feedback : Option Json) (c : Claim) (w : World)
        → Memᴰ c w.claims
        → Step w (record w {
          db = (finalize_job settings fresh now c.job_id c.fence (outcome passed) feedback w.db).1;
        })
    release :
        (now delay : ℕ) (c : Claim) (w : World)
        → Memᴰ c w.claims
        → Step w (record w { db = (release_job now c.job_id c.fence delay w.db).1 })
    reconcile :
        (locked : ℕ → Bool) (now : ℕ) (w : World)
        → Step w (record w { db = (reconcile_stale_jobs settings locked now w.db).1 })
    -- the tables beside the queue
    beside :
        (ts : List InstallationToken) (ss : List RepoSymbol) (rs : List RepoReference) (w : World)
        → Step w (record w {
          db = record w.db { installation_tokens = ts; repo_symbols = ss; repo_references = rs };
        })

  pub data Reach (s : World) : World → Type 0 where
    here : Reach s s
    next : {t u : World} → Reach s t → Step t u → Reach s u

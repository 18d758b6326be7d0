-- ===== src/Worker/Slots.antt =====
-- `run_forever`, `_safe_process_job` and `shutdown`: the slots of one worker. A state is what the
-- worker keeps, between two points where its loop or a task waits. Signal handlers, sleeps and the
-- reconciliation task are left out.
pub mod Balanced
pub mod Released
mod Tests
use revix.Prelude.{
  ℕ, ◌+◌, ◌-◌, ◌≤◌, ◌≡◌, Text, Bool, true, false, Option, none, some, List, [], ◌∷◌, ◌++◌, any,
  length, ◌==◌, if◌then◌else◌, update_where, delete_where,
}
use revix.Effects.{Result, ok, raised, Exception}
use revix.Schema.{Job, Db}
use revix.Queue.Claim.{claim_job}
use revix.Queue.Release.{release_job}

-- where the loop is: before or in `acquire`, with a permit, or past its end
pub data Phase : Type 0 where
  waiting holding stopped : Phase

-- an item of `_active_jobs`
pub record Entry : Type 0 where
  pub job_id : ℕ
  pub fence_token : ℕ

-- `permits` is the value of the semaphore, and `tasks` the jobs that are in `_safe_process_job`.
pub record Worker : Type 0 where
  pub running : Bool
  pub permits : ℕ
  pub phase : Phase
  pub tasks : List Job
  pub active : List Entry

unfoldable pub start_worker : (concurrency : ℕ) → Worker
start_worker n = record { running = true; permits = n; phase = waiting; tasks = []; active = [] }

unfoldable pub stop : Worker → Worker
stop s = record s { running = false }

abbrev pub is_entry : ℕ → Entry → Bool
is_entry i e = e.job_id == i

-- `d[key] = value`
unfoldable pub set_entry : Entry → List Entry → List Entry
unfolding update_where
set_entry e es =
    if any (is_entry e.job_id) es
    then update_where (is_entry e.job_id) (λ _. e) es
    else es ++ (e ∷ [])

-- `acquire` returned, and `running` is looked at again.
unfoldable pub on_acquired : Worker → Worker
on_acquired s =
    if s.running
    then record s { permits = s.permits - 1; phase = holding }
    else record s { phase = stopped }

-- `claim_job` returned: a task starts, or the permit is given back.
unfoldable pub on_claimed : Result (Option Job) → Worker → Worker
unfolding set_entry
on_claimed (ok (some j)) s = record s {
  phase = waiting;
  tasks = s.tasks ++ (j ∷ []);
  active = set_entry (record { job_id = j.id; fence_token = j.fence_token }) s.active;
}
on_claimed (ok none) s = record s { permits = s.permits + 1; phase = waiting }
on_claimed (raised e) s = record s {
  permits = if s.running then s.permits + 1 else s.permits;
  phase = waiting;
}

-- the `finally` of the task of `j`, which stands between two lists of tasks
unfoldable pub on_done : (before : List Job) (j : Job) (after : List Job) → Worker → Worker
unfolding delete_where
on_done before j after s = record s {
  permits = s.permits + 1;
  tasks = before ++ after;
  active = delete_where (is_entry j.id) s.active;
}

-- The worker with the database, which others change too.
pub data Step : Worker × Db → Worker × Db → Type 0 where
  -- `stop` may have come while the loop was in `acquire`
  acquire :
      (s : Worker) (db : Db) → s.phase ≡ waiting → 1 ≤ s.permits → Step (s, db) (on_acquired s, db)
  claim :
      (locked : ℕ → Bool) (now : ℕ) (worker : Text) (s : Worker) (db : Db)
      → s.phase ≡ holding
      → Step
          (s, db)
          (on_claimed (claim_job locked now worker db).0 s, (claim_job locked now worker db).1)
  -- the call raised, with nothing written
  fail :
      (e : Exception) (s : Worker) (db : Db)
      → s.phase ≡ holding
      → Step (s, db) (on_claimed (raised e) s, db)
  leave :
      (s : Worker) (db : Db)
      → s.phase ≡ waiting
      → s.running ≡ false
      → Step (s, db) (record s { phase = stopped }, db)
  interrupt : (s : Worker) (db : Db) → Step (s, db) (stop s, db)
  done :
      (before : List Job) (j : Job) (after : List Job) (s : Worker) (db : Db)
      → s.tasks ≡ before ++ (j ∷ after)
      → Step (s, db) (on_done before j after s, db)
  -- a task or another process works on the database
  work : (s : Worker) (db db' : Db) → Step (s, db) (s, db')

pub data Reach (s : Worker × Db) : Worker × Db → Type 0 where
  here : Reach s s
  next : {t u : Worker × Db} → Reach s t → Step t u → Reach s u

-- The releases of `shutdown`. `commits` tells which of the transactions go through; what the others
-- raise is logged.
unfoldable pub release_all : (commits : Entry → Bool) (now : ℕ) → List Entry → Db → Db
unfolding release_job
release_all commits now [] db = db
release_all commits now (e ∷ es) db =
    release_all commits now es
      (if commits e then (release_job now e.job_id e.fence_token 0 db).1 else db)

-- `shutdown`, after the wait for the tasks: those that are left are cancelled, and none of them
-- works on the database again.
unfoldable pub shutdown : (commits : Entry → Bool) (now : ℕ) → Worker → Db → Db
unfolding release_all
shutdown commits now s db = release_all commits now s.active db

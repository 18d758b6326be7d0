-- ===== src/Queue/Recovery.antt =====
-- Jobs of workers that died, and the two places where a live job is lost.
use revix.Prelude.{
  ℕ, ◌+◌, ◌*◌, ◌≤◌, ◌<◌, Text, ◌≡◌, refl, sym, ap, subst, ◌≢◌, inl, inr, Bool, true, false, ◌&&◌,
  Option, none, some, List, [], ◌∷◌, Memᴰ, arith, any, All, All-map, All-mem, if◌then◌else◌,
  Bool-cases, update_where, map, mem-update_where, mem-select_where, any-delete_where,
  update_where-none,
}
use revix.Effects.{Result, ok, OnOk}
use revix.Config.{Settings}
use revix.Schema.{pending, dead, is_processing, Job, Heartbeat, Db}
use revix.Queue.Rows.{has_fence, beats_for, drop_heartbeat}
use revix.Queue.Selection.{IsBest, IsFirst, IsTaken, next_job-IsBest, next_job-IsTaken}
use revix.Queue.Claim.{is_due, is_open, next_job, start, claim_next, claim_job}
use revix.Queue.Fencing.{not_fence}
use revix.Queue.Release.{requeue, release_job}
use revix.Queue.Reconcile.{
  is_stale, is_exhausted, is_expired, reclaim, expire, reconcile_stale_jobs,
}

-- what `claim_job` gives, against the table
abbrev pub Claims : (locked : ℕ → Bool) (now : ℕ) → Text → List Job → Result (Option Job) → Type 0
Claims locked now w jobs (Result.ok (some row)) =
    (j : Job) × (row ≡ start now w j)
    × Memᴰ j jobs
    × (is_open locked now j ≡ true)
    × IsFirst locked now jobs j
Claims locked now w jobs (Result.ok none) = All (λ j. is_open locked now j ≡ false) jobs
Claims locked now w jobs (Result.raised e) = ⊥

-- `claim_job` never fails. It returns a job of the table, as started, that was pending, due, with
-- attempts left and not locked, such that no other such job comes before it by priority and age;
-- it returns nothing only if the table has no such job.
pub claim_job-Claims :
    (locked : ℕ → Bool) (now : ℕ) (w : Text) (db : Db)
    → Claims locked now w db.jobs (claim_job locked now w db).0
unfolding claim_job
claim_job-Claims locked now w db =
    go (next_job locked now db.jobs) (next_job-IsBest locked now db.jobs)
      (next_job-IsTaken locked now db.jobs)
  where
    go :
        (o : Option Job)
        → IsBest locked now db.jobs o
        → ((j : Job) → o ≡ some j → IsTaken locked now db.jobs j)
        → Claims locked now w db.jobs (claim_next now w o db).0
    go none best taken = best
    go (some j) best taken = (j, refl, (taken j refl).0, (taken j refl).1, best)

pub claim_job-ne-none :
    (locked : ℕ → Bool) (now : ℕ) (w : Text) (db : Db) (j : Job)
    → Memᴰ j db.jobs
    → is_open locked now j ≡ true
    → (claim_job locked now w db).0 ≢ ok none
claim_job-ne-none locked now w db j m o e =
    let shut =
      All-mem (λ k. is_open locked now k ≡ false) db.jobs
        (subst (Claims locked now w db.jobs) e (claim_job-Claims locked now w db)) m in
    absurd (cc (o, shut))

-- A row that the reconciliation finds stale, after its two updates.
reconciled_row :
    (settings : Settings) (locked : ℕ → Bool) (now : ℕ) (db : Db) (j : Job)
    → Memᴰ j db.jobs
    → is_stale locked now settings.worker_heartbeat_stale_seconds db.worker_heartbeats j ≡ true
    → let k = reclaim now settings.worker_retry_backoff_seconds j in
      Memᴰ
        (if is_expired now k then expire k else k)
        (reconcile_stale_jobs settings locked now db).1.jobs
unfolding reconcile_stale_jobs
reconciled_row settings locked now db j m s =
    let stale = is_stale locked now settings.worker_heartbeat_stale_seconds db.worker_heartbeats in
    let recover = reclaim now settings.worker_retry_backoff_seconds in
    mem-update_where (is_expired now) expire (update_where stale recover db.jobs)
      (rw s at (mem-update_where stale recover db.jobs m))

reclaimed_open :
    (locked : ℕ → Bool) (now backoff t : ℕ) (j : Job)
    → is_exhausted j ≡ false
    → now + backoff * j.attempt_count ≤ t
    → locked j.id ≡ false
    → is_open locked t (reclaim now backoff j) ≡ true
unfolding reclaim is_open is_due
reclaimed_open locked now backoff t j e late free = rw (e, free) (ground arith)

not_expired :
    (now backoff : ℕ) (j : Job)
    → now ≤ j.created_at + 3600
    → is_expired now (reclaim now backoff j) ≡ false
unfolding reclaim
not_expired now backoff j h = elim (Bool-cases (is_exhausted j)) [
  | inl e ↦ rw e refl
  | inr e ↦ rw e (ground arith)
]

-- A running job that is not locked, whose heartbeat is missing or old, with attempts left and at
-- most an hour old: `reconcile_stale_jobs` puts it back with a fence token higher by one, and at
-- any time from the end of its backoff on, while no other transaction has it locked, `claim_job`
-- by any worker does not come back empty.
pub dead_worker_recovered :
    (settings : Settings) (locked locked' : ℕ → Bool) (now t : ℕ) (w : Text) (db : Db) (j : Job)
    → Memᴰ j db.jobs
    → is_stale locked now settings.worker_heartbeat_stale_seconds db.worker_heartbeats j ≡ true
    → is_exhausted j ≡ false
    → now ≤ j.created_at + 3600
    → now + settings.worker_retry_backoff_seconds * j.attempt_count ≤ t
    → locked' j.id ≡ false
    → let k = reclaim now settings.worker_retry_backoff_seconds j in
      let db' = (reconcile_stale_jobs settings locked now db).1 in
      Memᴰ k db'.jobs
      × (k.fence_token ≡ j.fence_token + 1)
      × ((claim_job locked' t w db').0 ≢ ok none)
unfolding reclaim
dead_worker_recovered settings locked locked' now t w db j m s left young due free =
    let back =
      rw (not_expired now settings.worker_retry_backoff_seconds j young) at
        (reconciled_row settings locked now db j m s) in
    (
      back,
      refl,
      claim_job-ne-none locked' t w _ _ back
          (reclaimed_open locked' now settings.worker_retry_backoff_seconds t j left due free),
    )

mem-map : {A B : Type 0} (f : A → B) (xs : List A) {x : A} → Memᴰ x xs → Memᴰ (f x) (map f xs)
mem-map f [] m = elim m [ ]
mem-map f (y ∷ ys) (Memᴰ.head e) = Memᴰ.head (ap f e)
mem-map f (y ∷ ys) (Memᴰ.tail m) = Memᴰ.tail (mem-map f ys m)

returned_row :
    (settings : Settings) (locked : ℕ → Bool) (now : ℕ) (db : Db) (j : Job)
    → Memᴰ j db.jobs
    → is_stale locked now settings.worker_heartbeat_stale_seconds db.worker_heartbeats j ≡ true
    → OnOk
        (λ rs. Memᴰ (reclaim now settings.worker_retry_backoff_seconds j) rs)
        (reconcile_stale_jobs settings locked now db).0
unfolding reconcile_stale_jobs
returned_row settings locked now db j m s = mem-map _ _ (mem-select_where _ db.jobs m s)

-- A running job that is stale, with attempts left and more than an hour old:
-- `reconcile_stale_jobs` returns its row as pending, and leaves it dead in the table.
pub old_retry_buried :
    (settings : Settings) (locked : ℕ → Bool) (now : ℕ) (db : Db) (j : Job)
    → Memᴰ j db.jobs
    → is_stale locked now settings.worker_heartbeat_stale_seconds db.worker_heartbeats j ≡ true
    → is_exhausted j ≡ false
    → j.created_at + 3600 < now
    → let k = reclaim now settings.worker_retry_backoff_seconds j in
      let rows = (reconcile_stale_jobs settings locked now db).0 in
      let db' = (reconcile_stale_jobs settings locked now db).1 in
      (k.status ≡ pending)
      × OnOk (λ rs. Memᴰ k rs) rows
      × ((expire k).status ≡ dead)
      × Memᴰ (expire k) db'.jobs
unfolding reclaim expire
old_retry_buried settings locked now db j m s left old =
    let k = reclaim now settings.worker_retry_backoff_seconds j in
    let p : k.status ≡ pending = rw left refl in
    let e : is_expired now k ≡ true = rw p (ground arith) in
    (
      p,
      returned_row settings locked now db j m s,
      refl,
      rw e at (reconciled_row settings locked now db j m s),
    )

released_false :
    (i f : ℕ) (j : Job)
    → (j.id ≡ i → j.fence_token ≢ f)
    → (has_fence i f j && is_processing j.status) ≡ false
released_false i f j h = rw (not_fence i f j h) refl

no_beat_stale :
    (locked : ℕ → Bool) (now stale : ℕ) (hs : List Heartbeat) (j : Job)
    → is_processing j.status ≡ true
    → locked j.id ≡ false
    → any (beats_for j.id) hs ≡ false
    → is_stale locked now stale hs j ≡ true
no_beat_stale locked now stale hs j p l b = rw (p, b, l) refl

-- `release_job` with a token that is not the job's current one leaves every job as it is, and still
-- deletes the heartbeat of the worker that runs the job now.
pub stale_release_drops_heartbeat :
    (now i f delay : ℕ) (db : Db)
    → All (λ (j : Job). j.id ≡ i → j.fence_token ≢ f) db.jobs
    → let db' = (release_job now i f delay db).1 in
      (db'.jobs ≡ db.jobs) × (any (beats_for i) db'.worker_heartbeats ≡ false)
unfolding release_job drop_heartbeat
stale_release_drops_heartbeat now i f delay db old = (
  update_where-none _ (requeue now delay) db.jobs
      (All-map _ _ db.jobs (λ j h. released_false i f j h) old),
  any-delete_where (beats_for i) db.worker_heartbeats,
)

-- `release_job` with a job id and a token that no row of that job has leaves a running, unlocked
-- job with that id as it is, but the job then counts as stale at any time: the call deletes the
-- heartbeat of the worker that runs the job now.
pub stale_release_loses_job :
    (locked : ℕ → Bool) (now i f delay now' stale : ℕ) (db : Db) (j : Job)
    → All (λ (j : Job). j.id ≡ i → j.fence_token ≢ f) db.jobs
    → Memᴰ j db.jobs
    → j.id ≡ i
    → is_processing j.status ≡ true
    → locked i ≡ false
    → let db' = (release_job now i f delay db).1 in
      Memᴰ j db'.jobs × (is_stale locked now' stale db'.worker_heartbeats j ≡ true)
stale_release_loses_job locked now i f delay now' stale db j old m same running free =
    let (kept, gone) = stale_release_drops_heartbeat now i f delay db old in
    (
      subst (λ js. Memᴰ j js) (sym kept) m,
      no_beat_stale locked now' stale _ j running (rw same free) (rw same gone),
    )

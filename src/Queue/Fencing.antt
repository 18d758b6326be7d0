-- ===== src/Queue/Fencing.antt =====
-- What the fence token promises over any run of the queue's transactions.
use revix.Prelude.{
  ℕ, ◌+◌, ◌≤◌, Json, ◌≡◌, refl, ◌∙◌, ap, ◌≢◌, inl, inr, Bool, true, false, Option, none, some, List,
  Memᴰ, arith, All, All-map, ◌==◌, ==_iff, Bool-cases, Distinct-mem, find_where, find_where-none,
  update_where-none,
}
use revix.Effects.{raised, transaction}
use revix.Config.{Settings}
use revix.Schema.{Status, dead, success, failure, is_pending, is_processing, Job, Db}
use revix.Queue.Rows.{has_fence}
use revix.Queue.Claim.{start}
use revix.Queue.Heartbeats.{set_check_run}
use revix.Queue.Finalize.{close, stale_fence, commit_review, finalize_job}
use revix.Queue.Release.{requeue}
use revix.Queue.Reconcile.{reclaim, expire}
use revix.Queue.Workers.{Claim, World, outcome, Reach}
use revix.Queue.Tracking.{IsStable, Tracks, Reach-Tracks}
use revix.Queue.Ownership.{IsFenced, is_owned, Reach-IsFenced, token}

pub not_fence : (i f : ℕ) (j : Job) → (j.id ≡ i → j.fence_token ≢ f) → has_fence i f j ≡ false
not_fence i f j h = elim (Bool-cases (j.id == i)) [
  | inl e ↦ elim (Bool-cases (j.fence_token == f)) [
    | inl e' ↦ absurd (h ((==_iff _ _).0 e) ((==_iff _ _).0 e'))
    | inr e' ↦ rw (e, e') refl
  ]
  | inr e ↦ rw e refl
]

commit_none :
    (settings : Settings) (fresh now i f : ℕ) (feedback : Option Json) (o : Option Job)
    (jobs : List Job) (db : Db)
    → o ≡ none
    → jobs ≡ db.jobs
    → transaction
        (λ d. commit_review settings fresh now i f feedback o (record d { jobs = jobs }))
        db
      ≡ (raised (stale_fence i f), db)
unfolding commit_review
commit_none settings fresh now i f feedback none jobs db e same = refl
commit_none settings fresh now i f feedback (some j) jobs db e same = cc

-- A finalization with a token that no row of the job has raises, and changes nothing.
pub finalize_stale :
    (settings : Settings) (fresh now i f : ℕ) (s : Status) (feedback : Option Json) (db : Db)
    → All (λ (j : Job). j.id ≡ i → j.fence_token ≢ f) db.jobs
    → finalize_job settings fresh now i f s feedback db ≡ (raised (stale_fence i f), db)
unfolding finalize_job
finalize_stale settings fresh now i f s feedback db old =
    let fits = All-map _ (λ j. has_fence i f j ≡ false) db.jobs (λ j h. not_fence i f j h) old in
    let same = update_where-none (has_fence i f) (close now s feedback) db.jobs fits in
    commit_none settings fresh now i f feedback _ _ db
      (ap (find_where (has_fence i f)) same ∙ find_where-none (has_fence i f) db.jobs fits) same

-- The fence token of a job never falls.
ahead-IsStable : (f : ℕ) → IsStable (λ j. f ≤ j.fence_token)
unfolding start close requeue reclaim expire set_check_run
ahead-IsStable f = record {
  started = λ now w j e h. h;
  closed = λ now passed feedback j e h. h;
  requeued = λ now delay j e h. omega arith;
  reclaimed = λ now backoff j e h. omega arith;
  expired = λ j e h. h;
  checked = λ r j h. h;
}

-- From a state that keeps the invariant of the tokens: once the fence token of job `i` is beyond
-- `f`, then after any run of the workers' transactions `finalize_job` with job `i` and token `f`
-- raises the stale fence error and leaves the database as it is.
pub stale_commit_rejected :
    (settings : Settings) (w w' : World) (i f : ℕ) (fresh now : ℕ) (s : Status)
    (feedback : Option Json)
    → IsFenced w
    → Tracks i (λ j. f + 1 ≤ j.fence_token) w.db.jobs
    → Reach settings w w'
    → finalize_job settings fresh now i f s feedback w'.db ≡ (raised (stale_fence i f), w'.db)
stale_commit_rejected settings w w' i f fresh now s feedback fenced t r =
    finalize_stale settings fresh now i f s feedback w'.db (
      All-map _ _ w'.db.jobs (λ j h e same. absurd (omega (arith, h e)))
        (Reach-Tracks i _ (ahead-IsStable (f + 1)) r fenced t).0)

-- From a state that keeps the invariant of the tokens, after any run of the workers'
-- transactions, two tokens that `claim_job` has handed out for one job with one fence are the
-- same token of the same worker.
pub one_owner :
    (settings : Settings) (w w' : World) (c d : Claim)
    → IsFenced w
    → Reach settings w w'
    → Memᴰ c w'.claims
    → Memᴰ d w'.claims
    → c.job_id ≡ d.job_id
    → c.fence ≡ d.fence
    → c ≡ d
one_owner settings w w' c d fenced r m n same_job same_fence =
    Distinct-mem token w'.claims (Reach-IsFenced r fenced).once m n
      (λ k. (same_job k, same_fence k))

dead-IsStable : IsStable (λ j. j.status ≡ dead)
unfolding start close requeue reclaim expire set_check_run
dead-IsStable = record {
  started = λ now w j e h. absurd (cc (e, ap is_pending h));
  closed = λ now passed feedback j e h. absurd (cc (e, ap is_owned h));
  requeued = λ now delay j e h. absurd (cc (e, ap is_processing h));
  reclaimed = λ now backoff j e h. absurd (cc (e, ap is_processing h));
  expired = λ j e h. refl;
  checked = λ r j h. h;
}

-- From a state that keeps the invariant of the tokens: a dead job is still dead after any run of
-- the workers' transactions, by workers with old tokens also.
pub dead_is_final :
    (settings : Settings) (w w' : World) (i : ℕ)
    → IsFenced w
    → Tracks i (λ j. j.status ≡ dead) w.db.jobs
    → Reach settings w w'
    → Tracks i (λ j. j.status ≡ dead) w'.db.jobs
dead_is_final settings w w' i fenced t r = Reach-Tracks i _ dead-IsStable r fenced t

abbrev pub is_done : Status → Bool
is_done success = true
is_done failure = true
is_done _ = false

done_apart : (s : Status) → is_done s ≡ true → (is_pending s ≡ false) × (is_processing s ≡ false)
done_apart s h = ground arith

-- The fence of a finished job, and that it is finished.
done-IsStable : (f : ℕ) → IsStable (λ j. (is_done j.status ≡ true) × (j.fence_token ≡ f))
unfolding start close requeue reclaim expire set_check_run
done-IsStable f = record {
  started = λ now w j e h. absurd (cc (e, (done_apart j.status h.0).0));
  closed = λ now passed feedback j e h. (done_outcome passed, h.1);
  requeued = λ now delay j e h. absurd (cc (e, (done_apart j.status h.0).1));
  reclaimed = λ now backoff j e h. absurd (cc (e, (done_apart j.status h.0).1));
  expired = λ j e h. absurd (cc (e, (done_apart j.status h.0).0));
  checked = λ r j h. h;
}
  where
    done_outcome : (passed : Bool) → is_done (outcome passed) ≡ true
    done_outcome true = refl
    done_outcome false = refl

-- From a state that keeps the invariant of the tokens: a job that is finished, with a success or
-- a failure, is still finished and has the same fence token after any run of the workers'
-- transactions.
pub done_is_final :
    (settings : Settings) (w w' : World) (i f : ℕ)
    → IsFenced w
    → Tracks i (λ j. (is_done j.status ≡ true) × (j.fence_token ≡ f)) w.db.jobs
    → Reach settings w w'
    → Tracks i (λ j. (is_done j.status ≡ true) × (j.fence_token ≡ f)) w'.db.jobs
done_is_final settings w w' i f fenced t r = Reach-Tracks i _ (done-IsStable f) r fenced t

-- ===== src/Queue/Ownership.antt =====
-- The invariant of the workers' tokens, and its preservation by every transaction.
use revix.Prelude.{
  ℕ, ◌≤◌, Text, Json, ◌≡◌, refl, sym, ◌∙◌, ap, subst, ◌≢◌, inl, inr, Bool, true, false, Option,
  none, some, List, [], ◌∷◌, arith, any, All, All-append, All-map, ◌==◌, ==_iff, ==_refl,
  Bool-cases, update_where, All-update_where, All-update_where_split, All-mem, Distinct,
  Distinct-mem, any-mem, any-append_left, any-update_where,
}
use revix.Effects.{Result, ok, raised, transaction}
use revix.Config.{Settings}
use revix.Schema.{Status, pending, dead, is_pending, Job, ReviewRecord, Db}
use revix.Queue.Rows.{has_id, has_sha, has_fence}
use revix.Queue.Constraints.{
  IsValid, enqueue_if_new-IsValid, claim_next-IsValid, update_heartbeat-IsValid,
  set_check_run_id-IsValid, finalize_job-IsValid, release_job-IsValid, reconcile_stale_jobs-IsValid,
  beside-IsValid,
}
use revix.Queue.Selection.{IsTaken, next_job-IsTaken}
use revix.Queue.Enqueue.{Request, new_job, reviews_sha, enqueue_if_new}
use revix.Queue.Claim.{is_due, is_open, next_job, start, claim_next, claim_job}
use revix.Queue.Heartbeats.{update_heartbeat, set_check_run, set_check_run_id}
use revix.Queue.Finalize.{close, store_reviews, commit_review, finalize_block, finalize_job}
use revix.Queue.Release.{requeue, release_job}
use revix.Queue.Reconcile.{reclaim, is_stale, is_expired, expire, reconcile_stale_jobs}
use revix.Queue.Workers.{Claim, World, add_claim, outcome, Step, Reach}

-- The statuses of a job that some worker runs or has finished.
abbrev pub is_owned : Status → Bool
is_owned pending = false
is_owned dead = false
is_owned _ = true

-- A token that was handed out for a job is not ahead of it, and where it is the job's current one
-- the job is neither waiting nor dead.
abbrev pub Holds : Claim → Job → Type 0
Holds c j =
    j.id ≡ c.job_id
    → (c.fence ≤ j.fence_token) × (c.fence ≡ j.fence_token → is_owned j.status ≡ true)

abbrev pub IsHeld : List Job → Claim → Type 0
IsHeld jobs c = All (Holds c) jobs × (any (has_id c.job_id) jobs ≡ true)

abbrev pub token : Claim → ℕ × ℕ
token c = (c.job_id, c.fence)

pub record IsFenced (w : World) : Type 0 where
  pub valid : IsValid w.db
  pub held : All (IsHeld w.db.jobs) w.claims
  pub once : Distinct token w.claims

-- An UPDATE that keeps the ids, and what is known of the tokens row by row.
update-IsHeld :
    (p : Job → Bool) (f : Job → Job) (jobs : List Job) (cs : List Claim)
    → ((j : Job) → (f j).id ≡ j.id)
    → ((c : Claim) (j : Job) → Holds c j → p j ≡ true → Holds c (f j))
    → All (IsHeld jobs) cs
    → All (IsHeld (update_where p f jobs)) cs
update-IsHeld p f jobs cs same keep = All-map _ _ cs λ c (h, known). (
  All-update_where (Holds c) p f jobs (keep c) h,
  any-update_where (has_id c.job_id) p f jobs (λ j. ap (λ i. i == c.job_id) (same j)) ∙ known,
)

requeue-Holds : (now delay : ℕ) (c : Claim) (j : Job) → Holds c j → Holds c (requeue now delay j)
unfolding requeue
requeue-Holds now delay c j h e = grind (arith, h e)

reclaim-Holds :
    (now backoff : ℕ) (c : Claim) (j : Job) → Holds c j → Holds c (reclaim now backoff j)
unfolding reclaim
reclaim-Holds now backoff c j h e = grind (arith, h e)

pub pending_unowned : (s : Status) → is_pending s ≡ true → is_owned s ≡ true → ⊥
pending_unowned pending h o = cc
pending_unowned _ h o = cc

pub expired_pending : (now : ℕ) (j : Job) → is_expired now j ≡ true → is_pending j.status ≡ true
expired_pending now j h = ground arith

expire-Holds :
    (now : ℕ) (c : Claim) (j : Job) → Holds c j → is_expired now j ≡ true → Holds c (expire j)
unfolding expire
expire-Holds now c j h late e =
    ((h e).0, λ f. absurd (pending_unowned j.status (expired_pending now j late) ((h e).1 f)))

start-Holds : (now : ℕ) (w : Text) (c : Claim) (j : Job) → Holds c j → Holds c (start now w j)
unfolding start
start-Holds now w c j h e = ((h e).0, λ _. refl)

close-Holds :
    (now : ℕ) (passed : Bool) (feedback : Option Json) (c : Claim) (j : Job)
    → Holds c j
    → Holds c (close now (outcome passed) feedback j)
unfolding close
close-Holds now true feedback c j h e = ((h e).0, λ _. refl)
close-Holds now false feedback c j h e = ((h e).0, λ _. refl)

check-Holds : (r : ℕ) (c : Claim) (j : Job) → Holds c j → Holds c (set_check_run r j)
unfolding set_check_run
check-Holds r c j h = h

-- A new job has an id that no token names.
enqueue-IsHeld :
    (r : Request) (db : Db) (cs : List Claim)
    → All (IsHeld db.jobs) cs
    → All (IsHeld (enqueue_if_new r db).1.jobs) cs
unfolding enqueue_if_new new_job
enqueue-IsHeld r db cs h = elim (Bool-cases (any (reviews_sha r.sha) db.review_records)) [
  | inl e ↦ rw e h
  | inr e ↦ elim (Bool-cases (any (has_sha r.sha) db.jobs)) [
    | inl s ↦ rw (e, s) h
    | inr s ↦ elim (Bool-cases (any (has_id r.fresh) db.jobs)) [
      | inl i ↦ rw (e, s, i) h
      | inr i ↦
          rw (e, s, i)
            (All-map (IsHeld db.jobs) _ cs
              (λ c (holds, known). (
                All-append (Holds c) db.jobs (new_job r ∷ []) holds
                    ((λ n. absurd (cc (i, known))), tt),
                any-append_left (has_id c.job_id) db.jobs (new_job r ∷ []) known,
              ))
              h)
    ]
  ]
]

pub set_check_run-id : (r : ℕ) (j : Job) → (set_check_run r j).id ≡ j.id
unfolding set_check_run
set_check_run-id r j = refl

pub close-id :
    (now : ℕ) (s : Status) (feedback : Option Json) (j : Job) → (close now s feedback j).id ≡ j.id
unfolding close
close-id now s feedback j = refl

pub start-id : (now : ℕ) (w : Text) (j : Job) → (start now w j).id ≡ j.id
unfolding start
start-id now w j = refl

pub requeue-id : (now delay : ℕ) (j : Job) → (requeue now delay j).id ≡ j.id
unfolding requeue
requeue-id now delay j = refl

pub reclaim-id : (now backoff : ℕ) (j : Job) → (reclaim now backoff j).id ≡ j.id
unfolding reclaim
reclaim-id now backoff j = refl

pub expire-id : (j : Job) → (expire j).id ≡ j.id
unfolding expire
expire-id j = refl

pub update_heartbeat-jobs :
    (now i : ℕ) (w : Text) (db : Db) → (update_heartbeat now i w db).1.jobs ≡ db.jobs
unfolding update_heartbeat
update_heartbeat-jobs now i w db = ground arith

store_reviews-jobs :
    (i : ℕ) (u : Result (List ReviewRecord)) (db : Db) → (store_reviews i u db).1.jobs ≡ db.jobs
unfolding store_reviews
store_reviews-jobs i (ok rs) db = refl
store_reviews-jobs i (raised e) db = refl

commit_review-jobs :
    (settings : Settings) (fresh now i f : ℕ) (feedback : Option Json) (o : Option Job) (db : Db)
    → (commit_review settings fresh now i f feedback o db).1.jobs ≡ db.jobs
unfolding commit_review
commit_review-jobs settings fresh now i f feedback none db = refl
commit_review-jobs settings fresh now i f feedback (some j) db = store_reviews-jobs i _ db

finalize_block-jobs :
    (settings : Settings) (fresh now i f : ℕ) (s : Status) (feedback : Option Json) (db : Db)
    → (finalize_block settings fresh now i f s feedback db).1.jobs
      ≡ update_where (has_fence i f) (close now s feedback) db.jobs
unfolding finalize_block
finalize_block-jobs settings fresh now i f s feedback db =
    commit_review-jobs settings fresh now i f feedback _ _

transaction_ind :
    {A : Type 0} (P : Db → Type 0) (m : Db → Result A × Db) (db : Db)
    → P db
    → P (m db).1
    → P (transaction m db).1
transaction_ind P m db old new = go (m db).0 refl
  where
    go : (r : Result _) → (m db).0 ≡ r → P (transaction m db).1
    go (ok a) e = rw (e, transaction) new
    go (raised x) e = rw (e, transaction) old

-- A job's rows after `finalize_job` are the old ones, or those that its UPDATE wrote.
pub finalize_job_ind :
    (P : List Job → Type 0) (settings : Settings) (fresh now i f : ℕ) (s : Status)
    (feedback : Option Json) (db : Db)
    → P db.jobs
    → P (update_where (has_fence i f) (close now s feedback) db.jobs)
    → P (finalize_job settings fresh now i f s feedback db).1.jobs
unfolding finalize_job
finalize_job_ind P settings fresh now i f s feedback db old new =
    transaction_ind (λ d. P d.jobs) (finalize_block settings fresh now i f s feedback) db old
      (subst P (sym (finalize_block-jobs settings fresh now i f s feedback db)) new)

abbrev as_claim : Text → Job → Claim
as_claim w j = record { worker = w; job_id = j.id; fence = j.fence_token }

-- The token of a job that is claimed is the job's current one, and now the job is running.
new_claim-IsHeld :
    (locked : ℕ → Bool) (now : ℕ) (w : Text) (db : Db) (j : Job)
    → IsValid db
    → IsTaken locked now db.jobs j
    → IsHeld (update_where (has_id j.id) (start now w) db.jobs) (as_claim w j)
unfolding start
new_claim-IsHeld locked now w db j v (m, o) = (
  All-update_where_split (Holds (as_claim w j)) (has_id j.id) (start now w) db.jobs
      (λ k n e _.
        let same = Distinct-mem (λ (x : Job). x.id) db.jobs v.ids n m ((==_iff k.id j.id).0 e) in
        (rw same (omega arith), λ _. refl))
      (λ k n e same. absurd (cc (e, (==_iff k.id j.id).1 same))),
  any-update_where (has_id j.id) (has_id j.id) (start now w) db.jobs (λ k. refl)
      ∙ any-mem (has_id j.id) db.jobs m (==_refl j.id),
)

pub open_pending :
    (locked : ℕ → Bool) (now : ℕ) (j : Job)
    → is_open locked now j ≡ true
    → is_pending j.status ≡ true
unfolding is_open is_due
open_pending locked now j o = ground arith

-- No token that was handed out before is the current one of a job that waits.
new_claim_once :
    (locked : ℕ → Bool) (now : ℕ) (w : Text) (jobs : List Job) (cs : List Claim) (j : Job)
    → IsTaken locked now jobs j
    → All (IsHeld jobs) cs
    → All (λ c. token c ≢ token (as_claim w j)) cs
new_claim_once locked now w jobs cs j (m, o) = All-map _ _ cs λ c (h, _) e.
    let held = All-mem (Holds c) jobs h m (sym (ap (λ (t : ℕ × ℕ). t.0) e)) in
    pending_unowned j.status (open_pending locked now j o) (held.1 (ap (λ (t : ℕ × ℕ). t.1) e))

claim_next-IsFenced :
    (locked : ℕ → Bool) (now : ℕ) (worker : Text) (o : Option Job) (w : World)
    → ((j : Job) → o ≡ some j → IsTaken locked now w.db.jobs j)
    → IsFenced w
    → IsFenced (record {
      db = (claim_next now worker o w.db).1;
      claims = add_claim worker (claim_next now worker o w.db).0 w.claims;
    })
unfolding claim_next start
claim_next-IsFenced locked now worker none w taken s = s
claim_next-IsFenced locked now worker (some j) w taken s = record {
  valid = claim_next-IsValid locked now worker (some j) w.db taken s.valid;
  held = (
    new_claim-IsHeld locked now worker w.db j s.valid (taken j refl),
    update-IsHeld (has_id j.id) (start now worker) w.db.jobs w.claims (λ k. refl)
        (λ c k h _. start-Holds now worker c k h) s.held,
  );
  once = (new_claim_once locked now worker w.db.jobs w.claims j (taken j refl) s.held, s.once);
}

with_db :
    (w : World) (db : Db)
    → IsFenced w
    → IsValid db
    → All (IsHeld db.jobs) w.claims
    → IsFenced (record w { db = db })
with_db w db s v h = record { valid = v; held = h; once = s.once }

-- Every transaction keeps the invariant.
pub Step-IsFenced :
    {settings : Settings} {w w' : World} → Step settings w w' → IsFenced w → IsFenced w'
unfolding claim_job release_job reconcile_stale_jobs set_check_run_id
Step-IsFenced {settings = settings} (Step.enqueue r w) s =
    with_db w _ s (enqueue_if_new-IsValid r w.db s.valid) (enqueue-IsHeld r w.db w.claims s.held)
Step-IsFenced {settings = settings} (Step.claim locked now worker w) s =
    claim_next-IsFenced locked now worker (next_job locked now w.db.jobs) w
      (next_job-IsTaken locked now w.db.jobs) s
Step-IsFenced {settings = settings} (Step.heartbeat now c w) s =
    with_db w _ s (update_heartbeat-IsValid now c.job_id c.worker w.db s.valid) (
      subst (λ js. All (IsHeld js) w.claims)
        (sym (update_heartbeat-jobs now c.job_id c.worker w.db)) s.held)
Step-IsFenced {settings = settings} (Step.check r c w) s =
    with_db w _ s (set_check_run_id-IsValid c.job_id r w.db s.valid) (
      update-IsHeld (has_id c.job_id) (set_check_run r) w.db.jobs w.claims (set_check_run-id r)
        (λ d j h _. check-Holds r d j h) s.held)
Step-IsFenced {settings = settings} (Step.finalize fresh now passed feedback c w m) s =
    with_db w _ s
      (finalize_job-IsValid settings fresh now c.job_id c.fence (outcome passed) feedback w.db
        s.valid)
      (finalize_job_ind (λ js. All (IsHeld js) w.claims) settings fresh now c.job_id c.fence
        (outcome passed) feedback w.db s.held
        (update-IsHeld (has_fence c.job_id c.fence) (close now (outcome passed) feedback) w.db.jobs
          w.claims (close-id now (outcome passed) feedback)
          (λ d j h _. close-Holds now passed feedback d j h) s.held))
Step-IsFenced {settings = settings} (Step.release now delay c w m) s =
    with_db w _ s (release_job-IsValid now c.job_id c.fence delay w.db s.valid) (
      update-IsHeld _ (requeue now delay) w.db.jobs w.claims (requeue-id now delay)
        (λ d j h _. requeue-Holds now delay d j h) s.held)
Step-IsFenced {settings = settings} (Step.reconcile locked now w) s =
    with_db w _ s (reconcile_stale_jobs-IsValid settings locked now w.db s.valid) (
      update-IsHeld (is_expired now) expire _ w.claims expire-id
        (λ d j h late. expire-Holds now d j h late)
        (update-IsHeld
          (is_stale locked now settings.worker_heartbeat_stale_seconds w.db.worker_heartbeats)
          (reclaim now settings.worker_retry_backoff_seconds) w.db.jobs w.claims
          (reclaim-id now settings.worker_retry_backoff_seconds)
          (λ d j h _. reclaim-Holds now settings.worker_retry_backoff_seconds d j h) s.held))
Step-IsFenced {settings = settings} (Step.beside ts ss rs w) s =
    with_db w _ s (beside-IsValid w.db ts ss rs s.valid) s.held

-- Every run of the workers' transactions keeps the invariant: the database satisfies the
-- constraints of its schema and the bound on attempts, every token handed out names a job of the
-- table whose fence token it does not exceed, a token that is current belongs to a job that is
-- running or finished, and no job and fence was handed out twice.
pub Reach-IsFenced :
    {settings : Settings} {w w' : World} → Reach settings w w' → IsFenced w → IsFenced w'
Reach-IsFenced Reach.here s = s
Reach-IsFenced (Reach.next r t) s = Step-IsFenced t (Reach-IsFenced r s)

-- ===== src/Queue/Tracking.antt =====
-- Facts about one job that every transaction of every worker keeps.
use revix.Prelude.{
  ℕ, Text, Json, ◌≡◌, refl, sym, ◌∙◌, ap, subst, inl, inr, Bool, true, ◌&&◌, Option, none, some,
  List, [], ◌∷◌, Memᴰ, arith, any, All, All-append, ◌==◌, ==_iff, Bool-cases, update_where,
  All-update_where_split, All-mem, Distinct-mem, any-update_where, any-append_left,
}
use revix.Config.{Settings}
use revix.Schema.{is_pending, is_processing, Job, Heartbeat, Db}
use revix.Queue.Rows.{has_id, has_sha, has_fence}
use revix.Queue.Constraints.{IsValid}
use revix.Queue.Selection.{IsTaken, next_job-IsTaken}
use revix.Queue.Enqueue.{Request, new_job, reviews_sha, enqueue_if_new}
use revix.Queue.Claim.{next_job, start, claim_next, claim_job}
use revix.Queue.Heartbeats.{set_check_run, set_check_run_id}
use revix.Queue.Finalize.{close}
use revix.Queue.Release.{requeue, release_job}
use revix.Queue.Reconcile.{reclaim, is_stale, is_expired, expire, reconcile_stale_jobs}
use revix.Queue.Workers.{Claim, World, outcome, Step, Reach}
use revix.Queue.Ownership.{
  IsFenced, Holds, IsHeld, is_owned, open_pending, expired_pending, Reach-IsFenced,
  finalize_job_ind, set_check_run-id, close-id, requeue-id, reclaim-id, expire-id,
  update_heartbeat-jobs, start-id,
}

-- What each UPDATE of the queue keeps, under the tests that guard it.
pub record IsStable (Q : Job → Type 0) : Type 0 where
  pub started :
      (now : ℕ) (w : Text) (j : Job) → is_pending j.status ≡ true → Q j → Q (start now w j)
  pub closed :
      (now : ℕ) (passed : Bool) (feedback : Option Json) (j : Job)
      → is_owned j.status ≡ true
      → Q j
      → Q (close now (outcome passed) feedback j)
  pub requeued :
      (now delay : ℕ) (j : Job) → is_processing j.status ≡ true → Q j → Q (requeue now delay j)
  pub reclaimed :
      (now backoff : ℕ) (j : Job) → is_processing j.status ≡ true → Q j → Q (reclaim now backoff j)
  pub expired : (j : Job) → is_pending j.status ≡ true → Q j → Q (expire j)
  pub checked : (r : ℕ) (j : Job) → Q j → Q (set_check_run r j)

pub has_fence-eq : (i f : ℕ) (j : Job) → has_fence i f j ≡ true → (j.id ≡ i) × (j.fence_token ≡ f)
has_fence-eq i f j h = ground arith

fits_owned :
    (c : Claim) (j : Job)
    → Holds c j
    → has_fence c.job_id c.fence j ≡ true
    → is_owned j.status ≡ true
fits_owned c j h e =
    let (same_id, same_fence) = has_fence-eq c.job_id c.fence j e in (h same_id).1 (sym same_fence)

fits_processing :
    (i f : ℕ) (j : Job)
    → (has_fence i f j && is_processing j.status) ≡ true
    → is_processing j.status ≡ true
fits_processing i f j h = ground arith

stale_processing :
    (locked : ℕ → Bool) (now stale : ℕ) (hs : List Heartbeat) (j : Job)
    → is_stale locked now stale hs j ≡ true
    → is_processing j.status ≡ true
stale_processing locked now stale hs j h = ground arith

-- There is a job with the id `i`, and `Q` holds of it.
abbrev pub Tracks : ℕ → (Job → Type 0) → List Job → Type 0
Tracks i Q jobs = All (λ j. j.id ≡ i → Q j) jobs × (any (has_id i) jobs ≡ true)

module _ (i : ℕ) (Q : Job → Type 0) where
  update-Tracks :
      (p : Job → Bool) (f : Job → Job) (jobs : List Job)
      → ((j : Job) → (f j).id ≡ j.id)
      → ((j : Job) → Memᴰ j jobs → p j ≡ true → Q j → Q (f j))
      → Tracks i Q jobs
      → Tracks i Q (update_where p f jobs)
  update-Tracks p f jobs same keep (all_rows, known) = (
    All-update_where_split (λ j. j.id ≡ i → Q j) p f jobs
        (λ j m e n.
          let n' = sym (same j) ∙ n in
          keep j m e (All-mem (λ k. k.id ≡ i → Q k) jobs all_rows m n'))
        (λ j m _. All-mem (λ k. k.id ≡ i → Q k) jobs all_rows m),
    any-update_where (has_id i) p f jobs (λ j. ap (λ n. n == i) (same j)) ∙ known,
  )

  enqueue-Tracks :
      (r : Request) (db : Db) → Tracks i Q db.jobs → Tracks i Q (enqueue_if_new r db).1.jobs
  unfolding enqueue_if_new new_job
  enqueue-Tracks r db t = elim (Bool-cases (any (reviews_sha r.sha) db.review_records)) [
    | inl e ↦ rw e t
    | inr e ↦ elim (Bool-cases (any (has_sha r.sha) db.jobs)) [
      | inl s ↦ rw (e, s) t
      | inr s ↦ elim (Bool-cases (any (has_id r.fresh) db.jobs)) [
        | inl n ↦ rw (e, s, n) t
        | inr n ↦
            rw (e, s, n)
              (
                All-append (λ j. j.id ≡ i → Q j) db.jobs (new_job r ∷ []) t.0
                    ((λ same. absurd (cc (n, t.1))), tt),
                any-append_left (has_id i) db.jobs (new_job r ∷ []) t.1,
              )
      ]
    ]
  ]

  claim-Tracks :
      (locked : ℕ → Bool) (now : ℕ) (w : Text) (o : Option Job) (db : Db)
      → IsStable Q
      → IsValid db
      → ((j : Job) → o ≡ some j → IsTaken locked now db.jobs j)
      → Tracks i Q db.jobs
      → Tracks i Q (claim_next now w o db).1.jobs
  unfolding claim_next
  claim-Tracks locked now w none db stable v taken t = t
  claim-Tracks locked now w (some j) db stable v taken t =
      let (m, o) = taken j refl in
      update-Tracks (has_id j.id) (start now w) db.jobs (start-id now w)
        (λ k n e q.
          let same = Distinct-mem (λ (x : Job). x.id) db.jobs v.ids n m ((==_iff k.id j.id).0 e) in
          stable.started now w k
            (subst (λ (x : Job). is_pending x.status ≡ true) (sym same)
              (open_pending locked now j o))
            q)
        t

  pub Step-Tracks :
      {settings : Settings} {w w' : World}
      → IsStable Q
      → Step settings w w'
      → IsFenced w
      → Tracks i Q w.db.jobs
      → Tracks i Q w'.db.jobs
  unfolding claim_job release_job reconcile_stale_jobs set_check_run_id
  Step-Tracks stable (Step.enqueue r w) s t = enqueue-Tracks r w.db t
  Step-Tracks stable (Step.claim locked now worker w) s t =
      claim-Tracks locked now worker (next_job locked now w.db.jobs) w.db stable s.valid
        (next_job-IsTaken locked now w.db.jobs) t
  Step-Tracks stable (Step.heartbeat now c w) s t =
      subst (Tracks i Q) (sym (update_heartbeat-jobs now c.job_id c.worker w.db)) t
  Step-Tracks stable (Step.check r c w) s t =
      update-Tracks (has_id c.job_id) (set_check_run r) w.db.jobs (set_check_run-id r)
        (λ j m _. stable.checked r j) t
  Step-Tracks {settings = settings} stable (Step.finalize fresh now passed feedback c w m) s t =
      finalize_job_ind (Tracks i Q) settings fresh now c.job_id c.fence (outcome passed) feedback
        w.db t
        (update-Tracks (has_fence c.job_id c.fence) (close now (outcome passed) feedback) w.db.jobs
          (close-id now (outcome passed) feedback)
          (λ j n e. stable.closed now passed feedback j (
            fits_owned c j
              (All-mem (Holds c) w.db.jobs (All-mem (IsHeld w.db.jobs) w.claims s.held m).0 n) e))
          t)
  Step-Tracks stable (Step.release now delay c w m) s t =
      update-Tracks _ (requeue now delay) w.db.jobs (requeue-id now delay)
        (λ j n e. stable.requeued now delay j (fits_processing c.job_id c.fence j e)) t
  Step-Tracks {settings = settings} stable (Step.reconcile locked now w) s t =
      update-Tracks (is_expired now) expire _ expire-id
        (λ j n e. stable.expired j (expired_pending now j e))
        (update-Tracks
          (is_stale locked now settings.worker_heartbeat_stale_seconds w.db.worker_heartbeats)
          (reclaim now settings.worker_retry_backoff_seconds) w.db.jobs
          (reclaim-id now settings.worker_retry_backoff_seconds)
          (λ j n e. stable.reclaimed now settings.worker_retry_backoff_seconds j (
            stale_processing locked now settings.worker_heartbeat_stale_seconds
              w.db.worker_heartbeats j e))
          t)
  Step-Tracks stable (Step.beside ts ss rs w) s t = t

  pub Reach-Tracks :
      {settings : Settings} {w w' : World}
      → IsStable Q
      → Reach settings w w'
      → IsFenced w
      → Tracks i Q w.db.jobs
      → Tracks i Q w'.db.jobs
  Reach-Tracks stable Reach.here s t = t
  Reach-Tracks stable (Reach.next r st) s t =
      Step-Tracks stable st (Reach-IsFenced r s) (Reach-Tracks stable r s t)

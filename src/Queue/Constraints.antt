-- ===== src/Queue/Constraints.antt =====
-- The constraints of the schema (unique and foreign keys) and the bound on attempts, under every
-- method of the queue.
use revix.Prelude.{
  ℕ, ◌+◌, ◌≤◌, Text, text_eq_iff, Json, ◌≡◌, refl, ◌∙◌, ap, inl, inr, Bool, true, false, Option,
  none, some, List, [], ◌∷◌, ◌++◌, Memᴰ, arith, any, All, All-append, All-map, ◌==◌, ==_iff,
  ==_refl, Bool-cases, update_where, find_where, Distinct, All-update_where, All-update_where_mem,
  Distinct-mem, any-mem, find_where-mem, any-eq-false, any-update_where, any-append_left,
  Distinct-update_where, Distinct-delete_where, Distinct-snoc,
}
use revix.Effects.{Result, ok, raised, OnOk, transaction}
use revix.Config.{Settings}
use revix.Schema.{
  Status, Job, Heartbeat, ReviewRecord, InstallationToken, RepoSymbol, RepoReference, Db,
}
use revix.Queue.Rows.{has_id, has_sha, has_fence, beats_for, upsert_heartbeat, drop_heartbeat}
use revix.Queue.Enqueue.{Request, new_job, reviews_sha, enqueue_if_new}
use revix.Queue.Selection.{IsTaken, next_job-IsTaken}
use revix.Queue.Claim.{is_open, is_due, next_job, start, claim_next, claim_job}
use revix.Queue.Heartbeats.{
  is_running, is_run_by, update_heartbeat, set_check_run, set_check_run_id,
}
use revix.Queue.Finalize.{
  close, set_feedback, review_of, upsert_review, store_reviews, commit_review, finalize_block,
  finalize_job,
}
use revix.Queue.Release.{requeue, release_job}
use revix.Queue.Reconcile.{reclaim, expire, is_expired, is_stale, reconcile_stale_jobs}

abbrev pub Refers : List Job → ReviewRecord → Type 0
Refers jobs r = any (has_id r.job_id) jobs ≡ true

abbrev pub IsWithin : Job → Type 0
IsWithin j = j.attempt_count ≤ j.max_attempts

pub record IsValid (db : Db) : Type 0 where
  pub ids : Distinct (λ (j : Job). j.id) db.jobs
  pub shas : Distinct (λ (j : Job). j.commit_sha) db.jobs
  pub beats : Distinct (λ (h : Heartbeat). h.job_id) db.worker_heartbeats
  pub reviews : Distinct (λ (r : ReviewRecord). r.commit_sha) db.review_records
  pub linked : All (Refers db.jobs) db.review_records
  pub attempts : All IsWithin db.jobs

-- An update of the jobs that keeps both keys of each row and the bound.
update_jobs-IsValid :
    (p : Job → Bool) (f : Job → Job) (db : Db) (hs : List Heartbeat)
    → ((j : Job) → (f j).id ≡ j.id)
    → ((j : Job) → (f j).commit_sha ≡ j.commit_sha)
    → All IsWithin (update_where p f db.jobs)
    → Distinct (λ (h : Heartbeat). h.job_id) hs
    → IsValid db
    → IsValid (record db { jobs = update_where p f db.jobs; worker_heartbeats = hs })
update_jobs-IsValid p f db hs same_id same_sha within beats v = record {
  ids = Distinct-update_where _ p f db.jobs same_id v.ids;
  shas = Distinct-update_where _ p f db.jobs same_sha v.shas;
  beats = beats;
  reviews = v.reviews;
  linked = All-map _ _ db.review_records (λ r e. kept r ∙ e) v.linked;
  attempts = within;
}
  where
    kept :
        (r : ReviewRecord)
        → any (has_id r.job_id) (update_where p f db.jobs) ≡ any (has_id r.job_id) db.jobs
    kept r =
        any-update_where (has_id r.job_id) p f db.jobs (λ j. ap (λ i. i == r.job_id) (same_id j))

-- The same, where the bound is kept row by row.
keep_jobs-IsValid :
    (p : Job → Bool) (f : Job → Job) (db : Db) (hs : List Heartbeat)
    → ((j : Job) → (f j).id ≡ j.id)
    → ((j : Job) → (f j).commit_sha ≡ j.commit_sha)
    → ((j : Job) → IsWithin j → IsWithin (f j))
    → Distinct (λ (h : Heartbeat). h.job_id) hs
    → IsValid db
    → IsValid (record db { jobs = update_where p f db.jobs; worker_heartbeats = hs })
keep_jobs-IsValid p f db hs same_id same_sha within beats v =
    update_jobs-IsValid p f db hs same_id same_sha
      (All-update_where IsWithin p f db.jobs (λ j h _. within j h) v.attempts) beats v

upsert_heartbeat-Distinct :
    (now i : ℕ) (w : Text) (hs : List Heartbeat)
    → Distinct (λ (h : Heartbeat). h.job_id) hs
    → Distinct (λ (h : Heartbeat). h.job_id) (upsert_heartbeat now i w hs)
unfolding upsert_heartbeat
upsert_heartbeat-Distinct now i w hs d = elim (Bool-cases (any (beats_for i) hs)) [
  | inl e ↦ rw e (Distinct-update_where _ _ _ hs (λ h. refl) d)
  | inr e ↦ rw e (
      Distinct-snoc _ hs _
        (All-map _ _ hs (λ h ne eq. cc (ne, ap (λ n. n == i) eq, ==_refl i)) (any-eq-false _ hs e))
        d)
]

is_open_within :
    (locked : ℕ → Bool) (now : ℕ) (j : Job)
    → is_open locked now j ≡ true
    → j.attempt_count + 1 ≤ j.max_attempts
unfolding is_open is_due
is_open_within locked now j o = ground arith

-- Any two jobs with the id of a due job are that job, which has attempts left.
start_keeps_bound :
    (locked : ℕ → Bool) (now : ℕ) (w : Text) (db : Db) (j : Job)
    → IsValid db
    → IsTaken locked now db.jobs j
    → All IsWithin (update_where (has_id j.id) (start now w) db.jobs)
unfolding start
start_keeps_bound locked now w db j v (m, o) =
    All-update_where_mem IsWithin (has_id j.id) (start now w) db.jobs
      (λ k n e.
        let same = Distinct-mem (λ (x : Job). x.id) db.jobs v.ids n m ((==_iff k.id j.id).0 e) in
        rw same (is_open_within locked now j o))
      v.attempts

pub claim_next-IsValid :
    (locked : ℕ → Bool) (now : ℕ) (w : Text) (o : Option Job) (db : Db)
    → ((j : Job) → o ≡ some j → IsTaken locked now db.jobs j)
    → IsValid db
    → IsValid (claim_next now w o db).1
unfolding claim_next start
claim_next-IsValid locked now w none db taken v = v
claim_next-IsValid locked now w (some j) db taken v =
    update_jobs-IsValid (has_id j.id) (start now w) db _ (λ k. refl) (λ k. refl)
      (start_keeps_bound locked now w db j v (taken j refl))
      (upsert_heartbeat-Distinct now j.id w db.worker_heartbeats v.beats) v

pub claim_job-IsValid :
    (locked : ℕ → Bool) (now : ℕ) (w : Text) (db : Db)
    → IsValid db
    → IsValid (claim_job locked now w db).1
unfolding claim_job
claim_job-IsValid locked now w db v =
    claim_next-IsValid locked now w (next_job locked now db.jobs) db
      (next_job-IsTaken locked now db.jobs) v

-- A new job needs a new commit and a new UUID, which the method tests.
enqueue_new-IsValid :
    (r : Request) (db : Db)
    → any (has_sha r.sha) db.jobs ≡ false
    → any (has_id r.fresh) db.jobs ≡ false
    → IsValid db
    → IsValid (record db { jobs = db.jobs ++ (new_job r ∷ []) })
unfolding new_job
enqueue_new-IsValid r db new_sha new_id v = record {
  ids =
      Distinct-snoc _ db.jobs _
        (All-map _ _ db.jobs (λ j ne e. cc (ne, (==_iff j.id r.fresh).1 e))
          (any-eq-false _ db.jobs new_id))
        v.ids;
  shas =
      Distinct-snoc _ db.jobs _
        (All-map _ _ db.jobs (λ j ne e. cc (ne, (text_eq_iff j.commit_sha r.sha).1 e))
          (any-eq-false _ db.jobs new_sha))
        v.shas;
  beats = v.beats;
  reviews = v.reviews;
  linked = All-map _ _ db.review_records (λ x e. any-append_left _ db.jobs _ e) v.linked;
  attempts = All-append IsWithin db.jobs _ v.attempts (omega arith);
}

pub beside-IsValid :
    (db : Db) (ts : List InstallationToken) (ss : List RepoSymbol) (rs : List RepoReference)
    → IsValid db
    → IsValid (record db { installation_tokens = ts; repo_symbols = ss; repo_references = rs })
beside-IsValid db ts ss rs v = record {
  ids = v.ids;
  shas = v.shas;
  beats = v.beats;
  reviews = v.reviews;
  linked = v.linked;
  attempts = v.attempts;
}

pub enqueue_if_new-IsValid : (r : Request) (db : Db) → IsValid db → IsValid (enqueue_if_new r db).1
unfolding enqueue_if_new
enqueue_if_new-IsValid r db v = elim (Bool-cases (any (reviews_sha r.sha) db.review_records)) [
  | inl e ↦ rw e v
  | inr e ↦ elim (Bool-cases (any (has_sha r.sha) db.jobs)) [
    | inl s ↦ rw (e, s) v
    | inr s ↦ elim (Bool-cases (any (has_id r.fresh) db.jobs)) [
      | inl i ↦ rw (e, s, i) v
      | inr i ↦ rw (e, s, i) (enqueue_new-IsValid r db s i v)
    ]
  ]
]

pub update_heartbeat-IsValid :
    (now i : ℕ) (w : Text) (db : Db) → IsValid db → IsValid (update_heartbeat now i w db).1
unfolding update_heartbeat
update_heartbeat-IsValid now i w db v =
    elim (Bool-cases (is_running (find_where (is_run_by i w) db.jobs))) [
      | inr e ↦ rw e v
      | inl e ↦ rw e (record {
        ids = v.ids;
        shas = v.shas;
        beats = Distinct-update_where _ _ _ db.worker_heartbeats (λ h. refl) v.beats;
        reviews = v.reviews;
        linked = v.linked;
        attempts = v.attempts;
      })
    ]

pub set_check_run_id-IsValid :
    (i c : ℕ) (db : Db) → IsValid db → IsValid (set_check_run_id i c db).1
unfolding set_check_run_id set_check_run
set_check_run_id-IsValid i c db v =
    keep_jobs-IsValid (has_id i) (set_check_run c) db db.worker_heartbeats (λ j. refl) (λ j. refl)
      (λ j h. h) v.beats v

pub release_job-IsValid :
    (now i f delay : ℕ) (db : Db) → IsValid db → IsValid (release_job now i f delay db).1
unfolding release_job requeue drop_heartbeat
release_job-IsValid now i f delay db v =
    keep_jobs-IsValid _ (requeue now delay) db _ (λ j. refl) (λ j. refl) (λ j h. h)
      (Distinct-delete_where _ _ db.worker_heartbeats v.beats) v

-- The two updates of `reconcile_stale_jobs`, one after the other.
pub reconcile_stale_jobs-IsValid :
    (settings : Settings) (locked : ℕ → Bool) (now : ℕ) (db : Db)
    → IsValid db
    → IsValid (reconcile_stale_jobs settings locked now db).1
unfolding reconcile_stale_jobs reclaim expire
reconcile_stale_jobs-IsValid settings locked now db v =
    keep_jobs-IsValid (is_expired now) expire _ _ (λ j. refl) (λ j. refl) (λ j h. h)
      (Distinct-delete_where _ _ db.worker_heartbeats v.beats)
      (keep_jobs-IsValid
        (is_stale locked now settings.worker_heartbeat_stale_seconds db.worker_heartbeats)
        (reclaim now settings.worker_retry_backoff_seconds) db db.worker_heartbeats (λ j. refl)
        (λ j. refl) (λ j h. h) v.beats v)

-- A review that names a job of the table keeps the constraints of its own.
upsert_review-OnOk :
    (r : ReviewRecord) (db : Db)
    → Refers db.jobs r
    → IsValid db
    → OnOk
        (λ rs. Distinct (λ (x : ReviewRecord). x.commit_sha) rs × All (Refers db.jobs) rs)
        (upsert_review r db.review_records)
unfolding upsert_review set_feedback
upsert_review-OnOk r db known v =
    elim (Bool-cases (any (reviews_sha r.commit_sha) db.review_records)) [
      | inl old ↦ rw old (
        Distinct-update_where _ (reviews_sha r.commit_sha) (set_feedback r.feedback)
            db.review_records (λ x. refl) v.reviews,
        All-update_where (Refers db.jobs) _ (set_feedback r.feedback) db.review_records (λ x h _. h)
            v.linked,
      )
      | inr new ↦ elim (Bool-cases (any (λ x. x.id == r.id) db.review_records)) [
        | inl taken ↦ rw (new, taken) tt
        | inr free ↦
            rw (new, free)
              (
                Distinct-snoc _ db.review_records r
                    (All-map _ _ db.review_records
                      (λ x ne e. cc (ne, (text_eq_iff x.commit_sha r.commit_sha).1 e))
                      (any-eq-false _ db.review_records new))
                    v.reviews,
                All-append (Refers db.jobs) db.review_records (r ∷ []) v.linked (known, tt),
              )
      ]
    ]

-- The state that a transaction leaves, from the states in which it commits.
transaction-IsValid :
    {A : Type 0} (m : Db → Result A × Db) (db : Db)
    → IsValid db
    → OnOk (λ _. IsValid (m db).1) (m db).0
    → IsValid (transaction m db).1
transaction-IsValid m db v h = go (m db).0 refl h
  where
    go :
        (r : Result _)
        → (m db).0 ≡ r
        → OnOk (λ _. IsValid (m db).1) r
        → IsValid (transaction m db).1
    go (ok a) e k = rw (e, transaction) k
    go (raised x) e k = rw (e, transaction) v

store_reviews-OnOk :
    (i : ℕ) (u : Result (List ReviewRecord)) (db : Db)
    → OnOk (λ rs. Distinct (λ (x : ReviewRecord). x.commit_sha) rs × All (Refers db.jobs) rs) u
    → IsValid db
    → let (r, db') = store_reviews i u db in OnOk (λ _. IsValid db') r
unfolding store_reviews drop_heartbeat
store_reviews-OnOk i (raised e) db h v = tt
store_reviews-OnOk i (ok rs) db h v = record {
  ids = v.ids;
  shas = v.shas;
  beats = Distinct-delete_where _ _ db.worker_heartbeats v.beats;
  reviews = h.0;
  linked = h.1;
  attempts = v.attempts;
}

commit_review-OnOk :
    (settings : Settings) (fresh now i f : ℕ) (feedback : Option Json) (o : Option Job) (db : Db)
    → ((j : Job) → o ≡ some j → Memᴰ j db.jobs)
    → IsValid db
    → let (r, db') = commit_review settings fresh now i f feedback o db in OnOk (λ _. IsValid db') r
unfolding commit_review
commit_review-OnOk settings fresh now i f feedback none db known v = tt
commit_review-OnOk settings fresh now i f feedback (some j) db known v =
    store_reviews-OnOk i _ db
      (upsert_review-OnOk (review_of settings fresh now feedback j) db
        (any-mem (has_id j.id) db.jobs (known j refl) (==_refl j.id)) v)
      v

pub finalize_job-IsValid :
    (settings : Settings) (fresh now i f : ℕ) (s : Status) (feedback : Option Json) (db : Db)
    → IsValid db
    → IsValid (finalize_job settings fresh now i f s feedback db).1
unfolding finalize_job finalize_block close
finalize_job-IsValid settings fresh now i f s feedback db v =
    transaction-IsValid (finalize_block settings fresh now i f s feedback) db v (
      commit_review-OnOk settings fresh now i f feedback _ _
        (λ j e. find_where-mem (has_fence i f) _ j e)
        (keep_jobs-IsValid (has_fence i f) (close now s feedback) db db.worker_heartbeats
          (λ j. refl) (λ j. refl) (λ j h. h) v.beats v))

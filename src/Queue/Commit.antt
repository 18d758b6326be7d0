-- ===== src/Queue/Commit.antt =====
-- What `finalize_job` commits with a current token, and what `enqueue_if_new` answers from then on.
use revix.Prelude.{
  text_eq, delete_where, ◌&&◌, ℕ, Json, ◌≡◌, refl, sym, ◌∙◌, ap, subst, inl, inr, Bool, true, false,
  Option, none, some, List, [], ◌∷◌, ◌++◌, Memᴰ, arith, any, ◌==◌, text_eq_refl, Bool-cases,
  some_inj, update_where, delete_where, find_where, Distinct-mem, Distinct-update_where,
  mem-update_where, find_where-some, find_where-mem, find_where_holds,
}
use revix.Effects.{exception, unique_violation, Result, ok, raised, transaction}
use revix.Config.{Settings}
use revix.Schema.{Status, Job, Heartbeat, ReviewRecord, Db}
use revix.Queue.Rows.{has_id, has_sha, has_fence, drop_heartbeat}
use revix.Queue.Constraints.{IsValid}
use revix.Queue.Enqueue.{Request, new_job, reviews_sha, enqueue_if_new}
use revix.Queue.Finalize.{
  close, review_of, upsert_review, store_reviews, commit_review, finalize_job,
}
use revix.Queue.Stored.{
  finished, first_review, IsRecorded, close-finished, review_of-first, any-snoc,
  upsert_review-IsRecorded,
}
use revix.Queue.Tracking.{has_fence-eq}

-- The row that RETURNING gives: the one job with that id.
returned_row :
    (now i f : ℕ) (s : Status) (feedback : Option Json) (db : Db) (j : Job)
    → IsValid db
    → Memᴰ j db.jobs
    → has_fence i f j ≡ true
    → find_where (has_fence i f) (update_where (has_fence i f) (close now s feedback) db.jobs)
      ≡ some (close now s feedback j)
unfolding close
returned_row now i f s feedback db j v m h =
    let jobs = update_where (has_fence i f) (close now s feedback) db.jobs in
    let m' : Memᴰ (close now s feedback j) jobs =
      rw h at (mem-update_where (has_fence i f) (close now s feedback) db.jobs m) in
    let (k, e) = find_where-some (has_fence i f) jobs m' h in
    let same_id =
      (has_fence-eq i f k (find_where_holds (has_fence i f) jobs e)).0
      ∙ sym (has_fence-eq i f j h).0 in
    e
    ∙ ap some (
        Distinct-mem (λ (x : Job). x.id) jobs
          (Distinct-update_where (λ (x : Job). x.id) (has_fence i f) (close now s feedback) db.jobs
            (λ x. refl) v.ids)
          (find_where-mem (has_fence i f) jobs k e) m' same_id)

store_ok :
    (i : ℕ) (u : Result (List ReviewRecord)) (jobs : List Job) (rs : List ReviewRecord) (db : Db)
    → u ≡ ok rs
    → transaction (λ d. store_reviews i u (record d { jobs = jobs })) db ≡ (
      ok tt,
      record db {
        jobs = jobs;
        review_records = rs;
        worker_heartbeats = drop_heartbeat i db.worker_heartbeats;
      },
    )
unfolding store_reviews
store_ok i (ok rs') jobs rs db e = cc e
store_ok i (raised x) jobs rs db e = cc e

commit_some :
    (settings : Settings) (fresh now i f : ℕ) (feedback : Option Json) (j : Job) (o : Option Job)
    (jobs : List Job) (rs : List ReviewRecord) (db : Db)
    → o ≡ some j
    → upsert_review (review_of settings fresh now feedback j) db.review_records ≡ ok rs
    → transaction
        (λ d. commit_review settings fresh now i f feedback o (record d { jobs = jobs }))
        db
      ≡ (
        ok tt,
        record db {
          jobs = jobs;
          review_records = rs;
          worker_heartbeats = drop_heartbeat i db.worker_heartbeats;
        },
      )
unfolding commit_review
commit_some settings fresh now i f feedback j none jobs rs db e u = cc
commit_some settings fresh now i f feedback j (some k) jobs rs db e u =
    store_ok i _ jobs rs db (subst Stored (sym (some_inj e)) u)
  where
    Stored : Job → Type 0
    Stored x = upsert_review (review_of settings fresh now feedback x) db.review_records ≡ ok rs

-- RETURNING gives the review what the UPDATE left alone.
closed_review :
    (settings : Settings) (fresh now : ℕ) (s : Status) (feedback : Option Json) (j : Job)
    (rs : List ReviewRecord)
    → upsert_review (review_of settings fresh now feedback (close now s feedback j)) rs
      ≡ upsert_review (review_of settings fresh now feedback j) rs
unfolding close
closed_review settings fresh now s feedback j rs = refl

-- In a valid database, `finalize_job` with the id and the fence token of a job returns without an
-- error, if the UUID that it draws for the review is new. The rows with that id and token get the
-- status, the time as that of completion, and the feedback, or none where it is missing or counts
-- as false, and keep their other columns. The reviews of the job's commit get the feedback, `{}`
-- there, and keep the rest; where there are none, one review with the data of the job is added.
-- Exactly the heartbeats of the job are deleted, and nothing else changes.
pub finalize_commits :
    (settings : Settings) (fresh now i f : ℕ) (s : Status) (feedback : Option Json) (db : Db)
    (j : Job)
    → IsValid db
    → Memᴰ j db.jobs
    → j.id ≡ i
    → j.fence_token ≡ f
    → any (λ (x : ReviewRecord). x.id == fresh) db.review_records ≡ false
    → (rs : List ReviewRecord) × (finalize_job settings fresh now i f s feedback db ≡ (
      ok tt,
      record db {
        jobs =
            update_where
              (λ (x : Job). x.id == i && x.fence_token == f)
              (finished now s feedback)
              db.jobs;
        review_records = rs;
        worker_heartbeats = delete_where (λ (h : Heartbeat). h.job_id == i) db.worker_heartbeats;
      },
    ))
      × IsRecorded (first_review settings fresh now feedback j) db.review_records rs
      × (any (λ (r : ReviewRecord). text_eq r.commit_sha j.commit_sha) rs ≡ true)
unfolding finalize_job drop_heartbeat
finalize_commits settings fresh now i f s feedback db j v m same_id same_fence free =
    let fits : has_fence i f j ≡ true = ground arith in
    let (rs, stored, recorded, found) =
      upsert_review-IsRecorded (review_of settings fresh now feedback j) db.review_records free in
    let done =
      commit_some settings fresh now i f feedback (close now s feedback j) _ _ rs db
        (returned_row now i f s feedback db j v m fits)
        (closed_review settings fresh now s feedback j db.review_records ∙ stored) in
    (
      rs,
      done
          ∙ ap
              (λ g. (
                ok tt,
                record db {
                  jobs = update_where (has_fence i f) g db.jobs;
                  review_records = rs;
                  worker_heartbeats = drop_heartbeat i db.worker_heartbeats;
                },
              ))
              (close-finished now s feedback),
      subst (λ r. IsRecorded r db.review_records rs) (review_of-first settings fresh now feedback j)
          recorded,
      found,
    )

-- In a valid database, after `finalize_job` with the id and the fence token of a job, where the
-- UUID drawn for the review is new, `enqueue_if_new` for the commit of that job answers no and
-- changes nothing.
pub reviewed_not_enqueued :
    (settings : Settings) (fresh now i f : ℕ) (s : Status) (feedback : Option Json) (db : Db)
    (j : Job) (r : Request)
    → IsValid db
    → Memᴰ j db.jobs
    → j.id ≡ i
    → j.fence_token ≡ f
    → any (λ (x : ReviewRecord). x.id == fresh) db.review_records ≡ false
    → r.sha ≡ j.commit_sha
    → let db' = (finalize_job settings fresh now i f s feedback db).1 in
      enqueue_if_new r db' ≡ (ok false, db')
unfolding enqueue_if_new
reviewed_not_enqueued settings fresh now i f s feedback db j r v m same_id same_fence free same =
    let (rs, e, _, found) =
      finalize_commits settings fresh now i f s feedback db j v m same_id same_fence free in
    rw e (rw (same, found) refl)

enqueue_reviewed :
    (r : Request) (db : Db)
    → any (reviews_sha r.sha) db.review_records ≡ true
    → enqueue_if_new r db ≡ (ok false, db)
unfolding enqueue_if_new
enqueue_reviewed r db v = rw v refl

enqueue_queued :
    (r : Request) (db : Db)
    → any (reviews_sha r.sha) db.review_records ≡ false
    → any (has_sha r.sha) db.jobs ≡ true
    → enqueue_if_new r db ≡ (ok true, db)
unfolding enqueue_if_new
enqueue_queued r db v q = rw (v, q) refl

enqueue_clash :
    (r : Request) (db : Db)
    → any (reviews_sha r.sha) db.review_records ≡ false
    → any (has_sha r.sha) db.jobs ≡ false
    → any (has_id r.fresh) db.jobs ≡ true
    → enqueue_if_new r db ≡ (raised (exception unique_violation []), db)
unfolding enqueue_if_new
enqueue_clash r db v q n = rw (v, q, n) refl

enqueue_new :
    (r : Request) (db : Db)
    → any (reviews_sha r.sha) db.review_records ≡ false
    → any (has_sha r.sha) db.jobs ≡ false
    → any (has_id r.fresh) db.jobs ≡ false
    → enqueue_if_new r db ≡ (ok true, record db { jobs = db.jobs ++ (new_job r ∷ []) })
unfolding enqueue_if_new
enqueue_new r db v q n = rw (v, q, n) refl

new_job-sha : (r : Request) → has_sha r.sha (new_job r) ≡ true
unfolding new_job
new_job-sha r = text_eq_refl r.sha

abbrev Again : Request → Bool → Result Bool × Db → Type 0
Again r' b (res, db') = enqueue_if_new r' db' ≡ (ok b, db')

-- If `enqueue_if_new` returns an answer for a commit, then a second call for that commit right
-- after it returns the same answer and changes nothing, whatever the other fields of the second
-- request.
pub enqueue_twice :
    (r r' : Request) (db : Db) (b : Bool)
    → r'.sha ≡ r.sha
    → (enqueue_if_new r db).0 ≡ ok b
    → enqueue_if_new r' (enqueue_if_new r db).1 ≡ (ok b, (enqueue_if_new r db).1)
enqueue_twice r r' db b same e = elim (Bool-cases (any (reviews_sha r.sha) db.review_records)) [
  | inl v ↦
      let p = enqueue_reviewed r db v in
      let b' : b ≡ false = cc (e, ap (λ (x : Result Bool × Db). x.0) p) in
      subst (Again r' b) (sym p) (rw b' (enqueue_reviewed r' db (rw same v)))
  | inr v ↦ elim (Bool-cases (any (has_sha r.sha) db.jobs)) [
    | inl q ↦
        let p = enqueue_queued r db v q in
        let b' : b ≡ true = cc (e, ap (λ (x : Result Bool × Db). x.0) p) in
        subst (Again r' b) (sym p) (rw b' (enqueue_queued r' db (rw same v) (rw same q)))
    | inr q ↦ elim (Bool-cases (any (has_id r.fresh) db.jobs)) [
      | inl n ↦ absurd (cc (e, ap (λ (x : Result Bool × Db). x.0) (enqueue_clash r db v q n)))
      | inr n ↦
          let p = enqueue_new r db v q n in
          let b' : b ≡ true = cc (e, ap (λ (x : Result Bool × Db). x.0) p) in
          subst (Again r' b) (sym p) (
            rw b' (
              enqueue_queued r' _ (rw same v)
                (rw same (any-snoc (has_sha r.sha) db.jobs (new_job r) (new_job-sha r)))))
    ]
  ]
]

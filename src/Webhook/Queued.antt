-- ===== src/Webhook/Queued.antt =====
-- What the webhook answers to a pull request.
use revix.Prelude.{
  Text, codes, text_eq, text_eq_refl, Json, ◌≡◌, refl, ◌⊎◌, inl, inr, Bool, true, false, Option,
  List, [], ◌∷◌, ◌++◌, any, Bool-cases,
}
use revix.Effects.{Result, ok, raised, unique_violation, http_exception}
use revix.Config.{Settings}
use revix.Schema.{Job, Db}
use revix.World.{World}
use revix.Queue.Rows.{has_id, has_sha}
use revix.Queue.Enqueue.{Request, new_job, reviews_sha, enqueue_if_new}
use revix.Access.{get}
use revix.Webhook.{
  Services, Wait, in_time, rolled_back, committed_late, wait_for, accepted, already_exists,
  verify_signature, dispatch, github_webhook, on_pull_request, enqueue_commit, read_pull, is_one_of,
  pull_actions,
}

queued_last :
    (r : Request) (jobs : List Job) → any (has_sha r.sha) (jobs ++ (new_job r ∷ [])) ≡ true
unfolding new_job
queued_last r [] = rw (text_eq_refl r.sha) refl
queued_last r (j ∷ js) = elim (Bool-cases (has_sha r.sha j)) [
  | inl y ↦ rw y refl
  | inr n ↦ rw n (queued_last r js)
]

-- what an answer to a pull request says of its commit
abbrev pub Answers : Request → Result Text × World → Type 0
Answers r (ok t, w) =
    ((t ≡ accepted) × (any (has_sha r.sha) w.db.jobs ≡ true))
    ⊎ ((t ≡ already_exists) × (any (reviews_sha r.sha) w.db.review_records ≡ true))
Answers r (raised e, w) = (e.kind ≡ unique_violation) ⊎ (e.kind ≡ http_exception 503)

module _ (settings : Settings) (s : Services) where
  -- the same, of the call behind the answer
  abbrev Found : Request → Result Bool × Db → Type 0
  Found r (ok true, db) = any (has_sha r.sha) db.jobs ≡ true
  Found r (ok false, db) = any (reviews_sha r.sha) db.review_records ≡ true
  Found r (raised e, db) = e.kind ≡ unique_violation

  enqueue_if_new-Found : (r : Request) (db : Db) → Found r (enqueue_if_new r db)
  unfolding enqueue_if_new
  enqueue_if_new-Found r db = elim (Bool-cases (any (reviews_sha r.sha) db.review_records)) [
    | inl e ↦ rw e e
    | inr e ↦ elim (Bool-cases (any (has_sha r.sha) db.jobs)) [
      | inl j ↦ rw (e, j) j
      | inr j ↦ elim (Bool-cases (any (has_id r.fresh) db.jobs)) [
        | inl i ↦ rw (e, j, i) refl
        | inr i ↦ rw (e, j, i) (queued_last r db.jobs)
      ]
    ]
  ]

  wait_for-Answers :
      (t : Wait) (r : Request) (w : World) (out : Result Bool × Db)
      → Found r out
      → let (res, db) = wait_for settings s t w.db out in Answers r (res, record w { db = db })
  wait_for-Answers in_time r w (ok true, db) h = inl (refl, h)
  wait_for-Answers in_time r w (ok false, db) h = inr (refl, h)
  wait_for-Answers in_time r w (raised e, db) h = inl h
  wait_for-Answers rolled_back r w out h = inr refl
  wait_for-Answers committed_late r w out h = inr refl

  -- For a pull request event with a right signature, a payload whose action is `opened` or
  -- `synchronize` and fields that can be read: if the webhook answers `accepted`, the table has a
  -- job for the commit; if it answers `already exists`, a review of the commit is stored; and if
  -- it raises, that is a 503 or the clash of a UUID.
  pub github_webhook-Answers :
      (body : Text) (signature : Option Text) (payload : Json) (action : Option Json) (r : Request)
      (w : World)
      → verify_signature settings s body signature ≡ ok tt
      → s.loads body ≡ ok payload
      → get (codes "action") payload ≡ ok action
      → is_one_of pull_actions action ≡ true
      → read_pull settings s payload ≡ ok r
      → Answers r (github_webhook settings s (codes "pull_request") body signature w)
  unfolding github_webhook dispatch on_pull_request enqueue_commit text_eq
  github_webhook-Answers body signature payload action r w signed loaded acts opened reads =
      rw (signed, loaded, acts, opened, reads)
        (wait_for-Answers s.wait r w (enqueue_if_new r w.db) (enqueue_if_new-Found r w.db))

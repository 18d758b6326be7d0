-- ===== src/Queue/Stored.antt =====
-- What the tables hold of a review that `finalize_job` has committed, said without its clauses.
use revix.Prelude.{
  ℕ, Json, Fields, ◌≡◌, refl, ◌∙◌, ◌⊎◌, inl, inr, Bool, true, false, truthy, Option, none, some,
  List, [], ◌∷◌, ◌++◌, arith, any, ◌==◌, text_eq, text_eq_refl, Bool-cases, if◌then◌else◌,
  update_where, any-update_where,
}
use revix.Effects.{ok}
use revix.Config.{Settings}
use revix.Schema.{Status, Job, ReviewRecord}
use revix.Queue.Enqueue.{reviews_sha}
use revix.Queue.Finalize.{close, set_feedback, review_of, upsert_review}

-- the feedback in a job's row: none where it is missing or counts as false
abbrev pub stored_result : Option Json → Option Json
stored_result none = none
stored_result (some j) = if truthy j then some j else none

-- the feedback in a review's row: `{}` there
abbrev pub stored_feedback : Option Json → Json
stored_feedback none = Json.obj Fields.end
stored_feedback (some j) = if truthy j then j else Json.obj Fields.end

-- the job's row after the commit
abbrev pub finished : (now : ℕ) → Status → Option Json → Job → Job
finished now s feedback j = record j {
  status = s;
  completed_at = some now;
  result = stored_result feedback;
}

-- the review's row, where the commit has none yet
abbrev pub first_review : (settings : Settings) (fresh now : ℕ) → Option Json → Job → ReviewRecord
first_review settings fresh now feedback j = record {
  id = fresh;
  job_id = j.id;
  commit_sha = j.commit_sha;
  pr_number = j.pr_number;
  repo_full_name = j.repo_full_name;
  feedback = stored_feedback feedback;
  model_map = settings.ai_model_map;
  model_reduce = settings.ai_model_reduce;
  chunk_count = 1;
  created_at = now;
}

-- The reviews of the commit get the feedback of `r` and keep everything else; where there are none,
-- `r` itself is added. The other reviews stay.
abbrev pub IsRecorded : ReviewRecord → List ReviewRecord → List ReviewRecord → Type 0
IsRecorded r rs rs' =
    let same = λ (x : ReviewRecord). text_eq x.commit_sha r.commit_sha in
    ((any same rs ≡ true)
      × (rs' ≡ update_where same (λ (x : ReviewRecord). record x { feedback = r.feedback }) rs))
    ⊎ ((any same rs ≡ false) × (rs' ≡ rs ++ (r ∷ [])))

pub close-finished :
    (now : ℕ) (s : Status) (feedback : Option Json) → close now s feedback ≡ finished now s feedback
unfolding close
close-finished now s none = refl
close-finished now s (some j) = refl

pub review_of-first :
    (settings : Settings) (fresh now : ℕ) (feedback : Option Json) (j : Job)
    → review_of settings fresh now feedback j ≡ first_review settings fresh now feedback j
review_of-first settings fresh now none j = refl
review_of-first settings fresh now (some v) j = elim (Bool-cases (truthy v)) [
  | inl e ↦ rw e refl
  | inr e ↦ rw e refl
]

pub any-snoc :
    {A : Type 0} (p : A → Bool) (xs : List A) (x : A) → p x ≡ true → any p (xs ++ x ∷ []) ≡ true
any-snoc p [] x h = ground arith
any-snoc p (y ∷ ys) x h = ground (arith, any-snoc p ys x h)

-- The upsert of a review fails only on a UUID that is taken, and leaves one for its commit.
pub upsert_review-IsRecorded :
    (r : ReviewRecord) (rs : List ReviewRecord)
    → any (λ (x : ReviewRecord). x.id == r.id) rs ≡ false
    → (rs' : List ReviewRecord) × (upsert_review r rs ≡ ok rs')
      × IsRecorded r rs rs'
      × (any (reviews_sha r.commit_sha) rs' ≡ true)
unfolding upsert_review set_feedback
upsert_review-IsRecorded r rs free = elim (Bool-cases (any (reviews_sha r.commit_sha) rs)) [
  | inl old ↦ (
    update_where (reviews_sha r.commit_sha) (set_feedback r.feedback) rs,
    rw old refl,
    inl (old, refl),
    any-update_where (reviews_sha r.commit_sha) (reviews_sha r.commit_sha) (set_feedback r.feedback)
          rs (λ x. refl)
        ∙ old,
  )
  | inr new ↦ (
    rs ++ (r ∷ []),
    rw (new, free) refl,
    inr (new, refl),
    any-snoc (reviews_sha r.commit_sha) rs r (text_eq_refl r.commit_sha),
  )
]

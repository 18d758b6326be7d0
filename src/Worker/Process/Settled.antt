-- ===== src/Worker/Process/Settled.antt =====
-- `process_job` always settles its job, whatever GitHub and the models answer.
use revix.Prelude.{
  ℕ, Text, codes, Json, ◌≡◌, refl, inl, inr, true, false, ◌&&◌, Option, none, some, List, [], ◌∷◌,
  ◌++◌, ◌==◌, Bool-cases,
}
use revix.Effects.{Result, ok, raised, Exception}
use revix.Config.{Settings}
use revix.Schema.{Job}
use revix.Queue.Release.{release_job}
use revix.Graph.{persist_repo_graph}
use revix.Ai.Syntax.{Toolkit}
use revix.Ai.Files.{PrFile}
use revix.Ai.Models.{Models}
use revix.Ai.Swarm.{analyze_diff}
use revix.Ai.Review.{ReviewResult}
use revix.Github.Checks.{Output}
use revix.Worker.Retry.{retry_delay_for, is_rate_limit}
use revix.World.{World, M, continue, ◌>>=◌, ◌>>◌, Sent, log}
use revix.Worker.Process.{
  pull_files, Outside, commit_failure, checked, open_check, is_empty, all_symbols, all_references,
  persist_graph, publish, report_check, commit_success, finish_review, review_files, conclusion,
  review_output, system_error, error_json, review_job, handle, caught, with_token, process_read,
  read_job, process_job,
}
use revix.Worker.Process.Running.{
  IsRunning, IsSettled, beside-IsRunning, get_token-IsRunning, set_check_run_id-IsRunning,
  finalize_job-IsSettled, release_job-IsSettled,
}
use revix.Github.Tokens.{get_token}
use revix.Github.Checks.{create_check_run}

module _ (settings : Settings) (m : Models) (kit : Toolkit) (o : Outside) (j : Job) where
  abbrev Runs : World → Type 0
  Runs w = IsRunning j.id j.fence_token o.fresh w.db

  abbrev pub Settles : World → Type 0
  Settles w = IsSettled j.id j.fence_token w.db

  -- an operation that leaves the job running
  abbrev KeepsRunning : {A : Type 0} → M A → Type 0
  KeepsRunning f = (w : World) → Runs w → Runs (f w).1

  -- an operation that settles the job where it returns, and else leaves it running
  abbrev Ends : Result (Unit {0}) × World → Type 0
  Ends (ok u, w) = Settles w
  Ends (raised e, w) = Runs w

  continue-Ends :
      {A : Type 0} (r : Result A) (f : A → M (Unit {0})) (w : World)
      → Runs w
      → ((a : A) (w : World) → Runs w → Ends (f a w))
      → Ends (continue r f w)
  continue-Ends (ok a) f w h k = k a w h
  continue-Ends (raised e) f w h k = h

  bind-Ends :
      {A : Type 0} (n : M A) (f : A → M (Unit {0})) (w : World)
      → KeepsRunning n
      → Runs w
      → ((a : A) (w : World) → Runs w → Ends (f a w))
      → Ends ((n >>= f) w)
  bind-Ends n f w keep h k = continue-Ends (n w).0 f (n w).1 (keep w h) k

  persist_graph-KeepsRunning :
      (files : List PrFile) → KeepsRunning (persist_graph settings m kit o j files)
  unfolding persist_graph persist_repo_graph
  persist_graph-KeepsRunning files w h =
      elim (Bool-cases (
        is_empty settings m kit o (all_symbols settings m kit o files)
        && is_empty settings m kit o (all_references settings m kit o files))) [
          | inl e ↦ rw e h
          | inr e ↦
              rw e (beside-IsRunning j.id j.fence_token o.fresh w.db w.db.installation_tokens _ _ h)
        ]

  publish-KeepsRunning :
      (files : List PrFile) (r : ReviewResult) → KeepsRunning (publish settings m kit o j files r)
  unfolding publish
  publish-KeepsRunning files r w h = h

  report_check-KeepsRunning :
      (check : Option ℕ) (result : Text) (out : Output)
      → KeepsRunning (report_check settings m kit o j check result out)
  unfolding report_check
  report_check-KeepsRunning none result out w h = h
  report_check-KeepsRunning (some i) result out w h = elim (Bool-cases (i == 0)) [
    | inl e ↦ rw e h
    | inr e ↦ rw e h
  ]

  commit_success-Ends :
      (r : ReviewResult) (w : World) → Runs w → Ends (commit_success settings m kit o j r w)
  unfolding commit_success
  commit_success-Ends r w h =
      let (returned, settled) =
        finalize_job-IsSettled settings j.id j.fence_token o.fresh o.now true (some (o.dump r)) w.db
          h in
      rw returned settled

  commit_failure-Settles :
      (text : Text) (w : World) → Runs w → Settles (commit_failure settings m kit o j text w).1
  unfolding commit_failure
  commit_failure-Settles text w h =
      (finalize_job-IsSettled settings j.id j.fence_token o.fresh o.now false
        (some (error_json settings m kit o text)) w.db h).1

  report_check-Ends :
      (check : Option ℕ) (result : Text) (out : Output) (r : ReviewResult) (w : World)
      → Runs w
      → Ends (
          (report_check settings m kit o j check result out >> commit_success settings m kit o j r)
            w)
  report_check-Ends check result out r w h =
      bind-Ends (report_check settings m kit o j check result out)
        (λ _. commit_success settings m kit o j r) w (report_check-KeepsRunning check result out) h
        (λ _. commit_success-Ends r)

  finish_review-Ends :
      (check : Option ℕ) (files : List PrFile) (r : ReviewResult) (w : World)
      → Runs w
      → Ends (finish_review settings m kit o j check files r w)
  unfolding finish_review
  finish_review-Ends check files r w h =
      bind-Ends (publish settings m kit o j files r)
        (λ _.
          report_check settings m kit o j check (conclusion settings m kit o r)
            (review_output settings m kit o r)
          >> commit_success settings m kit o j r)
        w (publish-KeepsRunning files r) h (λ _. report_check-Ends check _ _ r)

  review_files-Ends :
      (check : Option ℕ) (files : List PrFile) (details : Json) (w : World)
      → Runs w
      → Ends (review_files settings m kit o j check files details w)
  unfolding review_files
  review_files-Ends check files details w h =
      let r = analyze_diff settings m kit files details in
      bind-Ends (persist_graph settings m kit o j files)
        (λ _. finish_review settings m kit o j check files r) w (persist_graph-KeepsRunning files) h
        (λ _. finish_review-Ends check files r)

  review_job-Ends :
      (check : Option ℕ) (w : World) → Runs w → Ends (review_job settings m kit o j check w)
  unfolding review_job
  review_job-Ends check w h = continue-Ends o.get_diff _ w h λ diff w h.
      continue-Ends (pull_files settings m kit o j) _ w h λ files w h.
        continue-Ends o.get_details _ w h λ details w h. review_files-Ends check files details w h

  handle-Settles :
      (check : Option ℕ) (e : Exception) (w : World)
      → Runs w
      → ((handle settings m kit o j check e w).0 ≡ ok tt)
        × Settles (handle settings m kit o j check e w).1
  unfolding handle release_job commit_failure
  handle-Settles check e w h = elim (Bool-cases (is_rate_limit e)) [
    | inl y ↦ rw y (
      refl,
      release_job-IsSettled j.id j.fence_token o.fresh o.now
          (retry_delay_for o.now e j.attempt_count) w.db h,
    )
    | inr n ↦ rw n (
      refl,
      commit_failure-Settles e.text
          (report_check settings m kit o j check (codes "failure") (system_error settings m kit o e)
            w).1
          (report_check-KeepsRunning check (codes "failure") (system_error settings m kit o e) w h),
    )
  ]

  -- the job is settled, and nothing is raised
  abbrev pub Returned : Result (Unit {0}) × World → Type 0
  Returned (res, w) = (res ≡ ok tt) × Settles w

  caught-Settles :
      (check : Option ℕ) (end : Result (Unit {0}) × World)
      → Ends end
      → Returned (caught settings m kit o j check end)
  caught-Settles check (ok tt, w) h = (refl, h)
  caught-Settles check (raised e, w) h = handle-Settles check e w h

  checked-KeepsRunning :
      (r : Result ℕ) (w : World) → Runs w → Runs (checked settings m kit o r j w).1
  checked-KeepsRunning (ok i) w h = set_check_run_id-IsRunning j.id j.fence_token o.fresh i w.db h
  checked-KeepsRunning (raised e) w h = h

  open_check-KeepsRunning : (w : World) → Runs w → Runs (open_check settings m kit o j w).1
  unfolding open_check
  open_check-KeepsRunning w h =
      checked-KeepsRunning (create_check_run o.create_check j.repo_full_name j.commit_sha)
        (log (Sent.started j.commit_sha ∷ []) w) h

  with_token-Settles :
      (token : Result Text) (w : World) → Runs w → Returned (with_token settings m kit o j token w)
  unfolding with_token
  with_token-Settles (raised e) w h = handle-Settles none e w h
  with_token-Settles (ok token) w h =
      let (check, w') = open_check settings m kit o j w in
      caught-Settles check (review_job settings m kit o j check w')
        (review_job-Ends check w' (open_check-KeepsRunning w h))

  process_read-Settles :
      (read : Result ℕ) (w : World) → Runs w → Returned (process_read settings m kit o j read w)
  unfolding process_read commit_failure
  process_read-Settles (raised e) w h =
      (refl, commit_failure-Settles (codes "Invalid job payload: " ++ e.text) w h)
  process_read-Settles (ok inst) w h =
      let (token, db) = get_token o.grant o.now inst w.db in
      with_token-Settles token (record w { db = db })
        (get_token-IsRunning j.id j.fence_token o.fresh o.now inst o.grant w.db h)

  -- If a valid database has the job running under its fence token, and the UUID that is drawn for
  -- the review is new, then `process_job` returns without an error, whatever GitHub, the models
  -- and the parsers answer: afterwards the job is finished, or it is pending under the next fence
  -- token; no heartbeat of it is left, and the database is valid.
  pub process_job-Settles :
      (w : World)
      → IsRunning j.id j.fence_token o.fresh w.db
      → ((process_job settings m kit o j w).0 ≡ ok tt)
        × IsSettled j.id j.fence_token (process_job settings m kit o j w).1.db
  unfolding process_job
  process_job-Settles w h = process_read-Settles (read_job settings m kit o j) w h

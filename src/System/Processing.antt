-- ===== src/System/Processing.antt =====
-- `process_job` as transactions of the queue with its own claim.
use revix.Prelude.{
  ℕ, Text, codes, Json, inl, inr, true, false, ◌&&◌, Option, none, some, List, [], ◌∷◌, ◌++◌, Memᴰ,
  Bool-cases, ◌==◌, find_where,
}
use revix.Effects.{Result, ok, raised, Exception}
use revix.Config.{Settings}
use revix.Schema.{Job, InstallationToken, Db}
use revix.World.{World, M, continue, log, Sent}
use revix.Ai.Models.{Models}
use revix.Ai.Syntax.{Toolkit}
use revix.Ai.Files.{PrFile}
use revix.Ai.Review.{ReviewResult}
use revix.Ai.Swarm.{analyze_diff}
use revix.Graph.{persist_repo_graph}
use revix.Github.Checks.{Output, create_check_run}
use revix.Github.Tokens.{get_token, use_cached, keep_token, is_fresh}
use revix.Queue.Workers.{Claim, Step, Reach}
use revix.Queue.Workers as Queue
use revix.Worker.Retry.{retry_delay_for, is_rate_limit}
use revix.Worker.Process.{
  pull_files, Outside, error_json, commit_failure, checked, open_check, is_empty, all_symbols,
  all_references, persist_graph, publish, conclusion, review_output, report_check, commit_success,
  finish_review, review_files, review_job, system_error, handle, caught, with_token, process_read,
  read_job, process_job,
}
use revix.System.{claim_of}

-- the database is reached from `start`, with no new claim
abbrev pub Reached : Settings → Queue.World → List Claim → World → Type 0
Reached settings start cs w = Reach settings start (record { db = w.db; claims = cs })

module _ (settings : Settings) (start : Queue.World) (cs : List Claim) where
  abbrev pub Keeps : {A : Type 0} → M A → Type 0
  Keeps f = (w : World) → Reached settings start cs w → Reached settings start cs (f w).1

  pub continue-Reached :
      {A B : Type 0} (r : Result A) (f : A → M B) (w : World)
      → Reached settings start cs w
      → ((a : A) → Keeps (f a))
      → Reached settings start cs (continue r f w).1
  continue-Reached (ok a) f w h k = k a w h
  continue-Reached (raised e) f w h k = h

  -- the database alone
  abbrev pub DbReached : Db → Type 0
  DbReached db = Reach settings start (record { db = db; claims = cs })

  keep_token-Reached :
      (now inst : ℕ) (r : Result Text) (db : Db)
      → DbReached db
      → DbReached (keep_token now inst r db).1
  unfolding keep_token
  keep_token-Reached now inst (ok token) db h =
      Reach.next h
        (Step.beside _ db.repo_symbols db.repo_references (record { db = db; claims = cs }))
  keep_token-Reached now inst (raised e) db h = h

  pub get_token-Reached :
      (fetch : ℕ → Result Text) (now inst : ℕ) (db : Db)
      → DbReached db
      → DbReached (get_token fetch now inst db).1
  unfolding get_token use_cached
  get_token-Reached fetch now inst db h = go (find_where (is_fresh now inst) db.installation_tokens)
    where
      go : (o : Option InstallationToken) → DbReached (use_cached fetch now inst o db).1
      go none = keep_token-Reached now inst (fetch inst) db h
      go (some t) = h

module _ (settings : Settings) (start : Queue.World) (cs : List Claim) (m : Models) (kit : Toolkit)
    (o : Outside) (worker : Text) (j : Job) (held : Memᴰ (claim_of worker j) cs) where
  abbrev R : World → Type 0
  R = Reached settings start cs

  abbrev K : {A : Type 0} → M A → Type 0
  K = Keeps settings start cs

  abbrev queue : World → Queue.World
  queue w = record { db = w.db; claims = cs }

  commit_failure-Keeps : (text : Text) → K (commit_failure settings m kit o j text)
  unfolding commit_failure
  commit_failure-Keeps text w h = Reach.next h (
      Step.finalize o.fresh o.now false (some (error_json settings m kit o text))
        (claim_of worker j) (queue w) held)

  commit_success-Keeps : (r : ReviewResult) → K (commit_success settings m kit o j r)
  unfolding commit_success
  commit_success-Keeps r w h =
      Reach.next h
        (Step.finalize o.fresh o.now true (some (o.dump r)) (claim_of worker j) (queue w) held)

  report_check-Keeps :
      (check : Option ℕ) (result : Text) (out : Output)
      → K (report_check settings m kit o j check result out)
  unfolding report_check
  report_check-Keeps none result out w h = h
  report_check-Keeps (some i) result out w h = elim (Bool-cases (i == 0)) [
    | inl e ↦ rw e h
    | inr e ↦ rw e h
  ]

  persist_graph-Keeps : (files : List PrFile) → K (persist_graph settings m kit o j files)
  unfolding persist_graph persist_repo_graph
  persist_graph-Keeps files w h =
      elim (Bool-cases (
        is_empty settings m kit o (all_symbols settings m kit o files)
        && is_empty settings m kit o (all_references settings m kit o files))) [
          | inl e ↦ rw e h
          | inr e ↦ rw e (Reach.next h (Step.beside w.db.installation_tokens _ _ (queue w)))
        ]

  publish-Keeps : (files : List PrFile) (r : ReviewResult) → K (publish settings m kit o j files r)
  unfolding publish
  publish-Keeps files r w h = h

  finish_review-Keeps :
      (check : Option ℕ) (files : List PrFile) (r : ReviewResult)
      → K (finish_review settings m kit o j check files r)
  unfolding finish_review
  finish_review-Keeps check files r w h =
      continue-Reached settings start cs (publish settings m kit o j files r w).0 _ _
        (publish-Keeps files r w h)
        λ _ w h.
          let result = conclusion settings m kit o r in
          let out = review_output settings m kit o r in
          continue-Reached settings start cs (report_check settings m kit o j check result out w).0
            _ _ (report_check-Keeps check result out w h) λ _. commit_success-Keeps r

  review_files-Keeps :
      (check : Option ℕ) (files : List PrFile) (details : Json)
      → K (review_files settings m kit o j check files details)
  unfolding review_files
  review_files-Keeps check files details w h =
      let r = analyze_diff settings m kit files details in
      continue-Reached settings start cs (persist_graph settings m kit o j files w).0
        (λ _. finish_review settings m kit o j check files r)
        (persist_graph settings m kit o j files w).1 (persist_graph-Keeps files w h)
        λ _. finish_review-Keeps check files r

  review_job-Keeps : (check : Option ℕ) → K (review_job settings m kit o j check)
  unfolding review_job
  review_job-Keeps check w h = continue-Reached settings start cs o.get_diff _ w h λ diff w h.
      continue-Reached settings start cs (pull_files settings m kit o j) _ w h λ files w h.
        continue-Reached settings start cs o.get_details _ w h
          λ details. review_files-Keeps check files details

  handle-Keeps : (check : Option ℕ) (e : Exception) → K (handle settings m kit o j check e)
  unfolding handle
  handle-Keeps check e w h = elim (Bool-cases (is_rate_limit e)) [
    | inl y ↦ rw y (
        Reach.next h (
          Step.release o.now (retry_delay_for o.now e j.attempt_count) (claim_of worker j) (queue w)
            held))
    | inr n ↦ rw n (
        commit_failure-Keeps e.text
          (report_check settings m kit o j check (codes "failure") (system_error settings m kit o e)
            w).1
          (report_check-Keeps check (codes "failure") (system_error settings m kit o e) w h))
  ]

  caught-Reached :
      (check : Option ℕ) (end : Result (Unit {0}) × World)
      → R end.1
      → R (caught settings m kit o j check end).1
  caught-Reached check (ok u, w) h = h
  caught-Reached check (raised e, w) h = handle-Keeps check e w h

  checked-Reached : (r : Result ℕ) (w : World) → R w → R (checked settings m kit o r j w).1
  checked-Reached (ok i) w h = Reach.next h (Step.check i (claim_of worker j) (queue w))
  checked-Reached (raised e) w h = h

  with_token-Keeps : (token : Result Text) → K (with_token settings m kit o j token)
  unfolding with_token open_check
  with_token-Keeps (raised e) w h = handle-Keeps none e w h
  with_token-Keeps (ok token) w h =
      let opened =
        checked-Reached (create_check_run o.create_check j.repo_full_name j.commit_sha)
          (log (Sent.started j.commit_sha ∷ []) w) h in
      let (check, w') = open_check settings m kit o j w in
      caught-Reached check (review_job settings m kit o j check w')
        (review_job-Keeps check w' opened)

  process_read-Keeps : (read : Result ℕ) → K (process_read settings m kit o j read)
  unfolding process_read
  process_read-Keeps (raised e) w h =
      commit_failure-Keeps (codes "Invalid job payload: " ++ e.text) w h
  process_read-Keeps (ok inst) w h =
      let (token, db) = get_token o.grant o.now inst w.db in
      with_token-Keeps token (record w { db = db })
        (get_token-Reached settings start cs o.grant o.now inst w.db h)

  pub process_job-Keeps : K (process_job settings m kit o j)
  unfolding process_job
  process_job-Keeps = process_read-Keeps (read_job settings m kit o j)

-- ===== src/Worker/Process.antt =====
-- `process_job`: a claimed job from its payload to its outcome. GitHub's answers, the models, the
-- parsers and the clock are arguments. The state is the database with what was sent to GitHub. The
-- heartbeat task that runs beside is one of the steps of Queue/Workers.
pub mod Running
pub mod Settled
use revix.Prelude.{
  ℕ, Text, codes, decimal, is_set, Json, Fields, get_field, Bool, true, false, not, ◌&&◌, ◌||◌,
  Option, none, some, List, [], ◌∷◌, ◌++◌, map, length, ltb, ◌==◌, if◌then◌else◌,
}
use revix.Prelude.Int.{pos, negsuc}
use revix.Effects.{Result, ok, raised, Exception, exception, value_error}
use revix.Effects
use revix.Config.{Settings}
use revix.Schema.{Job, success, failure, Db}
use revix.Queue.Heartbeats.{set_check_run_id}
use revix.Queue.Finalize.{finalize_job}
use revix.Queue.Release.{release_job}
use revix.Graph.{persist_repo_graph}
use revix.Ai.Syntax.{Toolkit}
use revix.Ai.Files.{PrFile, text_or_empty}
use revix.Ai.Index.{Symbol, Reference, index_file}
use revix.Ai.Review.{ReviewComment, ReviewResult}
use revix.Ai.Models.{Models}
use revix.Ai.Synthesis.{int_of}
use revix.Ai.Swarm.{analyze_diff}
use revix.World.{World, M, lift, continue, ◌>>=◌, ◌>>◌, on_db, log, Sent}
use revix.Github.Tokens.{get_token}
use revix.Github.Sources.{Raw, fetch_file_content, fetch_pull_files}
use revix.Github.Reviews.{Payload, post_review}
use revix.Github.Checks.{CheckStart, create_check_run, CheckUpdate, check_update, Output}
use revix.Worker.Retry.{retry_delay_for, is_rate_limit}
use revix.Worker.Inline.{select_inline_comments}
use revix.Worker.Format.{is_approved, format_inline_comment, format_review_body}

-- what GitHub answers during one job, the time, a new UUID, and `model_dump`
pub record Outside : Type 0 where
  pub now : ℕ
  pub fresh : ℕ
  pub grant : (installation_id : ℕ) → Result Text
  pub create_check : CheckStart → Result ℕ
  pub update_check : CheckUpdate → Result (Unit {0})
  pub get_diff : Result Text
  pub get_files : Result (List PrFile)
  pub get_raw : (path : Text) → Result Raw
  pub decode : List ℕ → Option Text
  pub get_details : Result Json
  pub list_reviews : Result (List (Option Text))
  pub send : Payload → Result (Unit {0})
  pub dump : ReviewResult → Json

abbrev with_id : Fields → Result Json
with_id fs = elim (get_field (codes "installation_id") fs) [
  | none ↦ raised (exception value_error (codes "Job payload is missing installation_id"))
  | some v ↦ ok v
]

-- the installation id of a payload that is parsed
abbrev installation_of : Json → Result Json
installation_of (Json.obj fs) = with_id fs
installation_of _ = raised (exception value_error (codes "Job payload must be a JSON object"))

-- An installation id is never negative.
abbrev as_id : Json → Result ℕ
as_id (Json.num (pos n)) = ok n
as_id _ = raised (exception value_error (codes "invalid installation id"))

module _ (settings : Settings) (m : Models) (kit : Toolkit) (o : Outside) where
  -- `_parse_job_payload`, and the id that is read from its result
  unfoldable pub parse_job_payload : Json → Result Json
  unfolding get_field
  parse_job_payload (Json.str s) = Effects.◌>>=◌ (m.loads s) installation_of
  parse_job_payload j = installation_of j

  -- `_parse_trace_context`, of which only an exception matters here
  unfoldable pub parse_trace_context : Option Json → Result Json
  parse_trace_context (some (Json.str s)) = m.loads s
  parse_trace_context _ = ok Json.null

  unfoldable pub read_job : Job → Result ℕ
  unfolding parse_job_payload parse_trace_context int_of
  read_job j = Effects.◌>>=◌ (parse_job_payload j.payload) λ given.
      Effects.◌>>=◌ (int_of settings m given) λ n.
        Effects.◌>>=◌ (as_id n)
          λ inst. Effects.◌>>=◌ (parse_trace_context j.otel_context) λ _. ok inst

  abbrev pub error_json : Text → Json
  error_json s = Json.obj (Fields.field (codes "error") (Json.str s) Fields.end)

  -- a commit of a failure, of which an exception is suppressed
  unfoldable pub commit_failure : Job → Text → M (Unit {0})
  unfolding finalize_job
  commit_failure j text w = (
    ok tt,
    record w {
      db =
          (finalize_job settings o.fresh o.now j.id j.fence_token failure (some (error_json text))
            w.db).1;
    },
  )

  abbrev pub checked : Result ℕ → Job → World → Option ℕ × World
  checked (raised e) j w = (none, w)
  checked (ok i) j w = (some i, record w { db = (set_check_run_id j.id i w.db).1 })

  -- the check run, if one could be made
  unfoldable pub open_check : Job → World → Option ℕ × World
  unfolding create_check_run set_check_run_id
  open_check j w =
      checked (create_check_run o.create_check j.repo_full_name j.commit_sha) j
        (log (Sent.started j.commit_sha ∷ []) w)

  abbrev pub indexed_file : PrFile → List Symbol × List Reference
  indexed_file f =
      if is_set f.content then index_file kit f.filename (text_or_empty f.content) else ([], [])

  unfoldable pub all_symbols : List PrFile → List Symbol
  unfolding index_file
  all_symbols [] = []
  all_symbols (f ∷ fs) = (indexed_file f).0 ++ all_symbols fs

  unfoldable pub all_references : List PrFile → List Reference
  unfolding index_file
  all_references [] = []
  all_references (f ∷ fs) = (indexed_file f).1 ++ all_references fs

  abbrev pub is_empty : {A : Type 0} → List A → Bool
  is_empty [] = true
  is_empty (x ∷ xs) = false

  unfoldable pub persist_graph : Job → List PrFile → M (Unit {0})
  unfolding all_symbols all_references persist_repo_graph
  persist_graph j files w =
      let ss = all_symbols files in
      let rs = all_references files in
      (
        ok tt,
        (if is_empty ss && is_empty rs
            then w
            else record w { db = persist_repo_graph j.repo_full_name ss rs w.db }),
      )

  -- the comment as `post_review` gets it
  unfoldable pub comment_json : ReviewComment → Json
  unfolding format_inline_comment
  comment_json c = Json.obj (
      Fields.field (codes "path") (Json.str c.path) (
        Fields.field (codes "line") (Json.num (pos c.line)) (
          Fields.field (codes "side") (Json.str c.side)
            (Fields.field (codes "body") (Json.str (format_inline_comment c)) Fields.end))))

  unfoldable pub publish : Job → List PrFile → ReviewResult → M (Unit {0})
  unfolding select_inline_comments format_review_body comment_json post_review
  publish j files r w =
      let inline = select_inline_comments settings r.comments in
      let (res, payloads) =
        post_review o.send o.list_reviews j.commit_sha (format_review_body r inline files)
          (map comment_json inline) in
      (res, log (map Sent.posted payloads) w)

  abbrev pub conclusion : ReviewResult → Text
  conclusion r = if is_approved r then codes "success" else codes "failure"

  unfoldable pub review_output : ReviewResult → Output
  unfolding decimal
  review_output r = record {
    title = codes "Revix Review: " ++ decimal r.score ++ codes "/100";
    summary = r.summary;
    text = some (codes "Found " ++ decimal (length r.comments) ++ codes " violations.");
  }

  -- `if check_run_id and token`; a token that GitHub gives is not empty
  unfoldable pub report_check : Job → Option ℕ → (conclusion : Text) → Output → M (Unit {0})
  report_check j none result output w = (ok tt, w)
  report_check j (some i) result output w =
      let u = check_update j.repo_full_name i result output in
      if i == 0 then (ok tt, w) else (o.update_check u, log (Sent.updated u ∷ []) w)

  unfoldable pub commit_success : Job → ReviewResult → M (Unit {0})
  unfolding finalize_job
  commit_success j r =
      on_db (finalize_job settings o.fresh o.now j.id j.fence_token success (some (o.dump r)))

  -- the end of the `try` block, with the review
  unfoldable pub finish_review : Job → Option ℕ → List PrFile → ReviewResult → M (Unit {0})
  unfolding publish report_check review_output commit_success
  finish_review j check files r = do
    publish j files r
    report_check j check (conclusion r) (review_output r)
    commit_success j r

  unfoldable pub review_files : Job → Option ℕ → List PrFile → Json → M (Unit {0})
  unfolding persist_graph analyze_diff finish_review
  review_files j check files details = do
    persist_graph j files
    finish_review j check files (analyze_diff settings m kit files details)

  unfoldable pub pull_files : Job → Result (List PrFile)
  unfolding fetch_pull_files fetch_file_content
  pull_files j =
      fetch_pull_files o.get_files (fetch_file_content o.get_raw o.decode) (some j.commit_sha)

  -- the `try` block behind the check run
  unfoldable pub review_job : Job → Option ℕ → M (Unit {0})
  unfolding pull_files review_files
  review_job j check = do
    diff ← lift o.get_diff
    files ← lift (pull_files j)
    details ← lift o.get_details
    review_files j check files details

  abbrev pub system_error : Exception → Output
  system_error e = record {
    title = codes "Review Failed";
    summary = codes "System Error: " ++ e.text;
    text = none;
  }

  -- the `except` block
  unfoldable pub handle : Job → Option ℕ → Exception → M (Unit {0})
  unfolding retry_delay_for is_rate_limit release_job report_check commit_failure
  handle j check e w =
      if is_rate_limit e
      then on_db (release_job o.now j.id j.fence_token (retry_delay_for o.now e j.attempt_count)) w
      else commit_failure j e.text (report_check j check (codes "failure") (system_error e) w).1

  abbrev pub caught : Job → Option ℕ → Result (Unit {0}) × World → Result (Unit {0}) × World
  caught j check (ok u, w) = (ok u, w)
  caught j check (raised e, w) = handle j check e w

  -- what follows the installation token
  unfoldable pub with_token : Job → Result Text → M (Unit {0})
  unfolding open_check review_job handle
  with_token j (raised e) w = handle j none e w
  with_token j (ok token) w =
      let (check, w') = open_check j w in caught j check (review_job j check w')

  -- by whether the job could be read
  unfoldable pub process_read : Job → Result ℕ → M (Unit {0})
  unfolding with_token commit_failure get_token
  process_read j (raised e) w = commit_failure j (codes "Invalid job payload: " ++ e.text) w
  process_read j (ok inst) w =
      let (token, db) = get_token o.grant o.now inst w.db in
      with_token j token (record w { db = db })

  unfoldable pub process_job : Job → M (Unit {0})
  unfolding read_job process_read
  process_job j = process_read j (read_job j)

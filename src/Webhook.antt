-- ===== src/Webhook.antt =====
-- app/main.py: the webhook that GitHub calls. A pull request is put in the queue; a comment with a
-- command on one overrides its check run. HMAC, `json.loads`, the clock and the network are
-- arguments. Spans, metrics and logs are left out.
pub mod Signed
pub mod Commands
pub mod Overridden
pub mod Queued
mod Tests
use revix.Prelude.{
  ℕ, Text, codes, text_eq, strip, lower, Json, Fields, get_key, get_field, Bool, true, false, not,
  ◌||◌, ◌&&◌, Option, none, some, List, [], ◌∷◌, ◌++◌, any, leb, ◌==◌, if◌then◌else◌,
}
use revix.Prelude.Int.{pos, negsuc}
use revix.Effects.{
  Result, ok, raised, Exception, exception, http_exception, timeout_error, key_error, type_error,
}
use revix.Effects
use revix.Config.{Settings}
use revix.Schema.{Db}
use revix.Access.{item, text_at, number_at, get}
use revix.World.{World, M, lift, continue, ◌>>=◌, ◌>>◌, on_db, log, Sent}
use revix.Queue.Enqueue.{enqueue_if_new}
use revix.Queue.Enqueue as Enqueue
use revix.Queue.Heartbeats.{get_check_run_id}
use revix.Github.Tokens.{get_token}
use revix.Github.Checks.{CheckUpdate, check_update, Output}

-- How the wait for the database ends: in time, or after three seconds, with the transaction
-- rolled back or with its commit already on the way.
pub data Wait : Type 0 where
  in_time rolled_back committed_late : Wait

-- what one request meets outside
pub record Services : Type 0 where
  pub hmac_sha256 : (key body : Text) → Text
  pub loads : Text → Result Json
  pub wait : Wait
  pub trace_context : Json
  pub fresh : ℕ
  pub now : ℕ
  pub today : ℕ
  pub grant : (installation_id : ℕ) → Result Text
  pub get_pull_request : (repo : Text) (pull_number : ℕ) (token : Text) → Result Json
  pub update_check : CheckUpdate → Result (Unit {0})

abbrev pub http_error : (status_code : ℕ) (detail : Text) → Exception
http_error n detail = exception (http_exception n) detail

abbrev pub is_ascii : Text → Bool
is_ascii s = not (any (λ (c : ℕ). leb 128 c) s)

-- `hmac.compare_digest` of two strings
abbrev pub compare_digest : Text → Text → Result Bool
compare_digest a b =
    if is_ascii a && is_ascii b
    then ok (text_eq a b)
    else raised (
        exception type_error (codes "comparing strings with non-ASCII characters is not supported"))

abbrev pub one_of : List Text → Text → Bool
one_of ks s = any (text_eq s) ks

-- `j.get(key) in (...)`
abbrev pub is_one_of : List Text → Option Json → Bool
is_one_of ks (some (Json.str s)) = one_of ks s
is_one_of ks _ = false

abbrev pub is_none : Option Json → Bool
is_none none = true
is_none (some Json.null) = true
is_none (some j) = false

abbrev pub pull_actions : List Text
pull_actions = codes "opened" ∷ codes "synchronize" ∷ []

abbrev pub commands : List Text
commands = codes "/revix-ignore" ∷ codes "/revix-approve" ∷ codes "/revix-ok" ∷ []

abbrev pub trusted : List Text
trusted = codes "OWNER" ∷ codes "MEMBER" ∷ codes "COLLABORATOR" ∷ []

-- on a pull request, by someone who may write to the repository
unfoldable pub is_authorized : (pull_request author_association : Option Json) → Bool
unfolding text_eq
is_authorized pull association = not (is_none pull) && is_one_of trusted association

-- `comment_body`
unfoldable pub command_of : Text → Text
unfolding strip lower
command_of body = lower (strip body)

abbrev pub override_output : Text → Output
override_output command = record {
  title = codes "Manual Override: Approved";
  summary = codes "Review status overridden by user comment: " ++ command;
  text = some (codes "The quality gate has been manually bypassed.");
}

-- the message of the answer
abbrev pub accepted : Text
accepted = codes "accepted"

abbrev pub already_exists : Text
already_exists = codes "already exists"

module _ (settings : Settings) (s : Services) where
  abbrev pub expected_signature : (body : Text) → Text
  expected_signature body = codes "sha256=" ++ s.hmac_sha256 settings.github_webhook_secret body

  abbrev pub compared : Result Bool → Result (Unit {0})
  compared (ok true) = ok tt
  compared (ok false) = raised (http_error 401 (codes "Invalid signature"))
  compared (raised e) = raised e

  unfoldable pub verify_signature : (body : Text) (signature : Option Text) → Result (Unit {0})
  unfolding text_eq
  verify_signature body none = raised (http_error 401 (codes "Missing signature"))
  verify_signature body (some []) = raised (http_error 401 (codes "Missing signature"))
  verify_signature body (some (c ∷ sig)) =
      compared (compare_digest (expected_signature body) (c ∷ sig))

  abbrev pub answer : Result Bool → Result Text
  answer (ok true) = ok accepted
  answer (ok false) = ok already_exists
  answer (raised e) = raised e

  abbrev pub database_busy : Exception
  database_busy = http_error 503 (codes "Database busy, please retry")

  -- `asyncio.wait_for`, on the result and the state of the call
  abbrev pub wait_for : Wait → Db → Result Bool × Db → Result Text × Db
  wait_for in_time db (res, db') = (answer res, db')
  wait_for rolled_back db (res, db') = (raised database_busy, db)
  wait_for committed_late db (res, db') = (raised database_busy, db')

  abbrev pub request : (sha repo : Text) (num inst_id : ℕ) → Enqueue.Request
  request sha repo num inst = record {
    sha = sha;
    repo = repo;
    pull_number = num;
    installation_id = inst;
    trace_context = some s.trace_context;
    fresh = s.fresh;
    now = s.now;
    today = s.today;
  }

  -- the fields that the first branch reads, in its order
  unfoldable pub read_pull : Json → Result Enqueue.Request
  unfolding text_at number_at
  read_pull payload =
      Effects.◌>>=◌ (text_at (codes "pull_request" ∷ codes "head" ∷ codes "sha" ∷ []) payload)
        λ sha. Effects.◌>>=◌ (text_at (codes "repository" ∷ codes "full_name" ∷ []) payload) λ repo.
          Effects.◌>>=◌ (number_at (codes "pull_request" ∷ codes "number" ∷ []) payload) λ num.
            Effects.◌>>=◌ (number_at (codes "installation" ∷ codes "id" ∷ []) payload)
              λ inst. ok (request sha repo num inst)

  unfoldable pub enqueue_commit : Enqueue.Request → M Text
  unfolding enqueue_if_new
  enqueue_commit r = on_db (λ db. wait_for s.wait db (enqueue_if_new r db))

  unfoldable pub on_pull_request : Json → M Text
  unfolding read_pull enqueue_commit text_eq get_field
  on_pull_request payload = do
    action ← lift (get (codes "action") payload)
    if is_one_of pull_actions action
        then lift (read_pull payload) >>= enqueue_commit
        else lift (ok accepted)

  -- the PATCH, for a check run that was found
  unfoldable pub override : (repo command : Text) → Option ℕ → M (Unit {0})
  override repo command none w = (ok tt, w)
  override repo command (some i) w =
      let u = check_update repo i (codes "success") (override_output command) in
      if i == 0 then (ok tt, w) else (s.update_check u, log (Sent.updated u ∷ []) w)

  -- the `try` block
  unfoldable pub find_and_override : (repo command : Text) (num inst_id : ℕ) → M (Unit {0})
  unfolding get_token text_at get_check_run_id override
  find_and_override repo command num inst = do
    token ← on_db (get_token s.grant s.now inst)
    pr ← lift (s.get_pull_request repo num token)
    head_sha ← lift (text_at (codes "head" ∷ codes "sha" ∷ []) pr)
    λ w. override repo command (get_check_run_id repo num head_sha w.db) w

  -- an authorized command; what its `try` block raises is logged
  unfoldable pub on_command : (repo command : Text) (num inst_id : ℕ) → M Text
  unfolding find_and_override
  on_command repo command num inst w = (ok accepted, (find_and_override repo command num inst w).1)

  unfoldable pub on_authorized : (repo command : Text) (issue payload : Json) → M Text
  unfolding number_at on_command
  on_authorized repo command issue payload = do
    num ← lift (number_at (codes "number" ∷ []) issue)
    inst ← lift (number_at (codes "installation" ∷ codes "id" ∷ []) payload)
    on_command repo command num inst

  -- a comment whose text is a command
  unfoldable pub on_command_comment : (command : Text) → Json → M Text
  unfolding text_at is_authorized on_authorized get_field
  on_command_comment command payload = do
    repo ← lift (text_at (codes "repository" ∷ codes "full_name" ∷ []) payload)
    issue ← lift (item (codes "issue") payload)
    comment ← lift (item (codes "comment") payload)
    pull ← lift (get (codes "pull_request") issue)
    association ← lift (get (codes "author_association") comment)
    if is_authorized pull association
        then on_authorized repo command issue payload
        else lift (ok accepted)

  unfoldable pub on_created_comment : Json → M Text
  unfolding text_at command_of on_command_comment
  on_created_comment payload = do
    body ← lift (text_at (codes "comment" ∷ codes "body" ∷ []) payload)
    let command = command_of body
    if one_of commands command then on_command_comment command payload else lift (ok accepted)

  unfoldable pub on_issue_comment : Json → M Text
  unfolding on_created_comment text_eq get_field
  on_issue_comment payload = do
    action ← lift (get (codes "action") payload)
    if is_one_of (codes "created" ∷ []) action
        then on_created_comment payload
        else lift (ok accepted)

  -- by the event
  unfoldable pub dispatch : (event : Text) → Json → M Text
  unfolding text_eq on_pull_request on_issue_comment
  dispatch event payload =
      if text_eq event (codes "pull_request")
      then on_pull_request payload
      else if text_eq event (codes "issue_comment")
      then on_issue_comment payload
      else lift (ok accepted)

  unfoldable pub github_webhook : (event body : Text) (signature : Option Text) → M Text
  unfolding verify_signature dispatch
  github_webhook event body signature = do
    lift (verify_signature body signature)
    payload ← lift (s.loads body)
    dispatch event payload

-- ===== src/Webhook/Tests.antt =====
-- The theorems on the webhook at a pull request and at a command.
use revix.Prelude.{
  ℕ, Text, codes, Json, Fields, text_eq, ◌≡◌, ◌≢◌, refl, none, some, [], ◌∷◌, get_field,
  if◌then◌else◌,
}
use revix.Prelude.Int.{pos}
use revix.Effects.{ok}
use revix.Config.{default_settings}
use revix.World.{World, Sent}
use revix.Queue.Enqueue.{Request, new_job}
use revix.Github.Checks.{check_update}
use revix.Webhook.{Services, in_time, verify_signature, read_pull, override_output, github_webhook}
use revix.Webhook.Signed.{IsRefused, github_webhook-IsRefused}
use revix.Webhook.Overridden.{SendsRightly, github_webhook-SendsRightly}
use revix.Webhook.Queued.{Answers, github_webhook-Answers}

abbrev entry : Text → Json → Fields → Fields
entry k j fs = Fields.field k j fs

abbrev repository : Json
repository = Json.obj (entry (codes "full_name") (Json.str (codes "o/r")) Fields.end)

abbrev head_of : Text → Fields → Fields
head_of sha fs = entry (codes "head") (Json.obj (entry (codes "sha") (Json.str sha) Fields.end)) fs

abbrev number : ℕ → Fields → Fields
number n fs = entry (codes "number") (Json.num (pos n)) fs

abbrev common : Fields
common = entry (codes "repository") repository (
    entry (codes "installation") (Json.obj (entry (codes "id") (Json.num (pos 3)) Fields.end))
      Fields.end)

abbrev pull_request : Json
pull_request = Json.obj (head_of (codes "abc") (number 5 Fields.end))

abbrev opened : Json
opened = Json.obj (
    entry (codes "action") (Json.str (codes "opened"))
      (entry (codes "pull_request") pull_request common))

abbrev issue : Json
issue = Json.obj (number 5 (entry (codes "pull_request") (Json.obj Fields.end) Fields.end))

abbrev comment : Json
comment = Json.obj (
    entry (codes "body") (Json.str (codes " /Revix-OK"))
      (entry (codes "author_association") (Json.str (codes "OWNER")) Fields.end))

abbrev commented : Json
commented = Json.obj (
    entry (codes "action") (Json.str (codes "created"))
      (entry (codes "issue") issue (entry (codes "comment") comment common)))

abbrev services : Services
services = record {
  hmac_sha256 = λ key body. codes "5e";
  loads = λ body. ok (if text_eq body (codes "comment") then commented else opened);
  wait = in_time;
  trace_context = Json.obj Fields.end;
  fresh = 7;
  now = 100;
  today = 0;
  grant = λ inst. ok (codes "token");
  get_pull_request = λ repo num token. ok pull_request;
  update_check = λ u. ok tt;
}

abbrev push : Request
push = record {
  sha = codes "abc";
  repo = codes "o/r";
  pull_number = 5;
  installation_id = 3;
  trace_context = some (Json.obj Fields.end);
  fresh = 7;
  now = 100;
  today = 0;
}

abbrev empty : World
empty = record {
  db = record {
    jobs = [];
    worker_heartbeats = [];
    review_records = [];
    installation_tokens = [];
    repo_symbols = [];
    repo_references = [];
  };
  sent = [];
}

-- the job of a commit with a check run
abbrev checked : World
checked = record empty {
  db = record empty.db { jobs = record (new_job push) { github_check_run_id = some 12 } ∷ [] };
}

abbrev signature : Text
signature = codes "sha256=5e"

unsigned : none ≢ some signature
unsigned e = cc e

github_webhook-IsRefused_example :
    let (res, w) = github_webhook default_settings services (codes "pull_request") [] none empty in
    (w ≡ empty) × IsRefused res
github_webhook-IsRefused_example =
    github_webhook-IsRefused default_settings services (codes "pull_request") [] none empty unsigned

github_webhook-SendsRightly_example :
    SendsRightly commented checked
      (github_webhook default_settings services
        (codes "issue_comment")
        (codes "comment")
        (some signature)
        checked).1
unfolding text_eq
github_webhook-SendsRightly_example =
    github_webhook-SendsRightly default_settings services (codes "issue_comment") (codes "comment")
      (some signature) commented checked refl

overrides :
    (github_webhook default_settings services
      (codes "issue_comment")
      (codes "comment")
      (some signature)
      checked).1.sent
    ≡ Sent.updated
        (check_update (codes "o/r") 12 (codes "success") (override_output (codes "/revix-ok")))
      ∷ []
unfolding github_webhook text_eq new_job
overrides = refl

github_webhook-Answers_example :
    Answers push
      (github_webhook default_settings services (codes "pull_request") [] (some signature) empty)
unfolding text_eq verify_signature read_pull get_field
github_webhook-Answers_example =
    github_webhook-Answers default_settings services [] (some signature) opened
      (some (Json.str (codes "opened"))) push empty refl refl refl refl refl

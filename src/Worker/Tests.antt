-- ===== src/Worker/Tests.antt =====
-- The theorems on the worker at small inputs.
use revix.Prelude.{
  ℕ, ◌≤◌, codes, ◌≡◌, refl, none, List, [], ◌∷◌, All, length, max, Json, Fields, false, Memᴰ, arith,
}
use revix.Prelude.Int.{pos}
use revix.Effects.{ok, raised, exception, runtime_error, decode_error, value_error, http_error}
use revix.World.{World}
use revix.Schema.{Job, default_job}
use revix.Queue.Claim.{start}
use revix.Ai.Models.{Models}
use revix.Ai.Syntax.{Toolkit, node, nil}
use revix.Worker.Format.{clean_fix}
use revix.Worker.Format.Fences.{IsClosed, clean_fix-IsClosed}
use revix.Worker.Process.{Outside, process_job}
use revix.Worker.Process.Running.{IsRunning, IsSettled}
use revix.Worker.Process.Settled.{process_job-Settles}
use revix.Config.{default_settings}
use revix.Ai.Review.{ReviewComment}
use revix.Worker.Inline.{select_inline_comments}
use revix.Worker.Inline.Selected.{are_near, Apart, IsWanted, IsResolved, select_inline_comments_lem}

abbrev at_line : ℕ → ReviewComment
at_line n = record {
  path = codes "a.py";
  line = n;
  side = codes "RIGHT";
  body = codes "bad";
  severity = codes "CRITICAL";
  suggested_fix = none;
  agent_id = none;
}

abbrev three_comments : List ReviewComment
three_comments = at_line 3 ∷ at_line 5 ∷ at_line 20 ∷ []

select_inline_comments_lem_example :
    let kept = select_inline_comments default_settings three_comments in
    All (λ c. Memᴰ c three_comments × IsWanted default_settings c) kept
    × Apart are_near kept
    × (length kept ≤ max 3 1)
    × All (IsResolved default_settings kept) three_comments
select_inline_comments_lem_example = select_inline_comments_lem default_settings three_comments

-- one job, claimed from the queue
abbrev job : Job
job = start 100 (codes "ann") (record (default_job 7 100 0) {
  commit_sha = codes "abc";
  repo_full_name = codes "o/r";
  payload = Json.obj (Fields.field (codes "installation_id") (Json.num (pos 3)) Fields.end);
})

abbrev claimed_world : World
claimed_world = record {
  db = record {
    jobs = job ∷ [];
    worker_heartbeats = record { job_id = 7; worker_id = codes "ann"; heartbeat_at = 100 } ∷ [];
    review_records = [];
    installation_tokens = [];
    repo_symbols = [];
    repo_references = [];
  };
  sent = [];
}

claimed_world-IsRunning : IsRunning 7 0 8 claimed_world.db
unfolding start
claimed_world-IsRunning = record {
  valid = record {
    ids = (tt, tt);
    shas = (tt, tt);
    beats = (tt, tt);
    reviews = tt;
    linked = tt;
    attempts = (omega arith, tt);
  };
  row = job;
  present = Memᴰ.head refl;
  same_id = refl;
  same_fence = refl;
  running = refl;
  free = refl;
}

abbrev models : Models
models = record {
  complete = λ c. raised (exception runtime_error []);
  run = λ gvisor script. raised (exception runtime_error []);
  loads = λ text. raised (exception decode_error []);
  validate = λ j. raised (exception value_error []);
  construct = λ summary score cs. raised (exception value_error []);
  int_of_float = λ text. raised (exception value_error []);
}

abbrev kit : Toolkit
kit = record {
  parse = λ ext s. record {
    root =
        node
          (record {
            type = codes "module";
            start_byte = 0;
            end_byte = 0;
            start_row = 0;
            end_row = 0;
            fields = [];
          })
          nil;
    has_error = false;
  };
  encode = λ s. s;
  decode = λ s. s;
}

-- GitHub refuses the diff.
abbrev outside : Outside
outside = record {
  now = 200;
  fresh = 8;
  grant = λ inst. ok (codes "token");
  create_check = λ start. ok 12;
  update_check = λ u. ok tt;
  get_diff = raised (exception http_error (codes "500"));
  get_files = ok [];
  get_raw = λ path. raised (exception http_error (codes "404"));
  decode = λ bytes. none;
  get_details = ok Json.null;
  list_reviews = ok [];
  send = λ p. ok tt;
  dump = λ r. Json.null;
}

process_job-Settles_example :
    let out = process_job default_settings models kit outside job claimed_world in
    (out.0 ≡ ok tt) × IsSettled 7 0 out.1.db
unfolding start
process_job-Settles_example =
    process_job-Settles default_settings models kit outside job claimed_world
      claimed_world-IsRunning

clean_fix-IsClosed_example : IsClosed (clean_fix (codes "```cpp\nreturn;\n```"))
clean_fix-IsClosed_example = clean_fix-IsClosed (codes "```cpp\nreturn;\n```")

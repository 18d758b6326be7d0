-- ===== src/System/Tests.antt =====
-- The refinement at a small run: a job is claimed and processed.
use revix.Prelude.{ℕ, codes, Json, Bool, false, none, [], ◌∷◌, Memᴰ, refl}
use revix.Effects.{ok, raised, exception, runtime_error, decode_error, value_error, http_error}
use revix.Config.{default_settings}
use revix.Schema.{Job, default_job}
use revix.Queue.Claim.{claim_job, start}
use revix.Queue.Workers.{add_claim, Reach}
use revix.Ai.Models.{Models}
use revix.Ai.Syntax.{Toolkit, node, nil}
use revix.Worker.Process.{Outside, process_job}
use revix.System.{State, with_world, queue_of, Move, Run}
use revix.System.Refined.{Run-Reach}

abbrev unlocked : ℕ → Bool
unlocked i = false

abbrev waiting_job : Job
waiting_job = record (default_job 7 100 0) { commit_sha = codes "abc" }

abbrev first : State
first = record {
  world = record {
    db = record {
      jobs = waiting_job ∷ [];
      worker_heartbeats = [];
      review_records = [];
      installation_tokens = [];
      repo_symbols = [];
      repo_references = [];
    };
    sent = [];
  };
  claims = [];
}

abbrev second : State
second = record {
  world = record { db = (claim_job unlocked 100 (codes "a") first.world.db).1; sent = [] };
  claims = add_claim (codes "a") (claim_job unlocked 100 (codes "a") first.world.db).0 [];
}

abbrev models : Models
models = record {
  complete = λ c. raised (exception runtime_error []);
  run = λ gvisor script. raised (exception runtime_error []);
  loads = λ text. raised (exception decode_error []);
  validate = λ j. raised (exception value_error []);
  construct = λ summary score cs. raised (exception value_error []);
  int_of_float = λ text. raised (exception value_error []);
}

abbrev kit : Toolkit
kit = record {
  parse = λ ext s. record {
    root =
        node
          (record {
            type = [];
            start_byte = 0;
            end_byte = 0;
            start_row = 0;
            end_row = 0;
            fields = [];
          })
          nil;
    has_error = false;
  };
  encode = λ s. s;
  decode = λ s. s;
}

abbrev outside : Outside
outside = record {
  now = 200;
  fresh = 8;
  grant = λ inst. ok (codes "token");
  create_check = λ start. ok 12;
  update_check = λ u. ok tt;
  get_diff = raised (exception http_error (codes "500"));
  get_files = ok [];
  get_raw = λ path. raised (exception http_error (codes "404"));
  decode = λ bytes. none;
  get_details = ok Json.null;
  list_reviews = ok [];
  send = λ p. ok tt;
  dump = λ r. Json.null;
}

abbrev claimed_job : Job
claimed_job = start 100 (codes "a") waiting_job

abbrev third : State
third =
    with_world second (process_job default_settings models kit outside claimed_job second.world).1

first-third : Run default_settings first third
unfolding claim_job start
first-third =
    Run.next (Run.next Run.here (Move.claim unlocked 100 (codes "a") first))
      (Move.process models kit outside (codes "a") claimed_job second (Memᴰ.head refl))

Run-Reach_example : Reach default_settings (queue_of first) (queue_of third)
Run-Reach_example = Run-Reach default_settings first third first-third

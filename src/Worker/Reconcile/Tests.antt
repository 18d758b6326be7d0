-- ===== src/Worker/Reconcile/Tests.antt =====
-- The theorems on a round of the reconciliation at one job whose worker is dead.
use revix.Prelude.{codes, Json, Fields, get_field, text_eq, refl, false, some, [], ◌∷◌, Memᴰ}
use revix.Prelude.Int.{pos}
use revix.Effects.{ok}
use revix.Config.{default_settings}
use revix.Schema.{Job, processing, default_job}
use revix.World.{World, Sent}
use revix.Worker.Reconcile.{Surroundings, reconcile_round}
use revix.Worker.Reconcile.Notices.{notice}
use revix.Worker.Reconcile.Told.{reconcile_round_tells}

abbrev lost_job : Job
lost_job = record (default_job 7 100 0) {
  status = processing;
  commit_sha = codes "abc";
  repo_full_name = codes "o/r";
  github_check_run_id = some 12;
  payload = Json.obj (Fields.field (codes "installation_id") (Json.num (pos 3)) Fields.end);
}

abbrev with_lost : World
with_lost = record {
  db = record {
    jobs = lost_job ∷ [];
    worker_heartbeats = [];
    review_records = [];
    installation_tokens = [];
    repo_symbols = [];
    repo_references = [];
  };
  sent = [];
}

abbrev around : Surroundings
around = record {
  now = 200;
  locked = λ i. false;
  loads = λ text. ok (Json.str text);
  grant = λ inst. ok (codes "token");
  update_check = λ u. ok tt;
}

abbrev one_notice : Sent
one_notice = notice lost_job 12

reconcile_round_tells_example :
    Memᴰ one_notice (reconcile_round default_settings around with_lost).sent
unfolding get_field text_eq
reconcile_round_tells_example =
    reconcile_round_tells default_settings around with_lost lost_job 11 (Memᴰ.head refl) refl refl
      (record {
        fields = Fields.field (codes "installation_id") (Json.num (pos 3)) Fields.end;
        number = 2;
        token = codes "token";
        payload_of = refl;
        installed = refl;
        granted = refl;
      })

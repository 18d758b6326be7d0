-- ===== src/Worker/Reconcile.antt =====
-- `reconciliation_loop`: one round of it. Jobs that were taken from dead workers are told to GitHub.
pub mod Notices
pub mod Told
mod Tests
use revix.Prelude.{
  ℕ, Text, codes, Json, truthy, get_field, Bool, true, false, Option, none, some, List, [], ◌∷◌,
  ◌++◌, ◌==◌, if◌then◌else◌,
}
use revix.Effects.{Result, ok, raised}
use revix.Config.{Settings}
use revix.Schema.{Status, dead, pending, Job, Db}
use revix.Access.{get, as_number}
use revix.World.{World, M, lift, continue, ◌>>=◌, on_db, log, Sent}
use revix.Queue.Reconcile.{reconcile_stale_jobs}
use revix.Github.Tokens.{get_token}
use revix.Github.Checks.{CheckUpdate, check_update, Output}

-- what one round meets outside
pub record Surroundings : Type 0 where
  pub now : ℕ
  pub locked : ℕ → Bool
  pub loads : Text → Result Json
  pub grant : (installation_id : ℕ) → Result Text
  pub update_check : CheckUpdate → Result (Unit {0})

abbrev pub is_dead : Status → Bool
is_dead dead = true
is_dead _ = false

abbrev pub stalled : Text
stalled = codes "Job stalled or worker died."

abbrev pub retrying : Text
retrying = codes " Retrying analysis..."

-- A reclaimed job is pending where it is not dead.
abbrev pub stalled_update : Job → (check_run_id : ℕ) → CheckUpdate
stalled_update j i =
    check_update j.repo_full_name i
      (if is_dead j.status then codes "failure" else codes "action_required")
      (record {
        title = codes "Review Stalled";
        summary = if is_dead j.status then stalled else stalled ++ retrying;
        text = none;
      })

-- `if not inst_id`
abbrev pub if_given : Option Json → Option Json
if_given none = none
if_given (some v) = if truthy v then some v else none

module _ (settings : Settings) (o : Surroundings) where
  abbrev pub loaded : Json → Result Json
  loaded (Json.str s) = o.loads s
  loaded j = ok j

  abbrev pub send_update : CheckUpdate → M (Unit {0})
  send_update u w = (o.update_check u, log (Sent.updated u ∷ []) w)

  abbrev pub tell_installation : Job → (check_run_id : ℕ) → Option Json → M (Unit {0})
  tell_installation j i none w = (ok tt, w)
  tell_installation j i (some v) w =
      continue (as_number v)
        (λ inst. on_db (get_token o.grant o.now inst) >>= λ token. send_update (stalled_update j i))
        w

  -- the inner `try` block
  unfoldable pub tell : Job → (check_run_id : ℕ) → M (Unit {0})
  unfolding get_token get_field
  tell j i = do
    payload ← lift (loaded j.payload)
    inst_id ← lift (get (codes "installation_id") payload)
    tell_installation j i (if_given inst_id)

  -- `if job.get("github_check_run_id")`; what `tell` raises is logged.
  unfoldable pub tell_if_checked : Job → Option ℕ → World → World
  unfolding tell
  tell_if_checked j none w = w
  tell_if_checked j (some i) w = if i == 0 then w else (tell j i w).1

  unfoldable pub tell_all : List Job → World → World
  unfolding tell_if_checked
  tell_all [] w = w
  tell_all (j ∷ js) w = tell_all js (tell_if_checked j j.github_check_run_id w)

  abbrev pub told : Result (List Job) → World → World
  told (ok js) w = tell_all js w
  told (raised e) w = w

  unfoldable pub reconcile_round : World → World
  unfolding reconcile_stale_jobs tell_all
  reconcile_round w =
      let (rows, db) = reconcile_stale_jobs settings o.locked o.now w.db in
      told rows (record w { db = db })

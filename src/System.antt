-- ===== src/System.antt =====
-- The whole program as moves of its parts: the webhook, the workers and the reconciliation work on
-- one database. Each move is one handler from its start to its end.
pub mod Processing
pub mod Serving
pub mod Refined
mod Tests
use revix.Prelude.{ℕ, Text, Bool, Option, List, Memᴰ}
use revix.Config.{Settings}
use revix.Schema.{Job}
use revix.World.{World}
use revix.Ai.Models.{Models}
use revix.Ai.Syntax.{Toolkit}
use revix.Queue.Claim.{claim_job}
use revix.Queue.Heartbeats.{update_heartbeat}
use revix.Queue.Release.{release_job}
use revix.Queue.Workers.{Claim, add_claim}
use revix.Queue.Workers as Queue
use revix.Webhook.{Services, github_webhook}
use revix.Worker.Process.{Outside, process_job}
use revix.Worker.Reconcile.{Surroundings, reconcile_round}

-- `claims` are the ids and tokens that the workers have got.
pub record State : Type 0 where
  pub world : World
  pub claims : List Claim

abbrev pub with_world : State → World → State
with_world s w = record s { world = w }

abbrev pub claim_of : Text → Job → Claim
claim_of worker j = record { worker = worker; job_id = j.id; fence = j.fence_token }

-- what the queue is of a state
abbrev pub queue_of : State → Queue.World
queue_of s = record { db = s.world.db; claims = s.claims }

module _ (settings : Settings) where
  pub data Move : State → State → Type 0 where
    serve :
        (o : Services) (event body : Text) (signature : Option Text) (s : State)
        → Move s (with_world s (github_webhook settings o event body signature s.world).1)
    claim :
        (locked : ℕ → Bool) (now : ℕ) (worker : Text) (s : State)
        → Move s (record s {
          world = record s.world { db = (claim_job locked now worker s.world.db).1 };
          claims = add_claim worker (claim_job locked now worker s.world.db).0 s.claims;
        })
    beat :
        (now : ℕ) (c : Claim) (s : State)
        → Move s (
            with_world s
              (record s.world { db = (update_heartbeat now c.job_id c.worker s.world.db).1 }))
    process :
        (m : Models) (kit : Toolkit) (o : Outside) (worker : Text) (j : Job) (s : State)
        → Memᴰ (claim_of worker j) s.claims
        → Move s (with_world s (process_job settings m kit o j s.world).1)
    -- at a shutdown
    release :
        (now : ℕ) (c : Claim) (s : State)
        → Memᴰ c s.claims
        → Move s (
            with_world s
              (record s.world { db = (release_job now c.job_id c.fence 0 s.world.db).1 }))
    reconcile :
        (o : Surroundings) (s : State) → Move s (with_world s (reconcile_round settings o s.world))

  pub data Run (s : State) : State → Type 0 where
    here : Run s s
    next : {t u : State} → Run s t → Move t u → Run s u

-- ===== src/System/Refined.antt =====
-- The program's moves as runs of the queue's transactions.
use revix.Prelude.{
  ℕ, codes, Json, inl, inr, Option, none, some, List, [], ◌∷◌, Bool-cases, ◌==◌, map, select_where,
}
use revix.Config.{Settings}
use revix.Schema.{Job}
use revix.World.{World, M}
use revix.Access.{get, as_number}
use revix.Github.Tokens.{get_token}
use revix.Queue.Reconcile.{is_stale, reclaim, reconcile_stale_jobs}
use revix.Queue.Claim.{claim_job}
use revix.Queue.Workers.{Claim, Step, Reach}
use revix.Queue.Workers as Queue
use revix.System.Serving.{github_webhook-Keeps}
use revix.Worker.Reconcile.{
  Surroundings, if_given, loaded, tell_installation, tell, tell_if_checked, tell_all,
  reconcile_round,
}
use revix.System.{State, queue_of, Move, Run}
use revix.System.Processing.{Reached, Keeps, continue-Reached, get_token-Reached, process_job-Keeps}

module _ (settings : Settings) (start : Queue.World) (cs : List Claim) (o : Surroundings) where
  abbrev R : World → Type 0
  R = Reached settings start cs

  abbrev K : {A : Type 0} → M A → Type 0
  K = Keeps settings start cs

  abbrev queue : World → Queue.World
  queue w = record { db = w.db; claims = cs }

  tell_installation-Keeps :
      (j : Job) (i : ℕ) (inst : Option Json) → K (tell_installation settings o j i inst)
  tell_installation-Keeps j i none w h = h
  tell_installation-Keeps j i (some v) w h =
      continue-Reached settings start cs (as_number v) _ w h λ inst w h.
        continue-Reached settings start cs (get_token o.grant o.now inst w.db).0 _ _
          (get_token-Reached settings start cs o.grant o.now inst w.db h) λ token w h. h

  tell-Keeps : (j : Job) (i : ℕ) → K (tell settings o j i)
  unfolding tell
  tell-Keeps j i w h =
      continue-Reached settings start cs (loaded settings o j.payload) _ w h λ payload w h.
        continue-Reached settings start cs (get (codes "installation_id") payload) _ w h
          λ inst. tell_installation-Keeps j i (if_given inst)

  tell_if_checked-Reached :
      (j : Job) (c : Option ℕ) (w : World) → R w → R (tell_if_checked settings o j c w)
  unfolding tell_if_checked
  tell_if_checked-Reached j none w h = h
  tell_if_checked-Reached j (some i) w h = elim (Bool-cases (i == 0)) [
    | inl z ↦ rw z h
    | inr z ↦ rw z (tell-Keeps j i w h)
  ]

  tell_all-Reached : (js : List Job) (w : World) → R w → R (tell_all settings o js w)
  unfolding tell_all
  tell_all-Reached [] w h = h
  tell_all-Reached (j ∷ js) w h =
      tell_all-Reached js (tell_if_checked settings o j j.github_check_run_id w)
        (tell_if_checked-Reached j j.github_check_run_id w h)

  reconcile_round-Reached : (w : World) → R w → R (reconcile_round settings o w)
  unfolding reconcile_round reconcile_stale_jobs
  reconcile_round-Reached w h =
      let recover = reclaim o.now settings.worker_retry_backoff_seconds in
      let stale =
        is_stale o.locked o.now settings.worker_heartbeat_stale_seconds w.db.worker_heartbeats in
      tell_all-Reached (map recover (select_where stale w.db.jobs))
        (record w { db = (reconcile_stale_jobs settings o.locked o.now w.db).1 })
        (Reach.next h (Step.reconcile o.locked o.now (queue w)))

module _ (settings : Settings) where
  Move-Reach :
      (start : Queue.World) (s t : State)
      → Move settings s t
      → Reach settings start (queue_of s)
      → Reach settings start (queue_of t)
  unfolding claim_job
  Move-Reach start _ _ (Move.serve o event body signature s) h =
      github_webhook-Keeps settings start s.claims o event body signature s.world h
  Move-Reach start _ _ (Move.claim locked now worker s) h =
      Reach.next h (Step.claim locked now worker (queue_of s))
  Move-Reach start _ _ (Move.beat now c s) h = Reach.next h (Step.heartbeat now c (queue_of s))
  Move-Reach start _ _ (Move.process m kit o worker j s held) h =
      process_job-Keeps settings start s.claims m kit o worker j held s.world h
  Move-Reach start _ _ (Move.release now c s held) h =
      Reach.next h (Step.release now 0 c (queue_of s) held)
  Move-Reach start _ _ (Move.reconcile o s) h =
      reconcile_round-Reached settings start s.claims o s.world h

  -- Every run of the program's moves (requests to the webhook, claims, heartbeats, `process_job`
  -- with a claim that a worker has got, releases and rounds of the reconciliation) is, on the
  -- database and the claims, a run of the queue's transactions and of writes to the tables beside
  -- it, in which every commit and every release uses the token of a claim that was handed out.
  pub Run-Reach : (s t : State) → Run settings s t → Reach settings (queue_of s) (queue_of t)
  Run-Reach s _ Run.here = Reach.here
  Run-Reach s t (Run.next {t = u} r step) = Move-Reach (queue_of s) u t step (Run-Reach s u r)

-- ===== src/Queue/Beating.antt =====
-- A worker that beats in time keeps its job.
use revix.Prelude.{
  ℕ, ◌+◌, ◌≤◌, Text, text_eq, text_eq_refl, ◌≡◌, refl, sym, ◌∙◌, ap, inl, inr, Bool, true, false,
  ◌&&◌, List, [], ◌∷◌, Memᴰ, arith, any, any-mem, mem-update_where, Distinct-mem, ltb, ==_iff,
  ==_refl, Bool-cases, find_where,
}
use revix.Config.{Settings}
use revix.Schema.{Job, Heartbeat, Db}
use revix.Queue.Rows.{beats_for}
use revix.Queue.Heartbeats.{is_run_by, is_running, update_heartbeat}
use revix.Queue.Reconcile.{is_lost, is_stale}
use revix.Queue.Constraints.{IsValid, update_heartbeat-IsValid}

any-none :
    {A : Type 0} (p : A → Bool) (xs : List A)
    → ((x : A) → Memᴰ x xs → p x ≡ false)
    → any p xs ≡ false
any-none p [] h = refl
any-none p (x ∷ xs) h =
    let first = h x (Memᴰ.head refl) in
    let rest = any-none p xs (λ y m. h y (Memᴰ.tail m)) in ground (arith, first, rest)

-- the row as the UPDATE leaves it
abbrev beaten : ℕ → Heartbeat → Heartbeat
beaten now h = record h { heartbeat_at = now }

beaten-mem :
    (now i : ℕ) (w : Text) (db : Db) (h : Heartbeat)
    → Memᴰ h db.worker_heartbeats
    → h.job_id ≡ i
    → h.worker_id ≡ w
    → is_running (find_where (is_run_by i w) db.jobs) ≡ true
    → Memᴰ (beaten now h) (update_heartbeat now i w db).1.worker_heartbeats
unfolding update_heartbeat
beaten-mem now i w db h m same_job same_worker runs =
    let p : Heartbeat → Bool = λ h. beats_for i h && text_eq h.worker_id w in
    let hit : p h ≡ true = rw (same_job, same_worker, ==_refl i, text_eq_refl w) refl in
    rw runs (rw hit at (mem-update_where p (beaten now) db.worker_heartbeats m))

-- a table of heartbeats with one recent row for the job
recent-not_lost :
    (now later stale : ℕ) (hs : List Heartbeat) (h : Heartbeat) (j : Job)
    → Memᴰ h hs
    → h.job_id ≡ j.id
    → h.heartbeat_at ≡ now
    → later ≤ now + stale
    → ((k : Heartbeat) → Memᴰ k hs → k.job_id ≡ j.id → k ≡ h)
    → is_lost later stale hs j ≡ false
recent-not_lost now later stale hs h j m same at in_time only =
    let there : any (beats_for j.id) hs ≡ true =
      any-mem (beats_for j.id) hs m ((==_iff h.job_id j.id).1 same) in
    let none_old : any (λ k. beats_for j.id k && ltb (k.heartbeat_at + stale) later) hs ≡ false =
      any-none (λ k. beats_for j.id k && ltb (k.heartbeat_at + stale) later) hs
        λ k n. elim (Bool-cases (beats_for j.id k)) [
          | inl y ↦
              let e : k.heartbeat_at ≡ now =
                ap (λ (x : Heartbeat). x.heartbeat_at) (only k n ((==_iff k.job_id j.id).0 y))
                ∙ at in
              ground (arith, e, in_time)
          | inr other ↦ rw other refl
        ] in
    rw (there, none_old) refl

-- In a valid database, where the heartbeat of job `i` is by worker `w` and the first row of that
-- job and worker is running: after `update_heartbeat` by `w` at the time `now`, no row with the
-- id `i` counts as stale at any time up to WORKER_HEARTBEAT_STALE_SECONDS after `now`, whichever
-- rows are locked.
pub beat_keeps_job :
    (settings : Settings) (locked : ℕ → Bool) (now later i : ℕ) (w : Text) (db : Db) (h : Heartbeat)
    (j : Job)
    → IsValid db
    → Memᴰ h db.worker_heartbeats
    → h.job_id ≡ i
    → h.worker_id ≡ w
    → is_running (find_where (is_run_by i w) db.jobs) ≡ true
    → later ≤ now + settings.worker_heartbeat_stale_seconds
    → j.id ≡ i
    → let db' = (update_heartbeat now i w db).1 in
      is_stale locked later settings.worker_heartbeat_stale_seconds db'.worker_heartbeats j ≡ false
beat_keeps_job settings locked now later i w db h j v m same_job same_worker runs in_time of_i =
    let valid = update_heartbeat-IsValid now i w db v in
    let there = beaten-mem now i w db h m same_job same_worker runs in
    let kept =
      recent-not_lost now later settings.worker_heartbeat_stale_seconds
        (update_heartbeat now i w db).1.worker_heartbeats (beaten now h) j there
        (same_job ∙ sym of_i) refl in_time
        (λ k n e.
          Distinct-mem _ (update_heartbeat now i w db).1.worker_heartbeats valid.beats n there
            (e ∙ of_i ∙ sym same_job)) in
    ground (arith, kept)

-- ===== src/Worker/Reconcile/Notices.antt =====
-- What one lost job makes the reconciliation send.
use revix.Prelude.{
  ℕ, suc, Text, codes, Json, ◌≡◌, refl, ◌⊎◌, inl, inr, false, Option, none, some, [], ◌∷◌, ◌++◌,
  ◌==◌, if◌then◌else◌, Bool-cases, arith, find_where,
}
use revix.Prelude.Int.{pos}
use revix.Effects.{Result, ok}
use revix.Config.{Settings}
use revix.Schema.{Job, Db, InstallationToken}
use revix.Access.{get, as_number}
use revix.World.{World, continue_ind, Sent}
use revix.Queue.Reconcile.{is_exhausted, reclaim}
use revix.Github.Tokens.{get_token, use_cached, keep_token, is_fresh}
use revix.Github.Checks.{check_update}
use revix.Worker.Reconcile.{
  Surroundings, stalled, retrying, stalled_update, if_given, loaded, tell_installation, tell,
}

-- what a check run says of a job that was lost: it is tried again if attempts are left
abbrev pub notice : Job → (check_run_id : ℕ) → Sent
notice j i = Sent.updated (
    if is_exhausted j
    then check_update j.repo_full_name i (codes "failure")
        (record { title = codes "Review Stalled"; summary = stalled; text = none })
    else check_update j.repo_full_name i (codes "action_required")
        (record { title = codes "Review Stalled"; summary = stalled ++ retrying; text = none }))

pub notice-reclaim :
    (now backoff i : ℕ) (j : Job)
    → Sent.updated (stalled_update (reclaim now backoff j) i) ≡ notice j i
unfolding reclaim
notice-reclaim now backoff i j = elim (Bool-cases (is_exhausted j)) [
  | inl y ↦ rw y refl
  | inr n ↦ rw n refl
]

pub get_token-ok :
    (fetch : ℕ → Result Text) (now inst : ℕ) (db : Db) (token : Text)
    → fetch inst ≡ ok token
    → (t : Text) × ((get_token fetch now inst db).0 ≡ ok t)
unfolding get_token use_cached keep_token
get_token-ok fetch now inst db token granted =
    go (find_where (is_fresh now inst) db.installation_tokens)
  where
    go : (o : Option InstallationToken) → (t : Text) × ((use_cached fetch now inst o db).0 ≡ ok t)
    go none = rw granted (token, refl)
    go (some c) = (c.token, refl)

pub suc-positive : (n : ℕ) → (suc n == 0) ≡ false
suc-positive n = ground arith

pub if_given-suc : (n : ℕ) → let v = Json.num (pos (suc n)) in if_given (some v) ≡ some v
if_given-suc n = rw (suc-positive n) refl

module _ (settings : Settings) (o : Surroundings) where
  -- what one job adds
  abbrev pub AddsNotice : Job → ℕ → World → World → Type 0
  AddsNotice j i before after =
      (after.sent ≡ before.sent)
      ⊎ (after.sent ≡ before.sent ++ (Sent.updated (stalled_update j i) ∷ []))

  tell_installation-AddsNotice :
      (j : Job) (i : ℕ) (inst : Option Json) (w : World)
      → AddsNotice j i w (tell_installation settings o j i inst w).1
  tell_installation-AddsNotice j i none w = inl refl
  tell_installation-AddsNotice j i (some v) w =
      let P : Result (Unit {0}) × World → Type 0 = λ out. AddsNotice j i w out.1 in
      continue_ind P (as_number v) _ w (λ e. inl refl)
        λ inst _.
          continue_ind P (get_token o.grant o.now inst w.db).0 _ _ (λ e. inl refl)
            λ token _. inr refl

  pub tell-AddsNotice : (j : Job) (i : ℕ) (w : World) → AddsNotice j i w (tell settings o j i w).1
  unfolding tell
  tell-AddsNotice j i w =
      let P : Result (Unit {0}) × World → Type 0 = λ out. AddsNotice j i w out.1 in
      continue_ind P (loaded settings o j.payload) _ w (λ e. inl refl)
        λ payload _.
          continue_ind P (get (codes "installation_id") payload) _ w (λ e. inl refl)
            λ inst _. tell_installation-AddsNotice j i (if_given inst) w

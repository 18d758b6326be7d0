-- ===== src/Worker/Reconcile/Told.antt =====
-- Which check runs a round of the reconciliation updates, and how.
use revix.Prelude.{
  ℕ, suc, Text, codes, Json, Fields, get_field, ◌≡◌, refl, sym, ◌∙◌, ap, subst, ◌⊎◌, inl, inr, Bool,
  true, Option, none, some, List, [], ◌∷◌, ◌++◌, map, Memᴰ, mem-select_where, select_where-mem,
  ◌==◌, Bool-cases, select_where,
}
use mathlib.Core.List.Memᴰ as Members
use revix.Prelude.Int.{pos}
use revix.Effects.{Result, ok}
use revix.Config.{Settings}
use revix.Schema.{Job, Db}
use revix.World.{World, M, continue, Sent}
use revix.Queue.Reconcile.{is_stale, reclaim, reconcile_stale_jobs}
use revix.Github.Tokens.{get_token}
use revix.Worker.Reconcile.{
  Surroundings, stalled_update, if_given, loaded, tell_installation, tell, tell_if_checked,
  tell_all, reconcile_round,
}
use revix.Worker.Reconcile.Notices.{
  notice, notice-reclaim, get_token-ok, suc-positive, if_given-suc, AddsNotice, tell-AddsNotice,
}

module _ (settings : Settings) (o : Surroundings) where
  -- a message that is new is about one of the jobs
  abbrev IsAbout : List Job → Sent → Type 0
  IsAbout js m =
      (j : Job) × (i : ℕ) × Memᴰ j js
      × (j.github_check_run_id ≡ some i)
      × (m ≡ Sent.updated (stalled_update j i))

  abbrev Sound : List Job → Sent → World → World → Type 0
  Sound js m before after = Memᴰ m before.sent ⊎ IsAbout js m

  AddsNotice-Sound :
      (j : Job) (js : List Job) (i : ℕ) (m : Sent) (before after : World)
      → j.github_check_run_id ≡ some i
      → AddsNotice settings o j i before after
      → Memᴰ m after.sent
      → Sound (j ∷ js) m before after
  AddsNotice-Sound j js i m before after c (inl same) mem = inl (subst (Memᴰ m) same mem)
  AddsNotice-Sound j js i m before after c (inr more) mem =
      elim (Members.append_cases before.sent (subst (Memᴰ m) more mem)) [
        | inl old ↦ inl old
        | inr (Memᴰ.head e) ↦ inr (j, i, Memᴰ.head refl, c, e)
        | inr (Memᴰ.tail none_left) ↦ elim none_left [ ]
      ]

  tell_if_checked-Sound :
      (j : Job) (js : List Job) (c : Option ℕ) (m : Sent) (w : World)
      → j.github_check_run_id ≡ c
      → Memᴰ m (tell_if_checked settings o j c w).sent
      → Sound (j ∷ js) m w (tell_if_checked settings o j c w)
  unfolding tell_if_checked
  tell_if_checked-Sound j js none m w c mem = inl mem
  tell_if_checked-Sound j js (some i) m w c mem = elim (Bool-cases (i == 0)) [
    | inl z ↦ inl (rw z at mem)
    | inr z ↦
        AddsNotice-Sound j js i m w (tell settings o j i w).1 c (tell-AddsNotice settings o j i w)
          (rw z at mem)
  ]

  IsAbout-tail : (j : Job) (js : List Job) (m : Sent) → IsAbout js m → IsAbout (j ∷ js) m
  IsAbout-tail j js m (k, i, mem, c, e) = (k, i, Memᴰ.tail mem, c, e)

  tell_all-Sound :
      (js : List Job) (m : Sent) (w : World)
      → Memᴰ m (tell_all settings o js w).sent
      → Sound js m w (tell_all settings o js w)
  unfolding tell_all
  tell_all-Sound [] m w mem = inl mem
  tell_all-Sound (j ∷ js) m w mem =
      elim (tell_all-Sound js m (tell_if_checked settings o j j.github_check_run_id w) mem) [
        | inl old ↦ tell_if_checked-Sound j js j.github_check_run_id m w refl old
        | inr about ↦ inr (IsAbout-tail j js m about)
      ]

  tell_if_checked-keeps :
      (j : Job) (c : Option ℕ) (m : Sent) (w : World)
      → Memᴰ m w.sent
      → Memᴰ m (tell_if_checked settings o j c w).sent
  unfolding tell_if_checked
  tell_if_checked-keeps j none m w mem = mem
  tell_if_checked-keeps j (some i) m w mem = elim (Bool-cases (i == 0)) [
    | inl z ↦ rw z mem
    | inr z ↦ rw z (elim (tell-AddsNotice settings o j i w) [
      | inl same ↦ subst (Memᴰ m) (sym same) mem
      | inr more ↦ subst (Memᴰ m) (sym more) (Members.append_left _ mem)
    ])
  ]

  tell_all-keeps :
      (js : List Job) (m : Sent) (w : World)
      → Memᴰ m w.sent
      → Memᴰ m (tell_all settings o js w).sent
  unfolding tell_all
  tell_all-keeps [] m w mem = mem
  tell_all-keeps (j ∷ js) m w mem =
      tell_all-keeps js m (tell_if_checked settings o j j.github_check_run_id w)
        (tell_if_checked-keeps j j.github_check_run_id m w mem)

  continue-ok :
      {A B : Type 0} (r : Result A) (f : A → M B) (w : World) (a : A)
      → r ≡ ok a
      → continue r f w ≡ f a w
  continue-ok r f w a e = rw e refl

  -- a payload with an installation whose token GitHub grants
  pub record IsReachable (j : Job) : Type 0 where
    pub fields : Fields
    pub number : ℕ
    pub token : Text
    pub payload_of : j.payload ≡ Json.obj fields
    pub installed : get_field (codes "installation_id") fields ≡ some (Json.num (pos (suc number)))
    pub granted : o.grant (suc number) ≡ ok token

  tell-sent :
      (j : Job) (i : ℕ) (w : World)
      → IsReachable j
      → (tell settings o j i w).1.sent ≡ w.sent ++ (Sent.updated (stalled_update j i) ∷ [])
  unfolding tell
  tell-sent j i w h =
      let (t, e) = get_token-ok o.grant o.now (suc h.number) w.db h.token h.granted in
      let sent : Result (Unit {0}) × World → List Sent = λ out. out.1.sent in
      let told : Option Json → M (Unit {0}) = λ v. tell_installation settings o j i v in
      ap sent
        (continue-ok (loaded settings o j.payload) _ w _ (ap (loaded settings o) h.payload_of))
      ∙ ap (λ v. (told v w).1.sent) (ap if_given h.installed ∙ if_given-suc h.number)
      ∙ ap sent (continue-ok (get_token o.grant o.now (suc h.number) w.db).0 _ _ t e)

  tell_all-tells :
      (js : List Job) (j : Job) (i : ℕ) (w : World)
      → Memᴰ j js
      → j.github_check_run_id ≡ some (suc i)
      → IsReachable j
      → Memᴰ (Sent.updated (stalled_update j (suc i))) (tell_all settings o js w).sent
  unfolding tell_all tell_if_checked
  tell_all-tells [] j i w m c h = elim m [ ]
  tell_all-tells (k ∷ js) j i w (Memᴰ.tail m) c h =
      tell_all-tells js j i (tell_if_checked settings o k k.github_check_run_id w) m c h
  tell_all-tells (k ∷ js) j i w (Memᴰ.head e) c h =
      let m' = Sent.updated (stalled_update j (suc i)) in
      tell_all-keeps js m' (tell_if_checked settings o k k.github_check_run_id w) (
        subst (λ (k : Job). Memᴰ m' (tell_if_checked settings o k k.github_check_run_id w).sent) e
          (subst (λ (c : Option ℕ). Memᴰ m' (tell_if_checked settings o j c w).sent) (sym c)
            (rw (suc-positive i) (
              subst (Memᴰ m') (sym (tell-sent j (suc i) w h))
                (Members.append_right w.sent (Memᴰ.head refl))))))

  -- the jobs that `reconcile_stale_jobs` takes
  abbrev pub takes : Db → Job → Bool
  takes db = is_stale o.locked o.now settings.worker_heartbeat_stale_seconds db.worker_heartbeats

  -- Every message in the list after a round of the reconciliation was in it before, or it is the
  -- update of a check run that a job of the table has which the round takes from its worker, with
  -- a failure where that job has no attempts left and the notice of a retry else.
  pub reconcile_round_sound :
      (w : World) (m : Sent)
      → Memᴰ m (reconcile_round settings o w).sent
      → Memᴰ m w.sent
        ⊎ ((j : Job) × (i : ℕ) × Memᴰ j w.db.jobs
            × (takes w.db j ≡ true)
            × (j.github_check_run_id ≡ some i)
            × (m ≡ notice j i))
  unfolding reconcile_round reconcile_stale_jobs
  reconcile_round_sound w m mem =
      let recover = reclaim o.now settings.worker_retry_backoff_seconds in
      let stale = select_where (takes w.db) w.db.jobs in
      let w' : World = record w { db = (reconcile_stale_jobs settings o.locked o.now w.db).1 } in
      elim (tell_all-Sound (map recover stale) m w' mem) [
        | inl old ↦ inl old
        | inr (k, i, listed, c, e) ↦
            let (j, selected, same) = Members.of_map recover stale listed in
            let (row, taken) = select_where-mem (takes w.db) w.db.jobs selected in
            inr (
              j,
              i,
              row,
              taken,
              subst (λ (k : Job). k.github_check_run_id ≡ some i) (sym same) c,
              e
                  ∙ sym (ap (λ (k : Job). Sent.updated (stalled_update k i)) same)
                  ∙ notice-reclaim o.now settings.worker_retry_backoff_seconds i j,
            )
      ]

  -- If a job of the table is taken by the reconciliation, has a check run other than 0 and a
  -- payload with an installation other than 0, and GitHub grants a token for it, then the round
  -- sends an update of that check run, whatever becomes of the other updates: a failure where the
  -- job has no attempts left, and else that action is required and the analysis is retried.
  pub reconcile_round_tells :
      (w : World) (j : Job) (i : ℕ)
      → Memᴰ j w.db.jobs
      → takes w.db j ≡ true
      → j.github_check_run_id ≡ some (suc i)
      → IsReachable j
      → Memᴰ (notice j (suc i)) (reconcile_round settings o w).sent
  unfolding reconcile_round reconcile_stale_jobs
  reconcile_round_tells w j i m stale c h =
      let recover = reclaim o.now settings.worker_retry_backoff_seconds in
      let w' : World = record w { db = (reconcile_stale_jobs settings o.locked o.now w.db).1 } in
      subst (λ m. Memᴰ m (reconcile_round settings o w).sent)
        (notice-reclaim o.now settings.worker_retry_backoff_seconds (suc i) j)
        (tell_all-tells (map recover (select_where (takes w.db) w.db.jobs)) (recover j) i w'
          (Members.map recover (mem-select_where (takes w.db) w.db.jobs m stale)) c
          (record {
            fields = h.fields;
            number = h.number;
            token = h.token;
            payload_of = h.payload_of;
            installed = h.installed;
            granted = h.granted;
          }))

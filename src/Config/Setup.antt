-- ===== src/Config/Setup.antt =====
-- When `validate_setup` accepts the settings.
use revix.Prelude.{
  if◌then◌else◌, Text, codes, is_set, ◌≡◌, refl, ◌⊎◌, inl, inr, Bool, true, false, not, Option,
  some, [], ◌++◌, ◌==◌, starts_with, contains, replace, Bool-cases,
}
use revix.Effects.{Exception, Result, ok, raised}
use revix.Config.{
  Settings, Sources, private_key, normalize_model, fallback_key, normalize, error_if, key_errors,
  report, setup_errors, validate_setup,
}

-- the model's key, the app and the webhook's secret are given, and a private key is found
pub record IsReady (env : Sources) (s : Settings) : Type 0 where
  pub keyed : is_set s.ai_api_key ≡ true
  pub registered : (s.github_app_id == 0) ≡ false
  pub secret : is_set (some s.github_webhook_secret) ≡ true
  pub private : (key : Text) × (private_key env s ≡ ok key)

-- a model of MiniMax is routed through OpenRouter, and any other is left alone
abbrev Routes : Text → Text → Type 0
Routes m r =
    ((starts_with m (codes "minimax/") ≡ true) × (r ≡ codes "openrouter/" ++ m))
    ⊎ ((starts_with m (codes "minimax/") ≡ false) × (r ≡ m))

-- the free name of one model, which is no longer served, gives way to its paid name
abbrev Pays : Text → Text → Type 0
Pays r p =
    ((contains r (codes "minimax-m3:free") ≡ true) × (p ≡ replace (codes ":free") [] r))
    ⊎ ((contains r (codes "minimax-m3:free") ≡ false) × (p ≡ r))

-- the name of a model that stands for the one that was given
abbrev pub IsNamed : Text → Text → Type 0
IsNamed m p = (r : Text) × Routes m r × Pays r p

-- the key, or that of OpenRouter where only that is given
abbrev pub IsKey : Option Text → Option Text → Option Text → Type 0
IsKey key other k =
    ((is_set key ≡ false) × (is_set other ≡ true) × (k ≡ other))
    ⊎ (((is_set key ≡ true) ⊎ (is_set other ≡ false)) × (k ≡ key))

-- the settings `t` are the given ones with both model names and the key filled in
pub record IsNormal (s t : Settings) : Type 0 where
  pub named_map : IsNamed s.ai_model_map t.ai_model_map
  pub named_reduce : IsNamed s.ai_model_reduce t.ai_model_reduce
  pub keyed : IsKey s.ai_api_key s.openrouter_api_key t.ai_api_key
  pub others : t ≡ record s {
    ai_api_key = t.ai_api_key;
    ai_model_map = t.ai_model_map;
    ai_model_reduce = t.ai_model_reduce;
  }

normalize_model-IsNamed : (m : Text) → IsNamed m (normalize_model m)
unfolding normalize_model
normalize_model-IsNamed m = elim (Bool-cases (starts_with m (codes "minimax/"))) [
  | inl e ↦ rw e (codes "openrouter/" ++ m, inl (refl, refl), paid (codes "openrouter/" ++ m))
  | inr e ↦ rw e (m, inr (refl, refl), paid m)
]
  where
    paid :
        (r : Text)
        → Pays r (if contains r (codes "minimax-m3:free") then replace (codes ":free") [] r else r)
    paid r = elim (Bool-cases (contains r (codes "minimax-m3:free"))) [
      | inl e ↦ rw e (inl (refl, refl))
      | inr e ↦ rw e (inr (refl, refl))
    ]

fallback_key-IsKey : (key other : Option Text) → IsKey key other (fallback_key key other)
fallback_key-IsKey key other = elim (Bool-cases (is_set key)) [
  | inl e ↦ rw e (inr (inl refl, refl))
  | inr e ↦ elim (Bool-cases (is_set other)) [
    | inl o ↦ rw (e, o) (inl (refl, refl, refl))
    | inr o ↦ rw (e, o) (inr (inr refl, refl))
  ]
]

normalize-IsNormal : (s : Settings) → IsNormal s (normalize s)
unfolding normalize
normalize-IsNormal s = record {
  named_map = normalize_model-IsNamed s.ai_model_map;
  named_reduce = normalize_model-IsNamed s.ai_model_reduce;
  keyed = fallback_key-IsKey s.ai_api_key s.openrouter_api_key;
  others = refl;
}

abbrev AllGood : Bool → Bool → Bool → Result Text → Type 0
AllGood a b c r = (a ≡ true) × (b ≡ false) × (c ≡ true) × ((key : Text) × (r ≡ ok key))

report_cases :
    (s : Settings) (x y z : Text) (a b c : Bool) (r : Result Text)
    → let res =
        report s (error_if (not a) x ++ error_if b y ++ error_if (not c) z ++ key_errors r) in
      ((res ≡ ok s) × AllGood a b c r) ⊎ ((e : Exception) × (res ≡ raised e) × ¬ AllGood a b c r)
report_cases s x y z true false true (ok key) = inl (refl, (refl, refl, refl, (key, refl)))
report_cases s x y z true false true (raised e) = inr (_, refl, λ h. cc (h.3.1))
report_cases s x y z true false false r = inr (_, refl, λ h. cc (h.2))
report_cases s x y z true true c r = inr (_, refl, λ h. cc (h.1))
report_cases s x y z false b c r = inr (_, refl, λ h. cc (h.0))

-- `validate_setup` keeps the settings but for three. A model's name that begins with minimax/ is
-- put behind openrouter/, and one that then contains minimax-m3:free loses each :free, for both
-- models, and any other name stays. The key stays, but where it is missing and that of OpenRouter
-- is not, the latter stands in. With these settings it returns, and then there are a key of the
-- model, an app id, a webhook secret and a private key that can be read; or it raises, and then
-- one of these is missing.
pub validate_setup_lem :
    (env : Sources) (s : Settings)
    → (t : Settings) × IsNormal s t
      × (((validate_setup env s ≡ ok t) × IsReady env t)
          ⊎ ((e : Exception) × (validate_setup env s ≡ raised e) × ¬ IsReady env t))
unfolding validate_setup setup_errors
validate_setup_lem env s =
    let t = normalize s in
    let outcome =
      report_cases t (codes "❌ AI_API_KEY is missing.") (codes "❌ GITHUB_APP_ID is missing.")
        (codes "❌ GITHUB_WEBHOOK_SECRET is missing.") (is_set t.ai_api_key) (t.github_app_id == 0)
        (is_set (some t.github_webhook_secret)) (private_key env t) in
    (
      t,
      normalize-IsNormal s,
      elim outcome [
        | inl (good, (a, b, c, k)) ↦
            inl (good, record { keyed = a; registered = b; secret = c; private = k })
        | inr (e, bad, unready) ↦
            inr (e, bad, λ h. unready (h.keyed, h.registered, h.secret, h.private))
      ],
    )

-- ===== src/Webhook/Signed.antt =====
-- `verify_signature` in front of the webhook.
use revix.Prelude.{
  Text, text_eq, text_eq_iff, ◌≡◌, ◌≢◌, refl, ◌⊎◌, inl, inr, true, false, ◌&&◌, Option, none, some,
  [], ◌∷◌, Bool-cases, ap, sym,
}
use revix.Effects.{Result, ok, raised, http_exception, type_error}
use revix.Config.{Settings}
use revix.World.{World, M, continue}
use revix.Webhook.{Services, expected_signature, is_ascii, verify_signature, github_webhook}

-- 401, or what Python raises on a signature outside ASCII
abbrev pub IsRefused : {A : Type 0} → Result A → Type 0
IsRefused (ok a) = false ≡ true
IsRefused (raised e) = (e.kind ≡ http_exception 401) ⊎ (e.kind ≡ type_error)

module _ (settings : Settings) (s : Services) where
  abbrev expected : Text → Text
  expected = expected_signature settings s

  text_eq-false : (a b : Text) → b ≢ a → text_eq a b ≡ false
  text_eq-false a b ne = elim (Bool-cases (text_eq a b)) [
    | inl e ↦ absurd (ne (sym ((text_eq_iff a b).0 e)))
    | inr e ↦ e
  ]

  verify_signature-IsRefused :
      (body : Text) (signature : Option Text)
      → signature ≢ some (expected body)
      → IsRefused (verify_signature settings s body signature)
  unfolding verify_signature
  verify_signature-IsRefused body none ne = inl refl
  verify_signature-IsRefused body (some []) ne = inl refl
  verify_signature-IsRefused body (some (c ∷ sig)) ne =
      elim (Bool-cases (is_ascii (expected body) && is_ascii (c ∷ sig))) [
        | inl a ↦ rw (a, text_eq-false (expected body) (c ∷ sig) (λ e. ne (ap some e))) (inl refl)
        | inr a ↦ rw a (inr refl)
      ]

  continue-IsRefused :
      {A B : Type 0} (r : Result A) (f : A → M B) (w : World)
      → IsRefused r
      → ((continue r f w).1 ≡ w) × IsRefused (continue r f w).0
  continue-IsRefused (ok a) f w h = absurd (cc h)
  continue-IsRefused (raised e) f w h = (refl, h)

  -- Where the signature of a request is missing or is not `sha256=` with the HMAC of the body
  -- under the secret, the webhook raises a 401, or the type error of comparing strings outside
  -- ASCII, and it changes and sends nothing.
  pub github_webhook-IsRefused :
      (event body : Text) (signature : Option Text) (w : World)
      → signature ≢ some (expected_signature settings s body)
      → let (res, w') = github_webhook settings s event body signature w in (w' ≡ w) × IsRefused res
  unfolding github_webhook
  github_webhook-IsRefused event body signature w ne =
      continue-IsRefused (verify_signature settings s body signature) _ w
        (verify_signature-IsRefused body signature ne)

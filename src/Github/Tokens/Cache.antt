-- ===== src/Github/Tokens/Cache.antt =====
-- What the cache of installation tokens promises.
use revix.Prelude.{
  ℕ, ◌+◌, ◌*◌, ◌<◌, Text, ◌≡◌, refl, inl, inr, true, false, none, some, List, [], ◌∷◌, ◌++◌, arith,
  any, ltb, Bool-cases, ==_refl, update_where, find_where,
}
use revix.Effects.{Result, ok}
use revix.Schema.{InstallationToken, Db}
use revix.Github.Tokens.{is_fresh, is_token_of, store_token, keep_token, use_cached, get_token}

abbrev renew : ℕ → Text → InstallationToken → InstallationToken
renew now token t = record t { token = token; expires_at = now + 55 * 60 }

abbrev first_row : (now i : ℕ) → Text → InstallationToken
first_row now i token = record { installation_id = i; token = token; expires_at = now + 55 * 60 }

-- a row of the token, that the SELECT finds
abbrev Serves : (later i : ℕ) → Text → List InstallationToken → Type 0
Serves later i token ts =
    (t : InstallationToken) × (find_where (is_fresh later i) ts ≡ some t) × (t.token ≡ token)

renewed-Serves :
    (now later i : ℕ) (token : Text) (ts : List InstallationToken)
    → later < now + 50 * 60
    → any (is_token_of i) ts ≡ true
    → Serves later i token (update_where (is_token_of i) (renew now token) ts)
unfolding find_where update_where
renewed-Serves now later i token [] soon known = absurd (cc known)
renewed-Serves now later i token (t ∷ ts) soon known = elim (Bool-cases (is_token_of i t)) [
  | inl e ↦
      let late : ltb (later + 5 * 60) (now + 55 * 60) ≡ true = ground arith in
      (renew now token t, rw (e, e, late) refl, refl)
  | inr e ↦
      let (u, found, same) = renewed-Serves now later i token ts soon (rw e at known) in
      (u, rw (e, e) found, same)
]

appended-Serves :
    (now later i : ℕ) (token : Text) (ts : List InstallationToken)
    → later < now + 50 * 60
    → any (is_token_of i) ts ≡ false
    → Serves later i token (ts ++ (first_row now i token ∷ []))
unfolding find_where
appended-Serves now later i token [] soon new =
    let late : ltb (later + 5 * 60) (now + 55 * 60) ≡ true = ground arith in
    (first_row now i token, rw (==_refl i, late) refl, refl)
appended-Serves now later i token (t ∷ ts) soon new = elim (Bool-cases (is_token_of i t)) [
  | inl e ↦ absurd (cc (e, new))
  | inr e ↦
      let (u, found, same) = appended-Serves now later i token ts soon (rw e at new) in
      (u, rw e found, same)
]

stored-Serves :
    (now later i : ℕ) (token : Text) (ts : List InstallationToken)
    → later < now + 50 * 60
    → Serves later i token (store_token now i token ts)
unfolding store_token
stored-Serves now later i token ts soon = elim (Bool-cases (any (is_token_of i) ts)) [
  | inl e ↦ rw e (renewed-Serves now later i token ts soon e)
  | inr e ↦ rw e (appended-Serves now later i token ts soon e)
]

-- The call that finds no fresh token in the table.
get_token_miss :
    (fetch : ℕ → Result Text) (now i : ℕ) (token : Text) (db : Db)
    → find_where (is_fresh now i) db.installation_tokens ≡ none
    → fetch i ≡ ok token
    → get_token fetch now i db ≡ (
      ok token,
      record db { installation_tokens = store_token now i token db.installation_tokens },
    )
unfolding get_token use_cached keep_token
get_token_miss fetch now i token db miss fetched = rw miss (rw fetched refl)

get_token_hit :
    (fetch : ℕ → Result Text) (now i : ℕ) (token : Text) (db : Db)
    → Serves now i token db.installation_tokens
    → get_token fetch now i db ≡ (ok token, db)
unfolding get_token use_cached
get_token_hit fetch now i token db (t, found, same) = rw found (rw same refl)

-- If the table holds no fresh token of an installation and GitHub grants one, `get_token` returns
-- the granted token, and a later call, less than 50 minutes after the first, returns the same
-- token with the database unchanged, whatever GitHub would grant then.
pub get_token_cached :
    (fetch fetch' : ℕ → Result Text) (now later i : ℕ) (token : Text) (db : Db)
    → find_where (is_fresh now i) db.installation_tokens ≡ none
    → fetch i ≡ ok token
    → later < now + 50 * 60
    → let db' = (get_token fetch now i db).1 in
      ((get_token fetch now i db).0 ≡ ok token) × (get_token fetch' later i db' ≡ (ok token, db'))
get_token_cached fetch fetch' now later i token db miss fetched soon =
    rw (get_token_miss fetch now i token db miss fetched) (
      refl,
      get_token_hit fetch' later i token _
          (stored-Serves now later i token db.installation_tokens soon),
    )

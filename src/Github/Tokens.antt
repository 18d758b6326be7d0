-- ===== src/Github/Tokens.antt =====
-- `_generate_jwt` and `get_token`: the installation token, cached in a table.
pub mod Cache
use revix.Prelude.{
  ℕ, ◌+◌, ◌-◌, ◌*◌, Text, Bool, ◌&&◌, Option, none, some, List, [], ◌∷◌, ◌++◌, any, ltb, ◌==◌,
  if◌then◌else◌, update_where, find_where,
}
use revix.Prelude.Int.{ℤ, pos, ◌-ℤ◌}
use revix.Effects.{Result, ok, raised}
use revix.Schema.{InstallationToken, Db}

abbrev plus : ℤ → ℕ → ℤ
plus a n = a -ℤ (pos 0 -ℤ pos n)

-- the claims `iat` and `exp` of the token that signs a request
unfoldable pub jwt_times : (now : ℕ) → ℤ × ℤ
jwt_times now = let iat = pos now -ℤ pos 60 in (iat, plus iat (10 * 60))

-- `expires_at > NOW() + INTERVAL '5 minutes'`
abbrev pub is_fresh : (now installation_id : ℕ) → InstallationToken → Bool
is_fresh now i t = t.installation_id == i && ltb (now + 5 * 60) t.expires_at

abbrev pub is_token_of : ℕ → InstallationToken → Bool
is_token_of i t = t.installation_id == i

-- INSERT ... ON CONFLICT (installation_id) DO UPDATE, for 55 minutes
unfoldable pub store_token :
    (now installation_id : ℕ) → Text → List InstallationToken → List InstallationToken
unfolding update_where
store_token now i token ts =
    if any (is_token_of i) ts
    then update_where (is_token_of i) (λ t. record t { token = token; expires_at = now + 55 * 60 })
        ts
    else ts ++ (record { installation_id = i; token = token; expires_at = now + 55 * 60 } ∷ [])

-- what follows the POST and the reading of its answer
unfoldable pub keep_token : (now installation_id : ℕ) → Result Text → Db → Result Text × Db
unfolding store_token
keep_token now i (raised e) db = (raised e, db)
keep_token now i (ok token) db =
    (ok token, record db { installation_tokens = store_token now i token db.installation_tokens })

-- What follows the SELECT. `fetch` is the signed POST with the reading of its answer.
unfoldable pub use_cached :
    (fetch : ℕ → Result Text) (now installation_id : ℕ)
    → Option InstallationToken
    → Db
    → Result Text × Db
unfolding keep_token
use_cached fetch now i (some t) db = (ok t.token, db)
use_cached fetch now i none db = keep_token now i (fetch i) db

unfoldable pub get_token :
    (fetch : ℕ → Result Text) (now installation_id : ℕ) → Db → Result Text × Db
unfolding use_cached find_where
get_token fetch now i db =
    use_cached fetch now i (find_where (is_fresh now i) db.installation_tokens) db

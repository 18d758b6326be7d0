-- ===== src/Config.antt =====
-- app/config.py: the settings, the private key's sources, `validate_setup` and the pool size. The
-- environment, the file system and base64 are arguments. Settings that only loggers or the GitHub
-- user interface read are left out.
pub mod Setup
mod Tests
use revix.Prelude.{
  ℕ, ◌+◌, ◌*◌, max, Text, codes, Bool, not, ◌&&◌, Option, none, some, List, [], ◌∷◌, ◌++◌,
  if◌then◌else◌, starts_with, contains, strip, strip_char, replace, is_set, join, ◌==◌,
}
use revix.Effects.{Exception, exception, value_error, Result, ok, raised}

pub record Settings : Type 0 where
  pub project_name : Text
  pub ai_model_map : Text
  pub ai_model_reduce : Text
  pub ai_api_key : Option Text
  pub openrouter_api_key : Option Text
  pub ai_api_base : Option Text
  pub ai_max_tokens : ℕ
  pub ai_temperature : Text
  pub ai_concurrency : ℕ
  pub review_profile : Text
  pub review_max_chunks : ℕ
  pub review_max_agents_per_chunk : ℕ
  pub review_max_inline_comments : ℕ
  pub review_min_inline_severity : Text
  pub github_app_id : ℕ
  pub github_webhook_secret : Text
  pub github_app_private_key_path : Option Text
  pub github_app_private_key_b64 : Option Text
  pub github_app_private_key : Option Text
  pub ai_fallback_models : List Text
  pub db_pool_min_size : ℕ
  pub worker_concurrency : ℕ
  pub worker_shutdown_timeout : ℕ
  pub worker_heartbeat_interval_seconds : ℕ
  pub worker_heartbeat_stale_seconds : ℕ
  pub worker_reconcile_interval_seconds : ℕ
  pub worker_retry_backoff_seconds : ℕ

-- the class attributes, as `Settings.model_construct()` gives them
abbrev pub default_settings : Settings
default_settings = record {
  project_name = codes "Revix";
  ai_model_map = codes "openrouter/google/gemini-3.1-flash-lite";
  ai_model_reduce = codes "openrouter/google/gemini-3.1-flash-lite";
  ai_api_key = none;
  openrouter_api_key = none;
  ai_api_base = none;
  ai_max_tokens = 2048;
  ai_temperature = codes "0.0";
  ai_concurrency = 5;
  review_profile = codes "chill";
  review_max_chunks = 12;
  review_max_agents_per_chunk = 2;
  review_max_inline_comments = 3;
  review_min_inline_severity = codes "WARNING";
  github_app_id = 0;
  github_webhook_secret = [];
  github_app_private_key_path = none;
  github_app_private_key_b64 = none;
  github_app_private_key = none;
  ai_fallback_models = [];
  db_pool_min_size = 10;
  worker_concurrency = 5;
  worker_shutdown_timeout = 30;
  worker_heartbeat_interval_seconds = 30;
  worker_heartbeat_stale_seconds = 90;
  worker_reconcile_interval_seconds = 60;
  worker_retry_backoff_seconds = 120;
}

pub normalize_pem : Text → Text
unfolding replace strip_char strip
normalize_pem key = strip (strip_char 39 (strip_char 34 (replace (92 ∷ 110 ∷ []) (10 ∷ []) key)))

-- `Path(p).read_text()` of a path that is a file, and base64 to UTF-8 text
pub record Sources : Type 0 where
  pub read_text : Text → Option Text
  pub decode_b64 : Text → Result Text

abbrev pub missing_key : Exception
missing_key = exception value_error (
    codes "GitHub App Private Key is missing. Set GITHUB_APP_PRIVATE_KEY_PATH, "
    ++ codes "GITHUB_APP_PRIVATE_KEY_B64, GITHUB_APP_PRIVATE_KEY, or place "
    ++ codes "github_private_key.pem in the project root.")

module _ (env : Sources) where
  read_pem : Text → Exception → Result Text
  read_pem path e = elim (env.read_text path) [
    | none ↦ raised e
    | some key ↦ ok (normalize_pem key)
  ]

  decode_pem : Text → Result Text
  decode_pem b64 = elim (env.decode_b64 b64) [
    | ok key ↦ ok (normalize_pem key)
    | raised e ↦
        raised
          (exception value_error (codes "Invalid Base64 in GITHUB_APP_PRIVATE_KEY_B64: " ++ e.text))
  ]

  from_b64 : Option Text → Result Text
  from_b64 (some (c ∷ s)) = decode_pem (c ∷ s)
  from_b64 _ = read_pem (codes "github_private_key.pem") missing_key

  from_path : Option Text → Option Text → Result Text
  unfolding strip
  from_path (some p) b64 =
      if is_set (some (strip p))
      then read_pem (strip p)
          (exception value_error (codes "GitHub private key file not found at: " ++ p))
      else from_b64 b64
  from_path none b64 = from_b64 b64

  from_text : Option Text → Option Text → Option Text → Result Text
  from_text (some (c ∷ s)) path b64 = ok (normalize_pem (c ∷ s))
  from_text _ path b64 = from_path path b64

  -- the property `github_app_private_key`
  unfoldable pub private_key : Settings → Result Text
  unfolding from_text from_path from_b64 read_pem decode_pem
  private_key s =
      from_text s.github_app_private_key s.github_app_private_key_path s.github_app_private_key_b64

abbrev minimax : Text
minimax = codes "minimax/"

-- the two rewritings of a model's name
unfoldable pub normalize_model : Text → Text
unfolding starts_with contains replace
normalize_model m =
    let m' = if starts_with m minimax then codes "openrouter/" ++ m else m in
    if contains m' (codes "minimax-m3:free") then replace (codes ":free") [] m' else m'

abbrev pub fallback_key : Option Text → Option Text → Option Text
fallback_key key other = if not (is_set key) && is_set other then other else key

unfoldable pub normalize : Settings → Settings
normalize s = record s {
  ai_api_key = fallback_key s.ai_api_key s.openrouter_api_key;
  ai_model_map = normalize_model s.ai_model_map;
  ai_model_reduce = normalize_model s.ai_model_reduce;
}

abbrev pub error_if : Bool → Text → List Text
error_if b e = if b then e ∷ [] else []

abbrev pub key_errors : Result Text → List Text
key_errors (ok key) = []
key_errors (raised e) = (codes "❌ " ++ e.text) ∷ []

unfoldable pub setup_errors : Sources → Settings → List Text
unfolding private_key
setup_errors env s =
    error_if (not (is_set s.ai_api_key)) (codes "❌ AI_API_KEY is missing.")
    ++ error_if (s.github_app_id == 0) (codes "❌ GITHUB_APP_ID is missing.")
    ++ error_if (not (is_set (some s.github_webhook_secret)))
        (codes "❌ GITHUB_WEBHOOK_SECRET is missing.")
    ++ key_errors (private_key env s)

abbrev pub report : Settings → List Text → Result Settings
report s [] = ok s
report s (e ∷ es) =
    raised
      (exception value_error (codes "Configuration Errors Found:\n" ++ join (10 ∷ []) (e ∷ es)))

unfoldable pub validate_setup : Sources → Settings → Result Settings
unfolding normalize setup_errors join
validate_setup env s = let s' = normalize s in report s' (setup_errors env s')

unfoldable pub db_pool_max_size : Settings → ℕ
db_pool_max_size s = max (s.worker_concurrency * 2 + 5) s.db_pool_min_size

-- ===== src/Config/Tests.antt =====
-- The theorem on the settings with a free model of MiniMax and the keys given.
use revix.Prelude.{◌≡◌, ◌⊎◌, codes, none, some, []}
use revix.Effects.{Exception, exception, value_error, ok, raised}
use revix.Config.{Sources, default_settings, Settings, validate_setup}
use revix.Config.Setup.{IsReady, IsNormal, validate_setup_lem}

abbrev no_sources : Sources
no_sources = record { read_text = λ p. none; decode_b64 = λ t. raised (exception value_error []) }

abbrev free_settings : Settings
free_settings = record default_settings {
  ai_model_map = codes "minimax/minimax-m3:free";
  openrouter_api_key = some (codes "sk");
  github_app_id = 1;
  github_webhook_secret = codes "s";
  github_app_private_key = some (codes "pem");
}

validate_setup_lem_example :
    (t : Settings) × IsNormal free_settings t
    × (((validate_setup no_sources free_settings ≡ ok t) × IsReady no_sources t)
        ⊎ ((e : Exception) × (validate_setup no_sources free_settings ≡ raised e)
            × ¬ IsReady no_sources t))
validate_setup_lem_example = validate_setup_lem no_sources free_settings

-- ===== src/Ai/Models.antt =====
-- The calls of language models in app/services/ai.py: the arguments that litellm's `acompletion`
-- gets, and what the code reads of the answer. The model, Docker, `json.loads` and pydantic are
-- arguments.
use revix.Prelude.{
  ℕ, ◌≤◌, Text, codes, text_eq, starts_with, Json, ◌≡◌, ◌≢◌, ◌⊎◌, Bool, true, ◌||◌, Option, none,
  some, List, [], ◌∷◌, All, if◌then◌else◌,
}
use revix.Effects.{Result, OnOk}
use revix.Config.{Settings}
use revix.Ai.Sandbox.{Outcome}
use revix.Ai.Review.{ReviewComment, ReviewResult}

-- the keyword arguments that `_get_completion_kwargs` gives; an absent one is `none` or empty
pub record Kwargs : Type 0 where
  pub model : Text
  pub temperature : Text
  pub max_tokens : ℕ
  pub num_retries : ℕ
  pub api_base : Option Text
  pub extra_headers : List (Text × Text)
  pub api_key : Option Text
  pub fallbacks : List Text

abbrev if_set : Option Text → Option Text
if_set (some (c ∷ s)) = some (c ∷ s)
if_set _ = none

unfoldable pub get_completion_kwargs : Settings → Text → Kwargs
unfolding starts_with
get_completion_kwargs settings model =
    let openrouter = starts_with model (codes "openrouter/") in
    record {
      model = model;
      temperature = settings.ai_temperature;
      max_tokens = settings.ai_max_tokens;
      num_retries = 3;
      api_base =
          if openrouter
          then some (codes "https://openrouter.ai/api/v1")
          else if_set settings.ai_api_base;
      extra_headers =
          if openrouter
          then (codes "HTTP-Referer", codes "https://revix.dev")
            ∷ (codes "X-Title", settings.project_name)
            ∷ []
          else [];
      api_key = if_set settings.ai_api_key;
      fallbacks = settings.ai_fallback_models;
    }

pub record ToolCall : Type 0 where
  pub id : Text
  pub name : Text
  pub arguments : Json

-- `response.choices[0].message`
pub record Message : Type 0 where
  pub content : Option Text
  pub tool_calls : List ToolCall

-- an element of `messages`
pub data Turn : Type 0 where
  system user : Text → Turn
  assistant : Message → Turn
  tool : (tool_call_id : Text) → (content : Json) → Turn

-- `tools` and `tool_choice` are empty where there are none.
pub record Call : Type 0 where
  pub kwargs : Kwargs
  pub messages : List Turn
  pub tools : List Json
  pub tool_choice : Text

-- What the code calls and does not define: `acompletion` with the reading of `choices[0].message`,
-- `docker run`, `json.loads`, `ReviewResult.model_validate`, the constructor of
-- `ReviewResult`, and `int` of a float.
pub record Models : Type 0 where
  pub complete : Call → Result Message
  pub run : (gvisor : Bool) → Text → Result Outcome
  pub loads : Text → Result Json
  pub validate : Json → Result ReviewResult
  pub construct : (summary score : Json) → List ReviewComment → Result ReviewResult
  pub int_of_float : Text → Result Json

-- the constraints of the model's fields
pub record IsComment (c : ReviewComment) : Type 0 where
  pub placed : c.path ≢ []
  pub lined : 1 ≤ c.line
  pub sided : (c.side ≡ codes "LEFT") ⊎ (c.side ≡ codes "RIGHT")
  pub ranked :
      (text_eq c.severity (codes "INFO")
        || text_eq c.severity (codes "WARNING")
        || text_eq c.severity (codes "CRITICAL"))
      ≡ true

pub record IsReview (r : ReviewResult) : Type 0 where
  pub scored : r.score ≤ 100
  pub commented : All IsComment r.comments

-- What pydantic documents: a value that it returns satisfies the constraints of its fields, and the
-- constructor keeps the comments that it is given.
pub record IsChecked (m : Models) : Type 0 where
  pub validated : (j : Json) → OnOk IsReview (m.validate j)
  pub constructed :
      (summary score : Json) (cs : List ReviewComment)
      → OnOk
          (λ (r : ReviewResult). (r.score ≤ 100) × (r.comments ≡ cs))
          (m.construct summary score cs)

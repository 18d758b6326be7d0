-- ===== src/Ai/Tools.antt =====
-- The tools that the calls of language models offer, as JSON schemas.
use revix.Prelude.{Text, codes, Json, Items, Fields, List, [], ◌∷◌, map}
use revix.Prelude.Int.{pos}

abbrev fields_of : List (Text × Json) → Fields
fields_of [] = Fields.end
fields_of ((k, j) ∷ r) = Fields.field k j (fields_of r)

abbrev items_of : List Json → Items
items_of [] = Items.nil
items_of (j ∷ js) = Items.cons j (items_of js)

abbrev dict : List (Text × Json) → Json
dict r = Json.obj (fields_of r)

abbrev texts : List Text → Json
texts ss = Json.arr (items_of (map (λ s. Json.str s) ss))

-- {"type": t}
abbrev typed : Text → Json
typed t = dict ((codes "type", Json.str t) ∷ [])

abbrev one_of : List Text → Json
one_of ss = dict ((codes "type", Json.str (codes "string")) ∷ (codes "enum", texts ss) ∷ [])

-- an integer from 0 to 100
abbrev percentage : Json
percentage = dict (
    (codes "type", Json.str (codes "integer"))
    ∷ (codes "minimum", Json.num (pos 0))
    ∷ (codes "maximum", Json.num (pos 100))
    ∷ [])

abbrev object : (properties : List (Text × Json)) (required : List Text) → Json
object properties required = dict (
    (codes "type", Json.str (codes "object"))
    ∷ (codes "properties", dict properties)
    ∷ (codes "required", texts required)
    ∷ [])

abbrev function : (name description : Text) (parameters : Json) → Json
function name description parameters = dict (
    (codes "type", Json.str (codes "function"))
    ∷ (
      codes "function",
      dict (
          (codes "name", Json.str name)
          ∷ (codes "description", Json.str description)
          ∷ (codes "parameters", parameters)
          ∷ []),
    )
    ∷ [])

abbrev comment_schema : Json
comment_schema =
    object
      ((codes "path", typed (codes "string"))
        ∷ (codes "line", typed (codes "integer"))
        ∷ (codes "side", one_of (codes "LEFT" ∷ codes "RIGHT" ∷ []))
        ∷ (codes "body", typed (codes "string"))
        ∷ (codes "severity", one_of (codes "INFO" ∷ codes "WARNING" ∷ codes "CRITICAL" ∷ []))
        ∷ (codes "suggested_fix", typed (codes "string"))
        ∷ [])
      (codes "path" ∷ codes "line" ∷ codes "body" ∷ codes "side" ∷ codes "severity" ∷ [])

unfoldable pub submit_review_tool : Json
submit_review_tool = function (codes "submit_review") (codes "Submit code review feedback") (
    object
      ((codes "summary", typed (codes "string"))
        ∷ (codes "score", percentage)
        ∷ (
          codes "comments",
          dict ((codes "type", Json.str (codes "array")) ∷ (codes "items", comment_schema) ∷ []),
        )
        ∷ [])
      (codes "summary" ∷ codes "score" ∷ codes "comments" ∷ []))

unfoldable pub run_in_sandbox_tool : Json
run_in_sandbox_tool =
    function (codes "run_in_sandbox") (codes "Run Python code in a gVisor sandbox")
      (object ((codes "script", typed (codes "string")) ∷ []) (codes "script" ∷ []))

unfoldable pub synthesize_review_tool : Json
synthesize_review_tool =
    function (codes "synthesize_review") (codes "Synthesize multiple review chunks") (
      object
        ((codes "global_summary", typed (codes "string")) ∷ (codes "global_score", percentage) ∷ [])
        (codes "global_summary" ∷ codes "global_score" ∷ []))

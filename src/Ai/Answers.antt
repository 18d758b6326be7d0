-- ===== src/Ai/Answers.antt =====
-- `extract_json_payload` and `parse_tool_arguments`: the JSON in what a model answers. `loads` is
-- `json.loads`. The two regular expressions are written out as searches.
pub mod Fenced
use revix.Prelude.{
  ℕ, zero, suc, ◌-◌, Text, codes, starts_with, strip, strip_left, strip_right, replace, Json, Bool,
  true, false, Option, none, some, List, [], ◌∷◌, ◌++◌, length, drop, ◌==◌, if◌then◌else◌,
}
use revix.Effects.{Result, ok, raised, exception, value_error, ◌>>=◌}

-- the text behind the first `p`
unfoldable pub find_after : Text → Text → Option Text
unfolding starts_with
find_after p [] = none
find_after p (c ∷ s) =
    let rest = find_after p s in
    if starts_with (c ∷ s) p then some (drop (length p) (c ∷ s)) else rest

abbrev pub cons_some : ℕ → Option Text → Option Text
cons_some c none = none
cons_some c (some s) = some (c ∷ s)

-- the text before the first `p`
unfoldable pub find_before : Text → Text → Option Text
unfolding starts_with
find_before p [] = none
find_before p (c ∷ s) =
    let rest = cons_some c (find_before p s) in if starts_with (c ∷ s) p then some [] else rest

abbrev pub backticks : Text
backticks = codes "```"

abbrev pub json_fence : Text
json_fence = codes "```json"

-- the group of the second half of the first expression, which is as short as it can be
abbrev pub group_of : Option Text → Option Text
group_of none = none
group_of (some s) = some (strip_right s)

abbrev pub fenced_rest : Option Text → Option Text
fenced_rest none = none
fenced_rest (some s) = group_of (find_before backticks (strip_left s))

-- "```json\s*(.*?)\s*```"
unfoldable pub fenced : Text → Option Text
unfolding find_after find_before strip_left strip_right
fenced s = fenced_rest (find_after json_fence s)

-- the text up to the last `c`, with it
unfoldable pub up_to_last : ℕ → Text → Option Text
up_to_last c [] = none
up_to_last c (d ∷ s) = elim (up_to_last c s) [
  | some t ↦ some (d ∷ t)
  | none ↦ if d == c then some (d ∷ []) else none
]

-- the rest of a match that starts with `c`
abbrev closing : ℕ → Text → Option Text
closing c s = if c == b'[' then up_to_last b']' s else if c == b'{' then up_to_last b'}' s else none

-- "(\[.*\]|\{.*\})"
unfoldable pub bracketed : Text → Option Text
unfolding up_to_last
bracketed [] = none
bracketed (c ∷ s) =
    let rest = bracketed s in elim (closing c s) [ some t ↦ some (c ∷ t) | none ↦ rest ]

abbrev pub or_whole : Option Text → Text → Text
or_whole (some t) s = t
or_whole none s = s

-- what `json.loads` gets of a stripped answer
abbrev pub payload_text : Option Text → Text → Text
payload_text (some g) s = g
payload_text none s = let t = replace backticks [] s in or_whole (bracketed t) t

unfoldable pub extract_json_payload : (loads : Text → Result Json) → Text → Result Json
unfolding fenced bracketed strip replace
extract_json_payload loads content = let s = strip content in loads (payload_text (fenced s) s)

abbrev not_object : Result Json
not_object = raised (exception value_error (codes "Tool arguments must be a JSON object"))

abbrev pub object_only : Json → Result Json
object_only (Json.obj fs) = ok (Json.obj fs)
object_only _ = not_object

unfoldable pub parse_tool_arguments : (loads : Text → Result Json) → Json → Result Json
parse_tool_arguments loads (Json.obj fs) = ok (Json.obj fs)
parse_tool_arguments loads (Json.str s) = loads s >>= object_only
parse_tool_arguments loads _ = not_object

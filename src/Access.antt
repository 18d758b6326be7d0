-- ===== src/Access.antt =====
-- Reading the JSON payloads that GitHub sends and the queue keeps.
use revix.Prelude.{ℕ, Text, codes, Json, get_field, Option, none, some, List, [], ◌∷◌}
use revix.Prelude.Int.{pos}
use revix.Effects.{Result, ok, raised, exception, key_error, type_error, ◌>>=◌}

-- `j[key]`
abbrev pub item : Text → Json → Result Json
item k (Json.obj fs) = elim (get_field k fs) [
  | some v ↦ ok v
  | none ↦ raised (exception key_error k)
]
item k j = raised (exception type_error k)

abbrev pub path : List Text → Json → Result Json
path [] j = ok j
path (k ∷ ks) j = item k j >>= path ks

-- GitHub's names and hashes are strings and its numbers natural numbers. What another value would
-- raise later, in the driver, is raised here.
abbrev pub as_text : Json → Result Text
as_text (Json.str s) = ok s
as_text j = raised (exception type_error (codes "expected a string"))

abbrev pub as_number : Json → Result ℕ
as_number (Json.num (pos n)) = ok n
as_number j = raised (exception type_error (codes "expected a number"))

unfoldable pub text_at : List Text → Json → Result Text
unfolding get_field
text_at ks j = path ks j >>= as_text

unfoldable pub number_at : List Text → Json → Result ℕ
unfolding get_field
number_at ks j = path ks j >>= as_number

-- `j.get(key)`
abbrev pub get : Text → Json → Result (Option Json)
get k (Json.obj fs) = ok (get_field k fs)
get k j = raised (exception type_error k)

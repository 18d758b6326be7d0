-- ===== src/Prelude/Values.antt =====
-- JSON values, as the JSONB columns hold them and `json.loads` returns them. A number that is no
-- integer keeps its spelling.
use mathlib.Core.Bool.{Bool, true, false, not}
use mathlib.Core.Option.{Option, none, some}
use mathlib.Core.List.{List, [], ◌∷◌}
use revix.Prelude.Tests.{◌==◌, if◌then◌else◌}
use revix.Prelude.Texts.{Text, text_eq}
use revix.Prelude.Int.{ℤ, pos, negsuc}

mutual
  pub data Json : Type 0 where
    null : Json
    bool : Bool → Json
    num : ℤ → Json
    float : Text → Json
    str : Text → Json
    arr : Items → Json
    obj : Fields → Json

  pub data Items : Type 0 where
    nil : Items
    cons : Json → Items → Items

  pub data Fields : Type 0 where
    end : Fields
    field : Text → Json → Fields → Fields

abbrev pub items : Items → List Json
items nil = []
items (cons j r) = j ∷ items r

-- `d.get(key)` on a dict; `json.loads` keeps one entry for each key
unfoldable pub get_field : Text → Fields → Option Json
get_field k end = none
get_field k (field k' j r) = if text_eq k k' then some j else get_field k r

-- `j.get(key)` and `j[key]` where `j` is a dict; `none` is a missing key or a value without keys
unfoldable pub get_key : Text → Json → Option Json
unfolding get_field
get_key k (obj fs) = get_field k fs
get_key k _ = none

-- `bool(j)`, of the values that JSON has
abbrev pub truthy : Json → Bool
truthy null = false
truthy (bool b) = b
truthy (num (pos n)) = not (n == 0)
truthy (num (negsuc n)) = true
truthy (float s) = true
truthy (str []) = false
truthy (str (c ∷ s)) = true
truthy (arr nil) = false
truthy (arr (cons j r)) = true
truthy (obj end) = false
truthy (obj (field k j r)) = true

-- ===== src/Ai/Chunks/Units.antt =====
-- What `_chunk_changed_nodes` takes from one node: whether the diff touches it, and the methods of a
-- class that is too large.
use revix.Prelude.{
  ℕ, ◌+◌, ◌/◌, Text, codes, text_eq, strip_right, ◌≡◌, refl, ap, inl, inr, Bool, ◌&&◌, Option, none,
  some, List, [], ◌∷◌, ◌++◌, map, any, length, ltb, leb, if◌then◌else◌, select_where, Bool-cases,
}
use revix.Ai.Syntax.{Node, info, children, Toolkit, child_by_field_name, slice, node_text, is_class}
use revix.Ai.Chunks.{estimate_tokens, touched, touched_methods, methods_of, class_units}

-- more than 28000 tokens, at four characters each
abbrev pub is_too_large : Text → Bool
is_too_large s = ltb 28000 (length s / 4)

-- a changed line is among those of the node, where lines count from 1 and rows from 0
abbrev pub is_touched : List ℕ → Node → Bool
is_touched changed n =
    any (λ line. leb ((info n).start_row + 1) line && leb line ((info n).end_row + 1)) changed

module _ (kit : Toolkit) (bytes : List ℕ) (types : List Text) (changed : List ℕ) where
  abbrev is_touched_method : Node → Bool
  is_touched_method sub = any (text_eq (info sub).type) types && is_touched changed sub

  -- the touched methods, each behind the head of the class: what stands before its body
  abbrev methods_in : Node → Option Node → List Text
  methods_in n none = []
  methods_in n (some body) =
      map
        (λ sub.
          strip_right (slice kit bytes (info n).start_byte (info body).start_byte)
          ++ (10 ∷ node_text kit bytes sub))
        (select_where is_touched_method (children body))

  abbrev pub class_methods : Node → List Text
  class_methods n =
      if any (text_eq (info n).type) (codes "class_definition" ∷ codes "class_declaration" ∷ [])
        && is_too_large (node_text kit bytes n)
      then methods_in n (child_by_field_name n (codes "body"))
      else []

  touched_methods-map :
      (path : Text) (header : Text) (subs : List Node)
      → touched_methods kit path bytes types changed header subs
        ≡ map
            (λ sub. header ++ (10 ∷ node_text kit bytes sub))
            (select_where is_touched_method subs)
  unfolding touched_methods touched select_where
  touched_methods-map path header [] = refl
  touched_methods-map path header (sub ∷ subs) = elim (Bool-cases (is_touched_method sub)) [
    | inl e ↦ rw e (
        ap (λ t. (header ++ (10 ∷ node_text kit bytes sub)) ∷ t)
          (touched_methods-map path header subs))
    | inr e ↦ rw e (touched_methods-map path header subs)
  ]

  methods_of-methods_in :
      (path : Text) (n : Node) (body : Option Node)
      → methods_of kit path bytes types changed n body ≡ methods_in n body
  unfolding methods_of
  methods_of-methods_in path n none = refl
  methods_of-methods_in path n (some body) = touched_methods-map path _ (children body)

  pub class_units-class_methods :
      (path : Text) (n : Node) → class_units kit path bytes types changed n ≡ class_methods n
  unfolding class_units is_class estimate_tokens
  class_units-class_methods path n =
      rw (methods_of-methods_in path n (child_by_field_name n (codes "body"))) refl

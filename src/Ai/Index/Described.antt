-- ===== src/Ai/Index/Described.antt =====
-- A description of the definitions in a syntax tree: named nodes and the class around each.
use revix.Prelude.{
  ℕ, Text, codes, text_eq, strip, before_first, ◌≡◌, refl, ◌≢◌, ◌⊎◌, inl, inr, Option, none, some,
  List, [], ◌∷◌, ◌++◌, Memᴰ, any, any-text_eq, mem-any, Bool-cases,
}
use revix.Ai.Syntax.{Node, info, children, Toolkit, node_text}
use revix.Ai.Index.{Symbol, name_of, name_types}

-- the kinds of a node that stands for a name, and those of a class
abbrev pub name_kinds : List Text
name_kinds =
    codes "identifier" ∷ codes "name" ∷ codes "property_identifier" ∷ codes "field_identifier" ∷ []

abbrev pub class_kinds : List Text
class_kinds = codes "class_definition" ∷ codes "class_declaration" ∷ []

-- the name behind that of its class, with a dot between them
abbrev pub dotted : Option Text → Text → Text
dotted none name = name
dotted (some c) name = c ++ (46 ∷ name)

module _ (kit : Toolkit) (bytes : List ℕ) where
  -- `t` is the text of the first of the nodes that stands for a name
  abbrev pub IsFirstName : List Node → Text → Type 0
  IsFirstName [] t = ⊥
  IsFirstName (n ∷ ns) t =
      (Memᴰ (info n).type name_kinds × (node_text kit bytes n ≡ t))
      ⊎ ((¬ Memᴰ (info n).type name_kinds) × IsFirstName ns t)

  -- a node of a listed kind whose name is not empty
  abbrev pub IsNamed : (types : List Text) → Node → Text → Type 0
  IsNamed types n t = Memᴰ (info n).type types × IsFirstName (children n) t × (t ≢ [])

  abbrev pub IsClass : (types : List Text) → Node → Text → Type 0
  IsClass types n t = Memᴰ (info n).type class_kinds × IsNamed types n t

  -- a node of the tree, with the name of the nearest class around it
  pub data Stands (types : List Text) (root : Node) : Option Text → Node → Type 0 where
    top : Stands types root none root
    in_class :
        {p : Option Text} {n c : Node} {t : Text}
        → Stands types root p n
        → Memᴰ c (children n)
        → IsClass types n t
        → Stands types root (some t) c
    below :
        {p : Option Text} {n c : Node}
        → Stands types root p n
        → Memᴰ c (children n)
        → ¬ ((t : Text) × IsClass types n t)
        → Stands types root p c

  -- the symbol of a named node of the tree, field by field
  pub record IsDefinition (path : Text) (types : List Text) (root : Node) (s : Symbol)
      : Type 0 where
    pub place : Node
    pub name : Text
    pub parent : Option Text
    pub stands : Stands types root parent place
    pub named : IsNamed types place name
    pub written : s ≡ record {
      name = name;
      qualified_name = dotted parent name;
      kind = (info place).type;
      file_path = path;
      start_line = (info place).start_row;
      end_line = (info place).end_row;
      signature = strip (before_first 10 (node_text kit bytes place));
      parent = parent;
    }

  -- the name of a node as the code looks for it, against its description
  pub name_of-IsFirstName :
      (path : Text) (ns : List Node)
      → name_of kit bytes path ns ≢ []
      → IsFirstName ns (name_of kit bytes path ns)
  unfolding name_of
  name_of-IsFirstName path [] h = absurd (h refl)
  name_of-IsFirstName path (n ∷ ns) h = elim (Bool-cases (any (text_eq (info n).type) name_types)) [
    | inl e ↦ rw e (inl (any-text_eq (info n).type name_types e, refl))
    | inr e ↦ rw e (
        inr (
          (λ m. cc (e, mem-any (info n).type name_types m)),
          name_of-IsFirstName path ns (rw e at h),
        ))
  ]

  pub IsFirstName-name_of :
      (path : Text) (ns : List Node) (t : Text) → IsFirstName ns t → name_of kit bytes path ns ≡ t
  unfolding name_of
  IsFirstName-name_of path [] t h = absurd h
  IsFirstName-name_of path (n ∷ ns) t (inl (m, e)) = rw (mem-any (info n).type name_types m) e
  IsFirstName-name_of path (n ∷ ns) t (inr (other, h)) =
      elim (Bool-cases (any (text_eq (info n).type) name_types)) [
        | inl e ↦ absurd (other (any-text_eq (info n).type name_types e))
        | inr e ↦ rw e (IsFirstName-name_of path ns t h)
      ]

-- ===== src/Ai/Syntax.antt =====
-- The syntax trees of tree-sitter, as the code reads them, and the tables LANGUAGES and
-- BOUNDARY_TYPES. The parsers and the UTF-8 codec are arguments.
use revix.Prelude.{
  ℕ, zero, suc, ◌-◌, Text, codes, text_eq, contains, after_last, Bool, Option, none, some, List, [],
  ◌∷◌, any, take, drop, if◌then◌else◌,
}

-- `fields` gives the index of the child under a field name.
pub record NodeInfo : Type 0 where
  pub type : Text
  pub start_byte : ℕ
  pub end_byte : ℕ
  pub start_row : ℕ
  pub end_row : ℕ
  pub fields : List (Text × ℕ)

mutual
  pub data Node : Type 0 where
    node : NodeInfo → Nodes → Node

  pub data Nodes : Type 0 where
    nil : Nodes
    cons : Node → Nodes → Nodes

abbrev pub info : Node → NodeInfo
info (node i ns) = i

abbrev pub to_list : Nodes → List Node
to_list nil = []
to_list (cons n ns) = n ∷ to_list ns

abbrev pub children : Node → List Node
children (node i ns) = to_list ns

pub record Tree : Type 0 where
  pub root : Node
  pub has_error : Bool

-- what the code uses of tree-sitter and of the codec: `Parser(lang).parse`, `encode`, `decode`
pub record Toolkit : Type 0 where
  pub parse : (ext : Text) → List ℕ → Tree
  pub encode : Text → List ℕ
  pub decode : List ℕ → Text

abbrev pub nth_child : List Node → ℕ → Option Node
nth_child [] i = none
nth_child (n ∷ ns) zero = some n
nth_child (n ∷ ns) (suc i) = nth_child ns i

field_child : List (Text × ℕ) → Text → List Node → Option Node
unfolding text_eq
field_child [] name ns = none
field_child ((f, i) ∷ fs) name ns =
    if text_eq f name then nth_child ns i else field_child fs name ns

unfoldable pub child_by_field_name : Node → Text → Option Node
unfolding field_child
child_by_field_name n name = field_child (info n).fields name (children n)

-- `source_bytes[a:b].decode("utf-8", errors="replace")`
abbrev pub slice : Toolkit → List ℕ → ℕ → ℕ → Text
slice kit bytes a b = kit.decode (take (b - a) (drop a bytes))

abbrev pub node_text : Toolkit → List ℕ → Node → Text
node_text kit bytes n = slice kit bytes (info n).start_byte (info n).end_byte

-- `"." + file_path.rsplit(".", 1)[-1] if "." in file_path else ""`
unfoldable pub extension : Text → Text
unfolding contains after_last
extension path = if contains path (46 ∷ []) then 46 ∷ after_last 46 path else []

-- LANGUAGES has a grammar for the extension.
unfoldable pub has_parser : Text → Bool
unfolding text_eq
has_parser ext = any (text_eq ext) (codes ".py" ∷ codes ".js" ∷ codes ".ts" ∷ codes ".go" ∷ [])

-- `BOUNDARY_TYPES.get(ext, set())`
unfoldable pub boundary_types : Text → List Text
unfolding text_eq
boundary_types ext =
    if text_eq ext (codes ".py")
    then codes "class_definition" ∷ codes "function_definition" ∷ codes "decorated_definition" ∷ []
    else if text_eq ext (codes ".js")
    then codes "class_declaration"
      ∷ codes "function_declaration"
      ∷ codes "arrow_function"
      ∷ codes "method_definition"
      ∷ codes "export_statement"
      ∷ []
    else if text_eq ext (codes ".go")
    then codes "function_declaration" ∷ codes "method_declaration" ∷ codes "type_declaration" ∷ []
    else []

abbrev pub is_boundary : List Text → Node → Bool
is_boundary types n = any (text_eq (info n).type) types

-- `node.type in ("class_definition", "class_declaration")`
unfoldable pub is_class : Node → Bool
unfolding text_eq
is_class n = any (text_eq (info n).type) (codes "class_definition" ∷ codes "class_declaration" ∷ [])

-- ===== src/Ai/Index.antt =====
-- `RepoIndexer`: the definitions and calls in a file, for the call graph.
pub mod Described
pub mod Placed
pub mod Symbols
use revix.Prelude.{
  ℕ, Text, codes, text_eq, strip, after_last, before_first, Bool, true, false, ◌&&◌, ◌||◌, Option,
  none, some, List, [], ◌∷◌, ◌++◌, any, if◌then◌else◌,
}
use revix.Schema.{RepoSymbol, RepoReference}
use revix.Ai.Syntax.{
  NodeInfo, Node, node, Nodes, nil, cons, info, children, to_list, Tree, Toolkit,
  child_by_field_name, slice, node_text, extension, has_parser, boundary_types, is_boundary,
  is_class,
}

-- the dataclasses `Symbol` and `Reference`
pub record Symbol : Type 0 where
  pub name : Text
  pub qualified_name : Text
  pub kind : Text
  pub file_path : Text
  pub start_line : ℕ
  pub end_line : ℕ
  pub signature : Text
  pub parent : Option Text

pub record Reference : Type 0 where
  pub symbol_name : Text
  pub file_path : Text
  pub line : ℕ
  pub context_line : Text
  pub ref_type : Text

abbrev name_types : List Text
name_types =
    codes "identifier" ∷ codes "name" ∷ codes "property_identifier" ∷ codes "field_identifier" ∷ []

abbrev is_call : Text → Bool
is_call type = text_eq type (codes "call") || text_eq type (codes "call_expression")

-- `f"{parent_name}.{name}" if parent_name else name`
abbrev pub qualified : Option Text → Text → Text
qualified (some (c ∷ p)) name = (c ∷ p) ++ (46 ∷ name)
qualified _ name = name

-- `node.child_by_field_name("function") or (node.children[0] if node.children else None)`
abbrev first_child : List Node → Option Node
first_child [] = none
first_child (n ∷ ns) = some n

abbrev or_first : Option Node → Node → Option Node
or_first (some f) n = some f
or_first none n = first_child (children n)

module _ (kit : Toolkit) (bytes : List ℕ) (path : Text) where
  -- the text of the first child that is a name
  pub name_of : List Node → Text
  unfolding text_eq
  name_of [] = []
  name_of (n ∷ ns) =
      if any (text_eq (info n).type) name_types then node_text kit bytes n else name_of ns

  unfoldable pub symbol_of : Option Text → Node → Text → Symbol
  unfolding strip before_first
  symbol_of parent n name = record {
    name = name;
    qualified_name = qualified parent name;
    kind = (info n).type;
    file_path = path;
    start_line = (info n).start_row;
    end_line = (info n).end_row;
    signature = strip (before_first 10 (node_text kit bytes n));
    parent = parent;
  }

  -- what a node adds, and the parent of what stands below it
  unfoldable pub defined :
      (types : List Text) → Option Text → Node → Text → List Symbol × Option Text
  unfolding symbol_of is_class
  defined types parent n [] = ([], parent)
  defined types parent n (c ∷ name) =
      if is_boundary types n
      then (symbol_of parent n (c ∷ name) ∷ [], (if is_class n then some (c ∷ name) else parent))
      else ([], parent)

  unfoldable mutual
    unfolding name_of defined

    pub extract_definitions : (types : List Text) → Option Text → Node → List Symbol
    extract_definitions types parent (node i ns) =
        let (new, parent') = defined types parent (node i ns) (name_of (to_list ns)) in
        new ++ extract_all types parent' ns

    pub extract_all : (types : List Text) → Option Text → Nodes → List Symbol
    extract_all types parent nil = []
    extract_all types parent (cons n ns) =
        extract_definitions types parent n ++ extract_all types parent ns

  -- a call by its name, unless that is empty
  abbrev call_of : Node → Text → List Reference
  call_of n [] = []
  call_of n (c ∷ name) =
      record {
        symbol_name = c ∷ name;
        file_path = path;
        line = (info n).start_row;
        context_line = [];
        ref_type = codes "call";
      }
      ∷ []

  abbrev called : Node → Option Node → List Reference
  called n none = []
  called n (some f) = call_of n (strip (before_first 40 (after_last 46 (node_text kit bytes f))))

  references_of : Node → List Reference
  unfolding child_by_field_name strip before_first after_last
  references_of n =
      if is_call (info n).type
      then called n (or_first (child_by_field_name n (codes "function")) n)
      else []

  unfoldable mutual
    unfolding references_of

    pub extract_references : Node → List Reference
    extract_references (node i ns) = references_of (node i ns) ++ extract_all_references ns

    pub extract_all_references : Nodes → List Reference
    extract_all_references nil = []
    extract_all_references (cons n ns) = extract_references n ++ extract_all_references ns

unfoldable pub index_file : Toolkit → (path source : Text) → List Symbol × List Reference
unfolding extension has_parser boundary_types
index_file kit path source =
    let ext = extension path in
    let bytes = kit.encode source in
    let tree = kit.parse ext bytes in
    if has_parser ext
    then (
      extract_definitions kit bytes path (boundary_types ext) none tree.root,
      extract_references kit bytes path tree.root,
    )
    else ([], [])

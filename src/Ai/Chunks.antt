-- ===== src/Ai/Chunks.antt =====
-- `_chunk_changed_nodes` and `_chunk_by_ast`: a file in chunks, cut at syntax nodes.
pub mod Parts
pub mod Units
pub mod Packed
use revix.Prelude.{
  ℕ, ◌+◌, ◌/◌, Text, codes, decimal, join, strip_right, Bool, true, false, not, ◌&&◌, Option, none,
  some, List, [], ◌∷◌, ◌++◌, any, length, ltb, leb, ◌==◌, if◌then◌else◌,
}
use revix.Ai.Patch.{parse_changed_lines}
use revix.Ai.Syntax.{
  Node, info, children, Tree, Toolkit, child_by_field_name, slice, node_text, extension, has_parser,
  boundary_types, is_boundary, is_class,
}

abbrev pub max_chunk_tokens : ℕ
max_chunk_tokens = 28000

unfoldable pub estimate_tokens : Text → ℕ
estimate_tokens s = length s / 4

abbrev pub is_oversize : Text → Bool
is_oversize s = ltb max_chunk_tokens (estimate_tokens s)

-- `FILE: {file_path}`
abbrev pub file_line : Text → Text
file_line path = codes "FILE: " ++ path

unfoldable pub skip_line : Text → Node → Text → Text
unfolding decimal
skip_line path n s =
    codes "### [SKIP] "
    ++ path
    ++ codes " - unit "
    ++ (info n).type
    ++ codes " too large for review ("
    ++ decimal (estimate_tokens s)
    ++ codes " tokens)"

-- `touched(node)`: rows count from 0, lines from 1
unfoldable pub touched : List ℕ → Node → Bool
touched changed n =
    any (λ line. leb ((info n).start_row + 1) line && leb line ((info n).end_row + 1)) changed

-- the variables that `flush` and `add` share
pub record Packing : Type 0 where
  pub chunks : List Text
  pub pending : List Text
  pub pending_tokens : ℕ

abbrev pub chunk_text : Text → List Text → Text
chunk_text path pending = file_line path ++ (10 ∷ join (10 ∷ 10 ∷ []) pending)

abbrev pub flush_pending : Text → List Text → Packing → Packing
flush_pending path [] p = p
flush_pending path (s ∷ r) p = record {
  chunks = p.chunks ++ chunk_text path (s ∷ r) ∷ [];
  pending = [];
  pending_tokens = 0;
}

unfoldable pub flush : Text → Packing → Packing
unfolding join
flush path p = flush_pending path p.pending p

abbrev pub is_nonempty : List Text → Bool
is_nonempty [] = false
is_nonempty (s ∷ r) = true

abbrev pub append_unit : Text → Packing → Packing
append_unit s p = record p {
  pending = p.pending ++ s ∷ [];
  pending_tokens = p.pending_tokens + estimate_tokens s;
}

unfoldable pub add : Text → Text → Packing → Packing
unfolding flush estimate_tokens
add path s p = append_unit s (
    if is_nonempty p.pending && ltb max_chunk_tokens (p.pending_tokens + estimate_tokens s)
    then flush path p
    else p)

unfoldable pub add_all : Text → List Text → Packing → Packing
unfolding add
add_all path [] p = p
add_all path (s ∷ r) p = add_all path r (add path s p)

unfoldable pub skip : Text → Text → Packing → Packing
unfolding flush
skip path line p = let q = flush path p in record q { chunks = q.chunks ++ line ∷ [] }

module _ (kit : Toolkit) (path : Text) (bytes : List ℕ) (types : List Text) (changed : List ℕ) where
  -- the texts of the touched methods of a class, each behind the head of the class
  touched_methods : (header : Text) → List Node → List Text
  unfolding touched
  touched_methods header [] = []
  touched_methods header (sub ∷ subs) =
      if is_boundary types sub && touched changed sub
      then (header ++ (10 ∷ node_text kit bytes sub)) ∷ touched_methods header subs
      else touched_methods header subs

  methods_of : Node → Option Node → List Text
  unfolding strip_right touched_methods
  methods_of n none = []
  methods_of n (some body) =
      touched_methods (strip_right (slice kit bytes (info n).start_byte (info body).start_byte))
        (children body)

  -- the units of a class that is too large, or none
  unfoldable pub class_units : Node → List Text
  unfolding methods_of is_class child_by_field_name
  class_units n =
      if is_class n && is_oversize (node_text kit bytes n)
      then methods_of n (child_by_field_name n (codes "body"))
      else []

  -- the rest of the loop's body, by whether methods were emitted
  unfoldable pub visit_units : Node → List Text → Packing → Packing
  unfolding add add_all skip skip_line
  visit_units n (u ∷ us) p = add_all path (u ∷ us) p
  visit_units n [] p =
      let s = node_text kit bytes n in
      if is_oversize s then skip path (skip_line path n s) p else add path s p

  unfoldable pub visit : Node → Packing → Packing
  unfolding visit_units class_units touched
  visit n p = if touched changed n then visit_units n (class_units n) p else p

  unfoldable pub visit_all : List Node → Packing → Packing
  unfolding visit
  visit_all [] p = p
  visit_all (n ∷ ns) p = visit_all ns (visit n p)

abbrev pub empty_packing : Packing
empty_packing = record { chunks = []; pending = []; pending_tokens = 0 }

unfoldable pub chunk_changed_nodes :
    Toolkit → (path : Text) → Tree → List ℕ → List Text → List ℕ → List Text
unfolding visit_all flush
chunk_changed_nodes kit path tree bytes types changed =
    if tree.has_error
    then []
    else (flush path
        (visit_all kit path bytes types changed (children tree.root) empty_packing)).chunks

-- the variables of the loop over a whole file
pub record Filling : Type 0 where
  pub chunks : List Text
  pub current_chunk : List Text
  pub current_tokens : ℕ

module _ (kit : Toolkit) (path : Text) (bytes : List ℕ) (types : List Text) where
  -- Case 1: the boundary nodes of the body of a class
  boundary_subs : List Node → List Text
  boundary_subs [] = []
  boundary_subs (sub ∷ subs) =
      if is_boundary types sub
      then (file_line path ++ (10 ∷ node_text kit bytes sub)) ∷ boundary_subs subs
      else boundary_subs subs

  subs_of : Option Node → List Text
  unfolding boundary_subs
  subs_of none = []
  subs_of (some body) = boundary_subs (children body)

  sub_chunks : Node → List Text
  unfolding subs_of is_class child_by_field_name
  sub_chunks n = if is_class n then subs_of (child_by_field_name n (codes "body")) else []

  -- Case 2: nothing to split, so the node is flagged
  or_skip : Node → List Text → List Text
  unfolding skip_line
  or_skip n [] = skip_line path n (node_text kit bytes n) ∷ []
  or_skip n (c ∷ cs) = c ∷ cs

  fill : Text → Filling → Filling
  unfolding estimate_tokens
  fill s f = record f {
    current_chunk = f.current_chunk ++ s ∷ [];
    current_tokens = f.current_tokens + estimate_tokens s;
  }

  start_chunk : Text → Filling → Filling
  unfolding estimate_tokens join
  start_chunk s f = record {
    chunks = f.chunks ++ join (10 ∷ []) f.current_chunk ∷ [];
    current_chunk = file_line path ∷ (s ∷ []);
    current_tokens = estimate_tokens s;
  }

  unfoldable pub fill_node : Node → Filling → Filling
  unfolding sub_chunks or_skip fill start_chunk
  fill_node n f =
      let s = node_text kit bytes n in
      if not (is_boundary types n)
      then fill s f
      else if is_oversize s
      then record f { chunks = f.chunks ++ or_skip n (sub_chunks n) }
      else if ltb max_chunk_tokens (f.current_tokens + estimate_tokens s)
      then start_chunk s f
      else fill s f

  fill_all : List Node → Filling → Filling
  unfolding fill_node
  fill_all [] f = f
  fill_all (n ∷ ns) f = fill_all ns (fill_node n f)

  last_chunk : Filling → List Text
  unfolding join
  last_chunk f =
      if ltb 1 (length f.current_chunk)
      then f.chunks ++ join (10 ∷ []) f.current_chunk ∷ []
      else f.chunks

  unfoldable pub chunk_whole_file : Tree → List Text
  unfolding fill_all last_chunk
  chunk_whole_file tree = last_chunk (
      fill_all (children tree.root)
        (record { chunks = []; current_chunk = file_line path ∷ []; current_tokens = 0 }))

abbrev or_whole : List Text → List Text → List Text
or_whole [] whole = whole
or_whole (c ∷ cs) whole = c ∷ cs

-- the chunks of the changed nodes; empty where there is no patch or no changed line
abbrev scoped : (List ℕ → List Text) → List ℕ → List Text
scoped f [] = []
scoped f (l ∷ ls) = f (l ∷ ls)

-- `patch` is empty where the code has none.
unfoldable pub chunk_by_ast : Toolkit → (path source patch : Text) → List Text
unfolding extension has_parser boundary_types parse_changed_lines chunk_changed_nodes
    chunk_whole_file
chunk_by_ast kit path source patch =
    let ext = extension path in
    let bytes = kit.encode source in
    let tree = kit.parse ext bytes in
    let types = boundary_types ext in
    if not (has_parser ext)
    then (file_line path ++ (10 ∷ source)) ∷ []
    else or_whole
        (scoped (chunk_changed_nodes kit path tree bytes types) (parse_changed_lines patch))
        (chunk_whole_file kit path bytes types tree)

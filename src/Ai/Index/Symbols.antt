-- ===== src/Ai/Index/Symbols.antt =====
-- What `_extract_definitions` records of a tree, against the description of its definitions.
use revix.Prelude.{
  ℕ, Text, ◌≡◌, refl, sym, ap, subst, ◌∙◌, ◌↔◌, inl, inr, true, Option, none, some, List, Memᴰ, All,
  All-append, All-mem, mem-any, Bool-cases,
}
use mathlib.Core.List.Memᴰ as Members
use revix.Ai.Syntax.{
  Node, node, Nodes, nil, cons, info, children, to_list, Toolkit, extension, has_parser,
  boundary_types, is_class,
}
use revix.Ai.Index.{Symbol, symbol_of, extract_definitions, extract_all, index_file}
use revix.Ai.Index.Described.{top, in_class, below, class_kinds, IsNamed, Stands, IsDefinition}
use revix.Ai.Index.Placed.{
  new_of, new_of-named, new_of-cases, same_parent, At, At-full, qualified-dotted, At-child,
}

module _ (kit : Toolkit) (bytes : List ℕ) (path : Text) (types : List Text) where
  module _ (root : Node) where
    symbol_of-IsDefinition :
        {p : Option Text} {n : Node}
        → At kit bytes path types root p n
        → (t : Text) → IsNamed kit bytes types n t
        → IsDefinition kit bytes path types root (symbol_of kit bytes path p n t)
    unfolding symbol_of
    symbol_of-IsDefinition {p} {n} st t named = record {
      place = n;
      name = t;
      parent = p;
      stands = st;
      named = named;
      written =
          ap (λ q. record (symbol_of kit bytes path p n t) { qualified_name = q })
            (qualified-dotted kit bytes path types root p t (At-full kit bytes path types root st));
    }

    new_of-IsDefinition :
        {p : Option Text} {n : Node}
        → At kit bytes path types root p n
        → All (IsDefinition kit bytes path types root) (new_of kit bytes path types p n).0
    new_of-IsDefinition {p} {n} st = elim (new_of-cases kit bytes path types p n) [
      | inl (t, named) ↦
          rw (new_of-named kit bytes path types p n t named) (symbol_of-IsDefinition st t named, tt)
      | inr e ↦ rw e tt
    ]

    mutual
      unfolding extract_definitions extract_all

      definitions :
          (p : Option Text) (n : Node)
          → At kit bytes path types root p n
          → All
              (IsDefinition kit bytes path types root)
              (extract_definitions kit bytes path types p n)
      definitions p (node i ns) st =
          All-append (IsDefinition kit bytes path types root) _ _ (new_of-IsDefinition st) (
            of_children (new_of kit bytes path types p (node i ns)).1 ns
              (λ c m. At-child kit bytes path types root st m))

      of_children :
          (p : Option Text) (ns : Nodes)
          → ((c : Node) → Memᴰ c (to_list ns) → At kit bytes path types root p c)
          → All (IsDefinition kit bytes path types root) (extract_all kit bytes path types p ns)
      of_children p nil st = tt
      of_children p (cons n ns) st =
          All-append (IsDefinition kit bytes path types root) _ _
            (definitions p n (st n (Memᴰ.head refl))) (of_children p ns (λ c m. st c (Memᴰ.tail m)))

  extract_all-mem :
      (p : Option Text) (ns : Nodes) {c : Node} {s : Symbol}
      → Memᴰ c (to_list ns)
      → Memᴰ s (extract_definitions kit bytes path types p c)
      → Memᴰ s (extract_all kit bytes path types p ns)
  unfolding extract_all
  extract_all-mem p nil m h = elim m [ ]
  extract_all-mem p (cons n ns) {c} {s} (Memᴰ.head e) h =
      Members.append_left _ (subst (λ x. Memᴰ s (extract_definitions kit bytes path types p x)) e h)
  extract_all-mem p (cons n ns) (Memᴰ.tail m) h =
      Members.append_right (extract_definitions kit bytes path types p n) (extract_all-mem p ns m h)

  child-mem :
      (p : Option Text) (n : Node) {c : Node} {s : Symbol}
      → Memᴰ c (children n)
      → Memᴰ s (extract_definitions kit bytes path types (new_of kit bytes path types p n).1 c)
      → Memᴰ s (extract_definitions kit bytes path types p n)
  unfolding extract_definitions
  child-mem p (node i ns) m h =
      Members.append_right (new_of kit bytes path types p (node i ns)).0
        (extract_all-mem (new_of kit bytes path types p (node i ns)).1 ns m h)

  -- What is recorded below a node of the tree is recorded of the tree.
  Stands-mem :
      (root : Node) {p : Option Text} {n : Node} {s : Symbol}
      → Stands kit bytes types root p n
      → Memᴰ s (extract_definitions kit bytes path types p n)
      → Memᴰ s (extract_definitions kit bytes path types none root)
  unfolding is_class
  Stands-mem root top h = h
  Stands-mem root {s = s} (in_class {p} {n} {c} {t} st m (k, named)) h =
      let e =
        ap (λ (x : List Symbol × Option Text). x.1)
          (new_of-named kit bytes path types p n t named) in
      let e' : (new_of kit bytes path types p n).1 ≡ some t =
        rw (mem-any (info n).type class_kinds k) at e in
      Stands-mem root st (
        child-mem p n m
          (subst (λ q. Memᴰ s (extract_definitions kit bytes path types q c)) (sym e') h))
  Stands-mem root {s = s} (below {p} {n} {c} st m other) h = Stands-mem root st (
      child-mem p n m (
        subst (λ q. Memᴰ s (extract_definitions kit bytes path types q c))
          (sym (same_parent kit bytes path types p n other)) h))

  place-mem :
      (p : Option Text) (n : Node) (t : Text)
      → IsNamed kit bytes types n t
      → Memᴰ (symbol_of kit bytes path p n t) (extract_definitions kit bytes path types p n)
  unfolding extract_definitions
  place-mem p (node i ns) t named = Members.append_left _ (
      subst (λ (x : List Symbol × Option Text). Memᴰ (symbol_of kit bytes path p (node i ns) t) x.0)
        (sym (new_of-named kit bytes path types p (node i ns) t named)) (Memᴰ.head refl))

  IsDefinition-mem :
      (root : Node) (s : Symbol)
      → IsDefinition kit bytes path types root s
      → Memᴰ s (extract_definitions kit bytes path types none root)
  unfolding symbol_of
  IsDefinition-mem root s d =
      let same =
        d.written
        ∙ sym (
            ap
              (λ q. record (symbol_of kit bytes path d.parent d.place d.name) {
                qualified_name = q;
              })
              (qualified-dotted kit bytes path types root d.parent d.name
                (At-full kit bytes path types root d.stands))) in
      Stands-mem root d.stands (
        subst (λ x. Memᴰ x (extract_definitions kit bytes path types d.parent d.place)) (sym same)
          (place-mem d.parent d.place d.name d.named))

-- A symbol is among those that `index_file` records if and only if the extension of the path has
-- a grammar and the symbol describes a node of the tree, of a kind listed for the extension,
-- whose first child that stands for a name is not empty. Its parent is the name of the nearest
-- class around the node that is listed and named so too, or none where there is no such class.
-- Its qualified name is its own behind that of the parent and a dot, and the other fields are
-- those of the node.
pub index_file-IsDefinition :
    (kit : Toolkit) (path source : Text) (s : Symbol)
    → Memᴰ s (index_file kit path source).0 ↔ (
        (has_parser (extension path) ≡ true)
        × IsDefinition kit
            (kit.encode source)
            path
            (boundary_types (extension path))
            (kit.parse (extension path) (kit.encode source)).root
            s)
unfolding index_file
index_file-IsDefinition kit path source s =
    let bytes = kit.encode source in
    let types = boundary_types (extension path) in
    let root = (kit.parse (extension path) bytes).root in
    elim (Bool-cases (has_parser (extension path))) [
      | inl e ↦ rw e (
        λ m. (
          refl,
          All-mem (IsDefinition kit bytes path types root) _
              (definitions kit bytes path types root none root top) m,
        ),
        λ (u, d). IsDefinition-mem kit bytes path types root s d,
      )
      | inr e ↦ rw e (λ m. elim m [ ], λ (u, d). absurd (cc u))
    ]

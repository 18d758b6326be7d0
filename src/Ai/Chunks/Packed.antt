-- ===== src/Ai/Chunks/Packed.antt =====
-- What `_chunk_changed_nodes` packs: every unit that the diff touches, in order, in chunks within the
-- budget.
use mathlib.Core.List.{append-nil, append_assoc}
use revix.Prelude.{
  ℕ, Text, ◌≡◌, sym, ◌∙◌, ap, inl, inr, false, List, [], ◌∷◌, ◌++◌, map, length, All, codes,
  decimal, ◌/◌, if◌then◌else◌, Bool-cases,
}
use revix.Ai.Syntax.{Node, info, children, Tree, Toolkit, node_text}
use revix.Ai.Chunks.{
  estimate_tokens, skip_line, Packing, touched, visit_units, visit, visit_all, empty_packing,
  chunk_changed_nodes,
}
use revix.Ai.Chunks.Units.{is_too_large, is_touched, class_methods, class_units-class_methods}
use revix.Ai.Chunks.Parts.{
  Chunk, text_of, units_in, flags_in, FitsChunk, IsPacked, flush-IsPacked, add-IsPacked,
  add_all-IsPacked, skip-IsPacked, empty-IsPacked,
}

module _ (kit : Toolkit) (path : Text) (bytes : List ℕ) (types : List Text) (changed : List ℕ) where
  -- What a top-level node gives to review: nothing if the diff leaves it alone, the touched methods
  -- of a class that is too large, nothing if it is too large otherwise, and else its text.
  abbrev node_units : Node → List Text → List Text
  node_units n (u ∷ us) = u ∷ us
  node_units n [] = if is_too_large (node_text kit bytes n) then [] else node_text kit bytes n ∷ []

  abbrev pub units_of : Node → List Text
  units_of n =
      if is_touched changed n then node_units n (class_methods kit bytes types changed n) else []

  abbrev pub all_units_of : List Node → List Text
  all_units_of [] = []
  all_units_of (n ∷ ns) = units_of n ++ all_units_of ns

  -- The flag of a touched node that is too large and gives no methods: its kind and its tokens.
  abbrev flag_of : Node → Text
  flag_of n =
      codes "### [SKIP] "
      ++ path
      ++ codes " - unit "
      ++ (info n).type
      ++ codes " too large for review ("
      ++ decimal (length (node_text kit bytes n) / 4)
      ++ codes " tokens)"

  abbrev node_flags : Node → List Text → List Text
  node_flags n (u ∷ us) = []
  node_flags n [] = if is_too_large (node_text kit bytes n) then flag_of n ∷ [] else []

  abbrev pub flags_of : Node → List Text
  flags_of n =
      if is_touched changed n then node_flags n (class_methods kit bytes types changed n) else []

  abbrev pub all_flags_of : List Node → List Text
  all_flags_of [] = []
  all_flags_of (n ∷ ns) = flags_of n ++ all_flags_of ns

  visit_units-IsPacked :
      (n : Node) (ss us fs : List Text) (p : Packing)
      → IsPacked path us fs p
      → IsPacked path
          (us ++ node_units n ss)
          (fs ++ node_flags n ss)
          (visit_units kit path bytes types changed n ss p)
  unfolding visit_units estimate_tokens skip_line
  visit_units-IsPacked n (s ∷ ss) us fs p h =
      rw (append-nil fs) (add_all-IsPacked path us fs (s ∷ ss) p h)
  visit_units-IsPacked n [] us fs p h = elim (Bool-cases (is_too_large (node_text kit bytes n))) [
    | inl e ↦ rw (e, append-nil us) (skip-IsPacked path us fs (flag_of n) p h)
    | inr e ↦ rw (e, append-nil fs) (add-IsPacked path us fs (node_text kit bytes n) p h)
  ]

  visit-IsPacked :
      (n : Node) (us fs : List Text) (p : Packing)
      → IsPacked path us fs p
      → IsPacked path (us ++ units_of n) (fs ++ flags_of n) (visit kit path bytes types changed n p)
  unfolding visit touched
  visit-IsPacked n us fs p h = elim (Bool-cases (is_touched changed n)) [
    | inl e ↦
        rw (e, class_units-class_methods kit bytes types changed path n)
          (visit_units-IsPacked n (class_methods kit bytes types changed n) us fs p h)
    | inr e ↦ rw (e, append-nil us, append-nil fs) h
  ]

  visit_all-IsPacked :
      (ns : List Node) (us fs : List Text) (p : Packing)
      → IsPacked path us fs p
      → IsPacked path
          (us ++ all_units_of ns)
          (fs ++ all_flags_of ns)
          (visit_all kit path bytes types changed ns p)
  unfolding visit_all
  visit_all-IsPacked [] us fs p h = rw (append-nil us, append-nil fs) h
  visit_all-IsPacked (n ∷ ns) us fs p h =
      rw
        (
          sym (append_assoc us (units_of n) (all_units_of ns)),
          sym (append_assoc fs (flags_of n) (all_flags_of ns)),
        )
        (visit_all-IsPacked ns (us ++ units_of n) (fs ++ flags_of n)
          (visit kit path bytes types changed n p) (visit-IsPacked n us fs p h))

-- For a tree without errors, the chunks of `_chunk_changed_nodes` hold exactly the units of its
-- top-level nodes that the diff touches, in the order of the file and each once: the text of a
-- node of at most 28000 tokens, and of a larger class the touched methods, each behind the head
-- of the class. Besides them there are exactly the flags, in that order, of the touched nodes of
-- more than 28000 tokens that give no methods, each with the path, the kind and the tokens of its
-- node. A chunk of several units keeps to the budget of 28000 tokens.
pub chunk_changed_nodes_lem :
    (kit : Toolkit) (path : Text) (tree : Tree) (bytes : List ℕ) (types : List Text)
    (changed : List ℕ)
    → tree.has_error ≡ false
    → (cs : List Chunk) × (chunk_changed_nodes kit path tree bytes types changed
        ≡ map (text_of path) cs)
      × (units_in cs ≡ all_units_of kit path bytes types changed (children tree.root))
      × (flags_in cs ≡ all_flags_of kit path bytes types changed (children tree.root))
      × All FitsChunk cs
unfolding chunk_changed_nodes
chunk_changed_nodes_lem kit path tree bytes types changed fine =
    let ns = children tree.root in
    let p = visit_all kit path bytes types changed ns empty_packing in
    let h =
      visit_all-IsPacked kit path bytes types changed ns [] [] empty_packing
        (empty-IsPacked path) in
    let (q, empty) = flush-IsPacked path _ _ p h in
    (
      q.parts,
      rw fine q.printed,
      sym (append-nil (units_in q.parts))
          ∙ ap (λ t. units_in q.parts ++ t) (sym empty)
          ∙ q.all_units,
      q.all_flags,
      q.within,
    )

-- ===== src/Ai/Index/Placed.antt =====
-- What one node adds to the definitions, and which parent it hands on to what stands below it.
use revix.Prelude.{
  ℕ, Text, ◌≡◌, refl, sym, ap, subst, ◌∙◌, ◌≢◌, ◌⊎◌, inl, inr, Option, none, some, List, [], ◌∷◌,
  Memᴰ, any-text_eq, mem-any, Bool-cases, if◌then◌else◌, some_inj,
}
use revix.Ai.Syntax.{Node, info, children, Toolkit, is_boundary, is_class}
use revix.Ai.Index.{Symbol, qualified, symbol_of, defined, name_of}
use revix.Ai.Index.Described.{
  top, in_class, below, class_kinds, dotted, IsFirstName, IsNamed, IsClass, Stands,
  name_of-IsFirstName, IsFirstName-name_of,
}

module _ (kit : Toolkit) (bytes : List ℕ) (path : Text) (types : List Text) where
  abbrev pub new_of : Option Text → Node → List Symbol × Option Text
  new_of p n = defined kit bytes path types p n (name_of kit bytes path (children n))

  -- `defined` on a named node, and on one that is none
  pub new_of-named :
      (p : Option Text) (n : Node) (t : Text)
      → IsNamed kit bytes types n t
      → new_of p n ≡ (symbol_of kit bytes path p n t ∷ [], (if is_class n then some t else p))
  unfolding defined
  new_of-named p n t (listed, first, full) =
      rw (IsFirstName-name_of kit bytes path (children n) t first) (go t full)
    where
      go :
          (t : Text)
          → t ≢ []
          → defined kit bytes path types p n t
            ≡ (symbol_of kit bytes path p n t ∷ [], (if is_class n then some t else p))
      go [] h = absurd (h refl)
      go (c ∷ t) h = rw (mem-any (info n).type types listed) refl

  pub new_of-cases :
      (p : Option Text) (n : Node)
      → ((t : Text) × IsNamed kit bytes types n t) ⊎ (new_of p n ≡ ([], p))
  unfolding defined
  new_of-cases p n = go (name_of kit bytes path (children n)) refl
    where
      go :
          (t : Text)
          → name_of kit bytes path (children n) ≡ t
          → ((t : Text) × IsNamed kit bytes types n t)
            ⊎ (defined kit bytes path types p n (name_of kit bytes path (children n)) ≡ ([], p))
      go [] e = inr (rw e refl)
      go (c ∷ t) e = elim (Bool-cases (is_boundary types n)) [
        | inl b ↦ inl (
          c ∷ t,
          (
            any-text_eq (info n).type types b,
            subst (IsFirstName kit bytes (children n)) e
                (name_of-IsFirstName kit bytes path (children n) (λ h. cc (h, e))),
            (λ h. cc h),
          ),
        )
        | inr b ↦ inr (rw (e, b) refl)
      ]

  pub same_parent :
      (p : Option Text) (n : Node)
      → ¬ ((t : Text) × IsClass kit bytes types n t)
      → (new_of p n).1 ≡ p
  unfolding is_class
  same_parent p n other = elim (new_of-cases p n) [
    | inl (t, named) ↦
        let e = ap (λ (x : List Symbol × Option Text). x.1) (new_of-named p n t named) in
        elim (Bool-cases (is_class n)) [
          | inl k ↦ absurd (other (t, (any-text_eq (info n).type class_kinds k, named)))
          | inr k ↦ rw k at e
        ]
    | inr e ↦ ap (λ (x : List Symbol × Option Text). x.1) e
  ]

  module _ (root : Node) where
    abbrev pub At : Option Text → Node → Type 0
    At = Stands kit bytes types root

    -- No class has an empty name.
    pub At-full : {p : Option Text} {n : Node} → At p n → (t : Text) → p ≡ some t → t ≢ []
    At-full top t e = absurd (cc e)
    At-full (in_class st m (k, (listed, first, full))) t e = subst (λ u. u ≢ []) (some_inj e) full
    At-full (below st m other) t e = At-full st t e

    pub qualified-dotted :
        (p : Option Text) (name : Text)
        → ((t : Text) → p ≡ some t → t ≢ [])
        → qualified p name ≡ dotted p name
    qualified-dotted none name full = refl
    qualified-dotted (some []) name full = absurd (full [] refl refl)
    qualified-dotted (some (c ∷ t)) name full = refl

    -- What stands below a node of the tree stands in the tree, under the parent that the code
    -- hands on.
    pub At-child :
        {p : Option Text} {n c : Node} → At p n → Memᴰ c (children n) → At (new_of p n).1 c
    unfolding is_class
    At-child {p} {n} {c} st m = elim (new_of-cases p n) [
      | inl (t, named) ↦
          let e = ap (λ (x : List Symbol × Option Text). x.1) (new_of-named p n t named) in
          elim (Bool-cases (is_class n)) [
            | inl k ↦
                let e' : (new_of p n).1 ≡ some t = rw k at e in
                subst (λ q. At q c) (sym e')
                  (in_class st m (any-text_eq (info n).type class_kinds k, named))
            | inr k ↦
                let e' : (new_of p n).1 ≡ p = rw k at e in
                subst (λ q. At q c) (sym e')
                  (below st m (λ (u, (cls, h)). cc (k, mem-any (info n).type class_kinds cls)))
          ]
      | inr e ↦
          subst (λ q. At q c) (sym (ap (λ (x : List Symbol × Option Text). x.1) e))
            (below st m (λ (u, (cls, h)).
              cc (ap (λ (x : List Symbol × Option Text). x.0) (sym (new_of-named p n u h) ∙ e))))
    ]

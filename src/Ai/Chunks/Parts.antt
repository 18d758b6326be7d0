-- ===== src/Ai/Chunks/Parts.antt =====
-- The chunks that `flush`, `add` and the skips of `_chunk_changed_nodes` build, as lists of units.
use mathlib.Core.List.{append-nil, append_assoc, map-append}
use revix.Prelude.{
  ℕ, ◌+◌, ◌≤◌, Text, ◌≡◌, refl, sym, ◌∙◌, ap, subst, ◌⊎◌, inl, inr, false, ◌&&◌, List, [], ◌∷◌,
  ◌++◌, map, arith, length, All, All-append, ltb, Bool-cases,
}
use revix.Ai.Chunks.{
  max_chunk_tokens, estimate_tokens, chunk_text, Packing, flush, flush_pending, is_nonempty,
  append_unit, add, add_all, skip, empty_packing,
}

-- a chunk before it is text: the units that it holds, or a flag for one that is too large
pub data Chunk : Type 0 where
  units : List Text → Chunk
  flag : Text → Chunk

abbrev pub text_of : Text → Chunk → Text
text_of path (units g) = chunk_text path g
text_of path (flag line) = line

abbrev pub units_in : List Chunk → List Text
units_in [] = []
units_in (units g ∷ cs) = g ++ units_in cs
units_in (flag line ∷ cs) = units_in cs

abbrev pub flags_in : List Chunk → List Text
flags_in [] = []
flags_in (units g ∷ cs) = flags_in cs
flags_in (flag line ∷ cs) = line ∷ flags_in cs

abbrev pub total : List Text → ℕ
total [] = 0
total (s ∷ r) = estimate_tokens s + total r

-- Units fill a chunk up to the budget; only one that stands alone may exceed it.
abbrev pub Fits : List Text → Type 0
Fits g = (total g ≤ max_chunk_tokens) ⊎ (length g ≤ 1)

abbrev pub FitsChunk : Chunk → Type 0
FitsChunk (units g) = Fits g
FitsChunk (flag line) = Unit

units_in-append : (cs ds : List Chunk) → units_in (cs ++ ds) ≡ units_in cs ++ units_in ds
units_in-append [] ds = refl
units_in-append (units g ∷ cs) ds =
    ap (λ t. g ++ t) (units_in-append cs ds) ∙ sym (append_assoc g (units_in cs) (units_in ds))
units_in-append (flag line ∷ cs) ds = units_in-append cs ds

flags_in-append : (cs ds : List Chunk) → flags_in (cs ++ ds) ≡ flags_in cs ++ flags_in ds
flags_in-append [] ds = refl
flags_in-append (units g ∷ cs) ds = flags_in-append cs ds
flags_in-append (flag line ∷ cs) ds = ap (λ t. line ∷ t) (flags_in-append cs ds)

total-snoc : (g : List Text) (s : Text) → total (g ++ s ∷ []) ≡ total g + estimate_tokens s
total-snoc [] s = omega arith
total-snoc (t ∷ g) s = omega (arith, total-snoc g s)

module _ (path : Text) where
  -- the packing `p` holds the units `us` and the flags `fs`
  pub record IsPacked (us fs : List Text) (p : Packing) : Type 0 where
    pub parts : List Chunk
    pub printed : p.chunks ≡ map (text_of path) parts
    pub all_units : units_in parts ++ p.pending ≡ us
    pub all_flags : flags_in parts ≡ fs
    pub within : All FitsChunk parts
    pub counted : p.pending_tokens ≡ total p.pending
    pub pending_within : Fits p.pending

  -- one more chunk, and nothing pending
  close_chunk :
      (us fs : List Text) (p : Packing) (g : List Text)
      → IsPacked us fs p
      → p.pending ≡ g
      → IsPacked us fs
          (record { chunks = p.chunks ++ chunk_text path g ∷ []; pending = []; pending_tokens = 0 })
  close_chunk us fs p g h e = record {
    parts = h.parts ++ units g ∷ [];
    printed =
        ap (λ t. t ++ chunk_text path g ∷ []) h.printed
        ∙ sym (map-append (text_of path) h.parts (units g ∷ []));
    all_units =
        append-nil _
        ∙ units_in-append h.parts (units g ∷ [])
        ∙ ap (λ t. units_in h.parts ++ t) (append-nil g ∙ sym e)
        ∙ h.all_units;
    all_flags = flags_in-append h.parts (units g ∷ []) ∙ append-nil _ ∙ h.all_flags;
    within =
        All-append FitsChunk h.parts (units g ∷ []) h.within (subst Fits e h.pending_within, tt);
    counted = refl;
    pending_within = inr (omega arith);
  }

  pub flush-IsPacked :
      (us fs : List Text) (p : Packing)
      → IsPacked us fs p
      → IsPacked us fs (flush path p) × ((flush path p).pending ≡ [])
  unfolding flush
  flush-IsPacked us fs p h = go p.pending refl
    where
      go :
          (g : List Text)
          → p.pending ≡ g
          → IsPacked us fs (flush_pending path g p) × ((flush_pending path g p).pending ≡ [])
      go [] e = (h, e)
      go (s ∷ r) e = (close_chunk us fs p (s ∷ r) h e, refl)

  append_unit-IsPacked :
      (us fs : List Text) (s : Text) (p : Packing)
      → IsPacked us fs p
      → (p.pending ≡ []) ⊎ (p.pending_tokens + estimate_tokens s ≤ max_chunk_tokens)
      → IsPacked (us ++ s ∷ []) fs (append_unit s p)
  append_unit-IsPacked us fs s p h room = record {
    parts = h.parts;
    printed = h.printed;
    all_units =
        sym (append_assoc (units_in h.parts) p.pending (s ∷ []))
        ∙ ap (λ t. t ++ s ∷ []) h.all_units;
    all_flags = h.all_flags;
    within = h.within;
    counted = ap (λ t. t + estimate_tokens s) h.counted ∙ sym (total-snoc p.pending s);
    pending_within = elim room [
      | inl e ↦ inr (rw e (omega arith))
      | inr le ↦ inl (rw (total-snoc p.pending s) (rw h.counted at le))
    ];
  }

  pub add-IsPacked :
      (us fs : List Text) (s : Text) (p : Packing)
      → IsPacked us fs p
      → IsPacked (us ++ s ∷ []) fs (add path s p)
  unfolding add
  add-IsPacked us fs s p h =
      elim (Bool-cases
        (is_nonempty p.pending && ltb max_chunk_tokens (p.pending_tokens + estimate_tokens s))) [
          | inl e ↦
              let (q, empty) = flush-IsPacked us fs p h in
              rw e (append_unit-IsPacked us fs s (flush path p) q (inl empty))
          | inr e ↦ rw e (append_unit-IsPacked us fs s p h (room p.pending refl e))
        ]
    where
      room :
          (g : List Text)
          → p.pending ≡ g
          → (is_nonempty g && ltb max_chunk_tokens (p.pending_tokens + estimate_tokens s)) ≡ false
          → (p.pending ≡ []) ⊎ (p.pending_tokens + estimate_tokens s ≤ max_chunk_tokens)
      room [] k e = inl k
      room (t ∷ g) k e = inr (ground arith)

  pub add_all-IsPacked :
      (us fs ss : List Text) (p : Packing)
      → IsPacked us fs p
      → IsPacked (us ++ ss) fs (add_all path ss p)
  unfolding add_all
  add_all-IsPacked us fs [] p h = rw append-nil h
  add_all-IsPacked us fs (s ∷ ss) p h =
      subst (λ l. IsPacked l fs (add_all path ss (add path s p))) (append_assoc us (s ∷ []) ss)
        (add_all-IsPacked (us ++ s ∷ []) fs ss (add path s p) (add-IsPacked us fs s p h))

  pub skip-IsPacked :
      (us fs : List Text) (line : Text) (p : Packing)
      → IsPacked us fs p
      → IsPacked us (fs ++ line ∷ []) (skip path line p)
  unfolding skip
  skip-IsPacked us fs line p h =
      let (q, empty) = flush-IsPacked us fs p h in
      record {
        parts = q.parts ++ flag line ∷ [];
        printed =
            ap (λ t. t ++ line ∷ []) q.printed
            ∙ sym (map-append (text_of path) q.parts (flag line ∷ []));
        all_units =
            ap (λ t. t ++ (flush path p).pending)
              (units_in-append q.parts (flag line ∷ []) ∙ append-nil (units_in q.parts))
            ∙ q.all_units;
        all_flags = flags_in-append q.parts (flag line ∷ []) ∙ ap (λ t. t ++ line ∷ []) q.all_flags;
        within = All-append FitsChunk q.parts (flag line ∷ []) q.within (tt, tt);
        counted = q.counted;
        pending_within = q.pending_within;
      }

pub empty-IsPacked : (path : Text) → IsPacked path [] [] empty_packing
empty-IsPacked path = record {
  parts = [];
  printed = refl;
  all_units = refl;
  all_flags = refl;
  within = tt;
  counted = refl;
  pending_within = inr (omega arith);
}

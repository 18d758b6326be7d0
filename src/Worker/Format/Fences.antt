-- ===== src/Worker/Format/Fences.antt =====
-- The suggested fix in a comment cannot end the block that it stands in.
use revix.Prelude.{
  ℕ, zero, suc, ◌-◌, Text, codes, starts_with, contains, is_space, strip, strip_left, replace,
  replace_from, ◌≡◌, refl, sym, ◌∙◌, ap, subst, inl, inr, true, false, [], ◌∷◌, ◌++◌, reverse,
  arith, length, ◌==◌, Bool-cases,
}
use mathlib.Core.List.{reverse-append, reverse-reverse}
use revix.Worker.Format.{backticks, clean_fix}

-- no three backticks in a row
abbrev pub IsClosed : Text → Type 0
IsClosed s = contains s backticks ≡ false

-- `replace` of the fence, from a position where no match is under way or some of one is left
abbrev cut : ℕ → Text → Text
cut = replace_from backticks []

replace-match :
    (old : Text) (c : ℕ) (s : Text)
    → starts_with (c ∷ s) old ≡ true
    → replace_from old [] 0 (c ∷ s) ≡ replace_from old [] (length old - 1) s
unfolding replace_from
replace-match old c s y = rw (replace_from, y) refl

replace-keep :
    (old : Text) (c : ℕ) (s : Text)
    → starts_with (c ∷ s) old ≡ false
    → replace_from old [] 0 (c ∷ s) ≡ c ∷ replace_from old [] 0 s
unfolding replace_from
replace-keep old c s n = rw (replace_from, n) refl

cut-match : (c : ℕ) (s : Text) → starts_with (c ∷ s) backticks ≡ true → cut 0 (c ∷ s) ≡ cut 2 s
cut-match c s y = replace-match backticks c s y

cut-keep : (c : ℕ) (s : Text) → starts_with (c ∷ s) backticks ≡ false → cut 0 (c ∷ s) ≡ c ∷ cut 0 s
cut-keep c s n = replace-keep backticks c s n

-- a text whose first three characters are not all backticks
first_other : (a : ℕ) (s : Text) → (a == b'`') ≡ false → starts_with (a ∷ s) backticks ≡ false
unfolding starts_with
first_other a s n = rw n refl

second_other :
    (c a : ℕ) (s : Text) → (a == b'`') ≡ false → starts_with (c ∷ a ∷ s) backticks ≡ false
unfolding starts_with
second_other c a s n = ground (arith, n)

third_other :
    (c a b : ℕ) (s : Text) → (b == b'`') ≡ false → starts_with (c ∷ a ∷ b ∷ s) backticks ≡ false
unfolding starts_with
third_other c a b s n = ground (arith, n)

short_other : (a : ℕ) → starts_with (a ∷ []) backticks ≡ false
unfolding starts_with
short_other a = ground arith

pair_other : (a b : ℕ) → starts_with (a ∷ b ∷ []) backticks ≡ false
unfolding starts_with
pair_other a b = ground arith

first_of :
    (c a b : ℕ) (s : Text)
    → (a == b'`') ≡ true
    → (b == b'`') ≡ true
    → starts_with (c ∷ a ∷ b ∷ s) backticks ≡ false
    → (c == b'`') ≡ false
unfolding starts_with
first_of c a b s y z h = elim (Bool-cases (c == b'`')) [
  | inl x ↦ absurd (cc (rw (x, y, z) at h))
  | inr n ↦ n
]

cut-nil : cut 0 [] ≡ []
unfolding replace_from
cut-nil = refl

starts_with-cut :
    (c : ℕ) (s : Text)
    → starts_with (c ∷ s) backticks ≡ false
    → starts_with (c ∷ cut 0 s) backticks ≡ false
starts_with-cut c [] h = rw cut-nil (short_other c)
starts_with-cut c (a ∷ []) h = rw (cut-keep a [] (short_other a), cut-nil) (pair_other c a)
starts_with-cut c (a ∷ b ∷ s) h = elim (Bool-cases (a == b'`')) [
  | inr n ↦ rw (cut-keep a (b ∷ s) (first_other a (b ∷ s) n)) (second_other c a (cut 0 (b ∷ s)) n)
  | inl y ↦ elim (Bool-cases (b == b'`')) [
    | inr n ↦
        rw (cut-keep a (b ∷ s) (second_other a b s n), cut-keep b s (first_other b s n))
          (third_other c a b (cut 0 s) n)
    | inl z ↦ first_other c (cut 0 (a ∷ b ∷ s)) (first_of c a b s y z h)
  ]
]

cons-IsClosed :
    (c : ℕ) (s : Text) → starts_with (c ∷ s) backticks ≡ false → IsClosed s → IsClosed (c ∷ s)
unfolding contains
cons-IsClosed c s n h = rw n h

cut-IsClosed : (k : ℕ) (s : Text) → IsClosed (cut k s)
unfolding replace_from contains starts_with
cut-IsClosed k [] = refl
cut-IsClosed (suc k) (c ∷ s) = cut-IsClosed k s
cut-IsClosed zero (c ∷ s) = elim (Bool-cases (starts_with (c ∷ s) backticks)) [
  | inl y ↦ subst IsClosed (sym (cut-match c s y)) (cut-IsClosed 2 s)
  | inr n ↦
      subst IsClosed (sym (cut-keep c s n))
        (cons-IsClosed c (cut 0 s) (starts_with-cut c s n) (cut-IsClosed 0 s))
]

strip_left-IsClosed : (s : Text) → IsClosed s → IsClosed (strip_left s)
unfolding strip_left contains
strip_left-IsClosed [] h = h
strip_left-IsClosed (c ∷ s) h = elim (Bool-cases (is_space c)) [
  | inl y ↦ rw y (strip_left-IsClosed s (ground (arith, h)))
  | inr n ↦ rw n h
]

starts_with-nil : (s : Text) → starts_with s [] ≡ true
unfolding starts_with
starts_with-nil [] = refl
starts_with-nil (c ∷ s) = refl

starts_with-append : (s t p : Text) → starts_with s p ≡ true → starts_with (s ++ t) p ≡ true
unfolding starts_with
starts_with-append [] t [] h = starts_with-nil t
starts_with-append (a ∷ s) t [] h = refl
starts_with-append [] t (b ∷ p) h = absurd (cc h)
starts_with-append (a ∷ s) t (b ∷ p) h = ground (arith, h, starts_with-append s t p)

prefix-IsClosed : (s t : Text) → IsClosed (s ++ t) → IsClosed s
unfolding contains starts_with
prefix-IsClosed [] t h = refl
prefix-IsClosed (c ∷ s) t h =
    ground (arith, h, starts_with-append (c ∷ s) t backticks, prefix-IsClosed s t)

-- what `strip_left` takes off
strip_left-suffix : (s : Text) → (u : Text) × (s ≡ u ++ strip_left s)
unfolding strip_left
strip_left-suffix [] = ([], refl)
strip_left-suffix (c ∷ s) = elim (Bool-cases (is_space c)) [
  | inl y ↦ let (u, e) = strip_left-suffix s in rw y (c ∷ u, ap (λ r. c ∷ r) e)
  | inr n ↦ rw n ([], refl)
]

strip-IsClosed : (s : Text) → IsClosed s → IsClosed (strip s)
unfolding strip
strip-IsClosed s h =
    let t = strip_left s in
    let (u, e) = strip_left-suffix (reverse t) in
    let whole : t ≡ strip s ++ reverse u =
      sym (reverse-reverse t) ∙ ap reverse e ∙ reverse-append u (strip_left (reverse t)) in
    prefix-IsClosed (strip s) (reverse u) (subst IsClosed whole (strip_left-IsClosed s h))

-- The suggested fix of a comment, as it is put into its fenced block, contains no three backticks
-- in a row, whatever the model suggested.
pub clean_fix-IsClosed : (s : Text) → IsClosed (clean_fix s)
unfolding clean_fix replace
clean_fix-IsClosed s =
    let t = replace (codes "```\n") [] (replace (codes "```cpp\n") [] (strip s)) in
    strip-IsClosed (replace backticks [] t) (cut-IsClosed 0 t)

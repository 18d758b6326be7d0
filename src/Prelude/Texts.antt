-- ===== src/Prelude/Texts.antt =====
-- A Python `str` as the list of its code points. Literals are written through `codes`.
use Prim.Native.Nat.{ℕ, zero, suc, ◌+◌, ◌-◌, ◌/◌, ◌%◌, ◌^◌}
use Prim.Native.Char.{code}
use Prim.Native.String.{String}
use mathlib.Core.Path.{◌≡◌, refl}
use mathlib.Core.Logic.{◌↔◌, inl, inr}
use mathlib.Core.Bool.{Bool, true, false, ◌&&◌, ◌||◌}
use mathlib.Core.List.{List, [], ◌∷◌, ◌++◌, reverse, Memᴰ}
use native.Mathlib.Omega.{arith}
use mathlib.Core.Option.{Option, none, some}
use revix.Prelude.Lists.{length, any}
use revix.Prelude.Tests.{Bool-cases, ◌==◌, ltb, leb, if◌then◌else◌}

abbrev pub Text : Type 0
Text = List ℕ

abbrev pub codes : String → Text
codes String.[] = []
codes (String.◌∷◌ c s) = code c ∷ codes s

-- `a == b` on strings
unfoldable pub text_eq : Text → Text → Bool
text_eq [] [] = true
text_eq (a ∷ s) (b ∷ t) = a == b && text_eq s t
text_eq _ _ = false

pub text_eq_iff : (s t : Text) → (text_eq s t ≡ true) ↔ (s ≡ t)
unfolding text_eq
text_eq_iff [] [] = ground arith
text_eq_iff [] (b ∷ t) = ground arith
text_eq_iff (a ∷ s) [] = ground arith
text_eq_iff (a ∷ s) (b ∷ t) = ground (arith, text_eq_iff s t)

pub text_eq_refl : (s : Text) → text_eq s s ≡ true
text_eq_refl s = (text_eq_iff s s).1 refl

pub any-text_eq : (t : Text) (ts : List Text) → any (text_eq t) ts ≡ true → Memᴰ t ts
any-text_eq t (u ∷ us) h = elim (Bool-cases (text_eq t u)) [
  | inl e ↦ Memᴰ.head ((text_eq_iff t u).0 e)
  | inr e ↦ Memᴰ.tail (any-text_eq t us (ground arith))
]
any-text_eq t [] h = absurd (cc h)

pub mem-any : (t : Text) (ts : List Text) → Memᴰ t ts → any (text_eq t) ts ≡ true
mem-any t [] m = elim m [ ]
mem-any t (u ∷ us) (Memᴰ.head e) = rw ((text_eq_iff t u).1 e) refl
mem-any t (u ∷ us) (Memᴰ.tail m) = ground (arith, mem-any t us m)

-- `s.startswith(p)`
unfoldable pub starts_with : Text → Text → Bool
starts_with s [] = true
starts_with [] (b ∷ p) = false
starts_with (a ∷ s) (b ∷ p) = a == b && starts_with s p

-- `p in s`
unfoldable pub contains : Text → Text → Bool
unfolding starts_with
contains [] p = starts_with [] p
contains (a ∷ s) p = starts_with (a ∷ s) p || contains s p

-- `s.endswith(p)`
unfoldable pub ends_with : Text → Text → Bool
unfolding starts_with
ends_with s p = starts_with (reverse s) (reverse p)

-- The ASCII white space that `str.strip` removes; the wider Unicode spaces are left out.
abbrev pub is_space : ℕ → Bool
is_space c = (leb 9 c && leb c 13) || (leb 28 c && leb c 32)

unfoldable pub strip_left : Text → Text
strip_left [] = []
strip_left (c ∷ s) = if is_space c then strip_left s else c ∷ s

-- `s.strip()`
unfoldable pub strip : Text → Text
unfolding strip_left
strip s = reverse (strip_left (reverse (strip_left s)))

-- `s.lower()`, on ASCII letters
abbrev pub lower_code : ℕ → ℕ
lower_code c = if leb 65 c && leb c 90 then c + 32 else c

unfoldable pub lower : Text → Text
lower [] = []
lower (c ∷ s) = lower_code c ∷ lower s

unfoldable pub replace_from : (old new : Text) (skip : ℕ) → Text → Text
unfolding starts_with
replace_from old new skip [] = []
replace_from old new (suc skip) (c ∷ s) = replace_from old new skip s
replace_from old new zero (c ∷ s) = elim (starts_with (c ∷ s) old) [
  | true ↦ new ++ replace_from old new (length old - 1) s
  | false ↦ c ∷ replace_from old new 0 s
]

-- `s.replace(old, new)`, for an `old` that is not empty
unfoldable pub replace : (old new : Text) → Text → Text
unfolding replace_from
replace old new s = replace_from old new 0 s

strip_char_left : ℕ → Text → Text
strip_char_left d [] = []
strip_char_left d (c ∷ s) = if c == d then strip_char_left d s else c ∷ s

-- `s.strip(c)` of one character
unfoldable pub strip_char : ℕ → Text → Text
unfolding strip_char_left
strip_char d s = reverse (strip_char_left d (reverse (strip_char_left d s)))

unfoldable pub digits_from : (fuel n : ℕ) → Text → Text
digits_from zero n s = s
digits_from (suc f) n s =
    let s' = (48 + n % 10) ∷ s in
    let rest = digits_from f (n / 10) s' in if ltb n 10 then s' else rest

-- `str(n)`; a number has no more digits than its successor
unfoldable pub decimal : ℕ → Text
unfolding digits_from
decimal n = digits_from (suc n) n []

abbrev pub hex_digit : ℕ → ℕ
hex_digit d = if ltb d 10 then 48 + d else 87 + d

-- the last `k` hexadecimal digits of `n`
unfoldable pub hex : ℕ → ℕ → Text
hex zero n = []
hex (suc k) n = hex k (n / 16) ++ hex_digit (n % 16) ∷ []

-- `str(uuid)` of a UUID that is given as its number
unfoldable pub uuid_text : ℕ → Text
unfolding hex
uuid_text n =
    hex 8 (n / 2 ^ 96)
    ++ (45 ∷ hex 4 (n / 2 ^ 80))
    ++ (45 ∷ hex 4 (n / 2 ^ 64))
    ++ (45 ∷ hex 4 (n / 2 ^ 48))
    ++ (45 ∷ hex 12 n)

-- `sep.join(parts)`
unfoldable pub join : Text → List Text → Text
join sep [] = []
join sep (s ∷ []) = s
join sep (s ∷ (t ∷ r)) = s ++ sep ++ join sep (t ∷ r)

after_from : ℕ → Text → Text → Text
after_from c best [] = best
after_from c best (d ∷ r) = after_from c (if d == c then r else best) r

-- the text after the last `c`, as `s.rsplit(c, 1)[-1]` and `s.split(c)[-1]` give it
unfoldable pub after_last : ℕ → Text → Text
unfolding after_from
after_last c s = after_from c s s

-- the text before the first `c`, as `s.split(c)[0]` gives it
unfoldable pub before_first : ℕ → Text → Text
before_first c [] = []
before_first c (d ∷ r) = if d == c then [] else d ∷ before_first c r

-- `truthy` of an optional text: neither `None` nor empty
abbrev pub is_set : Option Text → Bool
is_set none = false
is_set (some []) = false
is_set (some (c ∷ s)) = true

-- `s.rstrip()`
unfoldable pub strip_right : Text → Text
unfolding strip_left
strip_right s = reverse (strip_left (reverse s))

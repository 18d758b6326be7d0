-- ===== src/Ai/Patch.antt =====
-- `parse_changed_lines`: the lines of the new file that a unified diff touches. Digits are ASCII.
pub mod Hunks
use revix.Prelude.{
  ℕ, zero, suc, ◌+◌, ◌-◌, ◌*◌, Text, codes, Bool, true, false, ◌&&◌, ◌||◌, Option, none, some, List,
  [], ◌∷◌, ◌++◌, arith, reverse, ltb, leb, ◌==◌, if◌then◌else◌, starts_with, drop, length,
}

-- the line breaks of `str.splitlines`
abbrev pub is_break : ℕ → Bool
is_break c = (leb 10 c && leb c 13) || (leb 28 c && leb c 30) || c == 133 || c == 8232 || c == 8233

abbrev pub last_line : Text → List Text
last_line [] = []
last_line (c ∷ s) = reverse (c ∷ s) ∷ []

-- `cur` is the line so far, backwards; after a carriage return a line feed is skipped
unfoldable pub lines_from : (after_cr : Bool) (cur : Text) → Text → List Text
lines_from cr cur [] = last_line cur
lines_from cr cur (c ∷ s) = elim (cr && c == 10) [
  | true ↦ lines_from false cur s
  | false ↦ elim (is_break c) [
    | true ↦ reverse cur ∷ lines_from (c == 13) [] s
    | false ↦ lines_from false (c ∷ cur) s
  ]
]

-- `s.splitlines()`
unfoldable pub splitlines : Text → List Text
unfolding lines_from
splitlines s = lines_from false [] s

abbrev pub is_digit : ℕ → Bool
is_digit c = leb 48 c && leb c 57

-- the digits at the front, read as a number on top of `acc`, and the rest
unfoldable pub digits : (acc : ℕ) → Text → ℕ × Text
digits acc [] = (acc, [])
digits acc (c ∷ s) =
    let rest = digits (acc * 10 + (c - 48)) s in if is_digit c then rest else (acc, c ∷ s)

-- `\d+`
unfoldable pub number : Text → Option (ℕ × Text)
unfolding digits
number [] = none
number (c ∷ s) = if is_digit c then some (digits 0 (c ∷ s)) else none

abbrev after : Text → Text → Option Text
after p s = if starts_with s p then some (drop (length p) s) else none

infixl 5 ◌>>=◌
abbrev ◌>>=◌ : {A B : Type 0} → Option A → (A → Option B) → Option B
none >>= f = none
some a >>= f = f a

-- `(?:,\d+)?`
unfoldable pub skip_count : Text → Option Text
unfolding number
skip_count [] = some []
skip_count (c ∷ s) = if c == 44 then (number s >>= λ r. some r.1) else some (c ∷ s)

-- HUNK_HEADER_RE, and the number of its first group
unfoldable pub hunk_header : Text → Option ℕ
unfolding skip_count starts_with
hunk_header raw = do
  s ← after (codes "@@ -") raw
  old ← number s
  s' ← skip_count old.1
  t ← after (codes " +") s'
  new ← number t
  t' ← skip_count new.1
  end ← after (codes " @@") t'
  some new.0

-- a line that is no header: the next line number, and the numbers that it adds
unfoldable pub body_line : ℕ → Text → ℕ × List ℕ
body_line n [] = (n, [])
body_line n (c ∷ s) =
    if c == b'+'
    then (n + 1, n ∷ [])
    else if c == b'-'
    then (n, n ∷ [])
    else if c == b' '
    then (n + 1, [])
    else (n, [])

abbrev diff_line : Option ℕ → ℕ → Text → ℕ × List ℕ
diff_line (some start) n raw = (start, [])
diff_line none n raw = body_line n raw

-- The loop, at line number `n`. A Python set is the list of what was added to it.
unfoldable pub changed_from : ℕ → List Text → List ℕ
unfolding hunk_header body_line
changed_from n [] = []
changed_from n (raw ∷ rest) =
    let (n', new) = diff_line (hunk_header raw) n raw in new ++ changed_from n' rest

unfoldable pub parse_changed_lines : Text → List ℕ
unfolding splitlines changed_from
parse_changed_lines patch = changed_from 0 (splitlines patch)

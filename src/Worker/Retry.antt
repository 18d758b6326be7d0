-- ===== src/Worker/Retry.antt =====
-- `_retry_delay_for` and `_is_rate_limit`: what the worker reads off an exception.
pub mod Limits
use revix.Prelude.{
  ℕ, ◌+◌, ◌-◌, ◌*◌, max, Text, codes, text_eq, contains, lower, strip, is_set, Bool, ◌&&◌, ◌||◌,
  Option, none, some, List, [], ◌∷◌, ◌==◌, leb, if◌then◌else◌,
}
use revix.Prelude.Int.{ℤ, pos, ◌-ℤ◌, clip}
use revix.Effects.{Exception}

-- digits only, on top of `acc`; `int` also takes `_` between digits, which no header holds
int_digits : (acc : ℕ) → Text → Option ℕ
int_digits acc [] = some acc
int_digits acc (c ∷ s) =
    let rest = int_digits (acc * 10 + (c - 48)) s in if leb 48 c && leb c 57 then rest else none

unsigned : Text → Option ℕ
unfolding int_digits
unsigned [] = none
unsigned (c ∷ s) = int_digits 0 (c ∷ s)

abbrev negate : ℕ → ℤ
negate n = pos 0 -ℤ pos n

abbrev map_some : {A B : Type 0} → (A → B) → Option A → Option B
map_some f none = none
map_some f (some a) = some (f a)

signed : Text → Option ℤ
unfolding unsigned
signed [] = none
signed (c ∷ s) =
    if c == b'-'
    then map_some negate (unsigned s)
    else if c == b'+'
    then map_some pos (unsigned s)
    else map_some pos (unsigned (c ∷ s))

-- `int(text)`; `none` is a ValueError
unfoldable pub parse_int : Text → Option ℤ
unfolding signed strip
parse_int s = signed (strip s)

-- `headers.get(key)`
unfoldable pub header : Text → List (Text × Text) → Option Text
unfolding text_eq
header key [] = none
header key ((k, v) ∷ hs) = if text_eq (lower k) key then some v else header key hs

abbrev pub headers_of : Exception → List (Text × Text)
headers_of e = elim e.response [ none ↦ [] | some r ↦ r.headers ]

abbrev status_of : Exception → ℕ
status_of e = elim e.response [ none ↦ 0 | some r ↦ r.status_code ]

-- `int(value)` of a header that is there and not empty
unfoldable pub header_int : Text → List (Text × Text) → Option ℤ
unfolding parse_int header
header_int key hs = elim (header key hs) [
  | none ↦ none
  | some v ↦ if is_set (some v) then parse_int v else none
]

unfoldable pub backoff : (attempt_count : ℕ) → ℕ
backoff n = max 60 (60 * max n 1)

abbrev reset_delay : Option ℤ → (now otherwise : ℕ) → ℕ
reset_delay none now d = d
reset_delay (some t) now d = clip (t -ℤ pos now)

abbrev delay_by : Option ℤ → ℕ → ℕ
delay_by none d = d
delay_by (some t) d = clip t

-- The delay is never negative. With no header that reads as a number it is the backoff.
unfoldable pub retry_delay_for : (now : ℕ) → Exception → (attempt_count : ℕ) → ℕ
unfolding header_int backoff
retry_delay_for now e n =
    delay_by (header_int (codes "retry-after") (headers_of e))
      (reset_delay (header_int (codes "x-ratelimit-reset") (headers_of e)) now (backoff n))

unfoldable pub is_rate_limit : Exception → Bool
unfolding contains lower
is_rate_limit e =
    status_of e == 429
    || contains e.text (codes "429")
    || contains (lower e.text) (codes "rate_limit")

-- ===== src/Github/Comments.antt =====
-- `_truncate` and `_format_review_comment`: what a comment may look like that is sent to GitHub.
pub mod Format
use revix.Prelude.{
  ℕ, ◌-◌, Text, codes, text_eq, strip, Json, get_key, Bool, true, false, not, ◌||◌, Option, none,
  some, List, [], ◌∷◌, ◌++◌, length, take, leb, if◌then◌else◌,
}
use revix.Prelude.Int.{pos, negsuc}

abbrev pub max_payload_size : ℕ
max_payload_size = 60000

abbrev pub max_comment_body_size : ℕ
max_comment_body_size = 8000

-- what marks a text that was cut: two line feeds and a sentence
abbrev pub marker : Text
marker = 10 ∷ 10 ∷ codes "[Revix truncated this message to fit GitHub API limits.]"

unfoldable pub truncate : Text → (limit : ℕ) → Text
truncate value limit =
    if leb (length value) limit then value else take (limit - length marker) value ++ marker

-- a review comment as GitHub takes it
pub record Comment : Type 0 where
  pub path : Text
  pub line : ℕ
  pub side : Text
  pub body : Text

abbrev is_blank : Text → Bool
is_blank [] = true
is_blank (c ∷ s) = false

-- `isinstance(v, str) and v.strip()`: the text, if it is one that is not blank
unfoldable pub text_of : Option Json → Option Text
unfolding strip
text_of (some (Json.str s)) = if is_blank (strip s) then none else some s
text_of _ = none

abbrev pub at_least_one : ℕ → Option ℕ
at_least_one n = if leb 1 n then some n else none

-- `isinstance(v, int) and v >= 1`; a Python bool is an int
unfoldable pub line_of : Option Json → Option ℕ
line_of (some (Json.num (pos n))) = at_least_one n
line_of (some (Json.bool true)) = some 1
line_of _ = none

-- `side`, or "RIGHT" where it is neither of the two
unfoldable pub side_of : Option Json → Text
unfolding text_eq
side_of (some (Json.str s)) = if text_eq s (codes "LEFT") then s else codes "RIGHT"
side_of _ = codes "RIGHT"

-- the comment of a path, a line and a body, where there are all three
unfoldable pub comment_of : Option Text → Option ℕ → Option Text → (side : Text) → Option Comment
unfolding truncate
comment_of (some path) (some line) (some body) side =
    some
      (record { path = path; line = line; side = side; body = truncate body max_comment_body_size })
comment_of _ _ _ side = none

unfoldable pub format_review_comment : Json → Option Comment
unfolding text_of line_of side_of comment_of
format_review_comment c =
    comment_of (text_of (get_key (codes "path") c)) (line_of (get_key (codes "line") c))
      (text_of (get_key (codes "body") c)) (side_of (get_key (codes "side") c))

abbrev pub add_some : Option Comment → List Comment → List Comment
add_some none ks = ks
add_some (some k) ks = k ∷ ks

-- the comments that are sent; the others are skipped
unfoldable pub format_comments : List Json → List Comment
unfolding format_review_comment
format_comments [] = []
format_comments (c ∷ cs) = add_some (format_review_comment c) (format_comments cs)

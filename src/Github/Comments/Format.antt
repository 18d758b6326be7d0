-- ===== src/Github/Comments/Format.antt =====
-- What `_truncate` and `_format_review_comment` promise of the texts that go to GitHub.
use revix.Prelude.{
  ℕ, some_inj, ◌-◌, ◌≤◌, Text, codes, text_eq, text_eq_iff, strip, Json, get_key, ◌≡◌, refl, sym,
  subst, ◌≢◌, ◌⊎◌, inl, inr, true, Option, none, some, List, [], ◌∷◌, arith, length, length-append,
  length-take, take, leb, Bool-cases, All,
}
use revix.Prelude.Int.{pos}
use revix.Github.Comments.{
  max_comment_body_size, marker, truncate, Comment, text_of, line_of, at_least_one, side_of,
  comment_of, add_some, format_review_comment, format_comments,
}

-- A truncated text keeps to a limit that is large enough for the marker.
pub truncate-le :
    (value : Text) (limit : ℕ) → length marker ≤ limit → length (truncate value limit) ≤ limit
unfolding truncate
truncate-le value limit room = elim (Bool-cases (leb (length value) limit)) [
  | inl e ↦ rw e (ground arith)
  | inr e ↦ rw e (
      omega (
        arith,
        length-append (take (limit - length marker) value) marker,
        length-take (limit - length marker) value,
        room,
      ))
]

-- a comment that GitHub takes
pub record IsPostable (c : Comment) : Type 0 where
  pub located : strip c.path ≢ []
  pub lined : 1 ≤ c.line
  pub sided : (c.side ≡ codes "LEFT") ⊎ (c.side ≡ codes "RIGHT")
  pub short : length c.body ≤ max_comment_body_size

text_of-set : (v : Option Json) (s : Text) → text_of v ≡ some s → strip s ≢ []
unfolding text_of
text_of-set (some (Json.str t)) s e = go (strip t) refl
  where
    go : (r : Text) → strip t ≡ r → strip s ≢ []
    go [] same = cc (rw same at e)
    go (c ∷ r) same = cc (same, rw same at e)
text_of-set _ s e = cc e

at_least_one-le : (m n : ℕ) → at_least_one m ≡ some n → 1 ≤ n
at_least_one-le m n e = elim (Bool-cases (leb 1 m)) [
  | inl le ↦ let same : m ≡ n = some_inj (rw le at e) in rw (sym same) (ground arith)
  | inr gt ↦ absurd (cc (rw gt at e))
]

line_of-le : (v : Option Json) (n : ℕ) → line_of v ≡ some n → 1 ≤ n
unfolding line_of
line_of-le (some (Json.num (pos m))) n e = at_least_one-le m n e
line_of-le (some (Json.bool true)) n e = rw (sym (some_inj e)) (omega arith)
line_of-le _ n e = cc e

side_of-cases : (v : Option Json) → (side_of v ≡ codes "LEFT") ⊎ (side_of v ≡ codes "RIGHT")
unfolding side_of
side_of-cases (some (Json.str s)) = elim (Bool-cases (text_eq s (codes "LEFT"))) [
  | inl e ↦ inl (rw e ((text_eq_iff _ _).0 e))
  | inr e ↦ inr (rw e refl)
]
side_of-cases _ = inr refl

comment_of-IsPostable :
    (p : Option Text) (l : Option ℕ) (b : Option Text) (side : Text) (k : Comment)
    → ((s : Text) → p ≡ some s → strip s ≢ [])
    → ((n : ℕ) → l ≡ some n → 1 ≤ n)
    → (side ≡ codes "LEFT") ⊎ (side ≡ codes "RIGHT")
    → comment_of p l b side ≡ some k
    → IsPostable k
unfolding comment_of
comment_of-IsPostable none l b side k hp hl hs e = cc e
comment_of-IsPostable (some path) none b side k hp hl hs e = cc e
comment_of-IsPostable (some path) (some line) none side k hp hl hs e = cc e
comment_of-IsPostable (some path) (some line) (some body) side k hp hl hs e =
    subst IsPostable (some_inj e) (record {
      located = hp path refl;
      lined = hl line refl;
      sided = hs;
      short = truncate-le body max_comment_body_size (omega arith);
    })

format_review_comment-IsPostable :
    (c : Json) (k : Comment) → format_review_comment c ≡ some k → IsPostable k
unfolding format_review_comment
format_review_comment-IsPostable c k =
    comment_of-IsPostable _ _ _ _ k (text_of-set (get_key (codes "path") c))
      (line_of-le (get_key (codes "line") c)) (side_of-cases (get_key (codes "side") c))

add_some-IsPostable :
    (o : Option Comment) (ks : List Comment)
    → ((k : Comment) → o ≡ some k → IsPostable k)
    → All IsPostable ks
    → All IsPostable (add_some o ks)
add_some-IsPostable none ks h hs = hs
add_some-IsPostable (some k) ks h hs = (h k refl, hs)

-- Every comment that is kept for GitHub has a path that is not blank, a line of at least 1, the
-- side LEFT or RIGHT, and a body of at most 8000 characters, whatever values the given comments
-- hold.
pub format_comments-IsPostable : (cs : List Json) → All IsPostable (format_comments cs)
unfolding format_comments
format_comments-IsPostable [] = tt
format_comments-IsPostable (c ∷ cs) =
    add_some-IsPostable (format_review_comment c) (format_comments cs)
      (format_review_comment-IsPostable c) (format_comments-IsPostable cs)

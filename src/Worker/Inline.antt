-- ===== src/Worker/Inline.antt =====
-- `_select_inline_comments`: which findings become inline comments.
pub mod Severity
pub mod Selected
use revix.Prelude.{
  ℕ, ◌+◌, ◌-◌, Text, codes, text_eq, strip, is_set, Bool, true, false, not, ◌&&◌, ◌||◌, Option,
  none, some, List, [], ◌∷◌, ◌++◌, any, length, ltb, leb, ◌==◌, if◌then◌else◌, sort, select_where,
}
use revix.Config.{Settings}
use revix.Ai.Review.{ReviewComment}

-- `SEVERITY_RANK.get(severity, default)`
unfoldable pub severity_rank : (default : ℕ) → Text → ℕ
unfolding text_eq
severity_rank d s =
    if text_eq s (codes "INFO")
    then 0
    else if text_eq s (codes "WARNING")
    then 1
    else if text_eq s (codes "CRITICAL")
    then 2
    else d

unfoldable pub is_severe : Settings → ReviewComment → Bool
unfolding severity_rank
is_severe settings c =
    leb (severity_rank 1 settings.review_min_inline_severity) (severity_rank 0 c.severity)

-- `getattr(c, "suggested_fix", None) and str(c.suggested_fix).strip()`
unfoldable pub has_fix : Option Text → Bool
unfolding strip
has_fix none = false
has_fix (some s) = is_set (some (strip s))

abbrev fix_rank : ReviewComment → ℕ
fix_rank c = if has_fix c.suggested_fix then 1 else 0

-- The sort key of `a` is greater: severity, then a fix, then the shorter text.
unfoldable pub ranks_above : ReviewComment → ReviewComment → Bool
unfolding severity_rank has_fix
ranks_above a b =
    let ra = severity_rank 0 a.severity in
    let rb = severity_rank 0 b.severity in
    ltb rb ra
    || (ra == rb
        && (ltb (fix_rank b) (fix_rank a)
            || (fix_rank a == fix_rank b && ltb (length a.body) (length b.body))))

-- in the same file, at most five lines apart
unfoldable pub is_close : ReviewComment → ReviewComment → Bool
unfolding text_eq
is_close c s = text_eq s.path c.path && leb (s.line - c.line + (c.line - s.line)) 5

-- The loop. The test on the length stands at the end of its body, after the append.
unfoldable pub pick :
    (max_comments : ℕ) → List ReviewComment → List ReviewComment → List ReviewComment
unfolding is_close
pick n selected [] = selected
pick n selected (c ∷ cs) =
    let next = if any (is_close c) selected then selected else selected ++ c ∷ [] in
    let rest = pick n next cs in if leb n (length next) then next else rest

unfoldable pub candidates : Settings → List ReviewComment → List ReviewComment
unfolding is_severe ranks_above sort select_where
candidates settings cs = sort ranks_above (select_where (is_severe settings) cs)

unfoldable pub select_inline_comments : Settings → List ReviewComment → List ReviewComment
unfolding candidates pick
select_inline_comments settings cs =
    pick settings.review_max_inline_comments [] (candidates settings cs)

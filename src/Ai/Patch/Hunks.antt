-- ===== src/Ai/Patch/Hunks.antt =====
-- `parse_changed_lines` on the diffs that `git` writes, against where their lines land.
use revix.Prelude.{
  ℕ, zero, suc, ◌+◌, ◌-◌, ◌*◌, ◌/◌, ◌%◌, ◌<◌, Text, codes, decimal, digits_from, ◌≡◌, refl, ◌∙◌, ap,
  inl, inr, true, false, some, List, [], ◌∷◌, ◌++◌, reverse, map, arith, All, All-append, ltb,
  Bool-cases,
}
use mathlib.Core.List.{append_assoc, append-nil, reverse-append}
use revix.Ai.Patch.{
  is_break, lines_from, splitlines, is_digit, digits, number, hunk_header, changed_from,
  parse_changed_lines,
}

-- the lines of a hunk, without their markers
pub data DiffLine : Type 0 where
  added removed context : Text → DiffLine

abbrev pub render : DiffLine → Text
render (DiffLine.added s) = b'+' ∷ s
render (DiffLine.removed s) = b'-' ∷ s
render (DiffLine.context s) = b' ' ∷ s

-- Where the lines of a hunk that starts at line `n` of the new file touch that file: an added line
-- where it stands, a removed one at the line that follows it.
abbrev pub touched_lines : ℕ → List DiffLine → List ℕ
touched_lines n [] = []
touched_lines n (DiffLine.added s ∷ ls) = n ∷ touched_lines (n + 1) ls
touched_lines n (DiffLine.removed s ∷ ls) = n ∷ touched_lines n ls
touched_lines n (DiffLine.context s ∷ ls) = touched_lines (n + 1) ls

abbrev pub end_line : ℕ → List DiffLine → ℕ
end_line n [] = n
end_line n (DiffLine.removed s ∷ ls) = end_line n ls
end_line n (_ ∷ ls) = end_line (n + 1) ls

pub record Hunk : Type 0 where
  pub old_start : ℕ
  pub old_count : ℕ
  pub new_start : ℕ
  pub new_count : ℕ
  pub lines : List DiffLine

-- `@@ -a,b +c,d @@`
abbrev pub header_text : Hunk → Text
header_text h =
    codes "@@ -"
    ++ (decimal h.old_start
        ++ (44
            ∷ (decimal h.old_count
                ++ (codes " +"
                    ++ (decimal h.new_start ++ (44 ∷ (decimal h.new_count ++ codes " @@")))))))

abbrev pub hunk_lines : Hunk → List Text
hunk_lines h = header_text h ∷ map render h.lines

abbrev pub diff_lines : List Hunk → List Text
diff_lines [] = []
diff_lines (h ∷ hs) = hunk_lines h ++ diff_lines hs

abbrev pub touched_by : List Hunk → List ℕ
touched_by [] = []
touched_by (h ∷ hs) = touched_lines h.new_start h.lines ++ touched_by hs

digit_code : (d : ℕ) → d < 10 → is_digit (48 + d) ≡ true
digit_code d h = ground arith

digits-cons : (acc d : ℕ) (s : Text) → d < 10 → digits acc ((48 + d) ∷ s) ≡ digits (acc * 10 + d) s
unfolding digits
digits-cons acc d s h = let e : 48 + d - 48 ≡ d = omega arith in rw (digit_code d h, e) refl

-- What `digits` makes of a printed number and what follows it.
digits-digits_from : (f n : ℕ) (s : Text) → n < f → digits 0 (digits_from f n s) ≡ digits n s
unfolding digits_from
digits-digits_from zero n s h = elim h [ ]
digits-digits_from (suc f) n s h = elim (Bool-cases (ltb n 10)) [
  | inl e ↦
      rw e (digits-cons 0 (n % 10) s (omega arith) ∙ ap (λ k. digits k s) (small (ground arith)))
  | inr e ↦ rw e (
      digits-digits_from f (n / 10) _ (ground arith)
      ∙ digits-cons (n / 10) (n % 10) s (omega arith)
      ∙ ap (λ k. digits k s) (omega arith))
]
  where
    small : n < 10 → 0 * 10 + n % 10 ≡ n
    small h' = omega arith

digits_from-append : (f n : ℕ) (s t : Text) → digits_from f n s ++ t ≡ digits_from f n (s ++ t)
unfolding digits_from
digits_from-append zero n s t = refl
digits_from-append (suc f) n s t = elim (Bool-cases (ltb n 10)) [
  | inl e ↦ rw e refl
  | inr e ↦ rw e (digits_from-append f (n / 10) _ t)
]

number-cons : (c : ℕ) (s : Text) → is_digit c ≡ true → number (c ∷ s) ≡ some (digits 0 (c ∷ s))
unfolding number
number-cons c s h = rw h refl

number-digits_from :
    (f n c : ℕ) (s : Text)
    → is_digit c ≡ true
    → number (digits_from f n (c ∷ s)) ≡ some (digits 0 (digits_from f n (c ∷ s)))
unfolding digits_from
number-digits_from zero n c s h = number-cons c s h
number-digits_from (suc f) n c s h = elim (Bool-cases (ltb n 10)) [
  | inl e ↦ rw e (number-cons _ _ (digit_code (n % 10) (omega arith)))
  | inr e ↦ rw e (number-digits_from f (n / 10) _ _ (digit_code (n % 10) (omega arith)))
]

digits-stop : (n c : ℕ) (s : Text) → is_digit c ≡ false → digits n (c ∷ s) ≡ (n, c ∷ s)
unfolding digits
digits-stop n c s h = rw h refl

-- Printing a number and reading it back, up to a character that is no digit.
pub number-decimal :
    (n c : ℕ) (s : Text) → is_digit c ≡ false → number (decimal n ++ (c ∷ s)) ≡ some (n, c ∷ s)
unfolding decimal
number-decimal n c s h =
    ap number (digits_from-append (suc n) n [] (c ∷ s))
    ∙ read (suc n) n (c ∷ s) (omega arith)
    ∙ ap some (digits-digits_from (suc n) n (c ∷ s) (omega arith) ∙ digits-stop n c s h)
  where
    read :
        (f n : ℕ) (s : Text)
        → n < f
        → number (digits_from f n s) ≡ some (digits 0 (digits_from f n s))
    read zero n s h = elim h [ ]
    read (suc f) n s h = elim (Bool-cases (ltb n 10)) [
      | inl e ↦ rw e (number-cons _ _ (digit_code (n % 10) (omega arith)))
      | inr e ↦ rw e (number-digits_from f (n / 10) _ _ (digit_code (n % 10) (omega arith)))
    ]

hunk_header-header_text : (h : Hunk) → hunk_header (header_text h) ≡ some h.new_start
unfolding hunk_header
hunk_header-header_text h = simp number-decimal

changed_from-render :
    (n : ℕ) (ls : List DiffLine) (rest : List Text)
    → changed_from n (map render ls ++ rest)
      ≡ touched_lines n ls ++ changed_from (end_line n ls) rest
unfolding changed_from
changed_from-render n [] rest = refl
changed_from-render n (DiffLine.added s ∷ ls) rest =
    ap (λ t. n ∷ t) (changed_from-render (n + 1) ls rest)
changed_from-render n (DiffLine.removed s ∷ ls) rest =
    ap (λ t. n ∷ t) (changed_from-render n ls rest)
changed_from-render n (DiffLine.context s ∷ ls) rest = changed_from-render (n + 1) ls rest

changed_from-header :
    (n : ℕ) (h : Hunk) (rest : List Text)
    → changed_from n (header_text h ∷ rest) ≡ changed_from h.new_start rest
unfolding changed_from
changed_from-header n h rest = rw (hunk_header-header_text h) refl

-- On the lines of hunks, whatever the line number before them.
changed_from-diff_lines : (n : ℕ) (hs : List Hunk) → changed_from n (diff_lines hs) ≡ touched_by hs
unfolding changed_from
changed_from-diff_lines n [] = refl
changed_from-diff_lines n (h ∷ hs) =
    changed_from-header n h (map render h.lines ++ diff_lines hs)
    ∙ changed_from-render h.new_start h.lines (diff_lines hs)
    ∙ ap (λ t. touched_lines h.new_start h.lines ++ t)
        (changed_from-diff_lines (end_line h.new_start h.lines) hs)

-- a text without line breaks
abbrev pub IsLine : Text → Type 0
IsLine = All (λ c. is_break c ≡ false)

abbrev pub content : DiffLine → Text
content (DiffLine.added s) = s
content (DiffLine.removed s) = s
content (DiffLine.context s) = s

-- each line with its line feed
abbrev pub unlines : List Text → Text
unlines [] = []
unlines (l ∷ ls) = l ++ (10 ∷ unlines ls)

lines_from-append :
    (cur l rest : Text)
    → IsLine l
    → lines_from false cur (l ++ (10 ∷ rest)) ≡ (reverse cur ++ l) ∷ lines_from false [] rest
unfolding lines_from
lines_from-append cur [] rest h = rw append-nil refl
lines_from-append cur (c ∷ l) rest h =
    rw (h.0, lines_from)
      (lines_from-append (c ∷ cur) l rest h.1
        ∙ ap (λ t. t ∷ lines_from false [] rest)
            (ap (λ t. t ++ l) (reverse-append (c ∷ []) cur)
              ∙ append_assoc (reverse cur) (c ∷ []) l))

splitlines-unlines : (ls : List Text) → All IsLine ls → splitlines (unlines ls) ≡ ls
unfolding splitlines
splitlines-unlines [] h = refl
splitlines-unlines (l ∷ ls) h =
    lines_from-append [] l (unlines ls) h.0 ∙ ap (λ t. l ∷ t) (splitlines-unlines ls h.1)

decimal-IsLine : (n : ℕ) → IsLine (decimal n)
unfolding decimal digits_from
decimal-IsLine n = go (suc n) n [] tt
  where
    go : (f n : ℕ) (s : Text) → IsLine s → IsLine (digits_from f n s)
    go zero n s h = h
    go (suc f) n s h = elim (Bool-cases (ltb n 10)) [
      | inl e ↦ rw e (ground arith, h)
      | inr e ↦ rw e (go f (n / 10) _ (ground arith, h))
    ]

header_text-IsLine : (h : Hunk) → IsLine (header_text h)
header_text-IsLine h =
    let end = number_then h.new_count (codes " @@") (refl, (refl, (refl, tt))) in
    let new = number_then h.new_start _ (refl, end) in
    let old = number_then h.old_count _ (refl, (refl, new)) in
    (refl, (refl, (refl, (refl, number_then h.old_start _ (refl, old)))))
  where
    number_then : (n : ℕ) (s : Text) → IsLine s → IsLine (decimal n ++ s)
    number_then n s l = All-append _ (decimal n) s (decimal-IsLine n) l

render-IsLine : (l : DiffLine) → IsLine (content l) → IsLine (render l)
render-IsLine (DiffLine.added s) h = (refl, h)
render-IsLine (DiffLine.removed s) h = (refl, h)
render-IsLine (DiffLine.context s) h = (refl, h)

diff_lines-IsLine :
    (hs : List Hunk)
    → All (λ (h : Hunk). All (λ l. IsLine (content l)) h.lines) hs
    → All IsLine (diff_lines hs)
diff_lines-IsLine [] c = tt
diff_lines-IsLine (h ∷ hs) c = (
  header_text-IsLine h,
  All-append IsLine (map render h.lines) (diff_lines hs) (rendered h.lines c.0)
      (diff_lines-IsLine hs c.1),
)
  where
    rendered : (ls : List DiffLine) → All (λ l. IsLine (content l)) ls → All IsLine (map render ls)
    rendered [] k = tt
    rendered (l ∷ ls) k = (render-IsLine l k.0, rendered ls k.1)

-- `parse_changed_lines` of the printed text of any hunks, whose lines hold no line breaks, gives
-- the lines that they touch: each added line where it stands in the new file, each removed line
-- at the line that follows it there, and no context line.
pub parse_changed_lines_lem :
    (hs : List Hunk)
    → All (λ (h : Hunk). All (λ l. IsLine (content l)) h.lines) hs
    → parse_changed_lines (unlines (diff_lines hs)) ≡ touched_by hs
unfolding parse_changed_lines
parse_changed_lines_lem hs c =
    ap (changed_from 0) (splitlines-unlines (diff_lines hs) (diff_lines-IsLine hs c))
    ∙ changed_from-diff_lines 0 hs

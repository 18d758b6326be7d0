-- ===== src/Worker/Inline/Selected.antt =====
-- What `_select_inline_comments` promises of the comments that it keeps, and of those that it drops.
use revix.Prelude.{
  text_eq, ◌&&◌, ◌-◌, All-sort_inv, Memᴰ, ℕ, ◌+◌, ◌≤◌, max, text_eq_iff, ◌≡◌, refl, sym, subst, ◌⊎◌,
  inl, inr, Bool, true, false, List, [], ◌∷◌, ◌++◌, arith, any, length, length-append, All,
  All-append, All-sort, leb, if◌then◌else◌, Bool-cases, sort, select_where, any-append_left,
}
use revix.Config.{Settings}
use revix.Ai.Review.{ReviewComment}
use revix.Worker.Inline.Severity.{IsSevere, is_at_least-IsSevere, IsSevere-is_at_least}
use revix.Worker.Inline.{is_severe, ranks_above, is_close, pick, candidates, select_inline_comments}

-- in one file, at most five lines apart
abbrev pub are_near : ReviewComment → ReviewComment → Bool
are_near c d = text_eq d.path c.path && leb (d.line - c.line + (c.line - d.line)) 5

-- no two of them near to one another: a later one keeps away from all before it
abbrev pub Apart : (ReviewComment → ReviewComment → Bool) → List ReviewComment → Type 0
Apart near [] = Unit
Apart near (c ∷ cs) = All (λ d. near d c ≡ false) cs × Apart near cs

Apart-snoc :
    (cs : List ReviewComment) (d : ReviewComment)
    → Apart is_close cs
    → any (is_close d) cs ≡ false
    → Apart is_close (cs ++ d ∷ [])
Apart-snoc [] d h e = (tt, tt)
Apart-snoc (c ∷ cs) d h e = (
  All-append (λ x. is_close x c ≡ false) cs (d ∷ []) h.0 (ground arith, tt),
  Apart-snoc cs d h.1 (ground arith),
)

-- the list after one comment
abbrev next_of : List ReviewComment → ReviewComment → List ReviewComment
next_of kept c = if any (is_close c) kept then kept else kept ++ c ∷ []

is_close_refl : (c : ReviewComment) → is_close c c ≡ true
unfolding is_close
is_close_refl c = ground (arith, text_eq_iff c.path c.path)

any-snoc :
    (p : ReviewComment → Bool) (xs : List ReviewComment) (x : ReviewComment)
    → p x ≡ true
    → any p (xs ++ x ∷ []) ≡ true
any-snoc p [] x h = ground arith
any-snoc p (y ∷ ys) x h = ground (arith, any-snoc p ys x h)

next_of-Apart :
    (kept : List ReviewComment) (c : ReviewComment)
    → Apart is_close kept
    → Apart is_close (next_of kept c)
next_of-Apart kept c h = elim (Bool-cases (any (is_close c) kept)) [
  | inl e ↦ rw e h
  | inr e ↦ rw e (Apart-snoc kept c h e)
]

next_of-length :
    (kept : List ReviewComment) (c : ReviewComment) → length (next_of kept c) ≤ length kept + 1
next_of-length kept c = elim (Bool-cases (any (is_close c) kept)) [
  | inl e ↦ rw e (omega arith)
  | inr e ↦ rw e (omega (arith, length-append kept (c ∷ [])))
]

next_of-All :
    (P : ReviewComment → Type 0) (kept : List ReviewComment) (c : ReviewComment)
    → P c
    → All P kept
    → All P (next_of kept c)
next_of-All P kept c p h = elim (Bool-cases (any (is_close c) kept)) [
  | inl e ↦ rw e h
  | inr e ↦ rw e (All-append P kept (c ∷ []) h (p, tt))
]

next_of-close :
    (kept : List ReviewComment) (c : ReviewComment) → any (is_close c) (next_of kept c) ≡ true
next_of-close kept c = elim (Bool-cases (any (is_close c) kept)) [
  | inl e ↦ rw e e
  | inr e ↦ rw e (any-snoc (is_close c) kept c (is_close_refl c))
]

next_of-any :
    (q : ReviewComment → Bool) (kept : List ReviewComment) (c : ReviewComment)
    → any q kept ≡ true
    → any q (next_of kept c) ≡ true
next_of-any q kept c h = elim (Bool-cases (any (is_close c) kept)) [
  | inl e ↦ rw e h
  | inr e ↦ rw e (any-append_left q kept (c ∷ []) h)
]

-- The loop stops or goes on by the length; a proof for both.
module _ (n : ℕ) where
  pick-stop :
      (kept : List ReviewComment) (c : ReviewComment) (cs : List ReviewComment)
      → leb n (length (next_of kept c)) ≡ true
      → pick n kept (c ∷ cs) ≡ next_of kept c
  unfolding pick
  pick-stop kept c cs e = rw e refl

  pick-go :
      (kept : List ReviewComment) (c : ReviewComment) (cs : List ReviewComment)
      → leb n (length (next_of kept c)) ≡ false
      → pick n kept (c ∷ cs) ≡ pick n (next_of kept c) cs
  unfolding pick
  pick-go kept c cs e = rw e refl

  pick-Apart :
      (kept cs : List ReviewComment) → Apart is_close kept → Apart is_close (pick n kept cs)
  unfolding pick
  pick-Apart kept [] h = h
  pick-Apart kept (c ∷ cs) h = elim (Bool-cases (leb n (length (next_of kept c)))) [
    | inl e ↦ subst (Apart is_close) (sym (pick-stop kept c cs e)) (next_of-Apart kept c h)
    | inr e ↦
        subst (Apart is_close) (sym (pick-go kept c cs e))
          (pick-Apart (next_of kept c) cs (next_of-Apart kept c h))
  ]

  pick-All :
      (P : ReviewComment → Type 0) (kept cs : List ReviewComment)
      → All P kept
      → All P cs
      → All P (pick n kept cs)
  unfolding pick
  pick-All P kept [] h k = h
  pick-All P kept (c ∷ cs) h k = elim (Bool-cases (leb n (length (next_of kept c)))) [
    | inl e ↦ subst (All P) (sym (pick-stop kept c cs e)) (next_of-All P kept c k.0 h)
    | inr e ↦
        subst (All P) (sym (pick-go kept c cs e))
          (pick-All P (next_of kept c) cs (next_of-All P kept c k.0 h) k.1)
  ]

  pick-length :
      (kept cs : List ReviewComment) → length kept + 1 ≤ max n 1 → length (pick n kept cs) ≤ max n 1
  unfolding pick
  pick-length kept [] h = omega arith
  pick-length kept (c ∷ cs) h = elim (Bool-cases (leb n (length (next_of kept c)))) [
    | inl e ↦ rw (pick-stop kept c cs e) (omega (arith, next_of-length kept c))
    | inr e ↦ rw (pick-go kept c cs e) (pick-length (next_of kept c) cs (ground arith))
  ]

  pick-any :
      (q : ReviewComment → Bool) (kept cs : List ReviewComment)
      → any q kept ≡ true
      → any q (pick n kept cs) ≡ true
  unfolding pick
  pick-any q kept [] h = h
  pick-any q kept (c ∷ cs) h = elim (Bool-cases (leb n (length (next_of kept c)))) [
    | inl e ↦ rw (pick-stop kept c cs e) (next_of-any q kept c h)
    | inr e ↦ rw (pick-go kept c cs e) (pick-any q (next_of kept c) cs (next_of-any q kept c h))
  ]

  -- A candidate is near to one that is kept (itself, if it is kept), or the budget is full.
  abbrev pub Decided :
      (ReviewComment → ReviewComment → Bool) → List ReviewComment → ReviewComment → Type 0
  Decided near kept c = (any (near c) kept ≡ true) ⊎ (n ≤ length kept)

  nothing_more : (kept cs : List ReviewComment) → n ≤ length kept → All (Decided is_close kept) cs
  nothing_more kept [] h = tt
  nothing_more kept (c ∷ cs) h = (inr h, nothing_more kept cs h)

  pick-Decided : (kept cs : List ReviewComment) → All (Decided is_close (pick n kept cs)) cs
  unfolding pick
  pick-Decided kept [] = tt
  pick-Decided kept (c ∷ cs) = elim (Bool-cases (leb n (length (next_of kept c)))) [
    | inl e ↦
        subst (λ l. All (Decided is_close l) (c ∷ cs)) (sym (pick-stop kept c cs e))
          (inl (next_of-close kept c), nothing_more (next_of kept c) cs (ground arith))
    | inr e ↦
        subst (λ l. All (Decided is_close l) (c ∷ cs)) (sym (pick-go kept c cs e))
          (
            inl (pick-any (is_close c) (next_of kept c) cs (next_of-close kept c)),
            pick-Decided (next_of kept c) cs,
          )
  ]

All-select_where :
    (P : ReviewComment → Type 0) (p : ReviewComment → Bool) (cs : List ReviewComment)
    → ((c : ReviewComment) → Memᴰ c cs → p c ≡ true → P c)
    → All P (select_where p cs)
unfolding select_where
All-select_where P p [] f = tt
All-select_where P p (c ∷ cs) f =
    let rest = All-select_where P p cs (λ d m. f d (Memᴰ.tail m)) in
    elim (Bool-cases (p c)) [ inl e ↦ rw e (f c (Memᴰ.head refl) e, rest) | inr e ↦ rw e rest ]

module _ (settings : Settings) where
  abbrev pub IsWanted : ReviewComment → Type 0
  IsWanted c = IsSevere settings.review_min_inline_severity c.severity

  is_severe-IsWanted : (c : ReviewComment) → is_severe settings c ≡ true → IsWanted c
  unfolding is_severe
  is_severe-IsWanted c h = is_at_least-IsSevere settings.review_min_inline_severity c.severity h

  IsWanted-is_severe : (c : ReviewComment) → IsWanted c → is_severe settings c ≡ true
  unfolding is_severe
  IsWanted-is_severe c h = IsSevere-is_at_least settings.review_min_inline_severity c.severity h

  -- A given comment is not severe enough, or decided.
  abbrev pub IsResolved : List ReviewComment → ReviewComment → Type 0
  IsResolved kept c = (¬ IsWanted c) ⊎ Decided settings.review_max_inline_comments are_near kept c

  all-IsResolved :
      (kept cs : List ReviewComment)
      → All
          (Decided settings.review_max_inline_comments are_near kept)
          (select_where (is_severe settings) cs)
      → All (IsResolved kept) cs
  unfolding select_where
  all-IsResolved kept [] h = tt
  all-IsResolved kept (c ∷ cs) h = elim (Bool-cases (is_severe settings c)) [
    | inl e ↦
        let h' : Decided settings.review_max_inline_comments are_near kept c
            × All (Decided settings.review_max_inline_comments are_near kept)
                (select_where (is_severe settings) cs) =
          rw e at h in
        (inr h'.0, all-IsResolved kept cs h'.1)
    | inr e ↦ (inl (λ w. cc (e, IsWanted-is_severe c w)), all-IsResolved kept cs (rw e at h))
  ]

-- The inline comments are among the given ones and at least as severe as the settings ask, where
-- an unknown name asks for a warning. No two of them stand in one file at most five lines apart.
-- There are at most REVIEW_MAX_INLINE_COMMENTS of them, or one where that is zero. Each given
-- comment is not severe enough, or close to a kept one, or the budget is full.
pub select_inline_comments_lem :
    (settings : Settings) (cs : List ReviewComment)
    → let kept = select_inline_comments settings cs in
      let n = settings.review_max_inline_comments in
      All (λ c. Memᴰ c cs × IsWanted settings c) kept
      × Apart are_near kept
      × (length kept ≤ max n 1)
      × All (IsResolved settings kept) cs
unfolding select_inline_comments candidates is_close
select_inline_comments_lem settings cs =
    let n = settings.review_max_inline_comments in
    let severe = select_where (is_severe settings) cs in
    let given = sort ranks_above severe in
    let P : ReviewComment → Type 0 = λ c. Memᴰ c cs × IsWanted settings c in
    (
      pick-All n P [] given tt (
          All-sort ranks_above P severe (
            All-select_where P (is_severe settings) cs
              (λ c m e. (m, is_severe-IsWanted settings c e)))),
      pick-Apart n [] given tt,
      pick-length n [] given (omega arith),
      all-IsResolved settings (pick n [] given) cs (
          All-sort_inv ranks_above (Decided n are_near (pick n [] given)) severe
            (pick-Decided n [] given)),
    )

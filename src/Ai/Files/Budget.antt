-- ===== src/Ai/Files/Budget.antt =====
-- The budget of `_build_review_chunks`, and the order of the files.
use mathlib.Core.List.{append-nil, append_assoc}
use revix.Prelude.{
  ℕ, zero, suc, ◌+◌, ◌*◌, ◌/◌, ◌≤◌, min, Text, is_set, lower, ends_with, any, ◌≡◌, refl, sym, ◌∙◌,
  ap, inl, inr, Bool, true, false, ◌&&◌, ◌||◌, List, [], ◌∷◌, ◌++◌, arith, length, take, All, leb,
  if◌then◌else◌, Bool-cases, sort-IsSorted, IsSorted, All-sort, select_where,
}
use revix.Config.{Settings}
use revix.Ai.Syntax.{Toolkit}
use revix.Ai.Files.{
  PrFile, first_set, source_suffixes, is_reviewable_file, risk, high_risk_terms,
  file_review_priority, riskier, ranked_files, produced, collect, max_chunks, build_review_chunks,
}

-- the chunks of all files, with no budget
abbrev pub all_chunks : Toolkit → List PrFile → List Text
all_chunks kit [] = []
all_chunks kit (f ∷ fs) = produced kit f ++ all_chunks kit fs

take-append : (n : ℕ) (xs ys : List Text) → n ≤ length xs → take n (xs ++ ys) ≡ take n xs
take-append zero xs ys h = refl
take-append (suc n) [] ys h = absurd (omega arith)
take-append (suc n) (x ∷ xs) ys h = ap (λ t. x ∷ t) (take-append n xs ys (omega arith))

-- The `break` loses nothing that the budget would keep.
take-collect :
    (kit : Toolkit) (n : ℕ) (chunks : List Text) (fs : List PrFile)
    → take n (collect kit n chunks fs) ≡ take n (chunks ++ all_chunks kit fs)
unfolding collect
take-collect kit n chunks [] = rw append-nil refl
take-collect kit n chunks (f ∷ fs) =
    let new = chunks ++ produced kit f in
    let whole = ap (take n) (append_assoc chunks (produced kit f) (all_chunks kit fs)) in
    elim (Bool-cases ((is_set f.content || is_set f.patch) && leb n (length new))) [
      | inl e ↦ rw e (sym (take-append n new (all_chunks kit fs) (ground arith)) ∙ whole)
      | inr e ↦ rw e (take-collect kit n new fs ∙ whole)
    ]

-- `_build_review_chunks` gives the first `max(REVIEW_MAX_CHUNKS, 1)` chunks of all the reviewable
-- files in the order of their priority: its early `break` loses none of them.
pub build_review_chunks_lem :
    (kit : Toolkit) (settings : Settings) (files : List PrFile)
    → build_review_chunks kit settings files
      ≡ take (max_chunks settings) (all_chunks kit (ranked_files files))
unfolding build_review_chunks
build_review_chunks_lem kit settings files =
    take-collect kit (max_chunks settings) [] (ranked_files files)

riskier_asym : (a b : PrFile) → riskier b a ≡ true → riskier a b ≡ false
riskier_asym a b h = ground arith

riskier_cotrans : (a b c : PrFile) → riskier a b ≡ false → riskier b c ≡ false → riskier a c ≡ false
riskier_cotrans a b c h k = ground arith

selected :
    (files : List PrFile)
    → All
        (λ f. is_reviewable_file f.filename ≡ true)
        (select_where (λ f. is_reviewable_file f.filename) files)
unfolding select_where
selected [] = tt
selected (f ∷ fs) = elim (Bool-cases (is_reviewable_file f.filename)) [
  | inl e ↦ rw e (e, selected fs)
  | inr e ↦ rw e (selected fs)
]

-- Only reviewable files are ranked for review, and none stands behind one of a lower priority.
pub ranked_files-IsSorted :
    (files : List PrFile)
    → IsSorted riskier (ranked_files files)
      × All (λ f. is_reviewable_file f.filename ≡ true) (ranked_files files)
unfolding ranked_files
ranked_files-IsSorted files = (
  sort-IsSorted riskier riskier_asym riskier_cotrans
      (select_where (λ f. is_reviewable_file f.filename) files),
  All-sort riskier _ _ (selected files),
)

risk-le : (text : Text) (ts : List Text) → risk text ts ≤ 4 * length ts
unfolding risk
risk-le text [] = omega arith
risk-le text (t ∷ ts) = ground (arith, risk-le text ts)

score-le : (a r : ℕ) (b : Bool) → r ≤ 4 * 14 → min a 8 + r + (if b then 3 else 0) ≤ 67
score-le a r b h = ground arith

-- The review priority of a file is at most 67: 8 for its size, 4 for each of the 14 terms and 3
-- for its suffix.
pub file_review_priority-le : (f : PrFile) → file_review_priority f ≤ 67
unfolding file_review_priority
file_review_priority-le f =
    score-le (length (first_set f.patch f.content) / 500)
      (risk (lower (f.filename ++ (10 ∷ first_set f.patch f.content))) high_risk_terms)
      (any (ends_with f.filename) source_suffixes)
      (risk-le (lower (f.filename ++ (10 ∷ first_set f.patch f.content))) high_risk_terms)

-- ===== src/Github/Sources/Fetches.antt =====
-- Which files `_attach_source` fetches, and what it leaves alone.
use revix.Prelude.{
  ℕ, zero, suc, Text, ◌≡◌, refl, ap, inl, inr, Bool, not, Option, none, some, List, [], ◌∷◌, take,
  map, Bool-cases, select_where,
}
use revix.Effects.{Result, ok, raised}
use revix.Ai.Files.{PrFile}
use revix.Github.Sources.{max_source_fetches, is_passed_over, with_content, attach, attach_source}

-- a file but for its source
abbrev pub bare : PrFile → PrFile
bare f = record f { content = none }

abbrev pub is_wanted : PrFile → Bool
is_wanted f = not (is_passed_over f)

with_content-bare : (f : PrFile) (r : Result (Option Text)) → bare (with_content f r) ≡ bare f
unfolding with_content
with_content-bare f (ok (some s)) = refl
with_content-bare f (ok none) = refl
with_content-bare f (raised e) = refl

attach-bare :
    (fetch : Text → Result (Option Text)) (budget : ℕ) (fs : List PrFile)
    → map bare (attach fetch budget fs).0 ≡ map bare fs
unfolding attach
attach-bare fetch zero fs = refl
attach-bare fetch (suc b) [] = refl
attach-bare fetch (suc b) (f ∷ fs) = elim (Bool-cases (is_passed_over f)) [
  | inl e ↦ rw e (ap (λ t. bare f ∷ t) (attach-bare fetch (suc b) fs))
  | inr e ↦ rw e (rw (with_content-bare f (fetch f.filename), attach-bare fetch b fs) refl)
]

attach-take :
    (fetch : Text → Result (Option Text)) (budget : ℕ) (fs : List PrFile)
    → (attach fetch budget fs).1
      ≡ take budget (map (λ (f : PrFile). f.filename) (select_where is_wanted fs))
unfolding attach select_where
attach-take fetch zero fs = refl
attach-take fetch (suc b) [] = refl
attach-take fetch (suc b) (f ∷ fs) = elim (Bool-cases (is_passed_over f)) [
  | inl e ↦ rw e (attach-take fetch (suc b) fs)
  | inr e ↦ rw e (ap (λ t. f.filename ∷ t) (attach-take fetch b fs))
]

-- `_attach_source` changes no file but for its content, and fetches, in their order, the first 20
-- files that are not removed, have a patch and count changes, whether or not the fetches succeed.
pub attach_source_lem :
    (fetch : Text → Result (Option Text)) (fs : List PrFile)
    → let (fs', fetched) = attach_source fetch fs in
      (map bare fs' ≡ map bare fs)
      × (fetched
          ≡ take max_source_fetches (map (λ (f : PrFile). f.filename) (select_where is_wanted fs)))
unfolding attach_source
attach_source_lem fetch fs =
    (attach-bare fetch max_source_fetches fs, attach-take fetch max_source_fetches fs)

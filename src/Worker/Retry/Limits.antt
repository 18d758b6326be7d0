-- ===== src/Worker/Retry/Limits.antt =====
-- `_is_rate_limit` on the error of a stale commit.
use revix.Prelude.{
  ℕ, Text, codes, decimal, uuid_text, starts_with, contains, ◌≡◌, refl, inl, inr, true, ◌==◌, [],
  ◌∷◌, ◌++◌, Bool-cases,
}
use revix.Queue.Finalize.{stale_fence}
use revix.Worker.Retry.{is_rate_limit}

starts_with-append : (s t p : Text) → starts_with s p ≡ true → starts_with (s ++ t) p ≡ true
unfolding starts_with
starts_with-append [] [] [] h = refl
starts_with-append [] (b ∷ t) [] h = refl
starts_with-append [] t (c ∷ p) h = absurd (cc h)
starts_with-append (a ∷ s) t [] h = refl
starts_with-append (a ∷ s) t (c ∷ p) h = elim (Bool-cases (a == c)) [
  | inl e ↦ rw e (starts_with-append s t p (rw e at h))
  | inr e ↦ absurd (cc (rw e at h))
]

contains-append : (s t p : Text) → contains s p ≡ true → contains (s ++ t) p ≡ true
unfolding contains
contains-append [] [] p h = h
contains-append [] (b ∷ t) p h = rw (starts_with-append [] (b ∷ t) p h) refl
contains-append (a ∷ s) t p h = elim (Bool-cases (starts_with (a ∷ s) p)) [
  | inl e ↦ rw (starts_with-append (a ∷ s) t p e) refl
  | inr e ↦ elim (Bool-cases (starts_with (a ∷ s ++ t) p)) [
    | inl f ↦ rw f refl
    | inr f ↦ rw f (contains-append s t p (rw e at h))
  ]
]

contains-behind : (s t p : Text) → contains t p ≡ true → contains (s ++ t) p ≡ true
unfolding contains
contains-behind [] t p h = h
contains-behind (a ∷ s) t p h = elim (Bool-cases (starts_with (a ∷ s ++ t) p)) [
  | inl e ↦ rw e refl
  | inr e ↦ rw e (contains-behind s t p h)
]

-- If the text of a job's UUID contains `429`, then the worker takes the error of a stale commit
-- of that job for a rate limit.
pub stale_fence_limited :
    (i f : ℕ) → contains (uuid_text i) (codes "429") ≡ true → is_rate_limit (stale_fence i f) ≡ true
unfolding is_rate_limit stale_fence
stale_fence_limited i f h =
    rw
      (contains-behind (codes "Job ") _ (codes "429") (
        contains-append (uuid_text i)
          (codes " was reclaimed; fence_token " ++ decimal f ++ codes " is stale") (codes "429") h))
      refl

-- ===== src/Github/Reviews/Signed.antt =====
-- The signature that keeps a review from being posted twice, and where it is lost.
use revix.Prelude.{
  ℕ, ◌-◌, ◌≤◌, ◌<◌, Text, starts_with, contains, Json, ◌≡◌, refl, sym, ap, inl, inr, true, false,
  ==_refl, Option, some, List, [], ◌∷◌, ◌++◌, arith, any, length, length-append, take, leb,
  Bool-cases, zero, suc,
}
use mathlib.Core.List.{append_assoc}
use revix.Effects.{Result, ok}
use revix.Github.Comments.{max_payload_size, marker, truncate}
use revix.Github.Reviews.{Payload, signature, signed, review_body, is_signed, post_review}

starts_with_refl : (p : Text) → starts_with p p ≡ true
unfolding starts_with
starts_with_refl [] = refl
starts_with_refl (c ∷ p) = rw (==_refl c) (starts_with_refl p)

contains-append : (s p : Text) → contains (s ++ p) p ≡ true
unfolding contains
contains-append [] [] = refl
contains-append [] (c ∷ p) = rw (starts_with_refl (c ∷ p)) refl
contains-append (a ∷ s) p = elim (Bool-cases (starts_with (a ∷ s ++ p) p)) [
  | inl e ↦ rw e refl
  | inr e ↦ rw e (contains-append s p)
]

contains-signed : (commit body : Text) → contains (signed commit body) (signature commit) ≡ true
unfolding signed
contains-signed commit body = elim (Bool-cases (contains body (signature commit))) [
  | inl e ↦ rw (e, e) refl
  | inr e ↦ rw e (
      rw (sym (append_assoc body (10 ∷ 10 ∷ []) (signature commit)))
        (contains-append (body ++ (10 ∷ 10 ∷ [])) (signature commit)))
]

found_signed :
    (commit b : Text) → contains b (signature commit) ≡ true → is_signed commit (some b) ≡ true
unfolding contains starts_with
found_signed commit [] h = cc h
found_signed commit (c ∷ b) h = rw h refl

truncate-short : (s : Text) (limit : ℕ) → length s ≤ limit → truncate s limit ≡ s
unfolding truncate
truncate-short s limit h = let e : leb (length s) limit ≡ true = ground arith in rw e refl

-- A body that fits with its signature is found again in the review that was posted.
review_body-IsSigned :
    (commit body : Text)
    → length (signed commit body) ≤ max_payload_size
    → is_signed commit (some (review_body commit body)) ≡ true
unfolding review_body
review_body-IsSigned commit body fits =
    rw (truncate-short (signed commit body) max_payload_size fits)
      (found_signed commit (signed commit body) (contains-signed commit body))

any-between :
    (commit : Text) (xs ys : List (Option Text)) (b : Text)
    → is_signed commit (some b) ≡ true
    → any (is_signed commit) (xs ++ (some b ∷ ys)) ≡ true
any-between commit [] ys b h = rw h refl
any-between commit (x ∷ xs) ys b h = elim (Bool-cases (is_signed commit x)) [
  | inl e ↦ rw e refl
  | inr e ↦ rw e (any-between commit xs ys b h)
]

-- If the body of a review with its signature is at most 60000 characters long, then `post_review`
-- for the same commit sends nothing wherever the reviews listed so far hold the body that it
-- gave, whatever the new body and comments are.
pub posted_once :
    (send : Payload → Result (Unit {0})) (commit body body' : Text) (comments : List Json)
    (xs ys : List (Option Text))
    → length (signed commit body) ≤ max_payload_size
    → post_review send (ok (xs ++ (some (review_body commit body) ∷ ys))) commit body' comments
      ≡ (ok tt, [])
unfolding post_review
posted_once send commit body body' comments xs ys fits =
    rw (any-between commit xs ys (review_body commit body) (review_body-IsSigned commit body fits))
      refl

take-append : (n : ℕ) (xs ys : Text) → n ≤ length xs → take n (xs ++ ys) ≡ take n xs
take-append zero xs ys h = refl
take-append (suc n) [] ys h = absurd (omega (arith, h))
take-append (suc n) (x ∷ xs) ys h = ap (λ t. x ∷ t) (take-append n xs ys (omega (arith, h)))

truncate-append :
    (s t : Text) (limit : ℕ) → limit < length s → truncate (s ++ t) limit ≡ truncate s limit
unfolding truncate
truncate-append s t limit h =
    let short : leb (length s) limit ≡ false = ground arith in
    let long : leb (length (s ++ t)) limit ≡ false = rw (length-append s t) (ground arith) in
    rw (short, long)
      (ap (λ u. u ++ marker) (take-append (limit - length marker) s t (omega (arith, h))))

-- Where the text of a review is longer than 60000 characters, the body that `post_review` sends
-- is the text alone, truncated, for every commit: the signature of the commit adds nothing to it.
pub signature_lost :
    (commit body : Text)
    → max_payload_size < length body
    → review_body commit body ≡ truncate body max_payload_size
unfolding review_body signed
signature_lost commit body long = elim (Bool-cases (contains body (signature commit))) [
  | inl e ↦ rw e refl
  | inr e ↦ rw e (truncate-append body (10 ∷ 10 ∷ signature commit) max_payload_size long)
]

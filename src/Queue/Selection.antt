-- ===== src/Queue/Selection.antt =====
-- Which job the SELECT of `claim_job` takes.
use revix.Prelude.{
  ℕ, ◌≡◌, refl, sym, ◌∙◌, subst, inl, inr, ◌⊎◌, Bool, true, false, Option, none, some, List, [],
  ◌∷◌, Memᴰ, arith, All, All-map, Bool-cases, some_inj,
}
use revix.Schema.{Job}
use revix.Queue.Claim.{is_open, before, choose, next_job}

choose_cases :
    (j k : Job)
    → (choose j (some k) ≡ k) × (before k j ≡ true) ⊎ (choose j (some k) ≡ j) × (before k j ≡ false)
unfolding choose
choose_cases j k = elim (Bool-cases (before k j)) [
  | inl e ↦ inl (rw e refl, e)
  | inr e ↦ inr (rw e refl, e)
]

before_asym : (j k : Job) → before k j ≡ true → before j k ≡ false
unfolding before
before_asym j k h = ground arith

before_cotrans : (x m k : Job) → before x m ≡ false → before m k ≡ false → before x k ≡ false
unfolding before
before_cotrans x m k h h' = ground arith

before_irrefl : (j : Job) → before j j ≡ false
unfolding before
before_irrefl j = ground arith

module _ (locked : ℕ → Bool) (now : ℕ) where
  next_job-shut :
      (k : Job) (ks : List Job)
      → is_open locked now k ≡ false
      → next_job locked now (k ∷ ks) ≡ next_job locked now ks
  unfolding next_job
  next_job-shut k ks h = rw h refl

  next_job-open :
      (k : Job) (ks : List Job)
      → is_open locked now k ≡ true
      → next_job locked now (k ∷ ks) ≡ some (choose k (next_job locked now ks))
  unfolding next_job
  next_job-open k ks h = rw h refl

  -- what `claim_job` may take is open and in the table
  abbrev pub IsTaken : List Job → Job → Type 0
  IsTaken js j = Memᴰ j js × (is_open locked now j ≡ true)

  later : (k : Job) (ks : List Job) {j : Job} → IsTaken ks j → IsTaken (k ∷ ks) j
  later k ks t = (Memᴰ.tail t.0, t.1)

  choose-IsTaken :
      (k : Job) (ks : List Job) (o : Option Job)
      → is_open locked now k ≡ true
      → ((m : Job) → o ≡ some m → IsTaken ks m)
      → IsTaken (k ∷ ks) (choose k o)
  unfolding choose
  choose-IsTaken k ks none h rest = (Memᴰ.head refl, h)
  choose-IsTaken k ks (some m) h rest = elim (choose_cases k m) [
    | inl (e, _) ↦ rw e (later k ks (rest m refl))
    | inr (e, _) ↦ rw e (Memᴰ.head refl, h)
  ]

  pub next_job-IsTaken : (js : List Job) (j : Job) → next_job locked now js ≡ some j → IsTaken js j
  unfolding next_job
  next_job-IsTaken [] j h = cc
  next_job-IsTaken (k ∷ ks) j h = elim (Bool-cases (is_open locked now k)) [
    | inr e ↦ later k ks (next_job-IsTaken ks j (sym (next_job-shut k ks e) ∙ h))
    | inl e ↦
        rw (some_inj (sym h ∙ next_job-open k ks e))
          (choose-IsTaken k ks (next_job locked now ks) e (next_job-IsTaken ks))
  ]

  -- No open job is due before the one that is taken.
  abbrev pub IsFirst : List Job → Job → Type 0
  IsFirst js j = All (λ k. is_open locked now k ≡ true → before k j ≡ false) js

  -- `none` means that there is no open job.
  abbrev pub IsBest : List Job → Option Job → Type 0
  IsBest js none = All (λ k. is_open locked now k ≡ false) js
  IsBest js (some j) = IsFirst js j

  shut-IsFirst : (ks : List Job) (j : Job) → IsBest ks none → IsFirst ks j
  shut-IsFirst ks j h = All-map _ _ ks (λ k e o. absurd (cc e)) h

  choose-IsBest :
      (k : Job) (ks : List Job) (o : Option Job) → IsBest ks o → IsFirst (k ∷ ks) (choose k o)
  unfolding choose
  choose-IsBest k ks none h = ((λ _. before_irrefl k), shut-IsFirst ks k h)
  choose-IsBest k ks (some m) h = elim (choose_cases k m) [
    | inl (e, b) ↦
        subst (IsFirst (k ∷ ks)) (sym e)
          ((λ (_ : is_open locked now k ≡ true). before_asym k m b), h)
    | inr (e, b) ↦ subst (IsFirst (k ∷ ks)) (sym e) (
      (λ (_ : is_open locked now k ≡ true). before_irrefl k),
      All-map _ _ ks (λ x f o. before_cotrans x m k (f o) b) h,
    )
  ]

  shut-IsBest :
      (k : Job) (ks : List Job) (o : Option Job)
      → is_open locked now k ≡ false
      → IsBest ks o
      → IsBest (k ∷ ks) o
  shut-IsBest k ks none e h = (e, h)
  shut-IsBest k ks (some j) e h = ((λ o. absurd (cc e)), h)

  pub next_job-IsBest : (js : List Job) → IsBest js (next_job locked now js)
  unfolding next_job
  next_job-IsBest [] = tt
  next_job-IsBest (k ∷ ks) = elim (Bool-cases (is_open locked now k)) [
    | inr e ↦ rw (next_job-shut k ks e) (shut-IsBest k ks _ e (next_job-IsBest ks))
    | inl e ↦
        rw (next_job-open k ks e) (choose-IsBest k ks (next_job locked now ks) (next_job-IsBest ks))
  ]

-- ===== src/Prelude/Unique.antt =====
-- What UPDATE, DELETE and INSERT keep: a fact about every row, a unique column, and which keys a
-- table has.
use mathlib.Core.Path.{◌≡◌, refl, sym, ◌∙◌, ap}
use mathlib.Core.Logic.{◌≢◌, inl, inr}
use mathlib.Core.Bool.{Bool, true, false}
use mathlib.Core.Option.{none, some}
use mathlib.Core.List.{List, [], ◌∷◌, ◌++◌, Memᴰ}
use native.Mathlib.Omega.{arith}
use revix.Prelude.Tests.{if◌then◌else◌, Bool-cases}
use revix.Prelude.Lists.{any, All, All-append}
use revix.Prelude.Table.{update_where, delete_where, select_where, find_where}

module _ {ℓ} {A : Type ℓ} where
  pub All-update_where {κ} :
      (P : A → Type κ) (p : A → Bool) (f : A → A) (xs : List A)
      → ((x : A) → P x → p x ≡ true → P (f x))
      → All P xs
      → All P (update_where p f xs)
  unfolding update_where
  All-update_where P p f [] keep h = tt
  All-update_where P p f (x ∷ xs) keep h = elim (Bool-cases (p x)) [
    | inl e ↦ rw e (keep x h.0 e, All-update_where P p f xs keep h.1)
    | inr e ↦ rw e (h.0, All-update_where P p f xs keep h.1)
  ]

  -- The same, where what a row becomes depends on which row it is.
  pub All-update_where_mem {κ} :
      (P : A → Type κ) (p : A → Bool) (f : A → A) (xs : List A)
      → ((x : A) → Memᴰ x xs → p x ≡ true → P (f x))
      → All P xs
      → All P (update_where p f xs)
  unfolding update_where
  All-update_where_mem P p f [] keep h = tt
  All-update_where_mem P p f (x ∷ xs) keep h =
      let rest = All-update_where_mem P p f xs (λ y m. keep y (Memᴰ.tail m)) h.1 in
      elim (Bool-cases (p x)) [
        | inl e ↦ rw e (keep x (Memᴰ.head refl) e, rest)
        | inr e ↦ rw e (h.0, rest)
      ]

  pub All-update_where_split {κ} :
      (P : A → Type κ) (p : A → Bool) (f : A → A) (xs : List A)
      → ((x : A) → Memᴰ x xs → p x ≡ true → P (f x))
      → ((x : A) → Memᴰ x xs → p x ≡ false → P x)
      → All P (update_where p f xs)
  unfolding update_where
  All-update_where_split P p f [] keep leave = tt
  All-update_where_split P p f (x ∷ xs) keep leave =
      let rest =
        All-update_where_split P p f xs (λ y m. keep y (Memᴰ.tail m))
          (λ y m. leave y (Memᴰ.tail m)) in
      elim (Bool-cases (p x)) [
        | inl e ↦ rw e (keep x (Memᴰ.head refl) e, rest)
        | inr e ↦ rw e (leave x (Memᴰ.head refl) e, rest)
      ]

  pub All-delete_where {κ} :
      (P : A → Type κ) (p : A → Bool) (xs : List A) → All P xs → All P (delete_where p xs)
  unfolding delete_where
  All-delete_where P p [] h = tt
  All-delete_where P p (x ∷ xs) h = elim (Bool-cases (p x)) [
    | inl e ↦ rw e (All-delete_where P p xs h.1)
    | inr e ↦ rw e (h.0, All-delete_where P p xs h.1)
  ]

  pub All-mem {κ} : (P : A → Type κ) {x : A} (xs : List A) → All P xs → Memᴰ x xs → P x
  All-mem P [] h m = elim m [ ]
  All-mem P (y ∷ ys) h (Memᴰ.head e) = rw e h.0
  All-mem P (y ∷ ys) h (Memᴰ.tail m) = All-mem P ys h.1 m

  pub mem-All {κ} : (P : A → Type κ) (xs : List A) → ((x : A) → Memᴰ x xs → P x) → All P xs
  mem-All P [] f = tt
  mem-All P (x ∷ xs) f = (f x (Memᴰ.head refl), mem-All P xs (λ y m. f y (Memᴰ.tail m)))

  pub any-eq-false : (p : A → Bool) (xs : List A) → any p xs ≡ false → All (λ x. p x ≡ false) xs
  any-eq-false p [] h = tt
  any-eq-false p (x ∷ xs) h = (ground arith, any-eq-false p xs (ground arith))

  pub any-mem : (p : A → Bool) {x : A} (xs : List A) → Memᴰ x xs → p x ≡ true → any p xs ≡ true
  any-mem p [] m h = elim m [ ]
  any-mem p (y ∷ ys) (Memᴰ.head e) h = ground (arith, ap p e)
  any-mem p (y ∷ ys) (Memᴰ.tail m) h = ground (arith, any-mem p ys m h)

  pub any-append_left : (p : A → Bool) (xs ys : List A) → any p xs ≡ true → any p (xs ++ ys) ≡ true
  any-append_left p [] ys h = cc
  any-append_left p (x ∷ xs) ys h = ground (arith, any-append_left p xs ys)

  -- An update that keeps a test keeps whether some row passes it.
  pub any-update_where :
      (q p : A → Bool) (f : A → A) (xs : List A)
      → ((x : A) → q (f x) ≡ q x)
      → any q (update_where p f xs) ≡ any q xs
  unfolding update_where
  any-update_where q p f [] keep = refl
  any-update_where q p f (x ∷ xs) keep = elim (Bool-cases (p x)) [
    | inl e ↦ rw (e, keep x, any-update_where q p f xs keep)
    | inr e ↦ rw (e, any-update_where q p f xs keep)
  ]

  -- An update that keeps a test keeps the row that the test finds first, updated.
  pub find_where-update_where :
      (q p : A → Bool) (f : A → A) (xs : List A)
      → ((x : A) → q (f x) ≡ q x)
      → find_where q (update_where p f xs)
        ≡ elim (find_where q xs) [ none ↦ none | some x ↦ some (if p x then f x else x) ]
  unfolding find_where update_where
  find_where-update_where q p f [] keep = refl
  find_where-update_where q p f (x ∷ xs) keep =
      ground (arith, keep x, find_where-update_where q p f xs keep)

  pub find_where_holds :
      (p : A → Bool) (xs : List A) {x : A} → find_where p xs ≡ some x → p x ≡ true
  unfolding find_where
  find_where_holds p [] h = cc
  find_where_holds p (y ∷ ys) {x = x} h = ground (arith, find_where_holds p ys {x = x})

  pub find_where-mem : (p : A → Bool) (xs : List A) (x : A) → find_where p xs ≡ some x → Memᴰ x xs
  unfolding find_where
  find_where-mem p [] x h = cc
  find_where-mem p (y ∷ ys) x h = elim (Bool-cases (p y)) [
    | inl e ↦ Memᴰ.head (ground arith)
    | inr e ↦ Memᴰ.tail (find_where-mem p ys x (ground arith))
  ]

  pub find_where-some :
      (p : A → Bool) (xs : List A) {x : A}
      → Memᴰ x xs
      → p x ≡ true
      → (y : A) × (find_where p xs ≡ some y)
  unfolding find_where
  find_where-some p [] m h = elim m [ ]
  find_where-some p (y ∷ ys) (Memᴰ.head e) h =
      let py : p y ≡ true = cc (h, ap p e) in (y, rw py refl)
  find_where-some p (y ∷ ys) (Memᴰ.tail m) h =
      let (z, r) = find_where-some p ys m h in
      elim (Bool-cases (p y)) [ inl e ↦ (y, rw e refl) | inr e ↦ (z, rw e r) ]

  pub mem-update_where :
      (p : A → Bool) (f : A → A) (xs : List A) {x : A}
      → Memᴰ x xs
      → Memᴰ (if p x then f x else x) (update_where p f xs)
  unfolding update_where
  mem-update_where p f [] m = elim m [ ]
  mem-update_where p f (y ∷ ys) (Memᴰ.head e) = Memᴰ.head (ap (λ z. if p z then f z else z) e)
  mem-update_where p f (y ∷ ys) (Memᴰ.tail m) = Memᴰ.tail (mem-update_where p f ys m)

  pub any-delete_where : (p : A → Bool) (xs : List A) → any p (delete_where p xs) ≡ false
  unfolding delete_where
  any-delete_where p [] = refl
  any-delete_where p (x ∷ xs) = ground (arith, any-delete_where p xs)

  pub select_where-mem :
      (p : A → Bool) (xs : List A) {x : A} → Memᴰ x (select_where p xs) → Memᴰ x xs × (p x ≡ true)
  unfolding select_where
  select_where-mem p [] m = elim m [ ]
  select_where-mem p (y ∷ ys) {x = x} m = elim (Bool-cases (p y)) [
    | inl e ↦ of_head e (λ m'. select_where-mem p ys m') (rw e at m)
    | inr e ↦ let (rest, h) = select_where-mem p ys (rw e at m) in (Memᴰ.tail rest, h)
  ]
    where
      of_head :
          p y ≡ true
          → (Memᴰ x (select_where p ys) → Memᴰ x ys × (p x ≡ true))
          → Memᴰ x (y ∷ select_where p ys)
          → Memᴰ x (y ∷ ys) × (p x ≡ true)
      of_head e below (Memᴰ.head same) = (Memᴰ.head same, ap p same ∙ e)
      of_head e below (Memᴰ.tail m') = let (rest, h) = below m' in (Memᴰ.tail rest, h)

  pub mem-select_where :
      (p : A → Bool) (xs : List A) {x : A} → Memᴰ x xs → p x ≡ true → Memᴰ x (select_where p xs)
  unfolding select_where
  mem-select_where p [] m h = elim m [ ]
  mem-select_where p (y ∷ ys) {x = x} (Memᴰ.head e) h =
      let py : p y ≡ true = cc (h, ap p e) in rw py (Memᴰ.head e)
  mem-select_where p (y ∷ ys) (Memᴰ.tail m) h = elim (Bool-cases (p y)) [
    | inl e ↦ rw e (Memᴰ.tail (mem-select_where p ys m h))
    | inr e ↦ rw e (mem-select_where p ys m h)
  ]

  pub find_where-none :
      (p : A → Bool) (xs : List A) → All (λ x. p x ≡ false) xs → find_where p xs ≡ none
  unfolding find_where
  find_where-none p [] h = refl
  find_where-none p (x ∷ xs) h = rw h.0 (find_where-none p xs h.1)

  pub update_where-none :
      (p : A → Bool) (f : A → A) (xs : List A)
      → All (λ x. p x ≡ false) xs
      → update_where p f xs ≡ xs
  unfolding update_where
  update_where-none p f [] h = refl
  update_where-none p f (x ∷ xs) h = rw (h.0, update_where-none p f xs h.1)

module _ {ℓ κ} {A : Type ℓ} {B : Type κ} (key : A → B) where
  -- UNIQUE (key)
  abbrev pub Distinct : List A → Type κ
  Distinct [] = Unit
  Distinct (x ∷ xs) = All (λ y. key y ≢ key x) xs × Distinct xs

  pub Distinct-update_where :
      (p : A → Bool) (f : A → A) (xs : List A)
      → ((x : A) → key (f x) ≡ key x)
      → Distinct xs
      → Distinct (update_where p f xs)
  unfolding update_where
  Distinct-update_where p f [] keep h = tt
  Distinct-update_where p f (x ∷ xs) keep h =
      let rest = Distinct-update_where p f xs keep h.1 in
      let apart =
        All-update_where (λ y. key y ≢ key x) p f xs (λ y ne _ e. ne (sym (keep y) ∙ e)) h.0 in
      elim (Bool-cases (p x)) [ inl e ↦ rw (e, keep x) (apart, rest) | inr e ↦ rw e (apart, rest) ]

  pub Distinct-delete_where :
      (p : A → Bool) (xs : List A) → Distinct xs → Distinct (delete_where p xs)
  unfolding delete_where
  Distinct-delete_where p [] h = tt
  Distinct-delete_where p (x ∷ xs) h = elim (Bool-cases (p x)) [
    | inl e ↦ rw e (Distinct-delete_where p xs h.1)
    | inr e ↦ rw e (All-delete_where _ p xs h.0, Distinct-delete_where p xs h.1)
  ]

  pub Distinct-snoc :
      (xs : List A) (x : A) → All (λ y. key y ≢ key x) xs → Distinct xs → Distinct (xs ++ x ∷ [])
  Distinct-snoc [] x new h = (tt, tt)
  Distinct-snoc (y ∷ ys) x new h = (
    All-append (λ z. key z ≢ key y) ys (x ∷ []) h.0 ((λ e. new.0 (sym e)), tt),
    Distinct-snoc ys x new.1 h.1,
  )

  -- Two rows with one key are one row.
  pub Distinct-mem :
      (xs : List A) {x y : A} → Distinct xs → Memᴰ x xs → Memᴰ y xs → key x ≡ key y → x ≡ y
  Distinct-mem [] h m n k = elim m [ ]
  Distinct-mem (z ∷ zs) h (Memᴰ.head d) (Memᴰ.head e) k = d ∙ sym e
  Distinct-mem (z ∷ zs) h (Memᴰ.head d) (Memᴰ.tail m) k =
      absurd (All-mem (λ y. key y ≢ key z) zs h.0 m (sym k ∙ ap key d))
  Distinct-mem (z ∷ zs) h (Memᴰ.tail m) (Memᴰ.head e) k =
      absurd (All-mem (λ y. key y ≢ key z) zs h.0 m (k ∙ ap key e))
  Distinct-mem (z ∷ zs) h (Memᴰ.tail m) (Memᴰ.tail n) k = Distinct-mem zs h.1 m n k

-- ===== src/Pool/Waiting.antt =====
-- What `wait_for_tables` promises.
use revix.Prelude.{
  ℕ, zero, suc, ◌+◌, ◌≤◌, ◌<◌, Text, ◌≡◌, refl, ◌⊎◌, inl, inr, true, false, none, some, List, arith,
  Bool-cases, ◌==◌, ==_iff,
}
use revix.Effects.{Exception, Result, ok, raised}
use revix.Pool.{Pool, get_pool, is_ready, tries, never_created, wait_for_tables}

module _ (look : ℕ → Result (List Text)) (tables : List Text) where
  -- no try from `a` up to before `b` finds the tables
  abbrev pub NoneReady : ℕ → ℕ → Type 0
  NoneReady a b = (k : ℕ) → a ≤ k → k < b → is_ready tables (look k) ≡ false

  one_more : (a b : ℕ) → is_ready tables (look a) ≡ false → NoneReady (a + 1) b → NoneReady a b
  one_more a b e h k le lt = elim (Bool-cases (k == a)) [
    | inl same ↦ rw ((==_iff k a).0 same) e
    | inr other ↦ h k (ground arith) lt
  ]

  tries_cases :
      (n i : ℕ)
      → ((j : ℕ) × (tries look tables n i ≡ some j)
          × (j < i + n)
          × (is_ready tables (look j) ≡ true)
          × NoneReady i j)
        ⊎ ((tries look tables n i ≡ none) × NoneReady i (i + n))
  unfolding tries
  tries_cases zero i = inr (refl, λ k le lt. absurd (omega (arith, le, lt)))
  tries_cases (suc n) i = elim (Bool-cases (is_ready tables (look i))) [
    | inl e ↦ inl (i, rw e refl, omega arith, e, λ k le lt. absurd (omega (arith, le, lt)))
    | inr e ↦ elim (tries_cases n (i + 1)) [
      | inl (j, found, lt, ready, none_before) ↦
          inl (j, rw e found, omega (arith, lt), ready, one_more i j e none_before)
      | inr (found, none_ready) ↦
          inr
            (rw e found, one_more i (i + suc n) e (λ k le lt. none_ready k le (omega (arith, lt))))
    ]
  ]

-- With a pool, `wait_for_tables` makes at most as many tries as it is given. It returns after the
-- first try that finds all the tables, having slept once for each try before; or no try finds
-- them, and it raises, having slept once for each.
pub wait_for_tables_lem :
    (repr : List Text → Text) (look : ℕ → Result (List Text)) (tables : List Text) (retries : ℕ)
    (pool : Pool)
    → let res = wait_for_tables repr look tables retries (some pool) in
      ((j : ℕ) × (res ≡ (ok tt, j))
        × (j < retries)
        × (is_ready tables (look j) ≡ true)
        × NoneReady look tables 0 j)
      ⊎ ((e : Exception) × (res ≡ (raised e, retries)) × NoneReady look tables 0 retries)
unfolding wait_for_tables get_pool
wait_for_tables_lem repr look tables retries pool = elim (tries_cases look tables retries 0) [
  | inl (j, found, lt, ready, before) ↦ inl (j, rw found refl, omega (arith, lt), ready, before)
  | inr (found, never) ↦
      inr (never_created (repr tables), rw found refl, λ k le lt. never k le (omega (arith, lt)))
]

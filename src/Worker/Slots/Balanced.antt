-- ===== src/Worker/Slots/Balanced.antt =====
-- The permits of the semaphore against the tasks.
use revix.Prelude.{
  ℕ, ◌+◌, ◌≤◌, ◌≡◌, inl, inr, true, Option, none, some, List, [], ◌∷◌, ◌++◌, length, length-append,
  arith, ap, Bool-cases,
}
use revix.Effects.{Result, ok, raised}
use revix.Schema.{Job, Db}
use revix.Queue.Claim.{claim_job}
use revix.Worker.Slots.{
  Phase, waiting, holding, Worker, start_worker, stop, on_acquired, on_claimed, on_done, Step,
  Reach,
}

-- the permit that the loop itself has
abbrev pub held : Phase → ℕ
held holding = 1
held _ = 0

-- No permit is handed out twice, and none is lost while the worker runs.
pub record IsBalanced (concurrency : ℕ) (s : Worker) : Type 0 where
  pub bounded : s.permits + held s.phase + length s.tasks ≤ concurrency
  pub full : s.running ≡ true → s.permits + held s.phase + length s.tasks ≡ concurrency

module _ (n : ℕ) where
  on_acquired-IsBalanced :
      (s : Worker)
      → s.phase ≡ waiting
      → 1 ≤ s.permits
      → IsBalanced n s
      → IsBalanced n (on_acquired s)
  unfolding on_acquired
  on_acquired-IsBalanced s at_top free b =
      let none_held : held s.phase ≡ 0 = ap held at_top in
      elim (Bool-cases s.running) [
        | inl y ↦
            let f = b.full y in
            rw y (record {
              bounded = omega (arith, none_held, free, b.bounded);
              full = λ _. omega (arith, none_held, free, f);
            })
        | inr y ↦
            rw y
              (record { bounded = omega (arith, none_held, b.bounded); full = λ e. absurd (cc e) })
      ]

  on_claimed-IsBalanced :
      (s : Worker) (r : Result (Option Job))
      → s.phase ≡ holding
      → IsBalanced n s
      → IsBalanced n (on_claimed r s)
  unfolding on_claimed
  on_claimed-IsBalanced s (ok (some j)) at_claim b =
      let one : held s.phase ≡ 1 = ap held at_claim in
      let more = length-append s.tasks (j ∷ []) in
      record {
        bounded = omega (arith, one, more, b.bounded);
        full = λ y. let f = b.full y in omega (arith, one, more, f);
      }
  on_claimed-IsBalanced s (ok none) at_claim b =
      let one : held s.phase ≡ 1 = ap held at_claim in
      record {
        bounded = omega (arith, one, b.bounded);
        full = λ y. let f = b.full y in omega (arith, one, f);
      }
  on_claimed-IsBalanced s (raised e) at_claim b =
      let one : held s.phase ≡ 1 = ap held at_claim in
      elim (Bool-cases s.running) [
        | inl y ↦
            let f = b.full y in
            rw y (record { bounded = omega (arith, one, f); full = λ _. omega (arith, one, f) })
        | inr y ↦
            rw y (record { bounded = omega (arith, one, b.bounded); full = λ e. absurd (cc e) })
      ]

  on_done-IsBalanced :
      (before : List Job) (j : Job) (after : List Job) (s : Worker)
      → s.tasks ≡ before ++ (j ∷ after)
      → IsBalanced n s
      → IsBalanced n (on_done before j after s)
  unfolding on_done
  on_done-IsBalanced before j after s split b =
      let was : length s.tasks ≡ length (before ++ (j ∷ after)) = ap length split in
      let l1 = length-append before (j ∷ after) in
      let l2 = length-append before after in
      record {
        bounded = omega (arith, was, l1, l2, b.bounded);
        full = λ y. let f = b.full y in omega (arith, was, l1, l2, f);
      }

  Step-IsBalanced : (s t : Worker × Db) → Step s t → IsBalanced n s.0 → IsBalanced n t.0
  unfolding stop
  Step-IsBalanced _ _ (Step.acquire s db p free) b = on_acquired-IsBalanced s p free b
  Step-IsBalanced _ _ (Step.claim locked now worker s db p) b =
      on_claimed-IsBalanced s (claim_job locked now worker db).0 p b
  Step-IsBalanced _ _ (Step.fail e s db p) b = on_claimed-IsBalanced s (raised e) p b
  Step-IsBalanced _ _ (Step.leave s db p y) b =
      let none_held : held s.phase ≡ 0 = ap held p in
      record { bounded = omega (arith, none_held, b.bounded); full = λ e. absurd (cc (e, y)) }
  Step-IsBalanced _ _ (Step.interrupt s db) b = record {
    bounded = b.bounded;
    full = λ e. absurd (cc e);
  }
  Step-IsBalanced _ _ (Step.done before j after s db split) b =
      on_done-IsBalanced before j after s split b
  Step-IsBalanced _ _ (Step.work s db db') b = b

  -- In every run of a worker that starts with `n` permits, the permits of the semaphore, the
  -- permit that the loop holds and the running tasks are at most `n` together, and exactly `n`
  -- while the worker is running.
  pub Reach-IsBalanced :
      (db : Db) (t : Worker × Db) → Reach (start_worker n, db) t → IsBalanced n t.0
  unfolding start_worker
  Reach-IsBalanced db _ Reach.here = record { bounded = omega arith; full = λ _. omega arith }
  Reach-IsBalanced db t (Reach.next {t = u} r step) =
      Step-IsBalanced u t step (Reach-IsBalanced db u r)

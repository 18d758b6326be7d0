-- ===== src/Ai/Agents/Routing.antt =====
-- Which agents `normalize_agent_ids` and `cap_agent_ids` let run, whatever the coordinator answers.
use mathlib.Core.List.{Perm, append-nil}
use mathlib.Core.List.Perm
use revix.Prelude.{
  ℕ, zero, suc, Text, codes, text_eq, text_eq_iff, text_eq_refl, Json, ◌≡◌, refl, sym, ◌∙◌, ap,
  subst, ◌≢◌, inl, inr, Bool, true, false, not, ◌&&◌, List, [], ◌∷◌, ◌++◌, arith, length, take,
  drop, All, All-append, length-take, leb, min, Bool-cases, sort, sort-perm, length-sort,
  take-append-drop, sort-IsSorted, IsSorted,
}
use revix.Config.{Settings}
use revix.Ai.Agents.{
  is_valid_agent, valid_agents, as_list, answered, or_default, includes, verification,
  forces_verification, with_verification, unique, normalize_agent_ids, more_urgent, cap_agent_ids,
}

abbrev IsValid : Text → Type 0
IsValid a = is_valid_agent a ≡ true

-- no agent stands twice
abbrev pub AllDifferent : List Text → Type 0
AllDifferent [] = Unit
AllDifferent (a ∷ as') = (includes as' a ≡ false) × AllDifferent as'

valid_agents-IsValid : (js : List Json) → All IsValid (valid_agents js)
unfolding valid_agents
valid_agents-IsValid [] = tt
valid_agents-IsValid (Json.str a ∷ js) = elim (Bool-cases (is_valid_agent a)) [
  | inl e ↦ rw e (e, valid_agents-IsValid js)
  | inr e ↦ rw e (valid_agents-IsValid js)
]
valid_agents-IsValid (_ ∷ js) = valid_agents-IsValid js

or_default-IsValid : (xs : List Text) → All IsValid xs → All IsValid (or_default xs)
unfolding is_valid_agent
or_default-IsValid [] h = (refl, tt)
or_default-IsValid (a ∷ xs) h = h

with_verification-IsValid :
    (force : Bool) (xs : List Text) → All IsValid xs → All IsValid (with_verification force xs)
unfolding is_valid_agent
with_verification-IsValid force xs h = elim (Bool-cases (force && not (includes xs verification))) [
  | inl e ↦ rw e (All-append IsValid xs (verification ∷ []) h (refl, tt))
  | inr e ↦ rw e h
]

All-unique : (P : Text → Type 0) (seen xs : List Text) → All P xs → All P (unique seen xs)
unfolding unique
All-unique P seen [] h = tt
All-unique P seen (a ∷ xs) h = elim (Bool-cases (includes seen a)) [
  | inl e ↦ rw e (All-unique P seen xs h.1)
  | inr e ↦ rw e (h.0, All-unique P (a ∷ seen) xs h.1)
]

-- What `unique` keeps was not seen before.
unique_unseen :
    (a : Text) (seen xs : List Text) → includes seen a ≡ true → includes (unique seen xs) a ≡ false
unfolding unique
unique_unseen a seen [] h = refl
unique_unseen a seen (b ∷ xs) h = elim (Bool-cases (includes seen b)) [
  | inl e ↦ rw e (unique_unseen a seen xs h)
  | inr e ↦
      rw e (ground (arith, text_eq_iff a b, text_eq_iff b a, unique_unseen a (b ∷ seen) xs, h))
]

unique-AllDifferent : (seen xs : List Text) → AllDifferent (unique seen xs)
unfolding unique
unique-AllDifferent seen [] = tt
unique-AllDifferent seen (a ∷ xs) = elim (Bool-cases (includes seen a)) [
  | inl e ↦ rw e (unique-AllDifferent seen xs)
  | inr e ↦ rw e (
    unique_unseen a (a ∷ seen) xs (ground (arith, text_eq_refl a)),
    unique-AllDifferent (a ∷ seen) xs,
  )
]

-- `unique` loses nothing that was not seen before.
unique-includes :
    (a : Text) (seen xs : List Text)
    → includes seen a ≡ false
    → includes xs a ≡ true
    → includes (unique seen xs) a ≡ true
unfolding unique
unique-includes a seen [] s h = cc
unique-includes a seen (b ∷ xs) s h = elim (Bool-cases (text_eq a b)) [
  | inl e ↦
      let same : a ≡ b = (text_eq_iff a b).0 e in
      let new : includes seen b ≡ false = rw (← same) s in rw new (ground arith)
  | inr e ↦ elim (Bool-cases (includes seen b)) [
    | inl old ↦ rw old (unique-includes a seen xs s (ground arith))
    | inr new ↦
        let rest = unique-includes a (b ∷ seen) xs (ground arith) (ground arith) in
        rw new (ground (arith, rest))
  ]
]

pub record IsRouting (ids : List Text) : Type 0 where
  pub known : All IsValid ids
  pub different : AllDifferent ids
  pub some_agent : ids ≢ []

includes_ne_nil : (a : Text) (xs : List Text) → includes xs a ≡ true → xs ≢ []
includes_ne_nil a [] h e = cc
includes_ne_nil a (x ∷ xs) h e = cc

head_kept : (a : Text) (xs : List Text) → includes (unique [] (a ∷ xs)) a ≡ true
head_kept a xs = unique-includes a [] (a ∷ xs) refl (ground (arith, text_eq_refl a))

-- the list before `dict.fromkeys` has an element
first_of_default :
    (force : Bool) (xs : List Text)
    → (a : Text) × (r : List Text) × (with_verification force (or_default xs) ≡ a ∷ r)
first_of_default force [] =
    elim (Bool-cases (force && not (includes (or_default []) verification))) [
      | inl e ↦ (codes "ReviewAgent", verification ∷ [], rw e refl)
      | inr e ↦ (codes "ReviewAgent", [], rw e refl)
    ]
first_of_default force (b ∷ bs) =
    elim (Bool-cases (force && not (includes (b ∷ bs) verification))) [
      | inl e ↦ (b, bs ++ verification ∷ [], rw e refl)
      | inr e ↦ (b, bs, rw e refl)
    ]

-- Whatever JSON the coordinator answers, `normalize_agent_ids` gives at least one agent, only
-- agents that exist, and none twice.
pub normalize_agent_ids-IsRouting :
    (settings : Settings) (agents : Json) (chunk : Text)
    → IsRouting (normalize_agent_ids settings agents chunk)
unfolding normalize_agent_ids
normalize_agent_ids-IsRouting settings agents chunk =
    let force = forces_verification settings chunk in
    let chosen = valid_agents (as_list (answered agents)) in
    let (a, r, e) = first_of_default force chosen in
    record {
      known = All-unique IsValid [] _ (
          with_verification-IsValid force _
            (or_default-IsValid _ (valid_agents-IsValid (as_list (answered agents)))));
      different = unique-AllDifferent [] _;
      some_agent =
          includes_ne_nil a _
            (subst (λ l. includes (unique [] l) a ≡ true) (sym e) (head_kept a r));
    }

with_verification-includes :
    (xs : List Text) → includes (with_verification true xs) verification ≡ true
with_verification-includes xs = elim (Bool-cases (includes xs verification)) [
  | inl e ↦ rw (e, ◌&&◌) e
  | inr e ↦ rw (e, ◌&&◌) (last xs)
]
  where
    last : (ys : List Text) → includes (ys ++ verification ∷ []) verification ≡ true
    last [] = ground (arith, text_eq_refl verification)
    last (y ∷ ys) = ground (arith, last ys)

-- Where the profile is not `chill` and the chunk holds an import or a definition,
-- `normalize_agent_ids` includes the verification agent, whatever the coordinator answers.
pub normalize_agent_ids-includes :
    (settings : Settings) (agents : Json) (chunk : Text)
    → forces_verification settings chunk ≡ true
    → includes (normalize_agent_ids settings agents chunk) verification ≡ true
unfolding normalize_agent_ids
normalize_agent_ids-includes settings agents chunk f =
    unique-includes verification []
      (with_verification (forces_verification settings chunk)
        (or_default (valid_agents (as_list (answered agents)))))
      refl
      (subst
        (λ b.
          includes (with_verification b (or_default (valid_agents (as_list (answered agents)))))
            verification
          ≡ true)
        (sym f)
        (with_verification-includes (or_default (valid_agents (as_list (answered agents))))))

urgent_asym : (x y : Text) → more_urgent y x ≡ true → more_urgent x y ≡ false
urgent_asym x y h = ground arith

urgent_cotrans :
    (x y z : Text) → more_urgent x y ≡ false → more_urgent y z ≡ false → more_urgent x z ≡ false
urgent_cotrans x y z h k = ground arith

-- The front of a sorted list against the rest.
front_first :
    (n : ℕ) (xs : List Text)
    → IsSorted more_urgent xs
    → All (λ a. All (λ b. more_urgent b a ≡ false) (drop n xs)) (take n xs)
front_first zero xs h = tt
front_first (suc n) [] h = tt
front_first (suc n) (x ∷ xs) h = (All-drop n xs h.0, front_first n xs h.1)
  where
    All-drop :
        (k : ℕ) (ys : List Text)
        → All (λ b. more_urgent b x ≡ false) ys
        → All (λ b. more_urgent b x ≡ false) (drop k ys)
    All-drop zero ys g = g
    All-drop (suc k) [] g = g
    All-drop (suc k) (y ∷ ys) g = All-drop k ys g.1

nothing : (xs : List Text) → All (λ a. All (λ b. more_urgent b a ≡ false) []) xs
nothing [] = tt
nothing (x ∷ xs) = (tt, nothing xs)

-- `cap_agent_ids` keeps as many agents as the settings allow, or all where there are fewer. With
-- the dropped ones, the kept ones are the given agents in some order, and no dropped agent is
-- more urgent than a kept one.
pub cap_agent_ids_lem :
    (settings : Settings) (agents : List Text)
    → (dropped : List Text) × (length (cap_agent_ids settings agents)
        ≡ min settings.review_max_agents_per_chunk (length agents))
      × Perm (cap_agent_ids settings agents ++ dropped) agents
      × All (λ a. All (λ b. more_urgent b a ≡ false) dropped) (cap_agent_ids settings agents)
unfolding cap_agent_ids
cap_agent_ids_lem settings agents =
    let n = settings.review_max_agents_per_chunk in
    elim (Bool-cases (leb (length agents) n)) [
      | inl e ↦ ([], rw e (ground arith), rw e (rw append-nil Perm.rfl), rw e (nothing agents))
      | inr e ↦
          let sorted = sort more_urgent agents in
          (
            drop n sorted,
            rw e (length-take n sorted ∙ ap (min n) (length-sort more_urgent agents)),
            rw e (rw (take-append-drop n sorted) (sort-perm more_urgent agents)),
            rw e (
                front_first n sorted (sort-IsSorted more_urgent urgent_asym urgent_cotrans agents)),
          )
    ]

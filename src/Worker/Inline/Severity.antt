-- ===== src/Worker/Inline/Severity.antt =====
-- Which findings are severe enough for the settings, by the names of the severities.
use revix.Prelude.{
  Text, codes, text_eq, text_eq_iff, ◌≡◌, ◌≢◌, ◌⊎◌, inl, inr, Bool, true, arith, leb, Bool-cases,
}
use revix.Worker.Inline.{severity_rank}

-- at least as severe as the floor, which is that of a warning where its name is unknown
abbrev pub IsSevere : Text → Text → Type 0
IsSevere floor severity =
    (floor ≡ codes "INFO")
    ⊎ ((severity ≡ codes "CRITICAL") ⊎ ((floor ≢ codes "CRITICAL") × (severity ≡ codes "WARNING")))

abbrev pub is_at_least : Text → Text → Bool
is_at_least floor severity = leb (severity_rank 1 floor) (severity_rank 0 severity)

pub is_at_least-IsSevere :
    (floor severity : Text) → is_at_least floor severity ≡ true → IsSevere floor severity
unfolding severity_rank
is_at_least-IsSevere floor severity h = elim (Bool-cases (text_eq floor (codes "INFO"))) [
  | inl e ↦ inl ((text_eq_iff floor (codes "INFO")).0 e)
  | inr e ↦ elim (Bool-cases (text_eq severity (codes "CRITICAL"))) [
    | inl s ↦ inr (inl ((text_eq_iff severity (codes "CRITICAL")).0 s))
    | inr s ↦ elim (Bool-cases (text_eq severity (codes "WARNING"))) [
      | inl w ↦ inr (
          inr (
            (λ k.
                let k' = (text_eq_iff floor (codes "CRITICAL")).1 k in
                let w' = (text_eq_iff severity (codes "WARNING")).0 w in cc (rw (k, w') at h)),
            (text_eq_iff severity (codes "WARNING")).0 w,
          ))
      | inr w ↦ absurd (ground arith)
    ]
  ]
]

pub IsSevere-is_at_least :
    (floor severity : Text) → IsSevere floor severity → is_at_least floor severity ≡ true
unfolding severity_rank
IsSevere-is_at_least floor severity (inl e) = rw e (ground arith)
IsSevere-is_at_least floor severity (inr (inl e)) = rw e (ground arith)
IsSevere-is_at_least floor severity (inr (inr (n, e))) =
    elim (Bool-cases (text_eq floor (codes "CRITICAL"))) [
      | inl c ↦ absurd (n ((text_eq_iff floor (codes "CRITICAL")).0 c))
      | inr c ↦ rw (e, c) (ground arith)
    ]

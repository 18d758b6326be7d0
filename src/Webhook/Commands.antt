-- ===== src/Webhook/Commands.antt =====
-- Which comments are commands that count.
use revix.Prelude.{
  ℕ, Text, codes, text_eq, text_eq_iff, strip, lower, subst, arith, Json, ◌≡◌, ◌≢◌, refl, ◌⊎◌, inl,
  inr, true, false, Option, none, some, List, [], ◌∷◌, Bool-cases,
}
use revix.Effects.{ok}
use revix.Access.{text_at, number_at, get, item}
use revix.Webhook.{is_authorized, is_one_of, is_none, trusted, one_of}

-- What the payload of an overriding request says: a collaborator, a member or the owner of the
-- repository wrote a command, and nothing else, on a pull request.
pub record IsOverride (payload : Json) (repo command : Text) (num : ℕ) : Type 0 where
  pub body : Text
  pub issue : Json
  pub comment : Json
  pub pull : Json
  pub association : Text
  pub body_of : text_at (codes "comment" ∷ codes "body" ∷ []) payload ≡ ok body
  pub said : command ≡ lower (strip body)
  pub known :
      (command ≡ codes "/revix-ignore")
      ⊎ ((command ≡ codes "/revix-approve") ⊎ (command ≡ codes "/revix-ok"))
  pub repo_of : text_at (codes "repository" ∷ codes "full_name" ∷ []) payload ≡ ok repo
  pub issue_of : item (codes "issue") payload ≡ ok issue
  pub number_of : number_at (codes "number" ∷ []) issue ≡ ok num
  pub comment_is : item (codes "comment") payload ≡ ok comment
  pub pull_of : get (codes "pull_request") issue ≡ ok (some pull)
  pub on_pull : pull ≢ Json.null
  pub association_of : get (codes "author_association") comment ≡ ok (some (Json.str association))
  pub allowed :
      (association ≡ codes "OWNER")
      ⊎ ((association ≡ codes "MEMBER") ⊎ (association ≡ codes "COLLABORATOR"))

pub one_of-three :
    (a b c s : Text) → one_of (a ∷ b ∷ c ∷ []) s ≡ true → (s ≡ a) ⊎ ((s ≡ b) ⊎ (s ≡ c))
one_of-three a b c s h = elim (Bool-cases (text_eq s a)) [
  | inl y ↦ inl ((text_eq_iff s a).0 y)
  | inr n ↦ elim (Bool-cases (text_eq s b)) [
    | inl y ↦ inr (inl ((text_eq_iff s b).0 y))
    | inr m ↦ inr (inr ((text_eq_iff s c).0 (ground (arith, h, n, m))))
  ]
]

pub is_none-not :
    (pull : Option Json) → is_none pull ≡ false → (j : Json) × (pull ≡ some j) × (j ≢ Json.null)
is_none-not none h = absurd (cc h)
is_none-not (some j) h =
    (j, refl, λ e. absurd (cc (subst (λ (j : Json). is_none (some j) ≡ false) e h)))

pub is_one_of-str :
    (ks : List Text) (v : Option Json)
    → is_one_of ks v ≡ true
    → (s : Text) × (v ≡ some (Json.str s)) × (one_of ks s ≡ true)
is_one_of-str ks none h = absurd (cc h)
is_one_of-str ks (some (Json.str s)) h = (s, refl, h)
is_one_of-str ks (some Json.null) h = absurd (cc h)
is_one_of-str ks (some (Json.bool b)) h = absurd (cc h)
is_one_of-str ks (some (Json.num n)) h = absurd (cc h)
is_one_of-str ks (some (Json.float s)) h = absurd (cc h)
is_one_of-str ks (some (Json.arr r)) h = absurd (cc h)
is_one_of-str ks (some (Json.obj r)) h = absurd (cc h)

pub is_authorized-cases :
    (pull association : Option Json)
    → is_authorized pull association ≡ true
    → (is_none pull ≡ false) × (is_one_of trusted association ≡ true)
unfolding is_authorized
is_authorized-cases pull association h = (ground (arith, h), ground (arith, h))

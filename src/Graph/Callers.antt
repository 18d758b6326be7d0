-- ===== src/Graph/Callers.antt =====
-- The join of `get_external_callers`, against its condition.
use revix.Prelude.{
  any-text_eq, mem-any, Text, text_eq, text_eq_iff, ◌≡◌, ◌≢◌, ◌↔◌, refl, ap, subst, inl, inr, true,
  List, [], ◌∷◌, ◌++◌, Memᴰ, All, All-append, All-mem, arith, Bool-cases,
}
use revix.Schema.{RepoSymbol, RepoReference, Db}
use revix.Graph.{is_caller, callers_of, joined, get_external_callers}

mem-append_left : {A : Type 0} (xs ys : List A) {x : A} → Memᴰ x xs → Memᴰ x (xs ++ ys)
mem-append_left [] ys m = elim m [ ]
mem-append_left (y ∷ xs) ys (Memᴰ.head e) = Memᴰ.head e
mem-append_left (y ∷ xs) ys (Memᴰ.tail m) = Memᴰ.tail (mem-append_left xs ys m)

mem-append_right : {A : Type 0} (xs ys : List A) {x : A} → Memᴰ x ys → Memᴰ x (xs ++ ys)
mem-append_right [] ys m = m
mem-append_right (y ∷ xs) ys m = Memᴰ.tail (mem-append_right xs ys m)

module _ (repo : Text) (names : List Text) where
  -- the reference is one of the repository to a symbol of that name in another file, and the name
  -- is asked for
  pub record Calls (r : RepoReference) (s : RepoSymbol) : Type 0 where
    pub same_name : r.symbol_name ≡ s.name
    pub same_repo : r.repo_full_name ≡ s.repo_full_name
    pub of_repo : r.repo_full_name ≡ repo
    pub asked : Memᴰ r.symbol_name names
    pub elsewhere : r.file_path ≢ s.file_path

  is_caller-Calls :
      (r : RepoReference) (s : RepoSymbol) → (is_caller repo names r s ≡ true) → Calls r s
  is_caller-Calls r s h = record {
    same_name = (text_eq_iff r.symbol_name s.name).0 (ground arith);
    same_repo = (text_eq_iff r.repo_full_name s.repo_full_name).0 (ground arith);
    of_repo = (text_eq_iff r.repo_full_name repo).0 (ground arith);
    asked = any-text_eq r.symbol_name names (ground arith);
    elsewhere = λ e. let same = (text_eq_iff r.file_path s.file_path).1 e in ground arith;
  }

  Calls-is_caller :
      (r : RepoReference) (s : RepoSymbol) → Calls r s → is_caller repo names r s ≡ true
  Calls-is_caller r s h =
      rw
        (
          (text_eq_iff r.symbol_name s.name).1 h.same_name,
          (text_eq_iff r.repo_full_name s.repo_full_name).1 h.same_repo,
          (text_eq_iff r.repo_full_name repo).1 h.of_repo,
          mem-any r.symbol_name names h.asked,
        )
        (elim (Bool-cases (text_eq r.file_path s.file_path)) [
          | inl e ↦ absurd (h.elsewhere ((text_eq_iff r.file_path s.file_path).0 e))
          | inr e ↦ rw e refl
        ])

  -- a row of the join: a stored reference, and the file of a stored symbol that it calls
  abbrev pub IsJoined : List RepoReference → List RepoSymbol → RepoReference × Text → Type 0
  IsJoined rs ss (r, path) =
      Memᴰ r rs × ((s : RepoSymbol) × Memᴰ s ss × Calls r s × (s.file_path ≡ path))

  callers_of-mem :
      (r : RepoReference) (ss : List RepoSymbol) {s : RepoSymbol}
      → Memᴰ s ss
      → is_caller repo names r s ≡ true
      → Memᴰ (r, s.file_path) (callers_of repo names r ss)
  unfolding callers_of
  callers_of-mem r [] m h = elim m [ ]
  callers_of-mem r (t ∷ ss) (Memᴰ.head e) h =
      rw (subst (λ u. is_caller repo names r u ≡ true) e h)
        (Memᴰ.head (ap (λ (u : RepoSymbol). (r, u.file_path)) e))
  callers_of-mem r (t ∷ ss) (Memᴰ.tail m) h = elim (Bool-cases (is_caller repo names r t)) [
    | inl e ↦ rw e (Memᴰ.tail (callers_of-mem r ss m h))
    | inr e ↦ rw e (callers_of-mem r ss m h)
  ]

  joined-mem :
      (rs : List RepoReference) (ss : List RepoSymbol) {r : RepoReference} {s : RepoSymbol}
      → Memᴰ r rs
      → Memᴰ s ss
      → is_caller repo names r s ≡ true
      → Memᴰ (r, s.file_path) (joined repo names rs ss)
  unfolding joined
  joined-mem [] ss m n h = elim m [ ]
  joined-mem (q ∷ rs) ss {r} {s} (Memᴰ.head e) n h =
      mem-append_left _ _ (
        subst (λ u. Memᴰ (r, s.file_path) (callers_of repo names u ss)) e (callers_of-mem r ss n h))
  joined-mem (q ∷ rs) ss (Memᴰ.tail m) n h = mem-append_right _ _ (joined-mem rs ss m n h)

  callers_of-IsJoined :
      (r : RepoReference) (rs : List RepoReference) (all_symbols ss : List RepoSymbol)
      → Memᴰ r rs
      → ((s : RepoSymbol) → Memᴰ s ss → Memᴰ s all_symbols)
      → All (IsJoined rs all_symbols) (callers_of repo names r ss)
  unfolding callers_of
  callers_of-IsJoined r rs all_symbols [] m sub = tt
  callers_of-IsJoined r rs all_symbols (s ∷ ss) m sub =
      elim (Bool-cases (is_caller repo names r s)) [
        | inl e ↦ rw e (
          (m, (s, sub s (Memᴰ.head refl), is_caller-Calls r s e, refl)),
          callers_of-IsJoined r rs all_symbols ss m (λ t n. sub t (Memᴰ.tail n)),
        )
        | inr e ↦ rw e (callers_of-IsJoined r rs all_symbols ss m (λ t n. sub t (Memᴰ.tail n)))
      ]

  joined-IsJoined :
      (all_references rs : List RepoReference) (ss : List RepoSymbol)
      → ((r : RepoReference) → Memᴰ r rs → Memᴰ r all_references)
      → All (IsJoined all_references ss) (joined repo names rs ss)
  unfolding joined
  joined-IsJoined all_references [] ss sub = tt
  joined-IsJoined all_references (r ∷ rs) ss sub =
      All-append (IsJoined all_references ss) _ _
        (callers_of-IsJoined r all_references ss ss (sub r (Memᴰ.head refl)) (λ s m. m))
        (joined-IsJoined all_references rs ss (λ q n. sub q (Memᴰ.tail n)))

-- A reference with a file is a row of `get_external_callers` if and only if the reference is
-- stored, of the given repository and to one of the given names, and a stored symbol of that name
-- and repository stands in that file, which is not the file of the reference.
pub get_external_callers_lem :
    (repo : Text) (names : List Text) (db : Db) (row : RepoReference × Text)
    → Memᴰ row (get_external_callers repo names db)
      ↔ IsJoined repo names db.repo_references db.repo_symbols row
unfolding get_external_callers
get_external_callers_lem repo names db (r, path) = (
  λ m.
      All-mem (IsJoined repo names db.repo_references db.repo_symbols) {x = (r, path)} _
        (joined-IsJoined repo names db.repo_references db.repo_references db.repo_symbols
          (λ r m. m))
        m,
  λ (m, (s, n, h, e)).
      subst (λ p. Memᴰ (r, p) (joined repo names db.repo_references db.repo_symbols)) e
        (joined-mem repo names db.repo_references db.repo_symbols m n
          (Calls-is_caller repo names r s h)),
)

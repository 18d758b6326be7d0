-- ===== src/Graph/Contents.antt =====
-- What the graph tables hold after `persist_repo_graph`, and what the join finds in them.
use revix.Prelude.{
  Text, text_eq, text_eq_iff, text_eq_refl, ◌≡◌, refl, ap, inl, inr, false, List, [], ◌∷◌, ◌++◌,
  map, Bool-cases, delete_where, select_where,
}
use revix.Schema.{RepoSymbol, RepoReference, Db}
use revix.Ai.Index.{Symbol, Reference}
use revix.Graph.{symbol_in, reference_in, symbol_row, reference_row, persist_repo_graph}

-- A table of rows that each belong to one repository.
module _ {A B : Type 0} (repo_of : A → Text) (row : Text → B → A)
    (own : (repo : Text) (b : B) → repo_of (row repo b) ≡ repo) where
  replaced-own :
      (repo : Text) (xs : List A) (bs : List B)
      → select_where
          (λ a. text_eq (repo_of a) repo)
          (delete_where (λ a. text_eq (repo_of a) repo) xs ++ map (row repo) bs)
        ≡ map (row repo) bs
  unfolding select_where delete_where
  replaced-own repo [] [] = refl
  replaced-own repo [] (b ∷ bs) =
      rw (own repo b, text_eq_refl repo) (ap (λ t. row repo b ∷ t) (replaced-own repo [] bs))
  replaced-own repo (x ∷ xs) bs = elim (Bool-cases (text_eq (repo_of x) repo)) [
    | inl e ↦ rw e (replaced-own repo xs bs)
    | inr e ↦ rw (e, e) (replaced-own repo xs bs)
  ]

  replaced-other :
      (repo other : Text) (xs : List A) (bs : List B)
      → text_eq repo other ≡ false
      → select_where
          (λ a. text_eq (repo_of a) other)
          (delete_where (λ a. text_eq (repo_of a) repo) xs ++ map (row repo) bs)
        ≡ select_where (λ a. text_eq (repo_of a) other) xs
  unfolding select_where delete_where
  replaced-other repo other [] [] d = refl
  replaced-other repo other [] (b ∷ bs) d = rw (own repo b, d) (replaced-other repo other [] bs d)
  replaced-other repo other (x ∷ xs) bs d = elim (Bool-cases (text_eq (repo_of x) repo)) [
    | inl e ↦
        let same : repo_of x ≡ repo = (text_eq_iff _ _).0 e in
        rw (e, same, d) (replaced-other repo other xs bs d)
    | inr e ↦ elim (Bool-cases (text_eq (repo_of x) other)) [
      | inl f ↦ rw (e, f) (ap (λ t. x ∷ t) (replaced-other repo other xs bs d))
      | inr f ↦ rw (e, f) (replaced-other repo other xs bs d)
    ]
  ]

-- After `persist_repo_graph` the tables hold exactly the given symbols and references of the
-- repository, in their order, and the rows of any other repository as before.
pub persist_repo_graph_lem :
    (repo other : Text) (symbols : List Symbol) (references : List Reference) (db : Db)
    → text_eq repo other ≡ false
    → let db' = persist_repo_graph repo symbols references db in
      (select_where (symbol_in repo) db'.repo_symbols ≡ map (symbol_row repo) symbols)
      × (select_where (reference_in repo) db'.repo_references ≡ map (reference_row repo) references)
      × (select_where (symbol_in other) db'.repo_symbols
          ≡ select_where (symbol_in other) db.repo_symbols)
      × (select_where (reference_in other) db'.repo_references
          ≡ select_where (reference_in other) db.repo_references)
unfolding persist_repo_graph
persist_repo_graph_lem repo other symbols references db apart = (
  replaced-own (λ (s : RepoSymbol). s.repo_full_name) symbol_row (λ r s. refl) repo db.repo_symbols
      symbols,
  replaced-own (λ (r : RepoReference). r.repo_full_name) reference_row (λ r s. refl) repo
      db.repo_references references,
  replaced-other (λ (s : RepoSymbol). s.repo_full_name) symbol_row (λ r s. refl) repo other
      db.repo_symbols symbols apart,
  replaced-other (λ (r : RepoReference). r.repo_full_name) reference_row (λ r s. refl) repo other
      db.repo_references references apart,
)

-- ===== src/Graph.antt =====
-- app/services/db/graph.py: the symbols and references of each repository.
mod Tests
pub mod Contents
pub mod Callers
use revix.Prelude.{
  ℕ, Text, text_eq, Bool, not, ◌&&◌, List, [], ◌∷◌, ◌++◌, any, map, if◌then◌else◌, delete_where,
}
use revix.Schema.{RepoSymbol, RepoReference, Db}
use revix.Ai.Index.{Symbol, Reference}

abbrev pub symbol_in : Text → RepoSymbol → Bool
symbol_in repo s = text_eq s.repo_full_name repo

abbrev pub reference_in : Text → RepoReference → Bool
reference_in repo r = text_eq r.repo_full_name repo

abbrev pub symbol_row : Text → Symbol → RepoSymbol
symbol_row repo s = record {
  repo_full_name = repo;
  name = s.name;
  qualified_name = s.qualified_name;
  kind = s.kind;
  file_path = s.file_path;
  start_line = s.start_line;
  end_line = s.end_line;
  signature = s.signature;
  parent = s.parent;
}

abbrev pub reference_row : Text → Reference → RepoReference
reference_row repo r = record {
  repo_full_name = repo;
  symbol_name = r.symbol_name;
  file_path = r.file_path;
  line = r.line;
  context_line = r.context_line;
  ref_type = r.ref_type;
}

-- two DELETEs and two COPYs, in one transaction
unfoldable pub persist_repo_graph : Text → List Symbol → List Reference → Db → Db
unfolding delete_where
persist_repo_graph repo symbols references db = record db {
  repo_symbols = delete_where (symbol_in repo) db.repo_symbols ++ map (symbol_row repo) symbols;
  repo_references =
      delete_where (reference_in repo) db.repo_references ++ map (reference_row repo) references;
}

-- the ON and WHERE clauses
abbrev pub is_caller : Text → List Text → RepoReference → RepoSymbol → Bool
is_caller repo names r s =
    text_eq r.symbol_name s.name
    && text_eq r.repo_full_name s.repo_full_name
    && text_eq r.repo_full_name repo
    && any (text_eq r.symbol_name) names
    && not (text_eq r.file_path s.file_path)

-- the rows of one reference: the reference and the file that defines its symbol
unfoldable pub callers_of :
    Text → List Text → RepoReference → List RepoSymbol → List (RepoReference × Text)
callers_of repo names r [] = []
callers_of repo names r (s ∷ ss) =
    let rest = callers_of repo names r ss in
    if is_caller repo names r s then (r, s.file_path) ∷ rest else rest

unfoldable pub joined :
    Text → List Text → List RepoReference → List RepoSymbol → List (RepoReference × Text)
unfolding callers_of
joined repo names [] ss = []
joined repo names (r ∷ rs) ss = callers_of repo names r ss ++ joined repo names rs ss

unfoldable pub get_external_callers : Text → List Text → Db → List (RepoReference × Text)
unfolding joined
get_external_callers repo names db = joined repo names db.repo_references db.repo_symbols

-- ===== src/Graph/Tests.antt =====
-- The theorems on the graph tables at small inputs.
use revix.Prelude.{◌↔◌, Text, codes, ◌≡◌, refl, none, [], ◌∷◌, map, Memᴰ, select_where, text_eq}
use revix.Schema.{RepoReference, Db}
use revix.Ai.Index.{Symbol, Reference}
use revix.Graph.{
  symbol_in, reference_in, symbol_row, reference_row, persist_repo_graph, get_external_callers,
}
use revix.Graph.Contents.{persist_repo_graph_lem}
use revix.Graph.Callers.{IsJoined, get_external_callers_lem}

abbrev symbol_f : Symbol
symbol_f = record {
  name = codes "f";
  qualified_name = codes "f";
  kind = codes "function_definition";
  file_path = codes "a.py";
  start_line = 1;
  end_line = 1;
  signature = codes "def f(): pass";
  parent = none;
}

abbrev call_of_f : Reference
call_of_f = record {
  symbol_name = codes "f";
  file_path = codes "b.py";
  line = 4;
  context_line = codes "f()";
  ref_type = codes "call";
}

abbrev one_graph : Db
one_graph = record {
  jobs = [];
  worker_heartbeats = [];
  review_records = [];
  installation_tokens = [];
  repo_symbols = symbol_row (codes "o/r") symbol_f ∷ [];
  repo_references = reference_row (codes "o/r") call_of_f ∷ [];
}

persist_repo_graph_lem_example :
    let db' = persist_repo_graph (codes "o/r") (symbol_f ∷ []) (call_of_f ∷ []) one_graph in
    (select_where (symbol_in (codes "o/r")) db'.repo_symbols
      ≡ map (symbol_row (codes "o/r")) (symbol_f ∷ []))
    × (select_where (reference_in (codes "o/r")) db'.repo_references
        ≡ map (reference_row (codes "o/r")) (call_of_f ∷ []))
    × (select_where (symbol_in (codes "o/s")) db'.repo_symbols
        ≡ select_where (symbol_in (codes "o/s")) one_graph.repo_symbols)
    × (select_where (reference_in (codes "o/s")) db'.repo_references
        ≡ select_where (reference_in (codes "o/s")) one_graph.repo_references)
unfolding text_eq
persist_repo_graph_lem_example =
    persist_repo_graph_lem (codes "o/r") (codes "o/s") (symbol_f ∷ []) (call_of_f ∷ []) one_graph
      refl

get_external_callers_lem_example :
    let names = codes "f" ∷ [] in
    let row : RepoReference × Text = (reference_row (codes "o/r") call_of_f, codes "a.py") in
    Memᴰ row (get_external_callers (codes "o/r") names one_graph)
    ↔ IsJoined (codes "o/r") names one_graph.repo_references one_graph.repo_symbols row
get_external_callers_lem_example =
    get_external_callers_lem (codes "o/r") (codes "f" ∷ []) one_graph
      (reference_row (codes "o/r") call_of_f, codes "a.py")

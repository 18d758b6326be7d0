-- ===== src/Ai/Tests.antt =====
-- The theorems on the routing, the diffs, the chunks and the index at small inputs.
use mathlib.Core.List.{Perm}
use revix.Prelude.{
  true, Memᴰ, ◌↔◌, ◌≤◌, Text, codes, Json, map, ◌≡◌, refl, false, some, List, [], ◌∷◌, ◌++◌, All,
  length, min, take, max, contains, ◌*◌, none, inr, text_eq, arith, Fields,
}
use revix.Prelude.Int.{pos}
use revix.Config.{Settings, default_settings}
use revix.Ai.Agents.{more_urgent, normalize_agent_ids, cap_agent_ids}
use revix.Ai.Agents.Routing.{IsRouting, normalize_agent_ids-IsRouting, cap_agent_ids_lem}
use revix.Ai.Patch.{parse_changed_lines}
use revix.Ai.Patch.Hunks.{Hunk, DiffLine, unlines, diff_lines, touched_by, parse_changed_lines_lem}
use revix.Ai.Syntax.{
  has_parser, Node, node, nil, cons, Tree, Toolkit, children, extension, boundary_types,
}
use revix.Ai.Chunks.{chunk_changed_nodes}
use revix.Ai.Chunks.Parts.{Chunk, text_of, units_in, flags_in, FitsChunk}
use revix.Ai.Chunks.Packed.{all_units_of, all_flags_of, chunk_changed_nodes_lem}
use revix.Ai.Files.{PrFile, ranked_files, max_chunks, build_review_chunks}
use revix.Ai.Files.Budget.{all_chunks, build_review_chunks_lem}
use revix.Effects.{ok, Result}
use revix.Ai.Answers.{extract_json_payload}
use revix.Ai.Answers.Fenced.{extract_json_payload-fenced_text}
use revix.Ai.Review.{ReviewComment, ReviewResult}
use revix.Ai.Models.{Models, IsComment, IsChecked}
use revix.Ai.Swarm.{agent_jobs, analyze_diff}
use revix.Ai.Swarm.Routed.{agent_jobs-le}
use revix.Ai.Swarm.Reviewed.{IsSigned, analyze_diff_lem}
use revix.Ai.Index.{Symbol, index_file}
use revix.Ai.Index.Described.{IsDefinition}
use revix.Ai.Index.Symbols.{index_file-IsDefinition}

normalize_agent_ids-IsRouting_example :
    IsRouting (normalize_agent_ids default_settings Json.null (codes "x = 1"))
normalize_agent_ids-IsRouting_example =
    normalize_agent_ids-IsRouting default_settings Json.null (codes "x = 1")

abbrev strict_settings : Settings
strict_settings = record default_settings { review_profile = codes "assertive" }

abbrev three_agents : List Text
three_agents = codes "style" ∷ codes "security" ∷ codes "logic" ∷ []

cap_agent_ids_lem_example :
    (dropped : List Text) × (length (cap_agent_ids default_settings three_agents)
      ≡ min 2 (length three_agents))
    × Perm (cap_agent_ids default_settings three_agents ++ dropped) three_agents
    × All
        (λ a. All (λ b. more_urgent b a ≡ false) dropped)
        (cap_agent_ids default_settings three_agents)
cap_agent_ids_lem_example = cap_agent_ids_lem default_settings three_agents

abbrev one_hunk : Hunk
one_hunk = record {
  old_start = 9;
  old_count = 2;
  new_start = 12;
  new_count = 2;
  lines =
      DiffLine.context (codes "a") ∷ DiffLine.removed (codes "b") ∷ DiffLine.added (codes "c") ∷ [];
}

parse_changed_lines_lem_example :
    parse_changed_lines (unlines (diff_lines (one_hunk ∷ []))) ≡ touched_by (one_hunk ∷ [])
parse_changed_lines_lem_example =
    parse_changed_lines_lem (one_hunk ∷ []) (((refl, tt), ((refl, tt), ((refl, tt), tt))), tt)

-- one function, on the first line of the file
abbrev function_node : Node
function_node =
    node
      (record {
        type = codes "function_definition";
        start_byte = 0;
        end_byte = 13;
        start_row = 0;
        end_row = 0;
        fields = [];
      })
      nil

abbrev module_tree : Tree
module_tree = record {
  root =
      node
        (record {
          type = codes "module";
          start_byte = 0;
          end_byte = 13;
          start_row = 0;
          end_row = 0;
          fields = [];
        })
        (cons function_node nil);
  has_error = false;
}

abbrev ascii_kit : Toolkit
ascii_kit = record { parse = λ ext s. module_tree; encode = λ s. s; decode = λ s. s }

abbrev source_text : Text
source_text = codes "def f(): pass"

abbrev python : List Text
python = boundary_types (codes ".py")

chunk_changed_nodes_lem_example :
    (cs : List Chunk) × (chunk_changed_nodes ascii_kit
        (codes "a.py")
        module_tree
        source_text
        python
        (1 ∷ [])
      ≡ map (text_of (codes "a.py")) cs)
    × (units_in cs
        ≡ all_units_of ascii_kit
            (codes "a.py")
            source_text
            python
            (1 ∷ [])
            (children module_tree.root))
    × (flags_in cs
        ≡ all_flags_of ascii_kit
            (codes "a.py")
            source_text
            python
            (1 ∷ [])
            (children module_tree.root))
    × All FitsChunk cs
chunk_changed_nodes_lem_example =
    chunk_changed_nodes_lem ascii_kit (codes "a.py") module_tree source_text python (1 ∷ []) refl

abbrev source_file : PrFile
source_file = record {
  filename = codes "a.py";
  status = codes "modified";
  patch = some (codes "@@ -1 +1 @@");
  changes = 1;
  content = some source_text;
}

build_review_chunks_lem_example :
    build_review_chunks ascii_kit default_settings (source_file ∷ [])
    ≡ take (max_chunks default_settings) (all_chunks ascii_kit (ranked_files (source_file ∷ [])))
build_review_chunks_lem_example =
    build_review_chunks_lem ascii_kit default_settings (source_file ∷ [])

abbrev symbol_f : Symbol
symbol_f = record {
  name = codes "f";
  qualified_name = codes "f";
  kind = codes "function_definition";
  file_path = codes "a.py";
  start_line = 0;
  end_line = 0;
  signature = source_text;
  parent = none;
}

index_file-IsDefinition_example :
    Memᴰ symbol_f (index_file ascii_kit (codes "a.py") source_text).0 ↔ (
      (has_parser (extension (codes "a.py")) ≡ true)
      × IsDefinition ascii_kit source_text
          (codes "a.py")
          (boundary_types (extension (codes "a.py")))
          module_tree.root
          symbol_f)
index_file-IsDefinition_example =
    index_file-IsDefinition ascii_kit (codes "a.py") source_text symbol_f

abbrev one_comment : ReviewComment
one_comment = record {
  path = codes "a.py";
  line = 2;
  side = codes "RIGHT";
  body = codes "bad";
  severity = codes "WARNING";
  suggested_fix = none;
  agent_id = none;
}

abbrev one_review : ReviewResult
one_review = record {
  summary = codes "s";
  score = 90;
  comments = one_comment ∷ [];
  agent_reports = Json.null;
}

-- a model that submits the same review to every call
abbrev submitting : Models
submitting = record {
  complete = λ c. ok (record {
    content = none;
    tool_calls =
        record { id = codes "1"; name = codes "submit_review"; arguments = Json.str [] } ∷ [];
  });
  run = λ gvisor script. ok (record { exit_code = pos 0; stdout = []; stderr = [] });
  loads = λ text. ok (Json.obj Fields.end);
  validate = λ j. ok one_review;
  construct = λ summary score cs. ok (record one_review { comments = cs });
  int_of_float = λ text. ok (Json.num (pos 90));
}

one_comment-IsComment : IsComment one_comment
unfolding text_eq
one_comment-IsComment = record {
  placed = λ e. cc e;
  lined = omega arith;
  sided = inr refl;
  ranked = refl;
}

submitting-IsChecked : IsChecked submitting
submitting-IsChecked = record {
  validated = λ j. record { scored = omega arith; commented = (one_comment-IsComment, tt) };
  constructed = λ summary score cs. (omega arith, refl);
}

agent_jobs-le_example :
    length (
      agent_jobs default_settings submitting []
        (build_review_chunks ascii_kit default_settings (source_file ∷ [])))
    ≤ max default_settings.review_max_chunks 1 * default_settings.review_max_agents_per_chunk
agent_jobs-le_example = agent_jobs-le default_settings submitting ascii_kit (source_file ∷ []) []

analyze_diff_lem_example :
    let r = analyze_diff default_settings submitting ascii_kit (source_file ∷ []) Json.null in
    (r.score ≤ 100) × All IsSigned r.comments
analyze_diff_lem_example =
    analyze_diff_lem default_settings submitting submitting-IsChecked ascii_kit (source_file ∷ [])
      Json.null

abbrev decoded : Text → Result Json
decoded s = ok (Json.str s)

extract_json_payload-fenced_text_example :
    extract_json_payload decoded (codes "```json\n{\"a\": 1}\n```") ≡ decoded (codes "{\"a\": 1}")
unfolding contains
extract_json_payload-fenced_text_example =
    extract_json_payload-fenced_text b'{' b'}' refl refl decoded (codes "\"a\": 1") refl

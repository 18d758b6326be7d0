-- ===== src/Ai/Swarm.antt =====
-- `analyze_diff`: the routing of each chunk, the agents' calls, and the synthesis. `asyncio.gather` gives the results in the order of the calls.
pub mod Routed
pub mod Reviewed
use revix.Prelude.{
  ℕ, Text, codes, text_eq, join, Json, Fields, get_key, Bool, true, false, Option, none, some, List,
  [], ◌∷◌, ◌++◌, map, if◌then◌else◌,
}
use revix.Effects.{
  Result, ok, raised, Exception, exception, value_error, key_error, type_error, ◌>>=◌,
}
use revix.Access.{item}
use revix.Config.{Settings}
use revix.Prelude.Int.{ℤ, pos}
use revix.Worker.Retry.{parse_int}
use revix.Ai.Sandbox.{run_in_sandbox}
use revix.Ai.Review.{ReviewComment, ReviewResult}
use revix.Ai.Prompts.{language_directive, coordinator_prompt, prompt_of}
use revix.Ai.Answers.{extract_json_payload, parse_tool_arguments}
use revix.Ai.Agents.{verification, normalize_agent_ids, cap_agent_ids}
use revix.Ai.Syntax.{Toolkit}
use revix.Ai.Files.{PrFile, build_review_chunks}
use revix.Ai.Models.{
  Kwargs, get_completion_kwargs, ToolCall, Message, Turn, system, user, assistant, tool, Call,
  Models,
}
use revix.Ai.Coordinator.{coordinate_routing}
use revix.Ai.Agent.{analyze_chunk_with_agent}
use revix.Ai.Synthesis.{reduce_summaries}

-- `{pr_details.get('title')}` of a text or of null
abbrev printed : Option Json → Text
printed (some (Json.str s)) = s
printed _ = codes "None"

-- The title and the body of a pull request are texts or null.
unfoldable pub intent_of : Json → Text
unfolding get_key
intent_of details =
    codes "TITLE: "
    ++ printed (get_key (codes "title") details)
    ++ codes "\nBODY: "
    ++ printed (get_key (codes "body") details)

module _ (settings : Settings) (m : Models) where
  -- the agents of a chunk, each with the chunk
  abbrev pub jobs_of : Text → List Text → List (Text × Text)
  jobs_of chunk agents = map (λ agent. (agent, chunk)) agents

  unfoldable pub agent_jobs : (intent : Text) → List Text → List (Text × Text)
  unfolding coordinate_routing cap_agent_ids
  agent_jobs intent [] = []
  agent_jobs intent (chunk ∷ chunks) =
      jobs_of chunk (cap_agent_ids settings (coordinate_routing settings m chunk intent))
      ++ agent_jobs intent chunks

  abbrev pub add_result : Option ReviewResult → List ReviewResult → List ReviewResult
  add_result none rs = rs
  add_result (some r) rs = r ∷ rs

  -- `[res for res in results if res]`
  unfoldable pub run_agents : (intent : Text) → List (Text × Text) → List ReviewResult
  unfolding analyze_chunk_with_agent
  run_agents intent [] = []
  run_agents intent ((agent, chunk) ∷ jobs) =
      add_result (analyze_chunk_with_agent settings m agent chunk intent) (run_agents intent jobs)

  abbrev pub all_comments : List ReviewResult → List ReviewComment
  all_comments [] = []
  all_comments (r ∷ rs) = r.comments ++ all_comments rs

  abbrev pub no_issues : ReviewResult
  no_issues = record {
    summary = codes "No issues found by swarm.";
    score = 100;
    comments = [];
    agent_reports = Json.obj Fields.end;
  }

  -- by whether there are agents to run
  unfoldable pub review_jobs : (intent : Text) → List (Text × Text) → ReviewResult
  unfolding run_agents reduce_summaries
  review_jobs intent [] = no_issues
  review_jobs intent (job ∷ jobs) =
      let results = run_agents intent (job ∷ jobs) in
      reduce_summaries settings m (map (λ (r : ReviewResult). r.summary) results)
        (all_comments results)

  unfoldable pub analyze_diff : Toolkit → List PrFile → Json → ReviewResult
  unfolding intent_of agent_jobs review_jobs build_review_chunks
  analyze_diff kit files details =
      let intent = intent_of details in
      review_jobs intent (agent_jobs intent (build_review_chunks kit settings files))

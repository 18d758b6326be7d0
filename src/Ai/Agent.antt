-- ===== src/Ai/Agent.antt =====
-- `_analyze_chunk_with_agent`, and `_execute_agent`, which picks its prompt.
use revix.Prelude.{
  Text, codes, text_eq, Json, Option, none, some, List, [], ◌∷◌, ◌++◌, map, if◌then◌else◌,
}
use revix.Effects.{Result, ok, raised, ◌>>=◌}
use revix.Access.{item}
use revix.Config.{Settings}
use revix.Ai.Sandbox.{run_in_sandbox}
use revix.Ai.Review.{ReviewComment, ReviewResult}
use revix.Ai.Prompts.{prompt_of}
use revix.Ai.Answers.{extract_json_payload, parse_tool_arguments}
use revix.Ai.Agents.{verification}
use revix.Ai.Tools.{submit_review_tool, run_in_sandbox_tool}
use revix.Ai.Models.{
  get_completion_kwargs, ToolCall, Message, system, user, assistant, tool, Call, Models,
}

-- a text that is there and not empty
abbrev pub content_of : Option Text → Option Text
content_of (some (c ∷ s)) = some (c ∷ s)
content_of _ = none

module _ (settings : Settings) (m : Models) where
  unfoldable pub agent_call : (agent chunk intent : Text) → Call
  unfolding get_completion_kwargs prompt_of submit_review_tool run_in_sandbox_tool
  agent_call agent chunk intent = record {
    kwargs = get_completion_kwargs settings settings.ai_model_map;
    messages =
        system (prompt_of agent)
        ∷ user (codes "PR INTENT:\n" ++ intent ++ codes "\n\nCODE:\n" ++ chunk)
        ∷ [];
    tools =
        submit_review_tool ∷ (if text_eq agent verification then run_in_sandbox_tool ∷ [] else []);
    tool_choice = codes "auto";
  }

  -- the call after a run in the sandbox, with its outcome
  abbrev with_outcome : Call → Message → ToolCall → Json → Call
  with_outcome call message t outcome = record call {
    messages = call.messages ++ (assistant message ∷ tool t.id outcome ∷ []);
  }

  -- The loop over the first answer's tool calls. `message` is what it last got.
  unfoldable pub run_tools : List ToolCall → Call → Message → Result Message
  unfolding parse_tool_arguments run_in_sandbox text_eq
  run_tools [] call message = ok message
  run_tools (t ∷ ts) call message =
      let skipped = run_tools ts call message in
      let run =
        parse_tool_arguments m.loads t.arguments
        >>= item (codes "script")
        >>= run_in_sandbox m.run
        >>= λ outcome.
            let next = with_outcome call message t outcome in
            m.complete next >>= run_tools ts next in
      if text_eq t.name (codes "run_in_sandbox") then run else skipped

  -- `c.agent_id = agent_id`
  abbrev pub sign : Text → ReviewResult → ReviewResult
  sign agent r = record r {
    comments = map (λ (c : ReviewComment). record c { agent_id = some agent }) r.comments;
  }

  -- the first `submit_review`
  unfoldable pub submitted : Text → List ToolCall → Result (Option ReviewResult)
  unfolding parse_tool_arguments text_eq
  submitted agent [] = ok none
  submitted agent (t ∷ ts) =
      let rest = submitted agent ts in
      if text_eq t.name (codes "submit_review")
      then (parse_tool_arguments m.loads t.arguments >>= m.validate >>= λ r.
          ok (some (sign agent r)))
      else rest

  abbrev pub parsed : Text → Result ReviewResult → Option ReviewResult
  parsed agent (ok r) = some (sign agent r)
  parsed agent (raised e) = none

  -- the review in the answer's text, or none where it has none that can be read
  unfoldable pub from_content : Text → Option Text → Option ReviewResult
  unfolding extract_json_payload
  from_content agent none = none
  from_content agent (some text) = parsed agent (extract_json_payload m.loads text >>= m.validate)

  abbrev pub or_content : Text → Message → Option ReviewResult → Option ReviewResult
  or_content agent message (some r) = some r
  or_content agent message none = from_content agent (content_of message.content)

  -- what the agent makes of its last answer
  unfoldable pub conclude : Text → Message → Result (Option ReviewResult)
  unfolding submitted from_content
  conclude agent message = do
    found ← submitted agent message.tool_calls
    ok (or_content agent message found)

  abbrev pub or_none : Result (Option ReviewResult) → Option ReviewResult
  or_none (ok r) = r
  or_none (raised e) = none

  unfoldable pub analyze_chunk_with_agent : (agent chunk intent : Text) → Option ReviewResult
  unfolding agent_call run_tools conclude
  analyze_chunk_with_agent agent chunk intent =
      let call = agent_call agent chunk intent in
      or_none (do
        first ← m.complete call
        last ← run_tools first.tool_calls call first
        conclude agent last)

-- ===== src/Ai/Coordinator.antt =====
-- `_coordinate_routing`: the agents that the coordinator picks for a chunk.
use revix.Prelude.{Text, codes, Option, some, List, [], ◌∷◌, ◌++◌}
use revix.Effects.{Result, ok, raised, exception, value_error, ◌>>=◌}
use revix.Config.{Settings}
use revix.Ai.Prompts.{coordinator_prompt}
use revix.Ai.Answers.{extract_json_payload}
use revix.Ai.Agents.{normalize_agent_ids, cap_agent_ids}
use revix.Ai.Models.{get_completion_kwargs, Message, system, user, Call, Models}

abbrev pub nonempty_content : Option Text → Result Text
nonempty_content (some (c ∷ s)) = ok (c ∷ s)
nonempty_content _ = raised (exception value_error (codes "Empty response from Coordinator"))

abbrev pub or_fallback : Result (List Text) → List Text
or_fallback (ok ids) = ids
or_fallback (raised e) = codes "ReviewAgent" ∷ codes "SecurityAgent" ∷ []

module _ (settings : Settings) (m : Models) where
  unfoldable pub routing_call : (chunk intent : Text) → Call
  unfolding get_completion_kwargs coordinator_prompt
  routing_call chunk intent = record {
    kwargs = get_completion_kwargs settings settings.ai_model_map;
    messages =
        system coordinator_prompt
        ∷ user (
            codes "Decide which agents should analyze this code chunk based on the PR intent.\n"
            ++ codes "Use a chill review profile: choose the fewest agents needed, prefer "
            ++ codes "ReviewAgent or SecurityAgent, and avoid VerificationAgent unless execution "
            ++ codes "is clearly valuable.\nPR INTENT:\n"
            ++ intent
            ++ codes "\n\nCODE CHUNK:\n"
            ++ chunk
            ++ codes "\n\nAVAILABLE AGENTS: ReviewAgent, SecurityAgent, PerformanceAgent, "
            ++ codes "VerificationAgent, PlanningAgent.\nReturn only a JSON list of agent IDs.")
        ∷ [];
    tools = [];
    tool_choice = [];
  }

  unfoldable pub routed : (chunk : Text) → Message → Result (List Text)
  unfolding extract_json_payload normalize_agent_ids cap_agent_ids
  routed chunk message = do
    content ← nonempty_content message.content
    answer ← extract_json_payload m.loads content
    ok (cap_agent_ids settings (normalize_agent_ids settings answer chunk))

  unfoldable pub coordinate_routing : (chunk intent : Text) → List Text
  unfolding routing_call routed
  coordinate_routing chunk intent =
      or_fallback (m.complete (routing_call chunk intent) >>= routed chunk)

-- ===== src/Ai/Synthesis.antt =====
-- `_reduce_summaries`: one review from those of the agents.
use revix.Prelude.{
  Text, codes, join, Json, Fields, Option, none, some, List, [], ◌∷◌, ◌++◌, if◌then◌else◌,
}
use revix.Effects.{Result, ok, raised, exception, value_error, type_error, ◌>>=◌}
use revix.Access.{item}
use revix.Config.{Settings}
use revix.Prelude.Int.{ℤ, pos}
use revix.Worker.Retry.{parse_int}
use revix.Ai.Review.{ReviewComment, ReviewResult}
use revix.Ai.Prompts.{language_directive}
use revix.Ai.Answers.{extract_json_payload, parse_tool_arguments}
use revix.Ai.Tools.{synthesize_review_tool}
use revix.Ai.Models.{get_completion_kwargs, ToolCall, Message, system, user, Call, Models}
use revix.Ai.Agent.{content_of}

module _ (settings : Settings) (m : Models) where
  unfoldable pub synthesis_call : List Text → Call
  unfolding get_completion_kwargs language_directive join synthesize_review_tool
  synthesis_call summaries = record {
    kwargs = get_completion_kwargs settings settings.ai_model_reduce;
    messages =
        system (language_directive ++ codes "Synthesize these summaries into one global review.")
        ∷ user (codes "Summaries:\n" ++ join (10 ∷ []) summaries)
        ∷ [];
    tools = synthesize_review_tool ∷ [];
    tool_choice = codes "required";
  }

  unfoldable pub fallback_call : List Text → Call
  unfolding get_completion_kwargs language_directive join
  fallback_call summaries = record {
    kwargs = get_completion_kwargs settings settings.ai_model_reduce;
    messages =
        system (language_directive ++ codes "You are a review synthesis helper. Output JSON only.")
        ∷ user (
            codes "Synthesize these summaries into one global review.\n"
            ++ codes "You must respond with a JSON object containing:\n"
            ++ codes "- 'global_summary': a string summary of the changes\n"
            ++ codes "- 'global_score': an integer score from 0 to 100\n\nSummaries:\n"
            ++ join (10 ∷ []) summaries)
        ∷ [];
    tools = [];
    tool_choice = [];
  }

  abbrev pub first_call : List ToolCall → Result ToolCall
  first_call [] = raised (exception type_error (codes "'NoneType' object is not subscriptable"))
  first_call (t ∷ ts) = ok t

  -- the answer to the call with a tool
  unfoldable pub synthesized : List ReviewComment → Message → Result ReviewResult
  unfolding parse_tool_arguments
  synthesized comments message = do
    t ← first_call message.tool_calls
    output ← parse_tool_arguments m.loads t.arguments
    summary ← item (codes "global_summary") output
    score ← item (codes "global_score") output
    m.construct summary score comments

  abbrev int_text : Option ℤ → Result Json
  int_text none = raised (exception value_error (codes "invalid literal for int() with base 10"))
  int_text (some z) = ok (Json.num z)

  -- `int(score)`
  unfoldable pub int_of : Json → Result Json
  unfolding parse_int
  int_of (Json.num z) = ok (Json.num z)
  int_of (Json.bool b) = ok (Json.num (pos (if b then 1 else 0)))
  int_of (Json.float s) = m.int_of_float s
  int_of (Json.str s) = int_text (parse_int s)
  int_of _ = raised (exception type_error (codes "int() argument must be a string or a number"))

  abbrev no_review : Result ReviewResult
  no_review = raised (exception value_error [])

  -- the answer to the call without a tool; without a text it counts for nothing
  unfoldable pub read_synthesis : List ReviewComment → Option Text → Result ReviewResult
  unfolding extract_json_payload int_of
  read_synthesis comments none = no_review
  read_synthesis comments (some text) = do
    output ← extract_json_payload m.loads text
    summary ← item (codes "global_summary") output
    given ← item (codes "global_score") output
    score ← int_of given
    m.construct summary score comments

  abbrev pub or_failed : List ReviewComment → Result ReviewResult → ReviewResult
  or_failed comments (ok r) = r
  or_failed comments (raised e) = record {
    summary = codes "Synthesis failed.";
    score = 0;
    comments = comments;
    agent_reports = Json.obj Fields.end;
  }

  abbrev pub or_else : Result ReviewResult → Result ReviewResult → Result ReviewResult
  or_else (ok r) other = ok r
  or_else (raised e) other = other

  unfoldable pub reduce_summaries : List Text → List ReviewComment → ReviewResult
  unfolding synthesis_call fallback_call synthesized read_synthesis
  reduce_summaries summaries comments = or_failed comments (
      or_else (m.complete (synthesis_call summaries) >>= synthesized comments) (
        m.complete (fallback_call summaries) >>= λ message.
        read_synthesis comments (content_of message.content)))

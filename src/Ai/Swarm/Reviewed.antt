-- ===== src/Ai/Swarm/Reviewed.antt =====
-- What `analyze_diff` returns, whatever the models answer.
use revix.Prelude.{
  ◌≤◌, Bool-cases, inl, inr, Text, Json, ◌≡◌, refl, sym, subst, Option, none, some, List, [], ◌∷◌,
  map, arith, All, All-append, text_eq, codes,
}
use revix.Effects.{Result, ok, raised, OnOk, ◌>>=◌}
use revix.Access.{item}
use revix.Config.{Settings}
use revix.Ai.Answers.{extract_json_payload, parse_tool_arguments}
use revix.Ai.Review.{ReviewComment, ReviewResult}
use revix.Ai.Syntax.{Toolkit}
use revix.Ai.Files.{PrFile, build_review_chunks}
use revix.Ai.Models.{ToolCall, Message, Models, IsComment, IsReview, IsChecked}
use revix.Ai.Agent.{
  sign, submitted, parsed, from_content, or_content, content_of, conclude, or_none, run_tools,
  analyze_chunk_with_agent,
}
use revix.Ai.Synthesis.{
  first_call, synthesized, int_of, read_synthesis, or_failed, or_else, reduce_summaries,
}
use revix.Ai.Swarm.{add_result, run_agents, all_comments, review_jobs, intent_of, analyze_diff}
use revix.Ai.Swarm.Routed.{IsAgent, RunsAgent, agent_jobs-IsAgent}

-- a comment that satisfies the constraints, of an agent that exists
pub record IsSigned (c : ReviewComment) : Type 0 where
  pub sound : IsComment c
  pub by_agent : (agent : Text) × (c.agent_id ≡ some agent) × IsAgent agent

abbrev AllSigned : ReviewResult → Type 0
AllSigned r = All IsSigned r.comments

-- a property of the review, if there is one
abbrev OnSome : (ReviewResult → Type 0) → Option ReviewResult → Type 0
OnSome P none = Unit
OnSome P (some r) = P r

OnOk-bind :
    {A B : Type 0} (P : B → Type 0) (r : Result A) (f : A → Result B)
    → ((a : A) → OnOk P (f a))
    → OnOk P (r >>= f)
OnOk-bind P (ok a) f h = h a
OnOk-bind P (raised e) f h = tt

-- The same, with a postcondition of the first call.
OnOk-then :
    {A B : Type 0} (Q : A → Type 0) (P : B → Type 0) (r : Result A) (f : A → Result B)
    → OnOk Q r
    → ((a : A) → Q a → OnOk P (f a))
    → OnOk P (r >>= f)
OnOk-then Q P (ok a) f q h = h a q
OnOk-then Q P (raised e) f q h = tt

module _ (settings : Settings) (m : Models) (checked : IsChecked m) where
  sign-AllSigned :
      (agent : Text) (cs : List ReviewComment)
      → IsAgent agent
      → All IsComment cs
      → All IsSigned (map (λ (c : ReviewComment). record c { agent_id = some agent }) cs)
  sign-AllSigned agent [] known h = tt
  sign-AllSigned agent (c ∷ cs) known h = (
    record {
      sound = record {
        placed = h.0.placed;
        lined = h.0.lined;
        sided = h.0.sided;
        ranked = h.0.ranked;
      };
      by_agent = (agent, refl, known);
    },
    sign-AllSigned agent cs known h.1,
  )

  submitted-Signed :
      (agent : Text) (ts : List ToolCall)
      → IsAgent agent
      → OnOk (OnSome AllSigned) (submitted settings m agent ts)
  unfolding submitted
  submitted-Signed agent [] known = tt
  submitted-Signed agent (t ∷ ts) known =
      elim (Bool-cases (text_eq t.name (codes "submit_review"))) [
        | inl e ↦ rw e (
            OnOk-then IsReview (OnSome AllSigned)
              (parse_tool_arguments m.loads t.arguments >>= m.validate)
              (λ r. ok (some (sign settings m agent r)))
              (OnOk-bind IsReview (parse_tool_arguments m.loads t.arguments) m.validate
                checked.validated)
              λ r h. sign-AllSigned agent r.comments known h.commented)
        | inr e ↦ rw e (submitted-Signed agent ts known)
      ]

  parsed-Signed :
      (agent : Text) (r : Result ReviewResult)
      → IsAgent agent
      → OnOk IsReview r
      → OnSome AllSigned (parsed settings m agent r)
  parsed-Signed agent (ok r) known h = sign-AllSigned agent r.comments known h.commented
  parsed-Signed agent (raised e) known h = tt

  from_content-Signed :
      (agent : Text) (o : Option Text)
      → IsAgent agent
      → OnSome AllSigned (from_content settings m agent o)
  unfolding from_content
  from_content-Signed agent none known = tt
  from_content-Signed agent (some text) known =
      parsed-Signed agent _ known
        (OnOk-bind IsReview (extract_json_payload m.loads text) m.validate checked.validated)

  or_content-Signed :
      (agent : Text) (message : Message) (o : Option ReviewResult)
      → IsAgent agent
      → OnSome AllSigned o
      → OnSome AllSigned (or_content settings m agent message o)
  or_content-Signed agent message none known h =
      from_content-Signed agent (content_of message.content) known
  or_content-Signed agent message (some r) known h = h

  conclude-Signed :
      (agent : Text) (message : Message)
      → IsAgent agent
      → OnOk (OnSome AllSigned) (conclude settings m agent message)
  unfolding conclude
  conclude-Signed agent message known =
      OnOk-then (OnSome AllSigned) (OnSome AllSigned)
        (submitted settings m agent message.tool_calls) _
        (submitted-Signed agent message.tool_calls known)
        λ o h. or_content-Signed agent message o known h

  or_none-Signed :
      (r : Result (Option ReviewResult))
      → OnOk (OnSome AllSigned) r
      → OnSome AllSigned (or_none settings m r)
  or_none-Signed (ok o) h = h
  or_none-Signed (raised e) h = tt

  agent-Signed :
      (agent chunk intent : Text)
      → IsAgent agent
      → OnSome AllSigned (analyze_chunk_with_agent settings m agent chunk intent)
  unfolding analyze_chunk_with_agent
  agent-Signed agent chunk intent known = or_none-Signed _ (
      OnOk-bind (OnSome AllSigned) (m.complete _) _ λ first.
        OnOk-bind (OnSome AllSigned) (run_tools settings m first.tool_calls _ first) _
          λ last. conclude-Signed agent last known)

  add_result-Signed :
      (o : Option ReviewResult) (rs : List ReviewResult)
      → OnSome AllSigned o
      → All AllSigned rs
      → All AllSigned (add_result settings m o rs)
  add_result-Signed none rs h hs = hs
  add_result-Signed (some r) rs h hs = (h, hs)

  run_agents-Signed :
      (intent : Text) (jobs : List (Text × Text))
      → All (RunsAgent settings m) jobs
      → All AllSigned (run_agents settings m intent jobs)
  unfolding run_agents
  run_agents-Signed intent [] h = tt
  run_agents-Signed intent ((agent, chunk) ∷ jobs) h =
      add_result-Signed (analyze_chunk_with_agent settings m agent chunk intent)
        (run_agents settings m intent jobs) (agent-Signed agent chunk intent h.0)
        (run_agents-Signed intent jobs h.1)

  all_comments-Signed :
      (rs : List ReviewResult) → All AllSigned rs → All IsSigned (all_comments settings m rs)
  all_comments-Signed [] h = tt
  all_comments-Signed (r ∷ rs) h = All-append IsSigned r.comments _ h.0 (all_comments-Signed rs h.1)

  -- the comments of a synthesis are those that it was given
  abbrev Keeps : List ReviewComment → ReviewResult → Type 0
  Keeps cs r = (r.score ≤ 100) × (r.comments ≡ cs)

  synthesized-Keeps :
      (cs : List ReviewComment) (message : Message)
      → OnOk (Keeps cs) (synthesized settings m cs message)
  unfolding synthesized
  synthesized-Keeps cs message =
      OnOk-bind (Keeps cs) (first_call settings m message.tool_calls) _ λ t.
        OnOk-bind (Keeps cs) (parse_tool_arguments m.loads t.arguments) _ λ output.
          OnOk-bind (Keeps cs) (item (codes "global_summary") output) _ λ summary.
            OnOk-bind (Keeps cs) (item (codes "global_score") output) _
              λ score. checked.constructed summary score cs

  read_synthesis-Keeps :
      (cs : List ReviewComment) (o : Option Text) → OnOk (Keeps cs) (read_synthesis settings m cs o)
  unfolding read_synthesis
  read_synthesis-Keeps cs none = tt
  read_synthesis-Keeps cs (some text) =
      OnOk-bind (Keeps cs) (extract_json_payload m.loads text) _ λ output.
        OnOk-bind (Keeps cs) (item (codes "global_summary") output) _ λ summary.
          OnOk-bind (Keeps cs) (item (codes "global_score") output) _ λ given.
            OnOk-bind (Keeps cs) (int_of settings m given) _
              λ score. checked.constructed summary score cs

  or_failed-Keeps :
      (cs : List ReviewComment) (r : Result ReviewResult)
      → OnOk (Keeps cs) r
      → Keeps cs (or_failed settings m cs r)
  or_failed-Keeps cs (ok r) h = h
  or_failed-Keeps cs (raised e) h = (omega arith, refl)

  or_else-Keeps :
      (cs : List ReviewComment) (r other : Result ReviewResult)
      → OnOk (Keeps cs) r
      → OnOk (Keeps cs) other
      → OnOk (Keeps cs) (or_else settings m r other)
  or_else-Keeps cs (ok r) other h h' = h
  or_else-Keeps cs (raised e) other h h' = h'

  reduce_summaries-Keeps :
      (summaries : List Text) (cs : List ReviewComment)
      → Keeps cs (reduce_summaries settings m summaries cs)
  unfolding reduce_summaries
  reduce_summaries-Keeps summaries cs = or_failed-Keeps cs _ (
      or_else-Keeps cs _ _
        (OnOk-bind (Keeps cs) (m.complete _) (synthesized settings m cs) (synthesized-Keeps cs))
        (OnOk-bind (Keeps cs) (m.complete _) _
          λ message. read_synthesis-Keeps cs (content_of message.content)))

  review_jobs-Signed :
      (intent : Text) (jobs : List (Text × Text))
      → All (RunsAgent settings m) jobs
      → let r = review_jobs settings m intent jobs in (r.score ≤ 100) × All IsSigned r.comments
  unfolding review_jobs
  review_jobs-Signed intent [] h = (omega arith, tt)
  review_jobs-Signed intent (job ∷ jobs) h =
      let results = run_agents settings m intent (job ∷ jobs) in
      let (scored, kept) =
        reduce_summaries-Keeps (map (λ (r : ReviewResult). r.summary) results)
          (all_comments settings m results) in
      (
        scored,
        subst (All IsSigned) (sym kept)
            (all_comments-Signed results (run_agents-Signed intent (job ∷ jobs) h)),
      )

  -- If pydantic checks the fields as documented, then the review that `analyze_diff` returns,
  -- whatever the models answer, has a score of at most 100, and each of its comments satisfies
  -- the constraints of its fields and names one of the known agents.
  pub analyze_diff_lem :
      (kit : Toolkit) (files : List PrFile) (details : Json)
      → let r = analyze_diff settings m kit files details in
        (r.score ≤ 100) × All IsSigned r.comments
  unfolding analyze_diff
  analyze_diff_lem kit files details =
      review_jobs-Signed (intent_of details) _
        (agent_jobs-IsAgent settings m (intent_of details) (build_review_chunks kit settings files))

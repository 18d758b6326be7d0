-- ===== src/Ai/Swarm/Routed.antt =====
-- Who reviews what: the agents that `analyze_diff` runs, whatever the coordinator answers.
use revix.Prelude.{
  ℕ, zero, suc, ◌*◌, ◌≤◌, max, Text, ◌≡◌, refl, inl, inr, true, List, [], ◌∷◌, arith, length,
  length-append, length-take, take, All, All-append, All-sort, leb, Bool-cases, sort,
}
use revix.Effects.{Result, ok, raised, ◌>>=◌}
use revix.Config.{Settings}
use revix.Ai.Agents.{is_valid_agent, more_urgent, cap_agent_ids}
use revix.Ai.Agents.Routing.{normalize_agent_ids-IsRouting, cap_agent_ids_lem}
use revix.Ai.Answers.{extract_json_payload}
use revix.Ai.Syntax.{Toolkit}
use revix.Ai.Files.{PrFile, collect, ranked_files, max_chunks, build_review_chunks}
use revix.Ai.Models.{Message, Models}
use revix.Ai.Coordinator.{nonempty_content, or_fallback, routed, coordinate_routing}
use revix.Ai.Swarm.{jobs_of, agent_jobs}

abbrev pub IsAgent : Text → Type 0
IsAgent a = is_valid_agent a ≡ true

All-take : (n : ℕ) (xs : List Text) → All IsAgent xs → All IsAgent (take n xs)
All-take zero xs h = tt
All-take (suc n) [] h = tt
All-take (suc n) (x ∷ xs) h = (h.0, All-take n xs h.1)

module _ (settings : Settings) where
  cap_agent_ids-IsAgent :
      (xs : List Text) → All IsAgent xs → All IsAgent (cap_agent_ids settings xs)
  unfolding cap_agent_ids
  cap_agent_ids-IsAgent xs h =
      elim (Bool-cases (leb (length xs) settings.review_max_agents_per_chunk)) [
        | inl e ↦ rw e h
        | inr e ↦ rw e (All-take _ (sort more_urgent xs) (All-sort more_urgent IsAgent xs h))
      ]

-- a chain of calls of which each may fail
or_fallback_bind :
    {A : Type 0} (r : Result A) (f : A → Result (List Text))
    → ((a : A) → All IsAgent (or_fallback (f a)))
    → All IsAgent (or_fallback (r >>= f))
unfolding is_valid_agent
or_fallback_bind (ok a) f h = h a
or_fallback_bind (raised e) f h = (refl, (refl, tt))

module _ (settings : Settings) (m : Models) where
  routed-IsAgent :
      (chunk : Text) (message : Message)
      → All IsAgent (or_fallback (routed settings m chunk message))
  unfolding routed
  routed-IsAgent chunk message = or_fallback_bind (nonempty_content message.content) _ λ content.
      or_fallback_bind (extract_json_payload m.loads content) _ λ answer.
        cap_agent_ids-IsAgent settings _ (normalize_agent_ids-IsRouting settings answer chunk).known

  coordinate_routing-IsAgent :
      (chunk intent : Text) → All IsAgent (coordinate_routing settings m chunk intent)
  unfolding coordinate_routing
  coordinate_routing-IsAgent chunk intent =
      or_fallback_bind (m.complete _) (routed settings m chunk) (routed-IsAgent chunk)

  abbrev pub RunsAgent : Text × Text → Type 0
  RunsAgent (agent, chunk) = IsAgent agent

  jobs_of-IsAgent :
      (chunk : Text) (agents : List Text)
      → All IsAgent agents
      → All RunsAgent (jobs_of settings m chunk agents)
  jobs_of-IsAgent chunk [] h = tt
  jobs_of-IsAgent chunk (a ∷ agents) h = (h.0, jobs_of-IsAgent chunk agents h.1)

  pub agent_jobs-IsAgent :
      (intent : Text) (chunks : List Text) → All RunsAgent (agent_jobs settings m intent chunks)
  unfolding agent_jobs
  agent_jobs-IsAgent intent [] = tt
  agent_jobs-IsAgent intent (chunk ∷ chunks) =
      All-append RunsAgent _ _
        (jobs_of-IsAgent chunk _
          (cap_agent_ids-IsAgent settings _ (coordinate_routing-IsAgent chunk intent)))
        (agent_jobs-IsAgent intent chunks)

  length-jobs_of :
      (chunk : Text) (agents : List Text) → length (jobs_of settings m chunk agents) ≡ length agents
  length-jobs_of chunk [] = refl
  length-jobs_of chunk (a ∷ agents) = omega (arith, length-jobs_of chunk agents)

  length-agent_jobs :
      (intent : Text) (chunks : List Text)
      → length (agent_jobs settings m intent chunks)
        ≤ length chunks * settings.review_max_agents_per_chunk
  unfolding agent_jobs
  length-agent_jobs intent [] = omega arith
  length-agent_jobs intent (chunk ∷ chunks) =
      let agents = coordinate_routing settings m chunk intent in
      let first = jobs_of settings m chunk (cap_agent_ids settings agents) in
      let (_, capped, _, _) = cap_agent_ids_lem settings agents in
      grind (
        arith,
        length-append first (agent_jobs settings m intent chunks),
        length-jobs_of chunk (cap_agent_ids settings agents),
        capped,
        length-agent_jobs intent chunks,
      )

  length-build_review_chunks :
      (kit : Toolkit) (files : List PrFile)
      → length (build_review_chunks kit settings files) ≤ max_chunks settings
  unfolding build_review_chunks
  length-build_review_chunks kit files = omega (
    arith,
    length-take (max_chunks settings) (collect kit (max_chunks settings) [] (ranked_files files)),
  )

  -- For one pull request, whatever the coordinator answers, the number of agent calls is at most
  -- REVIEW_MAX_AGENTS_PER_CHUNK times REVIEW_MAX_CHUNKS, or times one where that is zero.
  pub agent_jobs-le :
      (kit : Toolkit) (files : List PrFile) (intent : Text)
      → length (agent_jobs settings m intent (build_review_chunks kit settings files))
        ≤ max settings.review_max_chunks 1 * settings.review_max_agents_per_chunk
  agent_jobs-le kit files intent = grind (
    arith,
    length-agent_jobs intent (build_review_chunks kit settings files),
    length-build_review_chunks kit files,
  )

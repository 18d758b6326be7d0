-- ===== src/Ai/Agents.antt =====
-- `normalize_agent_ids` and `cap_agent_ids`: from what the coordinator model answers to the agents
-- that run.
pub mod Routing
use revix.Prelude.{
  ℕ, ◌+◌, ◌≤◌, Text, codes, text_eq, text_eq_iff, contains, Json, Items, items, get_field, ◌≡◌,
  refl, sym, ap, ◌≢◌, inl, inr, Bool, true, false, not, ◌&&◌, ◌||◌, Option, none, some, List, [],
  ◌∷◌, ◌++◌, arith, length, take, any, All, All-map, All-append, ltb, leb, if◌then◌else◌,
  Bool-cases, sort, select_where,
}
use revix.Config.{Settings}

abbrev pub valid_agent_ids : List Text
valid_agent_ids =
    codes "ReviewAgent"
    ∷ codes "SecurityAgent"
    ∷ codes "PerformanceAgent"
    ∷ codes "PlanningAgent"
    ∷ codes "VerificationAgent"
    ∷ []

unfoldable pub is_valid_agent : Text → Bool
unfolding text_eq
is_valid_agent a = any (text_eq a) valid_agent_ids

-- `agent for agent in agents if isinstance(agent, str) and agent in VALID_AGENT_IDS`
unfoldable pub valid_agents : List Json → List Text
unfolding is_valid_agent
valid_agents [] = []
valid_agents (Json.str a ∷ js) = if is_valid_agent a then a ∷ valid_agents js else valid_agents js
valid_agents (_ ∷ js) = valid_agents js

abbrev pub review_only : List Json
review_only = Json.str (codes "ReviewAgent") ∷ []

-- `agents if isinstance(agents, list) else ["ReviewAgent"]`
abbrev pub as_list : Json → List Json
as_list (Json.arr xs) = items xs
as_list _ = review_only

abbrev or_review : Option Json → Json
or_review none = Json.arr (Items.cons (Json.str (codes "ReviewAgent")) Items.nil)
or_review (some j) = j

-- `agents.get("agents", ["ReviewAgent"])` of a dict
unfoldable pub answered : Json → Json
unfolding get_field
answered (Json.obj fs) = or_review (get_field (codes "agents") fs)
answered j = j

abbrev pub or_default : List Text → List Text
or_default [] = codes "ReviewAgent" ∷ []
or_default (a ∷ ids) = a ∷ ids

abbrev pub includes : List Text → Text → Bool
includes ids a = any (text_eq a) ids

abbrev pub verification : Text
verification = codes "VerificationAgent"

unfoldable pub forces_verification : Settings → Text → Bool
unfolding text_eq contains
forces_verification settings chunk =
    not (text_eq settings.review_profile (codes "chill"))
    && (contains chunk (codes "import ") || contains chunk (codes "def "))

abbrev pub with_verification : Bool → List Text → List Text
with_verification force ids =
    if force && not (includes ids verification) then ids ++ verification ∷ [] else ids

-- `list(dict.fromkeys(xs))`: the first of each value, in order; `seen` is what stands before
unfoldable pub unique : (seen : List Text) → List Text → List Text
unique seen [] = []
unique seen (a ∷ ids) =
    let rest = unique (a ∷ seen) ids in
    let skipped = unique seen ids in if includes seen a then skipped else a ∷ rest

unfoldable pub normalize_agent_ids : Settings → Json → Text → List Text
unfolding valid_agents answered forces_verification unique
normalize_agent_ids settings agents chunk = unique [] (
    with_verification (forces_verification settings chunk)
      (or_default (valid_agents (as_list (answered agents)))))

-- the dict `priority`, and 99 for what it lacks
unfoldable pub priority : Text → ℕ
unfolding text_eq
priority a =
    if text_eq a (codes "SecurityAgent")
    then 0
    else if text_eq a (codes "ReviewAgent")
    then 1
    else if text_eq a (codes "PlanningAgent")
    then 2
    else if text_eq a (codes "PerformanceAgent")
    then 3
    else if text_eq a (codes "VerificationAgent")
    then 4
    else 99

abbrev pub more_urgent : Text → Text → Bool
more_urgent a b = ltb (priority a) (priority b)

unfoldable pub cap_agent_ids : Settings → List Text → List Text
unfolding priority sort
cap_agent_ids settings agents =
    if leb (length agents) settings.review_max_agents_per_chunk
    then agents
    else take settings.review_max_agents_per_chunk (sort more_urgent agents)

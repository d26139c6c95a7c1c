-- ===== src/Agent/Generation/Orchestrator.antt =====
-- domains/agent/orchestrator.rs: the steps in their order, with statistics and events.
use atlas_of_us.Text.{format}
use atlas_of_us.Agent.Registry.Defs.{
  CreatedNode, is_reused, count_reused, is_created, DomainGraphRegistry,
}
use atlas_of_us.Prelude.{
  ◌^◌, ◌%◌, [], if◌then◌else◌, some, suc, ◌++◌, filter, none, ◌+◌, List, Option, String, length, ℕ,
  ◌∷◌,
}
use atlas_of_us.Floats.{ge_f64, Floats}
use atlas_of_us.Effects.Defs.{unwrap_or, err, ok, Result}
use atlas_of_us.Agent.Generation.Models.{
  AgentType, domain_architect, knowledge_generator, skill_generator, trait_generator,
  milestone_generator, level_distributor, prerequisite_mapper, display_name, DomainStatistics,
  no_statistics, SseEvent, started, domain_exists, agent_started, agent_completed, agent_failed,
  completed, failed, Abort, fault, panicked, AgentContext, new_context, DomainGenerationResult,
  Similar,
}

-- The steps of a generation, in their order.
unfoldable pub agents : List AgentType
agents =
    domain_architect ∷ knowledge_generator ∷ skill_generator ∷ trait_generator ∷ milestone_generator
    ∷ level_distributor ∷ prerequisite_mapper ∷ []

-- What executing a step leaves: its outcome, the context that it wrote, its events in order, and
-- the state of everything outside.
pub record StepRun (F W : Type 0) : Type 0 where
  pub outcome : Result Abort (Unit {0})
  pub context : AgentContext
  pub events : List (SseEvent F)
  pub world : W

-- The trait AgentStep, one implementation for each agent; the search for similar nodes of a label;
-- and the clock.
pub record Generation : Type 1 where
  pub floats : Floats
  pub World : Type 0
  pub execute : AgentType → AgentContext → World → StepRun floats.F64 World
  pub find_similar : String → String → ℕ → World → Result String (List (Similar floats.F64)) × World
  pub elapsed : World → ℕ

-- One for a domain that is there.
abbrev pub domain_count : Option CreatedNode → ℕ
domain_count none = 0
domain_count (some _) = 1

abbrev pub count_nodes : List CreatedNode → ℕ × ℕ
count_nodes nodes = (length (filter is_created nodes), length (filter is_reused nodes))

unfoldable pub count_agent_nodes : AgentType → AgentContext → ℕ × ℕ
count_agent_nodes domain_architect context =
    (length context.domain_graph.domain_levels + domain_count context.domain_graph.domain, 0)
count_agent_nodes knowledge_generator context = count_nodes context.domain_graph.knowledge
count_agent_nodes skill_generator context = count_nodes context.domain_graph.skills
count_agent_nodes trait_generator context = count_nodes context.domain_graph.traits
count_agent_nodes milestone_generator context = count_nodes context.domain_graph.milestones
count_agent_nodes level_distributor context = (0, 0)
count_agent_nodes prerequisite_mapper context = (0, 0)

unfoldable pub update_stats : DomainStatistics → AgentType → AgentContext → DomainStatistics
update_stats stats domain_architect context = record stats {
  domain_levels_created = length context.domain_graph.domain_levels;
}
update_stats stats knowledge_generator context = record stats {
  knowledge_created = length (filter is_created context.domain_graph.knowledge);
}
update_stats stats skill_generator context = record stats {
  skills_created = length (filter is_created context.domain_graph.skills);
}
update_stats stats trait_generator context = record stats {
  traits_created = length (filter is_created context.domain_graph.traits);
}
update_stats stats milestone_generator context = record stats {
  milestones_created = length (filter is_created context.domain_graph.milestones);
}
update_stats stats level_distributor context = stats
update_stats stats prerequisite_mapper context = stats

module _ (g : Generation) where
  abbrev pub Score : Type 0
  Score = g.floats.F64

  -- The name of the first similar domain, where its score is at least 0.85.
  abbrev pub existing_of : List (Similar Score) → Option String
  existing_of [] = none
  existing_of (top ∷ rest) =
      if ge_f64 g.floats top.score (g.floats.hundredths 85) then some top.name else none

  abbrev pub existing_result : Result String (List (Similar Score)) → Result String (Option String)
  existing_result (ok similar) = ok (existing_of similar)
  existing_result (err e) = err (format ("Similarity search failed: " ∷ e ∷ []))

  unfoldable pub check_domain_exists : String → g.World → Result String (Option String) × g.World
  check_domain_exists domain_name w =
      let (similar, w') = g.find_similar domain_name "Domain" 1 w in (existing_result similar, w')

  -- What a run of agents leaves: the context and the statistics, or the failure; the events; and
  -- the world.
  abbrev pub Run : Type 0 → Type 0
  Run A = Result Abort A × List (SseEvent Score) × g.World

  -- The events after a step that failed; a panic ends the task before it sends any.
  abbrev pub failure_events : AgentType → Abort → DomainGraphRegistry → List (SseEvent Score)
  failure_events agent (fault e) partial =
      agent_failed agent e ∷ failed e (some agent) (some partial) ∷ []
  failure_events agent panicked partial = []

  -- The events of one agent before the rest of the run, by the outcome of its step.
  abbrev pub after_step :
      AgentType
      → ℕ
      → StepRun Score g.World
      → Run (AgentContext × DomainStatistics)
      → Run (AgentContext × DomainStatistics)
  after_step agent number run rest = elim run.outcome [
    | ok u ↦
        let (created, reused) = count_agent_nodes agent run.context in
        let (result, events, w) = rest in
        (
          result,
          agent_started agent number (display_name agent)
              ∷ (run.events ++ agent_completed agent created reused ∷ events),
          w,
        )
    | err f ↦ (
      err f,
      agent_started agent number (display_name agent)
          ∷ (run.events ++ failure_events agent f run.context.domain_graph),
      run.world,
    )
  ]

  -- The loop over the agents and their indices; the number of an agent is a `u8`.
  unfoldable pub run_agents :
      ℕ
      → List AgentType
      → AgentContext
      → DomainStatistics
      → g.World
      → Run (AgentContext × DomainStatistics)
  run_agents idx [] context stats w = (ok (context, stats), [], w)
  run_agents idx (agent ∷ later) context stats w =
      let run = g.execute agent context w in
      let rest =
        run_agents (suc idx) later run.context (update_stats stats agent run.context) run.world in
      after_step agent ((idx + 1) % 2 ^ 8) run rest

  -- The end of a generation, by the outcome of its agents.
  abbrev pub finish : String → Run (AgentContext × DomainStatistics) → Run DomainGenerationResult
  finish domain_name (err e, events, w) = (err e, events, w)
  finish domain_name (ok (context, stats), events, w) =
      let final = record stats {
        generation_time_ms = g.elapsed w;
        nodes_reused = count_reused context.domain_graph;
      } in
      (
        ok (record {
          domain_name = domain_name;
          domain_element_id = unwrap_or context.domain_element_id "";
          domain_graph = context.domain_graph;
          statistics = final;
        }),
        events ++ completed domain_name final ∷ [],
        w,
      )

  abbrev pub prepend : {A : Type 0} → SseEvent Score → Run A → Run A
  prepend event (r, events, w) = (r, event ∷ events, w)

  -- The generation after the search for a similar domain.
  abbrev pub generate_unless :
      String → Option String → Result String (Option String) → g.World → Run DomainGenerationResult
  generate_unless domain_name description (err e) w = (err (fault e), [], w)
  generate_unless domain_name description (ok (some existing)) w = (
    err (
        fault (
          format (
            "A similar domain '" ∷ existing ∷ "' already exists. Please choose a different name."
            ∷ []))),
    domain_exists domain_name existing ∷ [],
    w,
  )
  generate_unless domain_name description (ok none) w = prepend (started domain_name 7) (
      finish domain_name
        (run_agents 0 agents (new_context domain_name description) no_statistics w))

  unfoldable pub generate_domain : String → Option String → g.World → Run DomainGenerationResult
  unfolding run_agents check_domain_exists
  generate_domain domain_name description w =
      let (existing, w') = check_domain_exists domain_name w in
      generate_unless domain_name description existing w'

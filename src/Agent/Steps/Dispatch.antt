-- ===== src/Agent/Steps/Dispatch.antt =====
-- The seven steps as the orchestrator runs them (domains/agent/orchestrator.rs).
use atlas_of_us.Graph.Models.{pos}
use atlas_of_us.Agent.Steps.Skills.{execute_skill}
use atlas_of_us.Agent.Steps.Prerequisites.{execute_prerequisite}
use atlas_of_us.Agent.Steps.Levels.{execute_level}
use atlas_of_us.Agent.Steps.Milestones.{execute_milestone}
use atlas_of_us.Agent.Steps.Traits.{execute_trait}
use atlas_of_us.Agent.Steps.Generators.{execute_knowledge}
use atlas_of_us.Agent.Steps.Architect.{execute_architect}
use atlas_of_us.Agent.Generation.Orchestrator.{StepRun, Generation}
use atlas_of_us.Effects.Defs.{Result}
use atlas_of_us.Agent.Generation.Models.{
  domain_architect, knowledge_generator, skill_generator, trait_generator, milestone_generator,
  level_distributor, prerequisite_mapper, knowledge_generator, domain_architect, Abort,
  AgentContext, AgentType,
}
use atlas_of_us.Agent.Steps.Environment.{State, Step, StepEnvironment}
use atlas_of_us.Prelude.{none, some, []}

module _ (env : StepEnvironment) where
  unfoldable pub step_of : AgentType → Step env (Unit {0})
  step_of domain_architect = execute_architect env
  step_of knowledge_generator = execute_knowledge env
  step_of skill_generator = execute_skill env
  step_of trait_generator = execute_trait env
  step_of milestone_generator = execute_milestone env
  step_of level_distributor = execute_level env
  step_of prerequisite_mapper = execute_prerequisite env

  abbrev pub initial : AgentContext → env.World → State env
  initial context w = record { context = context; events = []; world = w }

  abbrev pub run_of : Result Abort (Unit {0}) × State env → StepRun env.floats.F64 env.World
  run_of (outcome, s) = record {
    outcome = outcome;
    context = s.context;
    events = s.events;
    world = s.world;
  }

  unfoldable pub execute_step :
      AgentType → AgentContext → env.World → StepRun env.floats.F64 env.World
  unfolding step_of
  execute_step agent context w = run_of (step_of agent (initial context w))

  -- The generation with these steps, and its search for similar domains.
  unfoldable pub generation : Generation
  unfolding execute_step
  generation = record {
    floats = env.floats;
    World = env.World;
    execute = execute_step;
    find_similar = λ name label limit. env.find_similar_nodes (record {
      node_id = none;
      embedding = none;
      text = some name;
      label = some label;
      limit = some (pos limit);
    });
    elapsed = env.elapsed_ms;
  }

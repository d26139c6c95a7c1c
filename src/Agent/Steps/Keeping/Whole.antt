-- ===== src/Agent/Steps/Keeping/Whole.antt =====
-- The seven steps obey the laws on which the orchestrator's theorems rest.
use atlas_of_us.Agent.Registry.Defs.{DomainGraphRegistry}
use atlas_of_us.Agent.Steps.Keeping.Traits.{execute_milestone-Stays, execute_trait-Stays}
use atlas_of_us.Agent.Steps.Keeping.Generators.{execute_skill-Stays, execute_knowledge-Stays}
use atlas_of_us.Agent.Steps.Keeping.Relations.{
  execute_prerequisite-Stays, execute_level-Stays, execute_architect-Stays,
}
use atlas_of_us.Effects.Defs.{ok}
use atlas_of_us.Agent.Steps.Within.{owned, Stays, Within}
use atlas_of_us.Agent.Generation.Orchestrator.{generate_domain}
use atlas_of_us.Agent.Generation.Protocol.{generate_domain-Course, StepsReport, Course, marks}
use atlas_of_us.Agent.Generation.Statistics.{
  nodes_of, generate_domain-IsCounted, IsCounted, LaterAgentsKeep,
}
use atlas_of_us.Agent.Steps.Dispatch.{step_of, initial, generation}
use atlas_of_us.Agent.Steps.Environment.{State, StepEnvironment}
use atlas_of_us.Agent.Generation.Models.{
  DomainGenerationResult, order, AgentType, domain_architect, knowledge_generator, skill_generator,
  trait_generator, milestone_generator, level_distributor, prerequisite_mapper,
}
use atlas_of_us.Prelude.{String, ◌≡◌, refl, sym, ap, ◌∙◌, Option, arith}

-- Whatever its services answer, and whether it returns, fails or panics, the step of each agent
-- leaves the nodes of all other agents in the registry as they were, the domain and its levels
-- being the nodes of the architect, and sends none of the events that mark the course of the
-- generation.
pub step_of-Within :
    (env : StepEnvironment) (t : AgentType) (s : State env) → Within t s (step_of env t s).1
step_of-Within env t s = (go t).at s
  where
    go : (t : AgentType) → Stays t (step_of env t)
    go domain_architect = unfold step_of in execute_architect-Stays env
    go knowledge_generator = unfold step_of in execute_knowledge-Stays env
    go skill_generator = unfold step_of in execute_skill-Stays env
    go trait_generator = unfold step_of in execute_trait-Stays env
    go milestone_generator = unfold step_of in execute_milestone-Stays env
    go level_distributor = unfold step_of in execute_level-Stays env
    go prerequisite_mapper = unfold step_of in execute_prerequisite-Stays env

owned-nodes_of : (u : AgentType) (r : DomainGraphRegistry) → (owned u r).1 ≡ nodes_of u r
owned-nodes_of domain_architect r = refl
owned-nodes_of knowledge_generator r = refl
owned-nodes_of skill_generator r = refl
owned-nodes_of trait_generator r = refl
owned-nodes_of milestone_generator r = refl
owned-nodes_of level_distributor r = refl
owned-nodes_of prerequisite_mapper r = refl

module _ (env : StepEnvironment) where
  generation-LaterAgentsKeep : LaterAgentsKeep (generation env)
  unfolding generation
  generation-LaterAgentsKeep u t c w h =
      let after = (step_of env t (initial env c w)).1.context.domain_graph in
      let same =
        (step_of-Within env t (initial env c w)).others u
          (λ e. absurd (omega (arith, ap order e))) in
      sym (owned-nodes_of u after) ∙ ap (λ ns. ns.1) same ∙ owned-nodes_of u c.domain_graph

  generation-StepsReport : StepsReport (generation env)
  unfolding generation marks
  generation-StepsReport t c w = (step_of-Within env t (initial env c w)).silent

-- With the seven steps as they are, and no assumption on what their services answer: the events of
-- a generation follow the course of its outcome, and the statistics of one that succeeds count the
-- levels, the created nodes of each kind and the reused nodes of the registry that it returns.
pub generation_lem :
    (env : StepEnvironment) (name : String) (description : Option String)
    (w : (generation env).World)
    → Course
        (generate_domain (generation env) name description w).0
        (marks (generate_domain (generation env) name description w).1)
      × ((r : DomainGenerationResult)
          → (generate_domain (generation env) name description w).0 ≡ ok r
          → IsCounted (generation env) r)
unfolding generation
generation_lem env name description w = (
  generate_domain-Course (generation env) name description w (generation-StepsReport env),
  λ r e.
      generate_domain-IsCounted (generation env) name description w r
        (generation-LaterAgentsKeep env) e,
)

-- ===== src/Samples/GenerationTests.antt =====
-- The theorems on the generation of a domain at concrete steps: the first makes a level, the second
-- makes one node and reuses another, and the rest succeed without writing.
use atlas_of_us.Prelude.{◌≡◌, refl, none, [], ◌∷◌, arith, filter}
use atlas_of_us.Effects.Defs.{ok}
use atlas_of_us.Samples.Scores.{scores}
use atlas_of_us.Agent.Registry.Defs.{created, reused, count_reused, all_nodes}
use atlas_of_us.Agent.Generation.Models.{
  no_statistics, new_context, AgentType, domain_architect, knowledge_generator, skill_generator,
  trait_generator, milestone_generator, level_distributor, prerequisite_mapper, order, AgentContext,
  step_progress, DomainGenerationResult,
}
use atlas_of_us.Agent.Generation.Orchestrator.{
  agents, Generation, generate_domain, run_agents, check_domain_exists, update_stats,
}
use atlas_of_us.Agent.Generation.Protocol.{Course, marks, generate_domain-Course}
use atlas_of_us.Agent.Generation.Statistics.{LaterAgentsKeep, IsCounted, generate_domain-IsCounted}

abbrev written : AgentType → AgentContext → AgentContext
written domain_architect c = record c {
  domain_graph = record c.domain_graph {
    domain_levels = created "Novice" "l1" "Domain_Level" ∷ [];
  };
}
written knowledge_generator c = record c {
  domain_graph = record c.domain_graph {
    knowledge = created "Openings" "k1" "Knowledge" ∷ reused "Tactics" "k2" "Knowledge" ∷ [];
  };
}
written skill_generator c = c
written trait_generator c = c
written milestone_generator c = c
written level_distributor c = c
written prerequisite_mapper c = c

abbrev chess_generation : Generation
chess_generation = record {
  floats = scores;
  World = Unit;
  execute = λ t c w. record {
    outcome = ok tt;
    context = written t c;
    events = step_progress t "working" ∷ [];
    world = w;
  };
  find_similar = λ name label limit w. (ok [], w);
  elapsed = λ w. 12;
}

chess_steps_keep : LaterAgentsKeep chess_generation
unfolding order
chess_steps_keep domain_architect domain_architect c w h = absurd (omega (arith, h))
chess_steps_keep domain_architect knowledge_generator c w h = refl
chess_steps_keep knowledge_generator domain_architect c w h = refl
chess_steps_keep knowledge_generator knowledge_generator c w h = absurd (omega (arith, h))
chess_steps_keep skill_generator domain_architect c w h = refl
chess_steps_keep skill_generator knowledge_generator c w h = refl
chess_steps_keep trait_generator domain_architect c w h = refl
chess_steps_keep trait_generator knowledge_generator c w h = refl
chess_steps_keep milestone_generator domain_architect c w h = refl
chess_steps_keep milestone_generator knowledge_generator c w h = refl
chess_steps_keep level_distributor domain_architect c w h = refl
chess_steps_keep level_distributor knowledge_generator c w h = refl
chess_steps_keep prerequisite_mapper domain_architect c w h = refl
chess_steps_keep prerequisite_mapper knowledge_generator c w h = refl
chess_steps_keep u skill_generator c w h = refl
chess_steps_keep u trait_generator c w h = refl
chess_steps_keep u milestone_generator c w h = refl
chess_steps_keep u level_distributor c w h = refl
chess_steps_keep u prerequisite_mapper c w h = refl

abbrev chess_result : DomainGenerationResult
chess_result = record {
  domain_name = "Chess";
  domain_element_id = "";
  domain_graph =
      (written knowledge_generator
        (written domain_architect (new_context "Chess" none))).domain_graph;
  statistics = record no_statistics {
    domain_levels_created = 1;
    knowledge_created = 1;
    nodes_reused = 1;
    generation_time_ms = 12;
  };
}

chess_generated : (generate_domain chess_generation "Chess" none tt).0 ≡ ok chess_result
unfolding generate_domain run_agents agents check_domain_exists update_stats count_reused all_nodes
    filter
chess_generated = refl

generate_domain-IsCounted_example : IsCounted chess_generation chess_result
generate_domain-IsCounted_example =
    generate_domain-IsCounted chess_generation "Chess" none tt chess_result chess_steps_keep
      chess_generated

generate_domain-Course_example :
    Course
      (generate_domain chess_generation "Chess" none tt).0
      (marks (generate_domain chess_generation "Chess" none tt).1)
unfolding marks
generate_domain-Course_example =
    generate_domain-Course chess_generation "Chess" none tt (λ t context w. refl)

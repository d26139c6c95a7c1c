-- ===== src/Agent/Steps/Context.antt =====
-- How the steps write the context of a generation: `AgentContext` of domains/agent/models.rs.
use atlas_of_us.Effects.Defs.{unwrap_or}
use atlas_of_us.Agent.Generation.Models.{AgentContext}
use atlas_of_us.Agent.Registry.Defs.{CreatedNode}
use atlas_of_us.Prelude.{String, some, [], ◌∷◌, ◌++◌}

-- `AgentContext::add_knowledge` and the like
abbrev pub add_knowledge : CreatedNode → AgentContext → AgentContext
add_knowledge n c = record c {
  domain_graph = record c.domain_graph { knowledge = c.domain_graph.knowledge ++ n ∷ [] };
}

abbrev pub add_skill : CreatedNode → AgentContext → AgentContext
add_skill n c = record c {
  domain_graph = record c.domain_graph { skills = c.domain_graph.skills ++ n ∷ [] };
}

abbrev pub add_trait : CreatedNode → AgentContext → AgentContext
add_trait n c = record c {
  domain_graph = record c.domain_graph { traits = c.domain_graph.traits ++ n ∷ [] };
}

abbrev pub add_milestone : CreatedNode → AgentContext → AgentContext
add_milestone n c = record c {
  domain_graph = record c.domain_graph { milestones = c.domain_graph.milestones ++ n ∷ [] };
}

abbrev pub add_domain_level : CreatedNode → AgentContext → AgentContext
add_domain_level n c = record c {
  domain_graph = record c.domain_graph { domain_levels = c.domain_graph.domain_levels ++ n ∷ [] };
}

abbrev pub set_domain : CreatedNode → AgentContext → AgentContext
set_domain n c = record c {
  domain_element_id = some n.element_id;
  domain_graph = record c.domain_graph { domain = some n };
}

-- `description.clone().unwrap_or_default()`
abbrev pub description_of : AgentContext → String
description_of c = unwrap_or c.description ""

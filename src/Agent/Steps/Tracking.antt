-- ===== src/Agent/Steps/Tracking.antt =====
-- The relationships that the last two steps track in the registry, by the answers to their requests.
use atlas_of_us.Agent.Generation.Models.{AgentContext}
use atlas_of_us.Agent.Steps.Answers.{
  Tracks-write, add_all, Tracks-next, Tracks-relate, Tracks-done, Tracks-unasked, AllAnswered,
  Answered, Tracks, relationship_request,
}
use mathlib.Core.List.{append-nil, append_assoc}
use atlas_of_us.Agent.Registry.Defs.{LevelRequirement, add_level_requirement}
use atlas_of_us.Graph.Requests.{CreateRelationshipRequest}
use atlas_of_us.Agent.Steps.Prerequisites.{
  create_prerequisite_relationships, track_prerequisite, add_link_of, PrerequisiteRelationship,
}
use atlas_of_us.Agent.Steps.Levels.{
  proficiency_properties, some_unless_empty, requires_type, relate_level, track_requirement,
  add_requirement, create_level_relationships,
}
use atlas_of_us.Agent.Steps.Assignment.{LevelAssignment}
use atlas_of_us.Agent.Steps.Environment.{State, StepEnvironment}
use atlas_of_us.Prelude.{
  String, ◌≡◌, refl, sym, ap, ◌∙◌, Option, none, some, List, [], ◌∷◌, ◌++◌, map,
}

-- The requirement that the registry keeps for an assignment.
abbrev pub requirement_of : LevelAssignment → LevelRequirement
requirement_of a = record {
  level_id = a.level_id;
  component_id = a.component_id;
  component_name = a.component_name;
  component_type = a.component_type;
  proficiency = a.proficiency;
}

-- The context with the requirements of some assignments after those that it has.
abbrev pub with_requirements : List LevelAssignment → AgentContext → AgentContext
with_requirements assignments c = record c {
  domain_graph = record c.domain_graph {
    level_requirements = c.domain_graph.level_requirements ++ map requirement_of assignments;
  };
}

module _ (env : StepEnvironment) where
  abbrev pub request_for :
      LevelAssignment → Option String → Option (CreateRelationshipRequest env.json.Value)
  request_for a none = none
  request_for a (some type) = some (
      relationship_request env a.level_id a.component_id type
        (some_unless_empty (proficiency_properties env a.component_type a.proficiency)))

  -- The relationship of an assignment, none for another word than a component type.
  abbrev pub level_request : LevelAssignment → Option (CreateRelationshipRequest env.json.Value)
  level_request a = request_for a (requires_type a.component_type)

  abbrev pub prerequisite_request :
      PrerequisiteRelationship → Option (CreateRelationshipRequest env.json.Value)
  prerequisite_request p =
      some (relationship_request env p.source_id p.target_id p.relationship_type none)

  relate_level-Tracks :
      (a : LevelAssignment) (o : Option String) (s : State env)
      → requires_type a.component_type ≡ o
      → Tracks
          (add_all (add_requirement env))
          env
          (Answered env level_request a)
          (relate_level env a o)
          s
  relate_level-Tracks a none s q =
      Tracks-unasked (add_requirement env) env level_request a s (ap (request_for a) q)
  relate_level-Tracks a (some type) s q =
      Tracks-relate (add_requirement env) env level_request a a.level_id a.component_id type _
        (track_requirement env a) s (ap (request_for a) q) refl refl

  all_levels-Tracks :
      (assignments : List LevelAssignment) (s : State env)
      → Tracks
          (add_all (add_requirement env))
          env
          (AllAnswered env level_request assignments)
          (create_level_relationships env assignments)
          s
  unfolding create_level_relationships
  all_levels-Tracks [] s = Tracks-done (add_requirement env) env level_request s
  all_levels-Tracks (a ∷ assignments) s =
      Tracks-next (add_requirement env) env level_request a assignments _ _ s
        (relate_level-Tracks a (requires_type a.component_type) s refl)
        (all_levels-Tracks assignments)

  add_requirement-written :
      (assignments : List LevelAssignment) (c : AgentContext)
      → add_all (add_requirement env) assignments c ≡ with_requirements assignments c
  unfolding add_level_requirement
  add_requirement-written [] c =
      ap (λ qs. record c { domain_graph = record c.domain_graph { level_requirements = qs } })
        (sym (append-nil c.domain_graph.level_requirements))
  add_requirement-written (a ∷ assignments) c =
      add_requirement-written assignments (add_requirement env a c)
      ∙ ap (λ qs. record c { domain_graph = record c.domain_graph { level_requirements = qs } })
          (append_assoc c.domain_graph.level_requirements (requirement_of a ∷ [])
            (map requirement_of assignments))

  -- Creating the relationships of levels always returns, whatever the database answers. For each
  -- assignment in turn it asks for the relationship of its component type, if it has one. It counts
  -- the assignments whose relationships were created, appends a requirement for each of these and
  -- no others to those of the registry, in their order, changes nothing else of the context and
  -- sends no event.
  pub create_level_relationships-Tracks :
      (assignments : List LevelAssignment) (s : State env)
      → Tracks with_requirements env
          (AllAnswered env level_request assignments)
          (create_level_relationships env assignments)
          s
  create_level_relationships-Tracks assignments s =
      Tracks-write add_requirement-written (all_levels-Tracks assignments s)

  -- The same of the relationships between components, and the prerequisites of the registry.
  pub create_prerequisite_relationships-Tracks :
      (prerequisites : List PrerequisiteRelationship) (s : State env)
      → Tracks
          (add_all (add_link_of env))
          env
          (AllAnswered env prerequisite_request prerequisites)
          (create_prerequisite_relationships env prerequisites)
          s
  unfolding create_prerequisite_relationships
  create_prerequisite_relationships-Tracks [] s =
      Tracks-done (add_link_of env) env prerequisite_request s
  create_prerequisite_relationships-Tracks (p ∷ prerequisites) s =
      Tracks-next (add_link_of env) env prerequisite_request p prerequisites _ _ s
        (Tracks-relate (add_link_of env) env prerequisite_request p p.source_id p.target_id
          p.relationship_type none (track_prerequisite env p) s refl refl refl)
        (create_prerequisite_relationships-Tracks prerequisites)

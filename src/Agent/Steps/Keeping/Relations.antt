-- ===== src/Agent/Steps/Keeping/Relations.antt =====
-- The distributor of levels and the mapper of prerequisites write no nodes, and the architect only
-- the domain and its levels.
use atlas_of_us.Agent.Steps.Generators.{progress}
use atlas_of_us.Agent.Steps.Within.{owned}
use atlas_of_us.Agent.Steps.Within.{
  Stays-emit, Stays-serve, Stays-serve_or, stays_rules, Stays-ask, Stays-change, Stays-get,
  make_node-Stays, relate-Stays, Stays-bind, Stays-pure, Stays,
}
use atlas_of_us.Effects.Defs.{err, ok, Result}
use atlas_of_us.Agent.Steps.Assignment.{LevelAssignment}
use atlas_of_us.Agent.Registry.Defs.{add_level_requirement, add_prerequisite}
use atlas_of_us.Agent.Steps.Prerequisites.{
  add_link_of, track_prerequisite, PrerequisiteRelationship, analyze_prerequisites,
  create_prerequisite_relationships, execute_prerequisite,
}
use atlas_of_us.Agent.Steps.Levels.{
  add_requirement, relate_level, track_requirement, analyze_level_assignments,
  create_level_relationships, execute_level,
}
use atlas_of_us.Agent.Steps.Architect.{
  get_level_structure, queue_if, report_avatar, LevelInfo, queue_avatar_generation,
  create_domain_levels, execute_architect,
}
use atlas_of_us.Agent.Steps.Context.{add_domain_level, set_domain}
use atlas_of_us.Agent.Steps.Keeping.Generators.{AddsFor}
use atlas_of_us.Agent.Steps.Environment.{change_context, StepEnvironment}
use atlas_of_us.Agent.Generation.Models.{
  AgentContext, AgentType, domain_architect, knowledge_generator, skill_generator, trait_generator,
  milestone_generator, level_distributor, prerequisite_mapper,
}
use atlas_of_us.Prelude.{String, ◌≡◌, refl, Bool, true, false, Option, none, some, List, [], ◌∷◌}

-- A change of the context that leaves all nodes alone.
abbrev KeepsNodes : (AgentContext → AgentContext) → Type 0
KeepsNodes f =
    (u : AgentType) (c : AgentContext) → owned u (f c).domain_graph ≡ owned u c.domain_graph

module _ (env : StepEnvironment) where
  add_requirement-KeepsNodes : (a : LevelAssignment) → KeepsNodes (add_requirement env a)
  unfolding add_level_requirement
  add_requirement-KeepsNodes a domain_architect c = refl
  add_requirement-KeepsNodes a knowledge_generator c = refl
  add_requirement-KeepsNodes a skill_generator c = refl
  add_requirement-KeepsNodes a trait_generator c = refl
  add_requirement-KeepsNodes a milestone_generator c = refl
  add_requirement-KeepsNodes a level_distributor c = refl
  add_requirement-KeepsNodes a prerequisite_mapper c = refl

  add_link_of-KeepsNodes : (p : PrerequisiteRelationship) → KeepsNodes (add_link_of env p)
  unfolding add_prerequisite
  add_link_of-KeepsNodes p domain_architect c = refl
  add_link_of-KeepsNodes p knowledge_generator c = refl
  add_link_of-KeepsNodes p skill_generator c = refl
  add_link_of-KeepsNodes p trait_generator c = refl
  add_link_of-KeepsNodes p milestone_generator c = refl
  add_link_of-KeepsNodes p level_distributor c = refl
  add_link_of-KeepsNodes p prerequisite_mapper c = refl

module _ (env : StepEnvironment) {t : AgentType} where
  change-Stays : (f : AgentContext → AgentContext) → KeepsNodes f → Stays t (change_context env f)
  change-Stays f keeps = Stays-change env f (λ u c ne. keeps u c)

  analyze_level_assignments-Stays :
      (c : AgentContext) (types : List String) → Stays t (analyze_level_assignments env c types)
  unfolding progress analyze_level_assignments
  analyze_level_assignments-Stays c [] = Stays-pure _
  analyze_level_assignments-Stays c (type ∷ types) = Stays-bind _ _ (Stays-emit env _ refl) (λ _.
      Stays-bind _ _ (search stays_rules)
        (λ a. Stays-bind _ _ (analyze_level_assignments-Stays c types) (λ as'. Stays-pure _)))

  track_requirement-Stays : (a : LevelAssignment) (b : Bool) → Stays t (track_requirement env a b)
  track_requirement-Stays a false = Stays-pure _
  track_requirement-Stays a true =
      Stays-bind _ _ (change-Stays _ (add_requirement-KeepsNodes env a)) (λ _. Stays-pure _)

  relate_level-Stays :
      (a : LevelAssignment) (rel_type : Option String) → Stays t (relate_level env a rel_type)
  relate_level-Stays a none = Stays-pure _
  relate_level-Stays a (some rel_type) =
      Stays-bind _ _ (relate-Stays env _ _ _ _) (λ b. track_requirement-Stays a b)

  create_level_relationships-Stays :
      (assignments : List LevelAssignment) → Stays t (create_level_relationships env assignments)
  unfolding create_level_relationships
  create_level_relationships-Stays [] = Stays-pure _
  create_level_relationships-Stays (a ∷ assignments) =
      Stays-bind _ _ (relate_level-Stays a _) (λ one.
        Stays-bind _ _ (create_level_relationships-Stays assignments) (λ rest. Stays-pure _))

  analyze_prerequisites-Stays :
      (c : AgentContext) (types : List String) → Stays t (analyze_prerequisites env c types)
  unfolding progress analyze_prerequisites
  analyze_prerequisites-Stays c [] = Stays-pure _
  analyze_prerequisites-Stays c (type ∷ types) = Stays-bind _ _ (Stays-emit env _ refl) (λ _.
      Stays-bind _ _ (search stays_rules)
        (λ a. Stays-bind _ _ (analyze_prerequisites-Stays c types) (λ as'. Stays-pure _)))

  track_prerequisite-Stays :
      (p : PrerequisiteRelationship) (b : Bool) → Stays t (track_prerequisite env p b)
  track_prerequisite-Stays p false = Stays-pure _
  track_prerequisite-Stays p true =
      Stays-bind _ _ (change-Stays _ (add_link_of-KeepsNodes env p)) (λ _. Stays-pure _)

  create_prerequisites-Stays :
      (ps : List PrerequisiteRelationship) → Stays t (create_prerequisite_relationships env ps)
  unfolding create_prerequisite_relationships
  create_prerequisites-Stays [] = Stays-pure _
  create_prerequisites-Stays (p ∷ ps) =
      Stays-bind _ _ (Stays-bind _ _ (relate-Stays env _ _ _ _) (λ b. track_prerequisite-Stays p b))
        (λ one. Stays-bind _ _ (create_prerequisites-Stays ps) (λ rest. Stays-pure _))

  report_avatar-Stays : (r : Result String (Unit {0})) → Stays t (report_avatar env r)
  unfolding progress
  report_avatar-Stays (ok u) = Stays-emit env _ refl
  report_avatar-Stays (err e) = Stays-pure _

  queue_if-Stays : (b : Bool) (name id : String) → Stays t (queue_if env b name id)
  queue_if-Stays false name id = Stays-pure _
  queue_if-Stays true name id =
      Stays-bind _ _ (Stays-ask env _)
        (λ now. Stays-bind _ _ (Stays-serve env _) (λ r. report_avatar-Stays r))

  queue_avatar-Stays : (name id : String) → Stays t (queue_avatar_generation env name id)
  unfolding queue_avatar_generation
  queue_avatar-Stays name id = Stays-bind _ _ (Stays-ask env _) (λ b. queue_if-Stays b name id)

add_domain_level-AddsFor : AddsFor domain_architect add_domain_level
add_domain_level-AddsFor n domain_architect c ne = absurd (ne refl)
add_domain_level-AddsFor n knowledge_generator c ne = refl
add_domain_level-AddsFor n skill_generator c ne = refl
add_domain_level-AddsFor n trait_generator c ne = refl
add_domain_level-AddsFor n milestone_generator c ne = refl
add_domain_level-AddsFor n level_distributor c ne = refl
add_domain_level-AddsFor n prerequisite_mapper c ne = refl

set_domain-AddsFor : AddsFor domain_architect set_domain
set_domain-AddsFor n domain_architect c ne = absurd (ne refl)
set_domain-AddsFor n knowledge_generator c ne = refl
set_domain-AddsFor n skill_generator c ne = refl
set_domain-AddsFor n trait_generator c ne = refl
set_domain-AddsFor n milestone_generator c ne = refl
set_domain-AddsFor n level_distributor c ne = refl
set_domain-AddsFor n prerequisite_mapper c ne = refl

module _ (env : StepEnvironment) where
  create_domain_levels-Stays :
      (id : String) (infos : List LevelInfo)
      → Stays domain_architect (create_domain_levels env id infos)
  unfolding create_domain_levels
  create_domain_levels-Stays id [] = Stays-pure _
  create_domain_levels-Stays id (info ∷ infos) =
      Stays-bind _ _
        (Stays-bind _ _ (make_node-Stays env _ _) (λ r.
          Stays-bind _ _ (Stays-serve_or env _ _) (λ _.
            Stays-bind _ _ (Stays-emit env _ refl)
              (λ _. Stays-change env _ (add_domain_level-AddsFor _)))))
        (λ _. create_domain_levels-Stays id infos)

  pub execute_architect-Stays : Stays domain_architect (execute_architect env)
  unfolding progress execute_architect
  execute_architect-Stays = Stays-bind _ _ (Stays-get env) λ c.
      Stays-bind _ _ (Stays-emit env _ refl) λ _. Stays-bind _ _ (make_node-Stays env _ _) λ r.
        Stays-bind _ _ (Stays-emit env _ refl) λ _. Stays-bind _ _ (queue_avatar-Stays env _ _) λ _.
          Stays-bind _ _ (Stays-change env _ (set_domain-AddsFor _)) λ _.
            Stays-bind _ _ (Stays-emit env _ refl)
              λ _. create_domain_levels-Stays r.element_id (get_level_structure c.domain_name)

  pub execute_level-Stays : Stays level_distributor (execute_level env)
  unfolding progress execute_level
  execute_level-Stays = Stays-bind _ _ (Stays-get env) λ c.
      Stays-bind _ _ (analyze_level_assignments-Stays env c _) λ a.
        Stays-bind _ _ (Stays-emit env _ refl) λ _.
          Stays-bind _ _ (Stays-emit env _ refl)
            λ _. Stays-bind _ _ (create_level_relationships-Stays env a) λ n. Stays-emit env _ refl

  pub execute_prerequisite-Stays : Stays prerequisite_mapper (execute_prerequisite env)
  unfolding progress execute_prerequisite
  execute_prerequisite-Stays = Stays-bind _ _ (Stays-get env) λ c.
      Stays-bind _ _ (analyze_prerequisites-Stays env c _) λ a.
        Stays-bind _ _ (Stays-emit env _ refl) λ _.
          Stays-bind _ _ (Stays-emit env _ refl)
            λ _. Stays-bind _ _ (create_prerequisites-Stays env a) λ n. Stays-emit env _ refl

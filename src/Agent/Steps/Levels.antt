-- ===== src/Agent/Steps/Levels.antt =====
-- The level distributor (domains/agent/steps/level_distributor.rs).
use atlas_of_us.Agent.Prompts.Structure.{level_assignment}
use atlas_of_us.Agent.Steps.Generators.{progress}
use atlas_of_us.Agent.Prompts.System.{relationship_architect}
use atlas_of_us.Effects.Defs.{lift, ◌>>◌, pure, ◌>>=◌}
use atlas_of_us.Agent.Registry.Defs.{add_level_requirement}
use atlas_of_us.Agent.Steps.Assignment.{
  parse_level_assignments, level_context_for_type, LevelAssignment,
}
use atlas_of_us.Agent.Generation.Models.{level_distributor, AgentContext}
use atlas_of_us.Text.{decimal, chars, same_char}
use Prim.Native.Char.{code, Char}
use atlas_of_us.Agent.Steps.Environment.{
  change_context, ask_model, get_context, relate, Step, StepEnvironment,
}
use atlas_of_us.Graph.Models.{negsuc, pos, ℤ}
use atlas_of_us.Prelude.{
  ℕ, zero, suc, ◌+◌, ◌-◌, ◌*◌, ◌^◌, String, Bool, true, false, ◌&&◌, Option, none, some, List, [],
  ◌∷◌, ◌++◌, ltb, leb, ◌==◌, if◌then◌else◌, length,
}

-- `parse::<i64>()`: the value of a text of digits, and an optional sign before it.
unfoldable pub digits_value : ℕ → List Char → Option ℕ
digits_value acc [] = some acc
digits_value acc (c ∷ cs) =
    let rest = digits_value (acc * 10 + (code c - 48)) cs in
    if leb 48 (code c) && leb (code c) 57 then rest else none

abbrev pub positive : Option ℕ → Option ℤ
positive none = none
positive (some n) = if ltb n (2 ^ 63) then some (pos n) else none

abbrev pub negative : Option ℕ → Option ℤ
negative none = none
negative (some zero) = some (pos 0)
negative (some (suc n)) = if ltb n (2 ^ 63) then some (negsuc n) else none

abbrev pub number : List Char → Option ℕ
number [] = none
number (c ∷ cs) = digits_value 0 (c ∷ cs)

unfoldable pub parse_i64 : List Char → Option ℤ
unfolding digits_value
parse_i64 [] = none
parse_i64 (c ∷ cs) =
    if same_char c "-"
    then negative (number cs)
    else if same_char c "+"
    then positive (number cs)
    else positive (number (c ∷ cs))

-- The relationship of a component type, none for another word.
unfoldable pub requires_type : String → Option String
requires_type component_type =
    if component_type == "Knowledge"
    then some "REQUIRES_KNOWLEDGE"
    else if component_type == "Skill"
    then some "REQUIRES_SKILL"
    else if component_type == "Trait"
    then some "REQUIRES_TRAIT"
    else if component_type == "Milestone"
    then some "REQUIRES_MILESTONE"
    else none

-- `if props.is_empty() { None } else { Some(props) }`
abbrev pub some_unless_empty {ℓ} : {A : Type ℓ} → List A → Option (List A)
some_unless_empty [] = none
some_unless_empty (x ∷ xs) = some (x ∷ xs)

unfoldable pub component_types : List String
component_types = "Knowledge" ∷ "Skill" ∷ "Trait" ∷ "Milestone" ∷ []

module _ (env : StepEnvironment) where
  unfoldable pub analyze_level_assignments_for_type :
      AgentContext → String → Step env (List LevelAssignment)
  analyze_level_assignments_for_type context component_type = do
    response ←
        ask_model env relationship_architect
          (level_assignment context.domain_name (level_context_for_type context component_type))
          16384 3
    lift (parse_level_assignments env.json response context component_type)

  unfoldable pub analyze_level_assignments :
      AgentContext → List String → Step env (List LevelAssignment)
  unfolding analyze_level_assignments_for_type
  analyze_level_assignments context [] = pure []
  analyze_level_assignments context (component_type ∷ types) = do
    progress env level_distributor ("Assigning " ∷ component_type ∷ " nodes to levels..." ∷ [])
    assignments ← analyze_level_assignments_for_type context component_type
    later ← analyze_level_assignments context types
    pure (assignments ++ later)

  abbrev pub min_score : Option ℤ → List (String × env.json.Value)
  min_score none = []
  min_score (some score) = ("min_score", env.json.int score) ∷ []

  unfoldable pub proficiency_properties : String → Option String → List (String × env.json.Value)
  unfolding parse_i64
  proficiency_properties component_type none = []
  proficiency_properties component_type (some prof) =
      if component_type == "Knowledge"
      then ("bloom_level", env.json.text prof) ∷ []
      else if component_type == "Skill"
      then ("dreyfus_level", env.json.text prof) ∷ []
      else if component_type == "Trait"
      then min_score (parse_i64 (chars prof))
      else []

  abbrev pub add_requirement : LevelAssignment → AgentContext → AgentContext
  add_requirement a c = record c {
    domain_graph =
        add_level_requirement
          (record {
            level_id = a.level_id;
            component_id = a.component_id;
            component_name = a.component_name;
            component_type = a.component_type;
            proficiency = a.proficiency;
          })
          c.domain_graph;
  }

  -- A relationship that was created is counted and tracked.
  abbrev pub track_requirement : LevelAssignment → Bool → Step env ℕ
  track_requirement a false = pure 0
  track_requirement a true = do change_context env (add_requirement a); pure 1

  abbrev pub relate_level : LevelAssignment → Option String → Step env ℕ
  relate_level a none = pure 0
  relate_level a (some rel_type) = do
    is_ok ←
        relate env a.level_id a.component_id rel_type
          (some_unless_empty (proficiency_properties a.component_type a.proficiency))
    track_requirement a is_ok

  unfoldable pub create_level_relationships : List LevelAssignment → Step env ℕ
  unfolding requires_type proficiency_properties add_level_requirement
  create_level_relationships [] = pure 0
  create_level_relationships (a ∷ assignments) = do
    one ← relate_level a (requires_type a.component_type)
    rest ← create_level_relationships assignments
    pure (one + rest)

  unfoldable pub execute_level : Step env (Unit {0})
  execute_level = do
    context ← get_context env
    assignments ← analyze_level_assignments context component_types
    progress env level_distributor
        ("Identified " ∷ decimal (length assignments) ∷ " level assignments" ∷ [])
    progress env level_distributor ("Creating level relationships in database..." ∷ [])
    count ← create_level_relationships assignments
    progress env level_distributor ("Created " ∷ decimal count ∷ " level relationships" ∷ [])

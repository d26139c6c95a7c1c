-- ===== src/Agent/Steps/Assignment.antt =====
-- How the level distributor reads the assignments of components to levels
-- (domains/agent/steps/level_distributor.rs).
use atlas_of_us.Agent.Steps.Replies.{array_at, parse_object, text_at}
use atlas_of_us.Effects.Defs.{map_ok, ok_or, and_then, ok, Result, or_else}
use atlas_of_us.Text.{chars, format, starts_with}
use Prim.Native.Char.{Char}
use atlas_of_us.Agent.Steps.Environment.{Json}
use atlas_of_us.Graph.Models.{negsuc, pos, ℤ}
use atlas_of_us.Agent.Generation.Models.{fault, Abort, AgentContext}
use atlas_of_us.Agent.Registry.Defs.{has_name, CreatedNode, DomainGraphRegistry}
use atlas_of_us.Prelude.{
  zero, suc, String, Bool, ◌||◌, Option, none, some, List, [], ◌∷◌, ◌++◌, ◌==ₙ◌, ◌==◌,
  if◌then◌else◌, get_elem?, find,
}

-- `str::contains` on the characters.
unfoldable pub contains_chars : List Char → List Char → Bool
contains_chars ps [] = starts_with ps []
contains_chars ps (c ∷ cs) = let rest = contains_chars ps cs in starts_with ps (c ∷ cs) || rest

-- The nodes of a type, none for another word.
unfoldable pub nodes_of_type : DomainGraphRegistry → String → List CreatedNode
nodes_of_type r component_type =
    if component_type == "Knowledge"
    then r.knowledge
    else if component_type == "Skill"
    then r.skills
    else if component_type == "Trait"
    then r.traits
    else if component_type == "Milestone"
    then r.milestones
    else []

abbrev pub id_of : Option CreatedNode → Option String
id_of none = none
id_of (some n) = some n.element_id

unfoldable pub find_element_id : AgentContext → String → String → Option String
unfolding nodes_of_type
find_element_id context name node_type =
    id_of (find (has_name name) (nodes_of_type context.domain_graph node_type))

abbrev pub identified_line : CreatedNode → String
identified_line n = format ("- " ∷ n.name ∷ " (ID: " ∷ n.element_id ∷ ")\n" ∷ [])

-- `push_str` of a line for each node.
unfoldable pub all_lines : (CreatedNode → String) → List CreatedNode → String
all_lines line [] = ""
all_lines line (n ∷ ns) = format (line n ∷ all_lines line ns ∷ [])

unfoldable pub level_context_for_type : AgentContext → String → String
unfolding nodes_of_type all_lines
level_context_for_type context component_type = format (
    "Domain: "
    ∷ context.domain_name
    ∷ "\n\n"
    ∷ "Domain Levels:\n"
    ∷ all_lines identified_line context.domain_graph.domain_levels
    ∷ "\n"
    ∷ component_type
    ∷ " Nodes to assign:\n"
    ∷ all_lines identified_line (nodes_of_type context.domain_graph component_type)
    ∷ [])

-- The word of a level, empty for a number that is none.
unfoldable pub level_word : ℤ → String
level_word (negsuc n) = ""
level_word (pos n) =
    if n ==ₙ 1
    then "Novice"
    else if n ==ₙ 2
    then "Developing"
    else if n ==ₙ 3
    then "Competent"
    else if n ==ₙ 4
    then "Advanced"
    else if n ==ₙ 5
    then "Master"
    else ""

-- `l.name.contains(&format!(" {}", …))`
abbrev pub has_word : String → CreatedNode → Bool
has_word word l = contains_chars (chars (format (" " ∷ word ∷ []))) (chars l.name)

-- `get((level - 1) as usize)`; a level below 1 becomes an index beyond every list.
abbrev pub level_at : List CreatedNode → ℤ → Option CreatedNode
level_at levels (pos (suc n)) = get_elem? levels n
level_at levels (pos zero) = none
level_at levels (negsuc n) = none

-- The level of a number: the first whose name has its word, or the one at its place.
unfoldable pub find_level : List CreatedNode → ℤ → Option CreatedNode
unfolding level_word contains_chars
find_level levels level =
    or_else (find (has_word (level_word level)) levels) (level_at levels level)

pub record LevelAssignment : Type 0 where
  pub level_id : String
  pub component_id : String
  pub component_name : String
  pub component_type : String
  pub proficiency : Option String

module _ (json : Json) where
  unfoldable pub int_at : json.Value → String → Option ℤ
  int_at value key = elim (json.get value key) [ none ↦ none | some v ↦ json.as_i64 v ]

  -- An assignment, unless its component or its level is not there.
  abbrev pub assignment_of :
      String → String → Option String → Option String → Option String → List LevelAssignment
  assignment_of component_name component_type proficiency (some component_id) (some level_id) =
      record {
        level_id = level_id;
        component_id = component_id;
        component_name = component_name;
        component_type = component_type;
        proficiency = proficiency;
      }
      ∷ []
  assignment_of component_name component_type proficiency (some component_id) none = []
  assignment_of component_name component_type proficiency none level_id = []

  -- One element of the array.
  unfoldable pub read_assignment :
      AgentContext → String → json.Value → Result Abort (List LevelAssignment)
  unfolding text_at int_at find_element_id find_level
  read_assignment context component_type assignment =
      and_then (ok_or (text_at json assignment "component") (fault "Missing component name"))
        λ component_name.
          and_then (ok_or (int_at assignment "level") (fault "Missing level")) λ level. ok (
            assignment_of component_name component_type (text_at json assignment "proficiency")
              (find_element_id context component_name component_type)
              (id_of (find_level context.domain_graph.domain_levels level)))

  unfoldable pub read_assignments :
      AgentContext → String → List json.Value → Result Abort (List LevelAssignment)
  unfolding read_assignment
  read_assignments context component_type [] = ok []
  read_assignments context component_type (a ∷ rest) =
      and_then (read_assignment context component_type a)
        λ first. map_ok (λ later. first ++ later) (read_assignments context component_type rest)

  unfoldable pub parse_level_assignments :
      String → AgentContext → String → Result Abort (List LevelAssignment)
  unfolding parse_object array_at read_assignments
  parse_level_assignments response context component_type =
      and_then (parse_object json "No JSON object found" none response) λ parsed.
        and_then
          (ok_or (array_at json parsed "level_assignments")
            (fault "Missing level_assignments array"))
          λ assignments. read_assignments context component_type assignments

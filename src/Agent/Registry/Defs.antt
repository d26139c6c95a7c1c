-- ===== src/Agent/Registry/Defs.antt =====
-- `CreatedNode`, `DomainGraphRegistry` and its methods (domains/agent/models.rs).
use atlas_of_us.Prelude.{
  ℕ, ◌++◌, String, Bool, true, false, not, ◌||◌, Option, none, some, List, [], ◌∷◌, length, find,
  filter, ◌==◌, if◌then◌else◌,
}

pub record CreatedNode : Type 0 where
  pub name : String
  pub element_id : String
  pub label : String
  pub was_reused : Bool

-- `CreatedNode::new`
abbrev pub created : String → String → String → CreatedNode
created name element_id label = record {
  name = name;
  element_id = element_id;
  label = label;
  was_reused = false;
}

-- `CreatedNode::reused`
abbrev pub reused : String → String → String → CreatedNode
reused name element_id label = record {
  name = name;
  element_id = element_id;
  label = label;
  was_reused = true;
}

pub record LevelRequirement : Type 0 where
  pub level_id : String
  pub component_id : String
  pub component_name : String
  pub component_type : String
  pub proficiency : Option String

pub record GeneralizationLink : Type 0 where
  pub specific_id : String
  pub specific_name : String
  pub general_id : String
  pub general_name : String
  pub node_type : String

pub record PrerequisiteLink : Type 0 where
  pub source_id : String
  pub source_name : String
  pub target_id : String
  pub target_name : String
  pub relationship_type : String

pub record DomainGraphRegistry : Type 0 where
  pub domain : Option CreatedNode
  pub domain_levels : List CreatedNode
  pub knowledge : List CreatedNode
  pub skills : List CreatedNode
  pub traits : List CreatedNode
  pub milestones : List CreatedNode
  pub level_requirements : List LevelRequirement
  pub generalizations : List GeneralizationLink
  pub prerequisites : List PrerequisiteLink

abbrev pub empty : DomainGraphRegistry
empty = record {
  domain = none;
  domain_levels = [];
  knowledge = [];
  skills = [];
  traits = [];
  milestones = [];
  level_requirements = [];
  generalizations = [];
  prerequisites = [];
}

abbrev pub has_name : String → CreatedNode → Bool
has_name name n = n.name == name

abbrev pub has_id : String → CreatedNode → Bool
has_id element_id n = n.element_id == element_id

abbrev pub is_reused : CreatedNode → Bool
is_reused n = n.was_reused

abbrev pub is_created : CreatedNode → Bool
is_created n = not n.was_reused

unfoldable pub find_by_name : DomainGraphRegistry → String → Option CreatedNode
find_by_name r name =
    find (has_name name)
      (r.knowledge ++ (r.skills ++ (r.traits ++ (r.milestones ++ r.domain_levels))))

abbrev pub option_nodes : Option CreatedNode → List CreatedNode
option_nodes none = []
option_nodes (some n) = n ∷ []

unfoldable pub all_nodes : DomainGraphRegistry → List CreatedNode
all_nodes r =
    option_nodes r.domain
    ++ (r.domain_levels ++ (r.knowledge ++ (r.skills ++ (r.traits ++ r.milestones))))

unfoldable pub find_by_id : DomainGraphRegistry → String → Option CreatedNode
unfolding all_nodes
find_by_id r element_id = find (has_id element_id) (all_nodes r)

unfoldable pub count_created : DomainGraphRegistry → ℕ
unfolding all_nodes
count_created r = length (filter is_created (all_nodes r))

unfoldable pub count_reused : DomainGraphRegistry → ℕ
unfolding all_nodes
count_reused r = length (filter is_reused (all_nodes r))

unfoldable pub add_level_requirement : LevelRequirement → DomainGraphRegistry → DomainGraphRegistry
add_level_requirement q r = record r { level_requirements = r.level_requirements ++ q ∷ [] }

unfoldable pub add_generalization : GeneralizationLink → DomainGraphRegistry → DomainGraphRegistry
add_generalization l r = record r { generalizations = r.generalizations ++ l ∷ [] }

unfoldable pub add_prerequisite : PrerequisiteLink → DomainGraphRegistry → DomainGraphRegistry
add_prerequisite l r = record r { prerequisites = r.prerequisites ++ l ∷ [] }

unfoldable pub get_generalizations_for : DomainGraphRegistry → String → List GeneralizationLink
get_generalizations_for r specific_id = filter (λ g. g.specific_id == specific_id) r.generalizations

unfoldable pub get_requirements_for_level : DomainGraphRegistry → String → List LevelRequirement
get_requirements_for_level r level_id = filter (λ q. q.level_id == level_id) r.level_requirements

unfoldable pub get_prerequisites_for : DomainGraphRegistry → String → List PrerequisiteLink
get_prerequisites_for r source_id = filter (λ p. p.source_id == source_id) r.prerequisites

-- `HashSet::contains` on the ids inserted so far; `insert` returns its negation.
abbrev pub contains : List String → String → Bool
contains [] x = false
contains (y ∷ ys) x = y == x || contains ys x

-- `retain(|n| seen.insert(n.element_id.clone()))`
unfoldable pub retain_unseen : List String → List CreatedNode → List CreatedNode
retain_unseen seen [] = []
retain_unseen seen (n ∷ ns) =
    let dropped = retain_unseen seen ns in
    let kept = n ∷ retain_unseen (n.element_id ∷ seen) ns in
    if contains seen n.element_id then dropped else kept

unfoldable pub deduplicate : DomainGraphRegistry → DomainGraphRegistry
unfolding retain_unseen
deduplicate r = record r {
  knowledge = retain_unseen [] r.knowledge;
  skills = retain_unseen [] r.skills;
  traits = retain_unseen [] r.traits;
  milestones = retain_unseen [] r.milestones;
  domain_levels = retain_unseen [] r.domain_levels;
}

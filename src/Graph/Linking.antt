-- ===== src/Graph/Linking.antt =====
-- What the requirements of a level ask of the database.
use atlas_of_us.Prelude.{
  ℕ, ◌+◌, String, ◌≡◌, refl, true, false, Option, none, some, List, [], ◌∷◌, ◌++◌, arith, length,
  length-append,
}
use atlas_of_us.Effects.Defs.{pure, Result, ok, err, attempt, ◌>>=◌}
use atlas_of_us.Effects.Counting.{bind-run}
use atlas_of_us.Graph.Models.{
  NewNodeData, LevelRequirements, CreatedNodeInfo, ServiceError, KnowledgeRequirement,
  SkillRequirement, TraitRequirement, MilestoneRequirement,
}
use atlas_of_us.Graph.Statements.{GraphStatement}
use atlas_of_us.Graph.Database.{GraphDb, GraphCall, GraphParams, execute_query, run_query}
use atlas_of_us.Graph.Requirements.{
  Service, created_or_skipped, resolve_node, link_node, require_each, create_component_node,
  process_level_requirements,
}
use atlas_of_us.Graph.Calls.{how_many, is_merge, is_require, is_level_creation}

abbrev is_one {ℓ} : {A : Type ℓ} → Option A → ℕ
is_one none = 0
is_one (some a) = 1

-- A requirement that asks for a new node: it names none, and describes one.
abbrev asks_new {ℓ κ} : {A : Type ℓ} {B : Type κ} → Option A → Option B → ℕ
asks_new none new_node = is_one new_node
asks_new (some id) new_node = 0

abbrev made : Option (String × List CreatedNodeInfo) → ℕ
made none = 0
made (some node) = length node.1

module _ {R : Type 0} where
  abbrev pub existing_count : (R → Option String) → List R → ℕ
  existing_count existing [] = 0
  existing_count existing (r ∷ rs) = is_one (existing r) + existing_count existing rs

  abbrev pub new_count : (R → Option String) → (R → Option NewNodeData) → List R → ℕ
  new_count existing new_node [] = 0
  new_count existing new_node (r ∷ rs) =
      asks_new (existing r) (new_node r) + new_count existing new_node rs

-- The requirements of all four kinds, by the two counts.
abbrev pub existing_total : LevelRequirements → ℕ
existing_total q =
    existing_count KnowledgeRequirement.node_element_id q.knowledge
    + (existing_count SkillRequirement.node_element_id q.skills
        + (existing_count TraitRequirement.node_element_id q.traits
            + existing_count MilestoneRequirement.node_element_id q.milestones))

abbrev pub new_total : LevelRequirements → ℕ
new_total q =
    new_count KnowledgeRequirement.node_element_id KnowledgeRequirement.new_node q.knowledge
    + (new_count SkillRequirement.node_element_id SkillRequirement.new_node q.skills
        + (new_count TraitRequirement.node_element_id TraitRequirement.new_node q.traits
            + new_count MilestoneRequirement.node_element_id MilestoneRequirement.new_node
                q.milestones))

-- A run that returns the created nodes: it asks for one relationship for each node that existed
-- and each node that it created, and for a node for each requirement that describes a new one.
pub record Links (db : GraphDb) (existing new : ℕ) (m : Service db (List CreatedNodeInfo))
    (h : List GraphCall) : Type 0 where
  pub created : List CreatedNodeInfo
  pub history : List GraphCall
  pub ran : m h ≡ (ok created, history)
  pub required : how_many is_require history ≡ how_many is_require h + (existing + length created)
  pub merged : how_many is_merge history ≡ how_many is_merge h + new
  pub levels : how_many is_level_creation history ≡ how_many is_level_creation h

module _ (db : GraphDb) where
  -- A requirement whose node is known: it existed or was made, unless it is skipped.
  record Resolved (existing new : ℕ) (m : Service db (Option (String × List CreatedNodeInfo)))
      (h : List GraphCall) : Type 0 where
    node : Option (String × List CreatedNodeInfo)
    history : List GraphCall
    ran : m h ≡ (ok node, history)
    kept : is_one node ≡ existing + made node
    required : how_many is_require history ≡ how_many is_require h
    merged : how_many is_merge history ≡ how_many is_merge h + new
    levels : how_many is_level_creation history ≡ how_many is_level_creation h

  made_one :
      (label : String) (d : NewNodeData) (r : Result (ServiceError db.floats.F64) String)
      → is_one (created_or_skipped db label d r) ≡ 0 + made (created_or_skipped db label d r)
  made_one label d (ok id) = refl
  made_one label d (err e) = refl

  resolve_node-Resolved :
      (label : String) (existing : Option String) (new_node : Option NewNodeData)
      (h : List GraphCall)
      → Resolved
          (is_one existing)
          (asks_new existing new_node)
          (resolve_node db label existing new_node)
          h
  unfolding resolve_node create_component_node attempt execute_query ◌>>=◌
  resolve_node-Resolved label (some id) new_node h = record {
    node = some (id, []);
    history = h;
    ran = refl;
    kept = refl;
    required = refl;
    merged = omega arith;
    levels = omega arith;
  }
  resolve_node-Resolved label none none h = record {
    node = none;
    history = h;
    ran = refl;
    kept = refl;
    required = refl;
    merged = omega arith;
    levels = omega arith;
  }
  resolve_node-Resolved label none (some d) h = record {
    node = _;
    history = _;
    ran = refl;
    kept = made_one label d _;
    required = omega arith;
    merged = omega arith;
    levels = omega arith;
  }

  module _ {R : Type 0} (label : String) (existing : R → Option String)
      (new_node : R → Option NewNodeData) (statement : GraphStatement) (extra : R → GraphParams)
      (requires : is_require statement ≡ true) (merges : is_merge statement ≡ false)
      (no_level : is_level_creation statement ≡ false) (level_element_id : String) where
    link_node-Links :
        (req : R) (node : Option (String × List CreatedNodeInfo)) (e : ℕ) (h : List GraphCall)
        → is_one node ≡ e + made node
        → Links db e 0
            (link_node db label existing new_node statement extra level_element_id req node)
            h
    unfolding link_node run_query ◌>>=◌
    link_node-Links req none e h k = record {
      created = [];
      history = h;
      ran = refl;
      required = omega (arith, k);
      merged = omega arith;
      levels = omega arith;
    }
    link_node-Links req (some (id, created)) e h k = record {
      created = created;
      history = _;
      ran = refl;
      required = rw requires (omega (arith, k));
      merged = rw merges (omega arith);
      levels = rw no_level (omega arith);
    }

    require_each-Links :
        (reqs : List R) (h : List GraphCall)
        → Links db
            (existing_count existing reqs)
            (new_count existing new_node reqs)
            (require_each db label existing new_node statement extra level_element_id reqs)
            h
    unfolding require_each pure
    require_each-Links [] h = record {
      created = [];
      history = h;
      ran = refl;
      required = omega arith;
      merged = omega arith;
      levels = omega arith;
    }
    require_each-Links (req ∷ reqs) h =
        let first = resolve_node-Resolved label (existing req) (new_node req) h in
        let linked = link_node-Links req first.node _ first.history first.kept in
        let rest = require_each-Links reqs linked.history in
        record {
          created = linked.created ++ rest.created;
          history = rest.history;
          ran = bind-run _ _ first.ran (bind-run _ _ linked.ran (bind-run _ _ rest.ran refl));
          required =
              let total = length-append linked.created rest.created in
              omega (arith, first.required, linked.required, rest.required, total);
          merged = omega (arith, first.merged, linked.merged, rest.merged);
          levels = omega (arith, first.levels, linked.levels, rest.levels);
        }

-- Processing the requirements of a level always returns. It asks for exactly one relationship for
-- each requirement that names an existing node and for each node that it returns as created, and
-- for exactly one node for each requirement that names none and describes one; it asks for no
-- level.
pub process_level_requirements-Links :
    (db : GraphDb) (level_element_id : String) (requirements : LevelRequirements)
    (h : List GraphCall)
    → Links db
        (existing_total requirements)
        (new_total requirements)
        (process_level_requirements db level_element_id requirements)
        h
unfolding process_level_requirements pure
process_level_requirements-Links db id q h =
    let k = require_each-Links db "Knowledge" _ _ _ _ refl refl refl id q.knowledge h in
    let s = require_each-Links db "Skill" _ _ _ _ refl refl refl id q.skills k.history in
    let t = require_each-Links db "Trait" _ _ _ _ refl refl refl id q.traits s.history in
    let m = require_each-Links db "Milestone" _ _ _ _ refl refl refl id q.milestones t.history in
    record {
      created = k.created ++ (s.created ++ (t.created ++ m.created));
      history = m.history;
      ran = bind-run _ _ k.ran (bind-run _ _ s.ran (bind-run _ _ t.ran (bind-run _ _ m.ran refl)));
      required =
          let two = length-append t.created m.created in
          let three = length-append s.created (t.created ++ m.created) in
          let four = length-append k.created (s.created ++ (t.created ++ m.created)) in
          omega (arith, k.required, s.required, t.required, m.required, two, three, four);
      merged = omega (arith, k.merged, s.merged, t.merged, m.merged);
      levels = omega (arith, k.levels, s.levels, t.levels, m.levels);
    }

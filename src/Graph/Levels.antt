-- ===== src/Graph/Levels.antt =====
-- What create_domain and update_domain of domains/graph/services/domain.rs share: the creation of
-- the levels and the requirements of each.
use atlas_of_us.Prelude.{ℕ, suc, String, Option, none, some, List, [], ◌∷◌, ◌++◌, get_elem?}
use atlas_of_us.Effects.Defs.{Result, ok, err, pure, ◌>>=◌, unwrap_or}
use atlas_of_us.Graph.Models.{DomainLevel, CreatedNodeInfo}
use atlas_of_us.Graph.Statements.{create_level}
use atlas_of_us.Graph.Database.{Param, GraphParams, GraphRow, GraphDb, first_row, execute_query}
use atlas_of_us.Graph.Requirements.{Service, process_level_requirements}

abbrev pub level_params : String → DomainLevel → GraphParams
level_params domain_element_id level =
    ("domainId", Param.text domain_element_id)
    ∷ ("level", Param.int level.level)
    ∷ ("name", Param.text level.name)
    ∷ ("description", Param.text (unwrap_or level.description ""))
    ∷ ("points", Param.int level.points_required)
    ∷ []

module _ (db : GraphDb) where
  -- The id that the creation of a level pushes, if any: an error is only logged.
  abbrev pub level_ids_of : Result String (List (Result String (GraphRow db.Json))) → List String
  level_ids_of (err e) = []
  level_ids_of (ok rows) = elim (first_row rows) [
    | none ↦ []
    | some row ↦ unwrap_or (row.get_text "elementId") "" ∷ []
  ]

  -- The loop that creates the levels: `level_element_ids`.
  unfoldable pub create_levels : String → List DomainLevel → Service db (List String)
  create_levels domain_element_id [] = pure []
  create_levels domain_element_id (level ∷ levels) = do
    rows ← execute_query db create_level (level_params domain_element_id level)
    rest ← create_levels domain_element_id levels
    pure (level_ids_of rows ++ rest)

  -- The requirements of the level of an index, where there is an id of that index.
  abbrev pub requirements_at : Option String → DomainLevel → Service db (List CreatedNodeInfo)
  requirements_at none level = pure []
  requirements_at (some level_element_id) level =
      process_level_requirements db level_element_id level.requirements

  -- The loop over the levels and their indices.
  unfoldable pub process_levels :
      List String → ℕ → List DomainLevel → Service db (List CreatedNodeInfo)
  process_levels level_element_ids level_idx [] = pure []
  process_levels level_element_ids level_idx (level ∷ levels) = do
    nodes ← requirements_at (get_elem? level_element_ids level_idx) level
    rest ← process_levels level_element_ids (suc level_idx) levels
    pure (nodes ++ rest)

-- ===== src/Graph/Domains.antt =====
-- domains/graph/services/domain.rs: the services on domains.
use atlas_of_us.Prelude.{
  String, Bool, true, false, Option, none, some, List, [], ◌∷◌, ◌==◌, if◌then◌else◌,
}
use atlas_of_us.Text.{format}
use atlas_of_us.Effects.Defs.{Result, ok, err, pure, lift, ◌>>=◌, ◌>>◌, unwrap_or}
use atlas_of_us.Graph.Models.{
  ℤ, pos, ServiceError, database_error, validation_error, not_found, CreateDomainRequest,
  CreateDomainResult, UpdateDomainRequest, UpdateDomainResult, DomainInfo, DomainNameValidation,
}
use atlas_of_us.Graph.Statements.{
  find_domain, find_domain_name, check_domain, create_domain_node, verify_domain, delete_progress,
  set_domain, delete_levels,
}
use atlas_of_us.Graph.Database.{Param, GraphRow, GraphDb, first_row, execute_query, run_query}
use atlas_of_us.Graph.Requirements.{Service, element_id_of}
use atlas_of_us.Graph.Levels.{create_levels, process_levels}

-- `is_empty`
abbrev pub is_empty {ℓ} : {A : Type ℓ} → List A → Bool
is_empty [] = true
is_empty (x ∷ xs) = false

module _ (db : GraphDb) where
  abbrev pub Rows : Type 0
  Rows = Result String (List (Result String (GraphRow db.Json)))

  abbrev pub Failure : Type 0
  Failure = ServiceError db.floats.F64

  -- A JSON value that is null is no domain.
  abbrev pub value_of : Option (GraphRow db.Json) → Option db.Json
  value_of none = none
  value_of (some row) =
      let domain_data = unwrap_or (row.get_value "result") db.null in
      if db.is_null domain_data then none else some domain_data

  abbrev pub read_domain : Rows → Result Failure (Option db.Json)
  read_domain (err e) = err (database_error (format ("Database error: " ∷ e ∷ [])))
  read_domain (ok rows) = ok (value_of (first_row rows))

  unfoldable pub get_domain : String → Service db (Option db.Json)
  get_domain name = do
    rows ← execute_query db find_domain (("name", Param.text name) ∷ [])
    lift (read_domain rows)

  abbrev pub availability : Option (GraphRow db.Json) → DomainNameValidation
  availability none = record { available = true; existing_domain_element_id = none }
  availability (some row) = record {
    available = false;
    existing_domain_element_id = some (unwrap_or (row.get_text "elementId") "");
  }

  abbrev pub read_availability : Rows → Result Failure DomainNameValidation
  read_availability (err e) = err (database_error (format ("Database error: " ∷ e ∷ [])))
  read_availability (ok rows) = ok (availability (first_row rows))

  unfoldable pub validate_domain_name : String → Service db DomainNameValidation
  validate_domain_name name = do
    rows ← execute_query db find_domain_name (("name", Param.text name) ∷ [])
    lift (read_availability rows)

  -- The two checks at the start of both operations.
  unfoldable pub validate_request : {L : Type 0} → DomainInfo → List L → Result Failure (Unit {0})
  validate_request domain levels =
      if domain.name == ""
      then err (validation_error "Domain name is required")
      else if is_empty levels
      then err (validation_error "At least one level is required")
      else ok tt

  -- A row means that the name is taken; a row that cannot be read does not.
  abbrev pub unless_taken : Rows → Result Failure (Unit {0})
  unless_taken (err e) = err (database_error "Failed to check domain existence")
  unless_taken (ok rows) = elim (first_row rows) [
    | none ↦ ok tt
    | some row ↦ err (validation_error "Domain with this name already exists")
  ]

  unfoldable pub create_domain : CreateDomainRequest → Service db CreateDomainResult
  unfolding validate_request
  create_domain request = do
    lift (validate_request request.domain request.levels)
    existing ← execute_query db check_domain (("name", Param.text request.domain.name) ∷ [])
    lift (unless_taken existing)
    rows ← execute_query db create_domain_node (
        ("name", Param.text request.domain.name)
        ∷ ("description", Param.text request.domain.description)
        ∷ [])
    domain_element_id ←
        lift (element_id_of db (λ e. "Failed to create domain") "Failed to create domain node" rows)
    level_element_ids ← create_levels db domain_element_id request.levels
    created_nodes ← process_levels db level_element_ids 0 request.levels
    pure (record {
      success = true;
      domain_element_id = domain_element_id;
      domain_name = request.domain.name;
      created_nodes = created_nodes;
    })

  abbrev pub if_found : Rows → Result Failure (Unit {0})
  if_found (err e) = err (database_error "Failed to verify domain")
  if_found (ok rows) = elim (first_row rows) [
    | none ↦ err (not_found "Domain not found")
    | some row ↦ ok tt
  ]

  -- The count in the first row; an error is only logged.
  abbrev pub deleted_count : Rows → ℤ
  deleted_count (err e) = pos 0
  deleted_count (ok rows) = elim (first_row rows) [
    | none ↦ pos 0
    | some row ↦ unwrap_or (row.get_int "deletedCount") (pos 0)
  ]

  -- The progress of users on removed nodes is deleted, where there are any.
  unfoldable pub delete_user_progress : List String → Service db ℤ
  delete_user_progress [] = pure (pos 0)
  delete_user_progress (id ∷ ids) = do
    rows ← execute_query db delete_progress (("nodeIds", Param.texts (id ∷ ids)) ∷ [])
    pure (deleted_count rows)

  -- The outcome of a statement that must not fail.
  abbrev pub or_fail : String → Result String (Unit {0}) → Result Failure (Unit {0})
  or_fail message (ok _) = ok tt
  or_fail message (err e) = err (database_error message)

  unfoldable pub update_domain : UpdateDomainRequest → Service db UpdateDomainResult
  unfolding validate_request delete_user_progress
  update_domain request = do
    lift (validate_request request.domain request.levels)
    found ← execute_query db verify_domain (("domainId", Param.text request.domain_element_id) ∷ [])
    lift (if_found found)
    affected_user_count ← delete_user_progress request.removed_node_element_ids
    updated ← run_query db set_domain (
        ("domainId", Param.text request.domain_element_id)
        ∷ ("name", Param.text request.domain.name)
        ∷ ("description", Param.text request.domain.description)
        ∷ [])
    lift (or_fail "Failed to update domain" updated)
    deleted ← run_query db delete_levels (("domainId", Param.text request.domain_element_id) ∷ [])
    lift (or_fail "Failed to delete old levels" deleted)
    level_element_ids ← create_levels db request.domain_element_id request.levels
    created_nodes ← process_levels db level_element_ids 0 request.levels
    pure (record {
      success = true;
      domain_element_id = request.domain_element_id;
      domain_name = request.domain.name;
      created_nodes = created_nodes;
      affected_user_progress_count = affected_user_count;
    })

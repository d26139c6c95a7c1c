-- ===== src/Graph/Outcomes.antt =====
-- How the operations that write a domain end.
use atlas_of_us.Prelude.{
  ℕ, suc, ◌+◌, String, ◌≡◌, refl, true, Option, none, some, List, [], ◌∷◌, arith, length, get_elem?,
}
use atlas_of_us.Effects.Defs.{Result, ok, err, pure}
use atlas_of_us.Effects.Counting.{bind-run, lift-bind, run-bind}
use atlas_of_us.Graph.Models.{
  DomainLevel, CreatedNodeInfo, CreateDomainRequest, CreateDomainResult, ServiceError,
  database_error,
}
use atlas_of_us.Graph.Statements.{create_level}
use atlas_of_us.Graph.Database.{GraphDb, GraphCall, first_row, GraphRow}
use atlas_of_us.Graph.Calls.{how_many, is_write, is_level_creation, query_returns}
use atlas_of_us.Graph.Requirements.{Service, element_id_of, row_id}
use atlas_of_us.Graph.Levels.{level_params, create_levels, process_levels, requirements_at}
use atlas_of_us.Graph.Linking.{process_level_requirements-Links}
use atlas_of_us.Graph.Domains.{create_domain}

module _ (db : GraphDb) where
  -- A run that returns, with the levels that it asks for.
  pub record Builds {A : Type 0} (levels : ℕ) (m : Service db A) (h : List GraphCall) : Type 0 where
    pub value : A
    pub history : List GraphCall
    pub ran : m h ≡ (ok value, history)
    pub asked : how_many is_level_creation history ≡ how_many is_level_creation h + levels

  pub create_levels-Builds :
      (domain_element_id : String) (levels : List DomainLevel) (h : List GraphCall)
      → Builds (length levels) (create_levels db domain_element_id levels) h
  unfolding create_levels pure
  create_levels-Builds d [] h = record { value = _; history = h; ran = refl; asked = omega arith }
  create_levels-Builds d (level ∷ levels) h =
      let h' = GraphCall.execute create_level (level_params d level) ∷ h in
      let rest = create_levels-Builds d levels h' in
      record {
        value = _;
        history = rest.history;
        ran =
            bind-run _ _ (query_returns db create_level (level_params d level) h)
              (bind-run _ _ rest.ran refl);
        asked = omega (arith, rest.asked);
      }

  requirements_at-Builds :
      (o : Option String) (level : DomainLevel) (h : List GraphCall)
      → Builds 0 (requirements_at db o level) h
  unfolding pure
  requirements_at-Builds none level h = record {
    value = [];
    history = h;
    ran = refl;
    asked = omega arith;
  }
  requirements_at-Builds (some id) level h =
      let l = process_level_requirements-Links db id level.requirements h in
      record {
        value = l.created;
        history = l.history;
        ran = l.ran;
        asked = omega (arith, l.levels);
      }

  pub process_levels-Builds :
      (ids : List String) (i : ℕ) (levels : List DomainLevel) (h : List GraphCall)
      → Builds 0 (process_levels db ids i levels) h
  unfolding process_levels pure
  process_levels-Builds ids i [] h = record {
    value = [];
    history = h;
    ran = refl;
    asked = omega arith;
  }
  process_levels-Builds ids i (level ∷ levels) h =
      let first = requirements_at-Builds (get_elem? ids i) level h in
      let rest = process_levels-Builds ids (suc i) levels first.history in
      record {
        value = _;
        history = rest.history;
        ran = bind-run _ _ first.ran (bind-run _ _ rest.ran refl);
        asked = omega (arith, first.asked, rest.asked);
      }

  element_id_of-fails :
      (failed : String → String) (missing : String)
      (rows : Result String (List (Result String (GraphRow db.Json))))
      (e : ServiceError db.floats.F64)
      → element_id_of db failed missing rows ≡ err e
      → (m : String) × (e ≡ database_error m)
  element_id_of-fails failed missing (err x) e q = (failed x, cc)
  element_id_of-fails failed missing (ok rows) e q = go (first_row rows) q
    where
      go :
          (o : Option (GraphRow db.Json))
          → row_id db missing o ≡ err e
          → (m : String) × (e ≡ database_error m)
      go none q = (missing, cc)
      go (some row) q = cc

-- The three ways in which the creation of a domain ends.
pub data CreateOutcome (db : GraphDb) (request : CreateDomainRequest) (h : List GraphCall)
    : Result (ServiceError db.floats.F64) CreateDomainResult × List GraphCall → Type 0 where
  -- An error before anything was written.
  refused :
      (e : ServiceError db.floats.F64) (h' : List GraphCall)
      → how_many is_write h' ≡ how_many is_write h
      → CreateOutcome db request h (err e, h')
  -- The one attempt to create the domain failed.
  unwritten :
      (m : String) (h' : List GraphCall)
      → how_many is_write h' ≡ how_many is_write h + 1
      → CreateOutcome db request h (err (database_error m), h')
  -- Every level of the request was asked for.
  complete :
      (id : String) (nodes : List CreatedNodeInfo) (h' : List GraphCall)
      → how_many is_level_creation h' ≡ how_many is_level_creation h + length request.levels
      → CreateOutcome db request h (
        ok (record {
          success = true;
          domain_element_id = id;
          domain_name = request.domain.name;
          created_nodes = nodes;
        }),
        h',
      )

-- Creating a domain always ends, and in one of three ways: with an error before any write; with a
-- database error after a single write, the failed creation of the domain; or with success under
-- the requested name, having asked for each level of the request once, whether or not these
-- succeeded.
pub create_domain-CreateOutcome :
    (db : GraphDb) (request : CreateDomainRequest) (h : List GraphCall)
    → CreateOutcome db request h (create_domain db request h)
unfolding create_domain pure
create_domain-CreateOutcome db req h =
    lift-bind (CreateOutcome db req h) _ _ h (λ e q. refused e _ refl)
      (λ u q. run-bind (CreateOutcome db req h) _ _ (query_returns db _ _ h) (
        lift-bind (CreateOutcome db req h) _ _ _ (λ e q. refused e _ (omega arith))
          (λ u q. run-bind (CreateOutcome db req h) _ _ (query_returns db _ _ _) (
            lift-bind (CreateOutcome db req h) _ _ _
              (λ e q.
                let (m, same) = element_id_of-fails db _ _ _ e q in
                rw same (unwritten m _ (omega arith)))
              (λ id q.
                let levels = create_levels-Builds db id req.levels _ in
                let nodes = process_levels-Builds db levels.value 0 req.levels levels.history in
                run-bind (CreateOutcome db req h) _ _ levels.ran (
                  run-bind (CreateOutcome db req h) _ _ nodes.ran (
                    complete id nodes.value nodes.history
                      (omega (arith, levels.asked, nodes.asked)))))))))

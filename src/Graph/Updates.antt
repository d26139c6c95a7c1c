-- ===== src/Graph/Updates.antt =====
-- How the update of a domain ends.
use atlas_of_us.Prelude.{◌+◌, String, ◌≡◌, refl, true, List, [], ◌∷◌, arith, length}
use atlas_of_us.Effects.Defs.{Result, ok, err, pure}
use atlas_of_us.Effects.Counting.{bind-run, lift-bind, run-bind}
use atlas_of_us.Graph.Models.{
  ℤ, CreatedNodeInfo, UpdateDomainRequest, UpdateDomainResult, ServiceError, database_error,
}
use atlas_of_us.Graph.Statements.{delete_progress, verify_domain}
use atlas_of_us.Graph.Database.{Param, GraphDb, GraphCall}
use atlas_of_us.Graph.Calls.{how_many, is_write, is_level_creation, query_returns, run_returns}
use atlas_of_us.Graph.Domains.{update_domain, or_fail, delete_user_progress}
use atlas_of_us.Graph.Outcomes.{Builds, create_levels-Builds, process_levels-Builds}

module _ (db : GraphDb) where
  delete_user_progress-Builds :
      (ids : List String) (h : List GraphCall) → Builds db 0 (delete_user_progress db ids) h
  unfolding delete_user_progress pure
  delete_user_progress-Builds [] h = record {
    value = _;
    history = h;
    ran = refl;
    asked = omega arith;
  }
  delete_user_progress-Builds (id ∷ ids) h = record {
    value = _;
    history = _;
    ran = bind-run _ _ (query_returns db delete_progress _ h) refl;
    asked = omega arith;
  }

  or_fail-fails :
      (message : String) (r : Result String (Unit {0})) (e : ServiceError db.floats.F64)
      → or_fail db message r ≡ err e
      → e ≡ database_error message
  or_fail-fails message (ok u) e q = cc
  or_fail-fails message (err x) e q = cc

-- The three ways in which an update ends.
pub data UpdateOutcome (db : GraphDb) (request : UpdateDomainRequest) (h : List GraphCall)
    : Result (ServiceError db.floats.F64) UpdateDomainResult × List GraphCall → Type 0 where
  -- An error before anything was written.
  refused :
      (e : ServiceError db.floats.F64) (h' : List GraphCall)
      → how_many is_write h' ≡ how_many is_write h
      → UpdateOutcome db request h (err e, h')
  -- The domain or its old levels could not be written: no new level was asked for.
  stopped :
      (m : String) (h' : List GraphCall)
      → how_many is_level_creation h' ≡ how_many is_level_creation h
      → UpdateOutcome db request h (err (database_error m), h')
  -- Every level of the request was asked for.
  complete :
      (affected : ℤ) (nodes : List CreatedNodeInfo) (h' : List GraphCall)
      → how_many is_level_creation h' ≡ how_many is_level_creation h + length request.levels
      → UpdateOutcome db request h (
        ok (record {
          success = true;
          domain_element_id = request.domain_element_id;
          domain_name = request.domain.name;
          created_nodes = nodes;
          affected_user_progress_count = affected;
        }),
        h',
      )

stops :
    (db : GraphDb) (request : UpdateDomainRequest) (h : List GraphCall) (message : String)
    (r : Result String (Unit {0})) (e : ServiceError db.floats.F64) (h' : List GraphCall)
    → or_fail db message r ≡ err e
    → how_many is_level_creation h' ≡ how_many is_level_creation h
    → UpdateOutcome db request h (err e, h')
stops db req h message r e h' q same = rw (or_fail-fails db message r e q) (stopped message h' same)

-- Updating a domain always ends, and in one of three ways: with an error before any write; with a
-- database error and no new level asked for; or with success, having asked for each level of the
-- request once, whether or not these succeeded.
pub update_domain-UpdateOutcome :
    (db : GraphDb) (request : UpdateDomainRequest) (h : List GraphCall)
    → UpdateOutcome db request h (update_domain db request h)
unfolding update_domain pure
update_domain-UpdateOutcome db req h =
    let P = UpdateOutcome db req h in
    let id : String × Param = ("domainId", Param.text req.domain_element_id) in
    let found = GraphCall.execute verify_domain (id ∷ []) ∷ h in
    lift-bind P _ _ h (λ e q. refused e _ refl)
      (λ u q. run-bind P _ _ (query_returns db _ _ h) (
        lift-bind P _ _ _ (λ e q. refused e _ (omega arith))
          (λ u q.
            let progress = delete_user_progress-Builds db req.removed_node_element_ids found in
            let kept = progress.asked in
            run-bind P _ _ progress.ran (
              run-bind P _ _ (run_returns db _ _ _) (
                lift-bind P _ _ _ (λ e q. stops db req h _ _ e _ q (omega (arith, kept)))
                  (λ u q. run-bind P _ _ (run_returns db _ _ _) (
                    lift-bind P _ _ _ (λ e q. stops db req h _ _ e _ q (omega (arith, kept)))
                      (λ u q.
                        let levels = create_levels-Builds db req.domain_element_id req.levels _ in
                        let nodes =
                          process_levels-Builds db levels.value 0 req.levels levels.history in
                        run-bind P _ _ levels.ran (
                          run-bind P _ _ nodes.ran (
                            complete progress.value nodes.value nodes.history
                              (omega (arith, kept, levels.asked, nodes.asked))))))))))))

-- ===== src/Graph/Calls.antt =====
-- The counted calls of the services on domains.
use atlas_of_us.Prelude.{◌≡◌, refl, ℕ, ◌+◌, Bool, true, false, not, List, [], ◌∷◌, if◌then◌else◌}
use atlas_of_us.Graph.Statements.{
  GraphStatement, graph_text, merge_component, require_knowledge, require_skill, require_trait,
  require_milestone, find_domain, find_domain_name, check_domain, verify_domain, create_level,
}
use atlas_of_us.Effects.Defs.{ok, call}
use atlas_of_us.Graph.Database.{GraphCall, GraphDb, GraphParams, execute_query, run_query}

abbrev pub statement_of : GraphCall → GraphStatement
statement_of (GraphCall.execute s _) = s
statement_of (GraphCall.run s _) = s

-- A component node is asked for.
abbrev pub is_merge : GraphStatement → Bool
is_merge (merge_component _ _) = true
is_merge _ = false

-- A requirement of a level is asked for.
abbrev pub is_require : GraphStatement → Bool
is_require require_knowledge = true
is_require require_skill = true
is_require require_trait = true
is_require require_milestone = true
is_require _ = false

-- A level is asked for.
abbrev pub is_level_creation : GraphStatement → Bool
is_level_creation create_level = true
is_level_creation _ = false

-- Only reads.
abbrev pub is_read : GraphStatement → Bool
is_read find_domain = true
is_read find_domain_name = true
is_read check_domain = true
is_read verify_domain = true
is_read _ = false

abbrev pub is_write : GraphStatement → Bool
is_write s = not (is_read s)

-- How many calls of the history pass a test.
abbrev pub how_many : (GraphStatement → Bool) → List GraphCall → ℕ
how_many p [] = 0
how_many p (c ∷ h) = (if p (statement_of c) then 1 else 0) + how_many p h

-- What a query returns, and the call that it records.
module _ (db : GraphDb) {E : Type 0} where
  pub query_returns :
      (s : GraphStatement) (ps : GraphParams) (h : List GraphCall)
      → execute_query db {E = E} s ps h
        ≡ (ok (db.answer_execute h (graph_text s) ps), GraphCall.execute s ps ∷ h)
  unfolding execute_query call
  query_returns s ps h = refl

  pub run_returns :
      (s : GraphStatement) (ps : GraphParams) (h : List GraphCall)
      → run_query db {E = E} s ps h
        ≡ (ok (db.answer_run h (graph_text s) ps), GraphCall.run s ps ∷ h)
  unfolding run_query call
  run_returns s ps h = refl

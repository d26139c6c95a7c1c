-- ===== src/Graph/Alignment.antt =====
-- Which level the requirements of a request are linked to.
use atlas_of_us.Prelude.{
  ℕ, suc, String, ◌≡◌, refl, sym, ap, ◌∙◌, List, [], ◌∷◌, ◌++◌, map, arith, length,
}
use atlas_of_us.Effects.Defs.{ok, pure, ◌>>=◌}
use atlas_of_us.Effects.Counting.{bind-run}
use atlas_of_us.Graph.Models.{DomainLevel, CreatedNodeInfo}
use atlas_of_us.Graph.Statements.{create_level, graph_text}
use atlas_of_us.Graph.Database.{GraphDb, GraphCall, execute_query}
use atlas_of_us.Graph.Requirements.{Service, process_level_requirements}
use atlas_of_us.Graph.Calls.{query_returns}
use atlas_of_us.Graph.Levels.{level_params, level_ids_of, create_levels, process_levels}

module _ (db : GraphDb) where
  -- A reference for the two loops that keeps each id with the level it was created for.
  unfoldable pub create_paired :
      String → List DomainLevel → Service db (List (String × DomainLevel))
  create_paired domain_element_id [] = pure []
  create_paired domain_element_id (level ∷ levels) = do
    rows ← execute_query db create_level (level_params domain_element_id level)
    rest ← create_paired domain_element_id levels
    pure (map (λ id. (id, level)) (level_ids_of db rows) ++ rest)

  unfoldable pub process_paired : List (String × DomainLevel) → Service db (List CreatedNodeInfo)
  process_paired [] = pure []
  process_paired ((level_element_id, level) ∷ pairs) = do
    nodes ← process_level_requirements db level_element_id level.requirements
    rest ← process_paired pairs
    pure (nodes ++ rest)

  abbrev id_of_pair : String × DomainLevel → String
  id_of_pair p = p.0

  abbrev level_of_pair : String × DomainLevel → DomainLevel
  level_of_pair p = p.1

  shift :
      (id : String) (ids : List String) (i : ℕ) (levels : List DomainLevel)
      → process_levels db (id ∷ ids) (suc i) levels ≡ process_levels db ids i levels
  unfolding process_levels
  shift id ids i [] = refl
  shift id ids i (level ∷ levels) = rw (shift id ids (suc i) levels) refl

  process_levels-paired :
      (pairs : List (String × DomainLevel))
      → process_levels db (map id_of_pair pairs) 0 (map level_of_pair pairs) ≡ process_paired pairs
  unfolding process_levels process_paired
  process_levels-paired [] = refl
  process_levels-paired ((id, level) ∷ pairs) =
      rw (shift id (map id_of_pair pairs) 0 (map level_of_pair pairs), process_levels-paired pairs)
        refl

  -- Every creation of a level of the domain returns one row.
  abbrev pub LevelsAreCreated : String → Type 0
  LevelsAreCreated domain_element_id =
      (h : List GraphCall) (level : DomainLevel)
      → length (
          level_ids_of db
            (db.answer_execute h (graph_text create_level) (level_params domain_element_id level)))
        ≡ 1

  record Paired (domain_element_id : String) (levels : List DomainLevel) (h : List GraphCall)
      : Type 0 where
    pairs : List (String × DomainLevel)
    history : List GraphCall
    ids_ran : create_levels db domain_element_id levels h ≡ (ok (map id_of_pair pairs), history)
    pairs_ran : create_paired domain_element_id levels h ≡ (ok pairs, history)
    same : map level_of_pair pairs ≡ levels

  one_id : (ids : List String) → length ids ≡ 1 → (id : String) × (ids ≡ id ∷ [])
  one_id [] e = absurd (omega (arith, e))
  one_id (id ∷ []) e = (id, refl)
  one_id (id ∷ id' ∷ ids) e = absurd (omega (arith, e))

  create_levels-Paired :
      (domain_element_id : String) (levels : List DomainLevel) (h : List GraphCall)
      → LevelsAreCreated domain_element_id
      → Paired domain_element_id levels h
  unfolding create_levels create_paired execute_query pure
  create_levels-Paired d [] h created = record {
    pairs = [];
    history = h;
    ids_ran = refl;
    pairs_ran = refl;
    same = refl;
  }
  create_levels-Paired d (level ∷ levels) h created =
      let rows = db.answer_execute h (graph_text create_level) (level_params d level) in
      let (id, only) = one_id (level_ids_of db rows) (created h level) in
      let h' = GraphCall.execute create_level (level_params d level) ∷ h in
      let rest = create_levels-Paired d levels h' created in
      record {
        pairs = (id, level) ∷ rest.pairs;
        history = rest.history;
        ids_ran =
            bind-run _ _ (query_returns db create_level (level_params d level) h)
              (bind-run _ _ rest.ids_ran (rw only refl));
        pairs_ran =
            bind-run _ _ (query_returns db create_level (level_params d level) h)
              (bind-run _ _ rest.pairs_ran (rw only refl));
        same = ap (λ ls. level ∷ ls) rest.same;
      }

-- Where every creation of a level returns its row, creating the levels and then processing their
-- requirements by index does what keeping each id with its level does: the requirements of every
-- level are processed with the id of that very level.
pub create_levels-process_levels :
    (db : GraphDb) (domain_element_id : String) (levels : List DomainLevel) (h : List GraphCall)
    → LevelsAreCreated db domain_element_id
    → (create_levels db domain_element_id levels >>= λ ids. process_levels db ids 0 levels) h
      ≡ (create_paired db domain_element_id levels >>= λ pairs. process_paired db pairs) h
create_levels-process_levels db d levels h created =
    let p = create_levels-Paired db d levels h created in
    let by_index = process_levels-paired db p.pairs in
    bind-run _ _ p.ids_ran
      (ap (λ m. m p.history) (rw p.same at by_index) ∙ sym (bind-run _ _ p.pairs_ran refl))

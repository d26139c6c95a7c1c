-- ===== src/Graph/Database.antt =====
-- The graph database as domains/graph/services use it, through neo4rs: a parameter. A call is
-- recorded with its statement and all its parameters.
use atlas_of_us.Prelude.{String, Bool, Option, none, some, List, [], ◌∷◌}
use atlas_of_us.Effects.Defs.{Result, ok, err, Eff, call}
use atlas_of_us.Floats.{Floats}
use atlas_of_us.Graph.Models.{ℤ}
use atlas_of_us.Graph.Statements.{GraphStatement, graph_text}

pub data Param : Type 0 where
  text : String → Param
  int : ℤ → Param
  texts : List String → Param

abbrev pub GraphParams : Type 0
GraphParams = List (String × Param)

-- `none` is an error of the conversion; `V` is the type of JSON values.
pub record GraphRow (V : Type 0) : Type 0 where
  pub get_text : String → Option String
  pub get_int : String → Option ℤ
  pub get_value : String → Option V

pub data GraphCall : Type 0 where
  execute run : GraphStatement → GraphParams → GraphCall

pub record GraphDb : Type 1 where
  pub floats : Floats
  -- serde_json's values, and `Value::is_null`.
  pub Json : Type 0
  pub null : Json
  pub is_null : Json → Bool
  -- The rows come one by one, and reading one may fail.
  pub answer_execute :
      List GraphCall → String → GraphParams → Result String (List (Result String (GraphRow Json)))
  pub answer_run : List GraphCall → String → GraphParams → Result String (Unit {0})

-- What `if let Ok(Some(row)) = result.next().await` binds.
abbrev pub first_row {ℓ} : {A : Type ℓ} → List (Result String A) → Option A
first_row [] = none
first_row (err e ∷ rows) = none
first_row (ok row ∷ rows) = some row

module _ (db : GraphDb) {E : Type 0} where
  -- `graph.execute(query).await` and `graph.run(query).await`, whose errors the callers handle.
  unfoldable pub execute_query :
      GraphStatement
      → GraphParams
      → Eff GraphCall E (Result String (List (Result String (GraphRow db.Json))))
  execute_query s params =
      call (GraphCall.execute s params) (λ h. ok (db.answer_execute h (graph_text s) params))

  unfoldable pub run_query :
      GraphStatement → GraphParams → Eff GraphCall E (Result String (Unit {0}))
  run_query s params =
      call (GraphCall.run s params) (λ h. ok (db.answer_run h (graph_text s) params))

-- ===== src/Graph/Requests.antt =====
-- domains/graph/models.rs: the requests and results on single nodes and relationships, over the
-- type of JSON values. A `HashMap` is the list of its entries.
use atlas_of_us.Graph.Models.{ℤ}
use atlas_of_us.Prelude.{String, Option, List}

pub record CreateNodeRequest (V : Type 0) : Type 0 where
  pub labels : List String
  pub properties : List (String × V)

pub record CreateNodeResult : Type 0 where
  pub element_id : String
  pub name : String
  pub labels : List String

pub record CreateRelationshipRequest (V : Type 0) : Type 0 where
  pub source_id : String
  pub target_id : String
  pub relationship_type : String
  pub properties : Option (List (String × V))

pub record CreateRelationshipResult : Type 0 where
  pub element_id : String
  pub relationship_type : String
  pub source_id : String
  pub target_id : String

-- common/similarity.rs; the limit is an `i32`.
pub record FindSimilarNodesRequest (F : Type 0) : Type 0 where
  pub node_id : Option String
  pub embedding : Option (List F)
  pub text : Option String
  pub label : Option String
  pub limit : Option ℤ

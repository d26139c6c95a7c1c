-- ===== src/Graph/Statuses.antt =====
-- The statuses with which the handlers on nodes answer.
use atlas_of_us.Graph.Values.{json_array}
use atlas_of_us.Graph.Queries.{update_node_query}
use atlas_of_us.Text.{is_some}
use atlas_of_us.Graph.Nodes.{params_of, keys, values_of, Property, update_node}
use atlas_of_us.Graph.Responses.{validation_failure, UpdateNodeRequest, Body, HttpFailure, put_node}
use atlas_of_us.Effects.Defs.{unwrap_or, pure, lift, err, ok, ◌>>=◌, Result, with_err}
use atlas_of_us.Graph.Store.{Float, NodeCall, StoreRows, execute_statement, NodeStore}
use atlas_of_us.Graph.Mapping.{bolt_string}
use atlas_of_us.Prelude.{
  String, ◌≡◌, refl, Bool, false, not, ◌||◌, Option, none, some, List, [], ◌∷◌, ◌==ₙ◌,
}

module _ (db : NodeStore) where
  abbrev pub is_bad_request : Result (HttpFailure db) (Body db) → Bool
  is_bad_request (ok v) = false
  is_bad_request (err (status, body)) = status ==ₙ 400

  put_answer :
      (answer : StoreRows db) (h : List (NodeCall (Float db)))
      → is_bad_request
          ((with_err (validation_failure db) (lift (values_of db "n" answer)) >>= λ nodes.
              pure (json_array nodes))
            h).0
        ≡ false
  unfolding with_err ◌>>=◌
  put_answer (err e) h = refl
  put_answer (ok rows) h = refl

  by_fields :
      (t : String) (labels : Option (List String)) (properties : Option (List (Property db)))
      (h : List (NodeCall (Float db)))
      → is_bad_request
          (put_node db (record { target_id = t; labels = labels; properties = properties }) h).0
        ≡ not (is_some labels || is_some properties)
  unfolding put_node update_node with_err execute_statement ◌>>=◌
  by_fields t none none h = refl
  by_fields t none (some ps) h =
      let statement = update_node_query none (keys ps) in
      let params = ("targetId", bolt_string t) ∷ params_of db ps in
      put_answer (db.answer_execute h statement params) (NodeCall.execute statement params ∷ h)
  by_fields t (some ls) ps h =
      let props = unwrap_or ps [] in
      let statement = update_node_query (some ls) (keys props) in
      let params = ("targetId", bolt_string t) ∷ params_of db props in
      put_answer (db.answer_execute h statement params) (NodeCall.execute statement params ∷ h)

  -- A request to update a node is answered with 400 exactly where it has neither labels nor
  -- properties, whatever the database answers.
  pub put_node-is_bad_request :
      (request : UpdateNodeRequest (Body db)) (h : List (NodeCall (Float db)))
      → is_bad_request (put_node db request h).0
        ≡ not (is_some request.labels || is_some request.properties)
  put_node-is_bad_request request h =
      by_fields request.target_id request.labels request.properties h

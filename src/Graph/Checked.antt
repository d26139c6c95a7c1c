-- ===== src/Graph/Checked.antt =====
-- What the services on nodes check before they write or search.
use atlas_of_us.Graph.Database.{first_row}
use atlas_of_us.Graph.Relationships.{has_embedding, find_similar}
use atlas_of_us.Text.{is_some}
use atlas_of_us.Effects.Counting.{bind-ok}
use atlas_of_us.Graph.Similarity.{execute_similarity_query, find_similar_nodes}
use atlas_of_us.Graph.Values.{Value}
use atlas_of_us.Graph.Models.{ℤ, pos}
use atlas_of_us.Graph.Requests.{CreateNodeResult, CreateNodeRequest, FindSimilarNodesRequest}
use atlas_of_us.Graph.Nodes.{
  node_of_row, created_node, insert_node, check_similar, node_text, embed, is_too_similar,
  unless_similar, create_node,
}
use atlas_of_us.Effects.Defs.{◌>>=◌, attempt, ◌>>◌, err, ok, Result}
use atlas_of_us.Agent.Generation.Models.{Similar}
use atlas_of_us.Graph.Store.{StoreRow, execute_statement, StoreRows, NodeCall, Float, NodeStore}
use atlas_of_us.Prelude.{
  ℕ, ◌+◌, String, ◌≡◌, refl, sym, ap, inl, inr, true, false, Option, none, some, List, [], ◌∷◌,
  arith, ◌==ₙ◌, if◌then◌else◌, Bool-cases, length,
}

module _ (db : NodeStore) where
  -- No node, or one whose score is not above 0.7.
  abbrev pub IsUnlike : List (Similar (Float db)) → Type 0
  IsUnlike [] = Unit {0}
  IsUnlike (best ∷ nodes) = is_too_similar db best.score ≡ false

  -- A search for one node by an embedding.
  abbrev pub nearest : List (Float db) → FindSimilarNodesRequest (Float db)
  nearest embedding = record {
    node_id = none;
    embedding = some embedding;
    text = none;
    label = none;
    limit = some (pos 1);
  }

  unless_similar-ok :
      (found : Result String (List (Similar (Float db)))) {u : Unit {0}}
      → unless_similar db found ≡ ok u
      → (nodes : List (Similar (Float db))) × (found ≡ ok nodes) × IsUnlike nodes
  unless_similar-ok (err e) q = cc
  unless_similar-ok (ok []) q = ([], refl, tt)
  unless_similar-ok (ok (best ∷ nodes)) q = elim (Bool-cases (is_too_similar db best.score)) [
    | inl close ↦ cc
    | inr far ↦ (best ∷ nodes, refl, far)
  ]

  check_similar-ok :
      (embedding : List (Float db)) (h : List (NodeCall (Float db))) {u : Unit {0}}
      → (check_similar db true embedding h).0 ≡ ok u
      → (nodes : List (Similar (Float db))) × ((find_similar_nodes db (nearest embedding) h).0
          ≡ ok nodes)
        × IsUnlike nodes
  unfolding check_similar attempt ◌>>=◌
  check_similar-ok embedding h q =
      unless_similar-ok (find_similar_nodes db (nearest embedding) h).0 q

  node_of_row-labels :
      (labels : List String) (row : Option (StoreRow db)) (created : CreateNodeResult)
      → node_of_row db labels row ≡ ok created
      → created.labels ≡ labels
  node_of_row-labels labels none created q = cc
  node_of_row-labels labels (some row) created q =
      ap (λ r. elim r [ ok c ↦ c.labels | err e ↦ labels ]) (sym q)

  created_node-labels :
      (labels : List String) (answer : StoreRows db) (created : CreateNodeResult)
      → created_node db labels answer ≡ ok created
      → created.labels ≡ labels
  created_node-labels labels (err e) created q = cc
  created_node-labels labels (ok rows) created q =
      node_of_row-labels labels (first_row rows) created q

  insert_node-labels :
      (request : CreateNodeRequest (Value db.serde.Number)) (embedding : List (Float db))
      (h : List (NodeCall (Float db))) (created : CreateNodeResult)
      → (insert_node db request embedding h).0 ≡ ok created
      → created.labels ≡ request.labels
  unfolding insert_node execute_statement ◌>>=◌
  insert_node-labels request embedding h created q = created_node-labels request.labels _ created q

  -- A search that went well, with the embedding of the name and description of the request, found
  -- no node that is too similar, and the node has the labels of the request.
  abbrev pub CreatedUnlike :
      CreateNodeRequest (Value db.serde.Number)
      → List (NodeCall (Float db))
      → CreateNodeResult
      → Type 0
  CreatedUnlike request h created =
      (embedding : List (Float db)) × (nodes : List (Similar (Float db))) × (h' : List
        (NodeCall (Float db)))
      × (embed db (node_text db request.properties) h ≡ (ok embedding, h'))
      × ((find_similar_nodes db (nearest embedding) h').0 ≡ ok nodes)
      × IsUnlike nodes
      × (created.labels ≡ request.labels)

  -- Under the check, a node is created only after a search that went well, with the embedding of
  -- its own name and description, and that found nothing or first a node whose score is not above
  -- 0.7. The result has the labels of the request.
  pub create_node-CreatedUnlike :
      (request : CreateNodeRequest (Value db.serde.Number)) (h : List (NodeCall (Float db)))
      (created : CreateNodeResult)
      → (create_node db request true h).0 ≡ ok created
      → CreatedUnlike request h created
  unfolding create_node
  create_node-CreatedUnlike request h created returned =
      let (embedding, h', embedded, later, rest, _) =
        bind-ok (embed db (node_text db request.properties))
          (λ v. check_similar db true v >> insert_node db request v) h created returned in
      let (u, h'', checked, _, inserted, _) =
        bind-ok (check_similar db true embedding) (λ _. insert_node db request embedding) h' created
          rest in
      let (nodes, found, unlike) = check_similar-ok embedding h' checked in
      (
        embedding,
        nodes,
        h',
        cc,
        found,
        unlike,
        insert_node-labels request embedding h'' created inserted,
      )

  abbrev given : Option String → Option (List (Float db)) → ℕ
  given node_id embedding =
      (if is_some node_id then 1 else 0) + (if has_embedding db embedding then 1 else 0)

  -- A search asks the database once where just one of a node and an embedding that is not empty is
  -- given, and nothing otherwise.
  pub find_similar-length :
      (node_id : Option String) (embedding : Option (List (Float db))) (limit : Option ℤ)
      (h : List (NodeCall (Float db)))
      → length (find_similar db node_id embedding limit h).1
        ≡ length h + (if given node_id embedding ==ₙ 1 then 1 else 0)
  unfolding find_similar find_similar_nodes execute_similarity_query execute_statement ◌>>=◌
  find_similar-length none none limit h = omega arith
  find_similar-length none (some []) limit h = omega arith
  find_similar-length none (some (x ∷ xs)) limit h = omega arith
  find_similar-length (some i) none limit h = omega arith
  find_similar-length (some i) (some []) limit h = omega arith
  find_similar-length (some i) (some (x ∷ xs)) limit h = omega arith

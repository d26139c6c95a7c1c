-- ===== src/Samples/NodeTests.antt =====
-- The theorems on nodes at a concrete store: one chess node, whose columns are those of the query,
-- and a search that finds a node with a low score.
use atlas_of_us.Graph.Statuses.{put_node-is_bad_request, is_bad_request}
use atlas_of_us.Graph.Responses.{put_node, UpdateNodeRequest}
use atlas_of_us.Graph.Similarity.{execute_similarity_query, find_similar_nodes}
use atlas_of_us.Graph.Mapping.{map_rows, map_bolt4_to_bolt5, map_bolt4_to_bolt5_node}
use atlas_of_us.Graph.Checked.{create_node-CreatedUnlike, CreatedUnlike, find_similar-length}
use atlas_of_us.Graph.Mapped.{map_bolt4_to_bolt5_node-props, prop_at}
use atlas_of_us.Effects.Defs.{◌>>=◌, attempt, ok}
use atlas_of_us.Samples.Scores.{scores}
use atlas_of_us.Graph.Relationships.{find_similar}
use atlas_of_us.Graph.Nodes.{insert_node, check_similar, create_node}
use atlas_of_us.Graph.Returned.{
  get_nodes_with_relationships-client_rows, client_row, get_nodes_by_search_term-blank, blank,
}
use atlas_of_us.Graph.Reading.{
  get_nodes_near, get_nodes_by_search_term, get_nodes_with_relationships,
}
use atlas_of_us.Graph.Requests.{CreateNodeRequest, CreateNodeResult}
use atlas_of_us.Graph.Store.{execute_statement, generate_embedding, NodeRow, NodeStore}
use atlas_of_us.Graph.Models.{pos, ℤ}
use atlas_of_us.Graph.Values.{
  retain, fields, json_array, json_object, items, Serde, get, Value, number, text, array,
}
use atlas_of_us.Prelude.{
  String, ◌≡◌, refl, true, none, some, List, [], ◌∷◌, map, ◌==◌, if◌then◌else◌, length,
}

abbrev serde : Serde
serde = record {
  floats = scores;
  Number = ℤ;
  as_i64 = λ n. some n;
  as_f64 = λ n. none;
  from_i64 = λ i. i;
  from_f64 = λ x. none;
  number_text = λ n. "0";
  value_text = λ v. "{}";
  entries_of_text = λ t. none;
}

abbrev chess_props : List (String × Value ℤ)
chess_props = ("embedding", array (items (number (pos 1) ∷ []))) ∷ ("name", text "Chess") ∷ []

abbrev chess_fields : List (String × Value ℤ)
chess_fields =
    ("elementId", text "e1") ∷ ("id", number (pos 7)) ∷ ("props", json_object chess_props) ∷ []

abbrev chess_row : NodeRow ℤ scores.F64
chess_row = record {
  get_text = λ key. if key == "elementId" then some "e1" else some "Chess";
  get_int = λ key. some (pos 1);
  get_float = λ key. some (scores.hundredths 40);
  get_value = λ key. if key == "node" then some (json_object chess_fields) else none;
}

abbrev store : NodeStore
store = record {
  serde = serde;
  embedding_endpoint = some "http://embed";
  answer_post = λ h url content. ok (record {
    is_success = true;
    status_text = "200 OK";
    json = ok (((scores.hundredths 10 ∷ []) ∷ []) ∷ []);
  });
  answer_execute = λ h statement params. ok (ok chess_row ∷ []);
}

abbrev chess_request : CreateNodeRequest (Value ℤ)
chess_request = record { labels = "Skill" ∷ []; properties = ("name", text "Chess") ∷ [] }

searched : (get_nodes_by_search_term store "chess" (pos 1) []).0 ≡ ok (blank store ∷ [])
unfolding get_nodes_by_search_term get_nodes_near generate_embedding execute_statement
    map_bolt4_to_bolt5 map_rows get ◌>>=◌
searched = refl

map_bolt4_to_bolt5_node-props_example :
    prop_at "name" (map_bolt4_to_bolt5_node serde (json_object chess_fields)) ≡ some (text "Chess")
unfolding get retain
map_bolt4_to_bolt5_node-props_example =
    map_bolt4_to_bolt5_node-props serde (fields chess_fields) (fields chess_props) "name" refl

get_nodes_with_relationships-client_rows_example :
    (get_nodes_with_relationships store (some ("Skill" ∷ [])) none (pos 1) []).0
    ≡ ok (json_array (client_row store chess_row ∷ []))
get_nodes_with_relationships-client_rows_example =
    get_nodes_with_relationships-client_rows store (some ("Skill" ∷ [])) none (pos 1) []

get_nodes_by_search_term-blank_example :
    blank store ∷ [] ≡ map (λ n. blank store) (blank store ∷ [])
get_nodes_by_search_term-blank_example =
    get_nodes_by_search_term-blank store "chess" (pos 1) [] (blank store ∷ []) searched

chess_created : CreateNodeResult
chess_created = record { element_id = "e1"; name = "Chess"; labels = "Skill" ∷ [] }

created : (create_node store chess_request true []).0 ≡ ok chess_created
unfolding create_node check_similar insert_node find_similar_nodes execute_similarity_query
    generate_embedding execute_statement attempt ◌>>=◌ chess_created
created = refl

create_node-CreatedUnlike_example : CreatedUnlike store chess_request [] chess_created
create_node-CreatedUnlike_example =
    create_node-CreatedUnlike store chess_request [] chess_created created

find_similar-length_example : length (find_similar store (some "e1") none none []).1 ≡ 1
find_similar-length_example = find_similar-length store (some "e1") none none []

abbrev no_change : UpdateNodeRequest (Value ℤ)
no_change = record { target_id = "e1"; labels = none; properties = none }

put_node-is_bad_request_example : is_bad_request store (put_node store no_change []).0 ≡ true
put_node-is_bad_request_example = put_node-is_bad_request store no_change []

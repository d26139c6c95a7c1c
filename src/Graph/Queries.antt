-- ===== src/Graph/Queries.antt =====
-- The Cypher texts of services/node.rs, services/relationship.rs, services/search.rs and of
-- common/similarity.rs.
use Prim.Native.Char.{Char}
use atlas_of_us.Text.{chars, strip_prefix, format, join, lines, of_chars}
use atlas_of_us.Prelude.{
  ℕ, zero, suc, String, Option, none, some, List, [], ◌∷◌, ◌++◌, map, ◌==◌, if◌then◌else◌, length,
}

-- `n.key = $key`, joined, for the keys in their order.
abbrev pub set_clauses : String → List String → String
set_clauses variable keys =
    join ", " (map (λ key. format (variable ∷ "." ∷ key ∷ " = $" ∷ key ∷ [])) keys)

unfoldable pub node_with_relationships_query_fragment : String → String
node_with_relationships_query_fragment depth = lines (
    ""
    ∷ format ("        OPTIONAL MATCH (node)-[r*1.." ∷ depth ∷ "]->(m)" ∷ [])
    ∷ "        UNWIND coalesce(r, [null]) AS unwound_relationships"
    ∷ "        UNWIND coalesce(m, [null]) AS unwound_affiliates"
    ∷ "        WITH"
    ∷ "            {"
    ∷ "                id: id(node),"
    ∷ "                elementId: elementId(node),"
    ∷ "                labels: labels(node),"
    ∷ "                props: properties(node)"
    ∷ "            } AS nodeWithMeta,"
    ∷ "            collect(distinct case when unwound_relationships is not null then {"
    ∷ "                id: id(unwound_relationships),"
    ∷ "                elementId: elementId(unwound_relationships),"
    ∷ "                startId: id(startNode(unwound_relationships)),"
    ∷ "                startElementId: elementId(startNode(unwound_relationships)),"
    ∷ "                endId: id(endNode(unwound_relationships)),"
    ∷ "                endElementId: elementId(endNode(unwound_relationships)),"
    ∷ "                type: type(unwound_relationships),"
    ∷ "                props: properties(unwound_relationships)"
    ∷ "            } else null end) AS relationshipsWithMeta,"
    ∷ "            collect(distinct case when unwound_affiliates is not null then {"
    ∷ "                id: id(unwound_affiliates),"
    ∷ "                elementId: elementId(unwound_affiliates),"
    ∷ "                labels: labels(unwound_affiliates),"
    ∷ "                props: properties(unwound_affiliates)"
    ∷ "            } else null end) AS affiliatedNodesWithMeta"
    ∷ "        RETURN"
    ∷ "            nodeWithMeta AS node,"
    ∷ "            relationshipsWithMeta AS relationships,"
    ∷ "            affiliatedNodesWithMeta AS affiliatedNodes"
    ∷ "        "
    ∷ [])

abbrev pub create_node_query : List String → List String → String
create_node_query labels keys = format (
    "CREATE (n:"
    ∷ join ":" labels
    ∷ ") SET "
    ∷ set_clauses "n" keys
    ∷ " RETURN elementId(n) AS elementId, n.name AS name"
    ∷ [])

abbrev pub find_node_query : Option String → String
find_node_query (some lbl) =
    format ("MATCH (n:" ∷ lbl ∷ " {name: $name}) RETURN elementId(n) AS elementId LIMIT 1" ∷ [])
find_node_query none = "MATCH (n {name: $name}) RETURN elementId(n) AS elementId LIMIT 1"

abbrev pub search_term_query : String → String
search_term_query depth = lines (
    ""
    ∷ "        CALL db.index.vector.queryNodes('nodeEmbeddings', 1, $embedding)"
    ∷ "        YIELD node, score"
    ∷ format ("        " ∷ node_with_relationships_query_fragment depth ∷ [])
    ∷ "        "
    ∷ [])

abbrev pub label_parts : Option (List String) → List String
label_parts none = []
label_parts (some labels) =
    "REMOVE n:_" ∷ map (λ label. format ("SET n:`" ∷ label ∷ "`" ∷ [])) labels

abbrev pub set_part : String → List String → List String
set_part variable [] = []
set_part variable (key ∷ keys) = format ("SET " ∷ set_clauses variable (key ∷ keys) ∷ []) ∷ []

abbrev pub update_node_query : Option (List String) → List String → String
update_node_query labels keys = join "\n" (
    ("MATCH (n)" ∷ "WHERE elementId(n) = $targetId" ∷ [])
    ++ label_parts labels
    ++ set_part "n" keys
    ++ "RETURN n" ∷ [])

abbrev pub create_relationship_query : String → List String → String
create_relationship_query relationship_type [] = lines (
    ""
    ∷ "            MATCH (source), (target)"
    ∷ "            WHERE elementId(source) = $sourceId AND elementId(target) = $targetId"
    ∷ format ("            MERGE (source)-[r:" ∷ relationship_type ∷ "]->(target)" ∷ [])
    ∷ "            RETURN elementId(r) AS elementId"
    ∷ "            "
    ∷ [])
create_relationship_query relationship_type (key ∷ keys) = lines (
    ""
    ∷ "            MATCH (source), (target)"
    ∷ "            WHERE elementId(source) = $sourceId AND elementId(target) = $targetId"
    ∷ format ("            MERGE (source)-[r:" ∷ relationship_type ∷ "]->(target)" ∷ [])
    ∷ format ("            SET " ∷ set_clauses "r" (key ∷ keys) ∷ [])
    ∷ "            RETURN elementId(r) AS elementId"
    ∷ "            "
    ∷ [])

-- `str::replace` on the characters; the fuel is the length of the text, and every round takes at
-- least one character.
unfoldable pub replace_rounds : ℕ → List Char → List Char → List Char → List Char
replace_rounds zero from to cs = cs
replace_rounds (suc fuel) from to [] = []
replace_rounds (suc fuel) from to (c ∷ cs) = elim (strip_prefix from (c ∷ cs)) [
  | none ↦ c ∷ replace_rounds fuel from to cs
  | some rest ↦ to ++ replace_rounds fuel from to rest
]

abbrev pub replace : String → String → String → String
replace from to s = of_chars (replace_rounds (length (chars s)) (chars from) (chars to) (chars s))

-- A new type needs a new relationship.
abbrev pub retype_query : String → List String → String
retype_query relationship_type [] = lines (
    ""
    ∷ "                MATCH (source)-[r]->(target)"
    ∷ "                WHERE elementId(r) = $targetId"
    ∷ format ("                CREATE (source)-[newR:" ∷ relationship_type ∷ "]->(target)" ∷ [])
    ∷ "                DELETE r"
    ∷ "                RETURN newR AS r"
    ∷ "                "
    ∷ [])
retype_query relationship_type (key ∷ keys) = lines (
    ""
    ∷ "                MATCH (source)-[r]->(target)"
    ∷ "                WHERE elementId(r) = $targetId"
    ∷ format ("                CREATE (source)-[newR:" ∷ relationship_type ∷ "]->(target)" ∷ [])
    ∷ format ("                SET " ∷ replace "r." "newR." (set_clauses "r" (key ∷ keys)) ∷ [])
    ∷ "                DELETE r"
    ∷ "                RETURN newR AS r"
    ∷ "                "
    ∷ [])

abbrev pub set_query : List String → String
set_query [] = lines (
    "" ∷ "            MATCH ()-[r]->()" ∷ "            WHERE elementId(r) = $targetId"
    ∷ "            RETURN r" ∷ "            " ∷ [])
set_query (key ∷ keys) = lines (
    ""
    ∷ "                MATCH ()-[r]->()"
    ∷ "                WHERE elementId(r) = $targetId"
    ∷ format ("                SET " ∷ set_clauses "r" (key ∷ keys) ∷ [])
    ∷ "                RETURN r"
    ∷ "                "
    ∷ [])

abbrev pub update_relationship_query : String → List String → String
update_relationship_query relationship_type keys =
    if relationship_type == "" then set_query keys else retype_query relationship_type keys

abbrev pub delete_relationship_query : String
delete_relationship_query = lines (
    "" ∷ "        MATCH ()-[r]->()" ∷ "        WHERE elementId(r) = $relId" ∷ "        DELETE r"
    ∷ "        RETURN count(r) AS deleted" ∷ "    " ∷ [])

abbrev pub label_filter : Option (List String) → String
label_filter none = "(n:Knowledge OR n:Skill OR n:Trait OR n:Milestone)"
label_filter (some labels) =
    format ("(" ∷ join " OR " (map (λ l. format ("n:`" ∷ l ∷ "`" ∷ [])) labels) ∷ ")" ∷ [])

abbrev pub search_nodes_query : Option (List String) → String
search_nodes_query labels = lines (
    ""
    ∷ "        MATCH (n)"
    ∷ format (
        "        WHERE "
        ∷ label_filter labels
        ∷ " AND toLower(n.name) CONTAINS toLower($query)"
        ∷ [])
    ∷ "        RETURN {"
    ∷ "            elementId: elementId(n),"
    ∷ "            labels: labels(n),"
    ∷ "            props: properties(n)"
    ∷ "        } AS node"
    ∷ "        ORDER BY n.name"
    ∷ "        LIMIT $limit"
    ∷ "        "
    ∷ [])

abbrev pub and_label : Option String → String
and_label none = ""
and_label (some l) = format (" AND node:" ∷ l ∷ [])

abbrev pub where_label : Option String → String
where_label none = ""
where_label (some l) = format ("WHERE node:" ∷ l ∷ "\n            " ∷ [])

abbrev pub build_node_id_query : Option String → String
build_node_id_query label = lines (
    ""
    ∷ "        MATCH (n)"
    ∷ "        WHERE elementId(n) = $nodeId"
    ∷ "        CALL db.index.vector.queryNodes('nodeEmbeddings', $limit, n.embedding)"
    ∷ "        YIELD node, score"
    ∷ format ("        WHERE elementId(node) <> $nodeId" ∷ and_label label ∷ [])
    ∷ "        RETURN node.name as name, node.description as description, elementId(node) as id, score"
    ∷ "        ORDER BY score DESC"
    ∷ "        "
    ∷ [])

abbrev pub build_embedding_query : Option String → String
build_embedding_query label = lines (
    ""
    ∷ "        CALL db.index.vector.queryNodes('nodeEmbeddings', $limit, $embedding)"
    ∷ "        YIELD node, score"
    ∷ format (
        "        "
        ∷ where_label label
        ∷ "RETURN node.name as name, node.description as description, elementId(node) as id, score"
        ∷ [])
    ∷ "        ORDER BY score DESC"
    ∷ "        "
    ∷ [])

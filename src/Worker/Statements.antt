-- ===== src/Worker/Statements.antt =====
-- The Cypher texts of the worker (services/similarity.rs, processors/*.rs).
use atlas_of_us.Prelude.{String, Option, none, some, [], ◌∷◌}
use atlas_of_us.Text.{format, lines}
use atlas_of_us.Worker.Services.{
  Statement, similar_by_node, similar_by_embedding, create_knowledge, create_skill, create_trait,
  create_milestone, require_level, generalize,
}

abbrev node_filter : Option String → String
node_filter none = ""
node_filter (some l) = format (" AND node:" ∷ l ∷ [])

unfoldable pub build_node_id_query : Option String → String
build_node_id_query label =
    let label_filter = node_filter label in
    lines (
      ""
      ∷ "        MATCH (n)"
      ∷ "        WHERE elementId(n) = $nodeId"
      ∷ "        CALL db.index.vector.queryNodes('nodeEmbeddings', $limit, n.embedding)"
      ∷ "        YIELD node, score"
      ∷ format ("        WHERE elementId(node) <> $nodeId" ∷ label_filter ∷ [])
      ∷ "        RETURN node.name as name, node.description as description, elementId(node) as id, score"
      ∷ "        ORDER BY score DESC"
      ∷ "        "
      ∷ [])

abbrev where_filter : Option String → String
where_filter none = ""
where_filter (some l) = format ("WHERE node:" ∷ l ∷ "\n            " ∷ [])

unfoldable pub build_embedding_query : Option String → String
build_embedding_query label =
    let label_filter = where_filter label in
    lines (
      ""
      ∷ "        CALL db.index.vector.queryNodes('nodeEmbeddings', $limit, $embedding)"
      ∷ "        YIELD node, score"
      ∷ format (
          "        " ∷ label_filter
          ∷ "RETURN node.name as name, node.description as description, elementId(node) as id, score"
          ∷ [])
      ∷ "        ORDER BY score DESC"
      ∷ "        "
      ∷ [])

unfoldable pub statement_text : Statement → String
unfolding build_node_id_query build_embedding_query
statement_text (similar_by_node label) = build_node_id_query label
statement_text (similar_by_embedding label) = build_embedding_query label
statement_text create_knowledge = lines (
    "" ∷ "            CREATE (n:Knowledge {" ∷ "                name: $name,"
    ∷ "                description: $description," ∷ "                how_to_learn: $how_to_learn,"
    ∷ "                remember_level: $remember_level,"
    ∷ "                understand_level: $understand_level,"
    ∷ "                apply_level: $apply_level,"
    ∷ "                analyze_level: $analyze_level,"
    ∷ "                evaluate_level: $evaluate_level,"
    ∷ "                create_level: $create_level," ∷ "                embedding: $embedding"
    ∷ "            })" ∷ "            RETURN elementId(n) as element_id, n.name as name"
    ∷ "            " ∷ [])
statement_text create_skill = lines (
    "" ∷ "            CREATE (n:Skill {" ∷ "                name: $name,"
    ∷ "                description: $description,"
    ∷ "                how_to_develop: $how_to_develop,"
    ∷ "                novice_level: $novice_level,"
    ∷ "                advanced_beginner_level: $advanced_beginner_level,"
    ∷ "                competent_level: $competent_level,"
    ∷ "                proficient_level: $proficient_level,"
    ∷ "                expert_level: $expert_level," ∷ "                embedding: $embedding"
    ∷ "            })" ∷ "            RETURN elementId(n) as element_id, n.name as name"
    ∷ "            " ∷ [])
statement_text create_trait = lines (
    "" ∷ "            CREATE (n:Trait {" ∷ "                name: $name,"
    ∷ "                description: $description,"
    ∷ "                measurement_criteria: $measurement_criteria,"
    ∷ "                embedding: $embedding" ∷ "            })"
    ∷ "            RETURN elementId(n) as element_id, n.name as name" ∷ "            " ∷ [])
statement_text create_milestone = lines (
    "" ∷ "            CREATE (n:Milestone {" ∷ "                name: $name,"
    ∷ "                description: $description,"
    ∷ "                how_to_achieve: $how_to_achieve," ∷ "                embedding: $embedding"
    ∷ "            })" ∷ "            RETURN elementId(n) as element_id, n.name as name"
    ∷ "            " ∷ [])
statement_text (require_level relationship_type) = lines (
    ""
    ∷ "        MATCH (level) WHERE elementId(level) = $level_id"
    ∷ "        MATCH (node) WHERE elementId(node) = $node_id"
    ∷ format ("        CREATE (level)-[:" ∷ relationship_type ∷ "]->(node)" ∷ [])
    ∷ "        "
    ∷ [])
statement_text generalize = lines (
    "" ∷ "        MATCH (source) WHERE elementId(source) = $source_id"
    ∷ "        MATCH (target) WHERE elementId(target) = $target_id"
    ∷ "        CREATE (source)-[:GENERALIZES_TO]->(target)" ∷ "        " ∷ [])

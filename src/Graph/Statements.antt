-- ===== src/Graph/Statements.antt =====
-- The Cypher texts of domains/graph/services/domain.rs.
use atlas_of_us.Prelude.{String, List, [], ◌∷◌}
use atlas_of_us.Text.{format, lines, join}

-- One constructor for each statement of the source.
pub data GraphStatement : Type 0 where
  find_domain find_domain_name check_domain create_domain_node create_level : GraphStatement
  merge_component : String → List String → GraphStatement
  require_knowledge require_skill require_trait require_milestone : GraphStatement
  verify_domain delete_progress set_domain delete_levels : GraphStatement

abbrev find_domain_text : String
find_domain_text = lines (
    "" ∷ "        MATCH (domain:Domain {name: $name})"
    ∷ "        OPTIONAL MATCH (domain)-[:HAS_DOMAIN_LEVEL]->(level:Domain_Level)" ∷ ""
    ∷ "        // Get knowledge requirements for each level"
    ∷ "        OPTIONAL MATCH (level)-[kr:REQUIRES_KNOWLEDGE]->(k:Knowledge)" ∷ ""
    ∷ "        // Get skill requirements for each level"
    ∷ "        OPTIONAL MATCH (level)-[sr:REQUIRES_SKILL]->(s:Skill)" ∷ ""
    ∷ "        // Get trait requirements for each level"
    ∷ "        OPTIONAL MATCH (level)-[tr:REQUIRES_TRAIT]->(t:Trait)" ∷ ""
    ∷ "        // Get milestone requirements for each level"
    ∷ "        OPTIONAL MATCH (level)-[mr:REQUIRES_MILESTONE]->(m:Milestone)" ∷ ""
    ∷ "        // Get GENERALIZES_TO relationships for skills and knowledge"
    ∷ "        OPTIONAL MATCH (s)-[:GENERALIZES_TO]->(generalSkill:Skill)"
    ∷ "        OPTIONAL MATCH (k)-[:GENERALIZES_TO]->(generalKnowledge:Knowledge)" ∷ ""
    ∷ "        WITH domain, level," ∷ "             collect(DISTINCT CASE WHEN k IS NOT NULL THEN {"
    ∷ "                 elementId: elementId(k)," ∷ "                 type: 'knowledge',"
    ∷ "                 name: k.name," ∷ "                 description: k.description,"
    ∷ "                 howToLearn: k.how_to_learn,"
    ∷ "                 bloomLevel: kr.bloom_level,"
    ∷ "                 generalizesTo: CASE WHEN generalKnowledge IS NOT NULL THEN {"
    ∷ "                     elementId: elementId(generalKnowledge),"
    ∷ "                     name: generalKnowledge.name" ∷ "                 } ELSE null END"
    ∷ "             } ELSE NULL END) AS knowledge,"
    ∷ "             collect(DISTINCT CASE WHEN s IS NOT NULL THEN {"
    ∷ "                 elementId: elementId(s)," ∷ "                 type: 'skill',"
    ∷ "                 name: s.name," ∷ "                 description: s.description,"
    ∷ "                 howToDevelop: s.how_to_develop,"
    ∷ "                 dreyfusLevel: sr.dreyfus_level,"
    ∷ "                 generalizesTo: CASE WHEN generalSkill IS NOT NULL THEN {"
    ∷ "                     elementId: elementId(generalSkill),"
    ∷ "                     name: generalSkill.name" ∷ "                 } ELSE null END"
    ∷ "             } ELSE NULL END) AS skills,"
    ∷ "             collect(DISTINCT CASE WHEN t IS NOT NULL THEN {"
    ∷ "                 elementId: elementId(t)," ∷ "                 type: 'trait',"
    ∷ "                 name: t.name," ∷ "                 description: t.description,"
    ∷ "                 measurementCriteria: t.measurement_criteria,"
    ∷ "                 minScore: tr.min_score" ∷ "             } ELSE NULL END) AS traits,"
    ∷ "             collect(DISTINCT CASE WHEN m IS NOT NULL THEN {"
    ∷ "                 elementId: elementId(m)," ∷ "                 type: 'milestone',"
    ∷ "                 name: m.name," ∷ "                 description: m.description,"
    ∷ "                 howToAchieve: m.how_to_achieve"
    ∷ "             } ELSE NULL END) AS milestones" ∷ "" ∷ "        ORDER BY level.level" ∷ ""
    ∷ "        WITH domain," ∷ "             collect(CASE WHEN level IS NOT NULL THEN {"
    ∷ "                 elementId: elementId(level)," ∷ "                 level: level.level,"
    ∷ "                 name: level.name," ∷ "                 description: level.description,"
    ∷ "                 pointsRequired: level.total_points_required,"
    ∷ "                 knowledge: [item IN knowledge WHERE item IS NOT NULL],"
    ∷ "                 skills: [item IN skills WHERE item IS NOT NULL],"
    ∷ "                 traits: [item IN traits WHERE item IS NOT NULL],"
    ∷ "                 milestones: [item IN milestones WHERE item IS NOT NULL]"
    ∷ "             } ELSE NULL END) AS levels" ∷ "" ∷ "        RETURN {"
    ∷ "            elementId: elementId(domain)," ∷ "            name: domain.name,"
    ∷ "            description: domain.description,"
    ∷ "            levels: [l IN levels WHERE l IS NOT NULL]" ∷ "        } AS result" ∷ "    " ∷ [])

abbrev find_domain_name_text : String
find_domain_name_text = lines (
    "" ∷ "        MATCH (d:Domain {name: $name})" ∷ "        RETURN elementId(d) AS elementId"
    ∷ "        LIMIT 1" ∷ "    " ∷ [])

abbrev check_domain_text : String
check_domain_text = "MATCH (d:Domain {name: $name}) RETURN elementId(d) AS id LIMIT 1"

abbrev create_domain_node_text : String
create_domain_node_text = lines (
    "" ∷ "        CREATE (d:Domain {name: $name, description: $description})"
    ∷ "        RETURN elementId(d) AS elementId" ∷ "        " ∷ [])

abbrev create_level_text : String
create_level_text = lines (
    "" ∷ "            MATCH (d:Domain) WHERE elementId(d) = $domainId"
    ∷ "            CREATE (l:Domain_Level {" ∷ "                level: $level,"
    ∷ "                name: $name," ∷ "                description: $description,"
    ∷ "                total_points_required: $points" ∷ "            })"
    ∷ "            CREATE (d)-[:HAS_DOMAIN_LEVEL]->(l)"
    ∷ "            RETURN elementId(l) AS elementId" ∷ "            " ∷ [])

abbrev merge_component_text : String → List String → String
merge_component_text label set_clauses = lines (
    ""
    ∷ format ("        MERGE (n:" ∷ label ∷ " {name: $name})" ∷ [])
    ∷ format ("        ON CREATE SET " ∷ join ", " set_clauses ∷ [])
    ∷ "        RETURN elementId(n) AS elementId"
    ∷ "        "
    ∷ [])

abbrev require_knowledge_text : String
require_knowledge_text = lines (
    "" ∷ "            MATCH (l:Domain_Level), (k:Knowledge)"
    ∷ "            WHERE elementId(l) = $levelId AND elementId(k) = $nodeId"
    ∷ "            CREATE (l)-[:REQUIRES_KNOWLEDGE {bloom_level: $bloomLevel}]->(k)"
    ∷ "            " ∷ [])

abbrev require_skill_text : String
require_skill_text = lines (
    "" ∷ "            MATCH (l:Domain_Level), (s:Skill)"
    ∷ "            WHERE elementId(l) = $levelId AND elementId(s) = $nodeId"
    ∷ "            CREATE (l)-[:REQUIRES_SKILL {dreyfus_level: $dreyfusLevel}]->(s)"
    ∷ "            " ∷ [])

abbrev require_trait_text : String
require_trait_text = lines (
    "" ∷ "            MATCH (l:Domain_Level), (t:Trait)"
    ∷ "            WHERE elementId(l) = $levelId AND elementId(t) = $nodeId"
    ∷ "            CREATE (l)-[:REQUIRES_TRAIT {min_score: $minScore}]->(t)" ∷ "            " ∷ [])

abbrev require_milestone_text : String
require_milestone_text = lines (
    "" ∷ "            MATCH (l:Domain_Level), (m:Milestone)"
    ∷ "            WHERE elementId(l) = $levelId AND elementId(m) = $nodeId"
    ∷ "            CREATE (l)-[:REQUIRES_MILESTONE]->(m)" ∷ "            " ∷ [])

abbrev verify_domain_text : String
verify_domain_text = "MATCH (d:Domain) WHERE elementId(d) = $domainId RETURN d.name AS name"

abbrev delete_progress_text : String
delete_progress_text = lines (
    "" ∷ "            UNWIND $nodeIds AS nodeId"
    ∷ "            MATCH (u:User)-[r:HAS_KNOWLEDGE|HAS_SKILL|HAS_TRAIT|ACHIEVED]->(n)"
    ∷ "            WHERE elementId(n) = nodeId" ∷ "            DELETE r"
    ∷ "            RETURN count(r) AS deletedCount" ∷ "            " ∷ [])

abbrev set_domain_text : String
set_domain_text = lines (
    "" ∷ "        MATCH (d:Domain) WHERE elementId(d) = $domainId"
    ∷ "        SET d.name = $name, d.description = $description"
    ∷ "        RETURN elementId(d) AS elementId" ∷ "        " ∷ [])

abbrev delete_levels_text : String
delete_levels_text = lines (
    "" ∷ "        MATCH (d:Domain)-[:HAS_DOMAIN_LEVEL]->(l:Domain_Level)"
    ∷ "        WHERE elementId(d) = $domainId" ∷ "        DETACH DELETE l" ∷ "        " ∷ [])

unfoldable pub graph_text : GraphStatement → String
graph_text find_domain = find_domain_text
graph_text find_domain_name = find_domain_name_text
graph_text check_domain = check_domain_text
graph_text create_domain_node = create_domain_node_text
graph_text create_level = create_level_text
graph_text (merge_component label set_clauses) = merge_component_text label set_clauses
graph_text require_knowledge = require_knowledge_text
graph_text require_skill = require_skill_text
graph_text require_trait = require_trait_text
graph_text require_milestone = require_milestone_text
graph_text verify_domain = verify_domain_text
graph_text delete_progress = delete_progress_text
graph_text set_domain = set_domain_text
graph_text delete_levels = delete_levels_text

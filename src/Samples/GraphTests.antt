-- ===== src/Samples/GraphTests.antt =====
-- The theorems on domains at a concrete database: every statement succeeds, and no domain has the
-- name that is asked for.
use atlas_of_us.Prelude.{◌≡◌, refl, true, none, some, [], ◌∷◌, ◌==◌, if◌then◌else◌}
use atlas_of_us.Effects.Defs.{ok, ◌>>=◌}
use atlas_of_us.Samples.Scores.{scores}
use atlas_of_us.Graph.Models.{
  pos, NewNodeData, LevelRequirements, DomainLevel, CreateDomainRequest, UpdateDomainRequest,
}
use atlas_of_us.Graph.Statements.{graph_text, check_domain}
use atlas_of_us.Graph.Database.{GraphDb, GraphRow}
use atlas_of_us.Graph.Requirements.{process_level_requirements}
use atlas_of_us.Graph.Levels.{create_levels, process_levels}
use atlas_of_us.Graph.Domains.{create_domain, update_domain}
use atlas_of_us.Graph.Linking.{Links, process_level_requirements-Links}
use atlas_of_us.Graph.Alignment.{create_paired, process_paired, create_levels-process_levels}
use atlas_of_us.Graph.Outcomes.{CreateOutcome, create_domain-CreateOutcome}
use atlas_of_us.Graph.Updates.{UpdateOutcome, update_domain-UpdateOutcome}

abbrev node_row : GraphRow (Unit {0})
node_row = record {
  get_text = λ key. some "e1";
  get_int = λ key. some (pos 2);
  get_value = λ key. none;
}

abbrev graph_db : GraphDb
graph_db = record {
  floats = scores;
  Json = Unit;
  null = tt;
  is_null = λ v. true;
  answer_execute =
      λ h text params. if text == graph_text check_domain then ok [] else ok (ok node_row ∷ []);
  answer_run = λ h text params. ok tt;
}

abbrev tactics : NewNodeData
tactics = record {
  name = "Tactics";
  description = "Short sequences of moves";
  how_to_learn = some "Puzzles";
  how_to_develop = none;
  measurement_criteria = none;
  how_to_achieve = none;
}

abbrev requirements : LevelRequirements
requirements = record {
  knowledge =
      record { node_element_id = none; new_node = some tactics; bloom_level = "Apply" } ∷ [];
  skills =
      record { node_element_id = some "s1"; new_node = none; dreyfus_level = "Novice" }
      ∷ record { node_element_id = none; new_node = none; dreyfus_level = "Novice" }
      ∷ [];
  traits = [];
  milestones = [];
}

abbrev novice : DomainLevel
novice = record {
  level = pos 1;
  name = "Novice";
  description = none;
  points_required = pos 10;
  requirements = requirements;
}

process_level_requirements-Links_example :
    Links graph_db 1 1 (process_level_requirements graph_db "l1" requirements) []
process_level_requirements-Links_example =
    process_level_requirements-Links graph_db "l1" requirements []

create_levels-process_levels_example :
    (create_levels graph_db "d1" (novice ∷ []) >>= λ ids.
    process_levels graph_db ids 0 (novice ∷ []))
      []
    ≡ (create_paired graph_db "d1" (novice ∷ []) >>= λ pairs. process_paired graph_db pairs) []
unfolding graph_text
create_levels-process_levels_example =
    create_levels-process_levels graph_db "d1" (novice ∷ []) [] (λ h level. refl)

abbrev creation : CreateDomainRequest
creation = record {
  domain = record { name = "Chess"; description = "A game" };
  levels = novice ∷ [];
}

create_domain-CreateOutcome_example :
    CreateOutcome graph_db creation [] (create_domain graph_db creation [])
create_domain-CreateOutcome_example = create_domain-CreateOutcome graph_db creation []

abbrev update : UpdateDomainRequest
update = record {
  domain_element_id = "d1";
  domain = record { name = "Chess"; description = "A game" };
  levels = novice ∷ [];
  removed_node_element_ids = "k9" ∷ [];
}

update_domain-UpdateOutcome_example :
    UpdateOutcome graph_db update [] (update_domain graph_db update [])
update_domain-UpdateOutcome_example = update_domain-UpdateOutcome graph_db update []

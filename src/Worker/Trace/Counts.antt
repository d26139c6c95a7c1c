-- ===== src/Worker/Trace/Counts.antt =====
-- The counted calls.
use atlas_of_us.Prelude.{ℕ, ◌+◌, Bool, true, false, List, [], ◌∷◌, if◌then◌else◌}
use atlas_of_us.Worker.Services.{
  Call, Statement, create_knowledge, create_skill, create_trait, create_milestone, require_level,
  generalize,
}

abbrev pub is_create : Statement → Bool
is_create create_knowledge = true
is_create create_skill = true
is_create create_trait = true
is_create create_milestone = true
is_create _ = false

abbrev pub is_link : Statement → Bool
is_link (require_level _) = true
is_link generalize = true
is_link _ = false

module _ {F : Type 0} where
  abbrev pub creation : Call F → ℕ
  creation (Call.execute s _) = if is_create s then 1 else 0
  creation _ = 0

  abbrev pub link : Call F → ℕ
  link (Call.run s _) = if is_link s then 1 else 0
  link _ = 0

  -- How many nodes were asked to be created, and how many relationships.
  abbrev pub creations : List (Call F) → ℕ
  creations [] = 0
  creations (c ∷ h) = creation c + creations h

  abbrev pub links : List (Call F) → ℕ
  links [] = 0
  links (c ∷ h) = link c + links h

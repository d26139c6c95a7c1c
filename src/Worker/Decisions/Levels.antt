-- ===== src/Worker/Decisions/Levels.antt =====
-- The level that a node is assigned to.
use atlas_of_us.Prelude.{ℕ, ◌≤◌, min, max, String, ◌≡◌, Option, List, arith}
use atlas_of_us.Effects.Defs.{unwrap_or}
use atlas_of_us.Worker.Job.{DomainLevelInfo}
use atlas_of_us.Worker.Decision.{determine_level}

-- The assigned level is one of 1 to 5 whatever was suggested: it is the suggestion, or 3 where
-- there is none, raised to at least 1 and lowered to at most 5.
pub determine_level_bounds :
    (suggested : Option ℕ) (name : String) (levels : List DomainLevelInfo)
    → (1 ≤ determine_level suggested name levels)
      × (determine_level suggested name levels ≤ 5)
      × (determine_level suggested name levels ≡ max 1 (min 5 (unwrap_or suggested 3)))
unfolding determine_level
determine_level_bounds suggested name levels = (ground arith, ground arith, ground arith)

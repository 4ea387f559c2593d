-- ===== src/SpecGate/Examples.antt =====
-- The gate at concrete tasks.
use auto_dev_os.Base.{String, Bool, true, Option, some, [], ◌∷◌, ◌==◌}
use auto_dev_os.SpecGate.{Task, Project}

-- The label as it is written.
abbrev is_hotfix : String → Bool
is_hotfix label = label == "hotfix"

abbrev urgent : Option Task
urgent = some (record { labels = "hotfix" ∷ []; require_spec_review = some true })

abbrev careful : Option Project
careful = some (record { require_spec_review = true })

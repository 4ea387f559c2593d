-- ===== src/Status/Task/Names.antt =====
-- The task statuses of server/pkg/models/task.go.
use auto_dev_os.Base.{String}

abbrev pub todo : String
todo = "todo"

abbrev pub context_loading : String
context_loading = "context_loading"

abbrev pub analyzing : String
analyzing = "analyzing"

abbrev pub spec_review : String
spec_review = "spec_review"

abbrev pub coding : String
coding = "coding"

abbrev pub reviewing : String
reviewing = "reviewing"

abbrev pub fixing : String
fixing = "fixing"

abbrev pub testing : String
testing = "testing"

abbrev pub pr_ready : String
pr_ready = "pr_ready"

abbrev pub human_review : String
human_review = "human_review"

abbrev pub merged : String
merged = "merged"

abbrev pub failed : String
failed = "failed"

abbrev pub blocked : String
blocked = "blocked"

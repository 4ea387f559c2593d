-- ===== src/Orchestrator/Queue/Twice.antt =====
-- A job that the loop of server/internal/orchestrator/queue.go can claim while it still runs it.
use auto_dev_os.JobStore.{Job}

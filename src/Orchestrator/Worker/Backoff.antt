-- ===== src/Orchestrator/Worker/Backoff.antt =====
-- How long the worker of server/internal/orchestrator/worker.go waits between two attempts.
use auto_dev_os.Base.{ℕ, ◌*◌, ◌^◌, ltb, if◌then◌else◌}
use auto_dev_os.Base.Int.{ℤ, pos}

-- The wait in seconds that doubles up to a minute.
abbrev pub doubling : ℕ → ℤ
doubling number = let seconds = 2 ^ number * 2 in if ltb 60 seconds then pos 60 else pos seconds

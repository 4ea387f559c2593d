-- ===== src/Orchestrator/Queue/Examples.antt =====
-- The loop with one slot and two jobs in the queue.
use auto_dev_os.Base.{
  false, ℕ, ◌*◌, ◌^◌, ◌==◌, ◌≤◌, String, ◌≡◌, ◌≢◌, refl, arith, none, [], ◌∷◌, All, ◌⊎◌, length,
}
use auto_dev_os.Status.Job.{queued, running}
use auto_dev_os.JobStore.{
  Job, Store, claim_next, reset_stuck_jobs, wake_sleeping_jobs, oldest_queued, older, update_where,
  has_ident, is_stuck, is_due,
}
use auto_dev_os.Orchestrator.Queue.{
  concurrency_of, tick, Loop, after_claim, waiting, start, claim_turn, claims, turns, begins, moves,
  Reached,
}
use auto_dev_os.Base.Int.{pos}
use auto_dev_os.Orchestrator.Queue.Slots.{active_bounded, turns-Busy}

abbrev waiting_job : String → Job
waiting_job ident = record {
  ident = ident;
  task_id = "task";
  agent_id = none;
  status = queued;
  step = "analyze";
  attempts = 0;
  last_error = "";
  sleep_until = none;
  created_at = 10;
  updated_at = 10;
}

abbrev two_waiting : Store
two_waiting = waiting_job "first" ∷ waiting_job "second" ∷ []

one_claimed :
    Reached
      (concurrency_of (pos 0))
      two_waiting
      (claim_turn (concurrency_of (pos 0)) 30 (start two_waiting))
unfolding start
one_claimed = moves begins (claims 30 refl)

active_bounded_example :
    length (claim_turn (concurrency_of (pos 0)) 30 (start two_waiting)).active
    ≤ concurrency_of (pos 0)
active_bounded_example = active_bounded (concurrency_of (pos 0)) two_waiting one_claimed

turns-Busy_example :
    let l' = turns 1 (λ n. 30) 4 (start two_waiting) in
    (l'.phase ≡ waiting) × ((1 ≤ length l'.active) ⊎ All (λ job. job.status ≢ queued) l'.jobs)
turns-Busy_example =
    turns-Busy 1 (λ n. 30) 4 (start two_waiting) (unfold start in refl)
      (unfold start in omega arith)

-- One job runs, and its row was last written at the time zero.
abbrev long_running : Job
long_running = record (waiting_job "first") { status = running; updated_at = 0 }

abbrev one_running : Loop
one_running = record {
  jobs = long_running ∷ [];
  active = "first" ∷ [];
  claimed = false;
  phase = waiting;
}

abbrev eleven_minutes : ℕ
eleven_minutes = 11 * 60 * 10 ^ 9

claimed_twice :
    (claim_turn 2 eleven_minutes (tick eleven_minutes one_running)).active ≡ "first" ∷ "first" ∷ []
unfolding claim_turn after_claim tick claim_next reset_stuck_jobs wake_sleeping_jobs oldest_queued
    older update_where has_ident is_stuck is_due ◌==◌
claimed_twice = refl

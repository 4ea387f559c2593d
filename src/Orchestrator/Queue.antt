-- ===== src/Orchestrator/Queue.antt =====
-- server/internal/orchestrator/queue.go: StartWorker, the loop that claims jobs. A job that was claimed
-- runs in a goroutine that holds one of the slots of the semaphore until it ends.
pub mod Slots
pub mod Twice
mod Examples
use auto_dev_os.Base.{
  ℕ, zero, suc, ◌*◌, ◌^◌, String, Bool, true, false, Option, none, some, List, [], ◌∷◌, ◌==◌, ◌≡◌,
  Memᴰ, length, leb, if◌then◌else◌,
}
use auto_dev_os.Base.Int.{ℤ, pos, negsuc}
use auto_dev_os.JobStore.{Store, Operation, apply, claim_next, reset_stuck_jobs, wake_sleeping_jobs}

-- `if concurrency <= 0 { concurrency = 1 }`
unfoldable pub concurrency_of : ℤ → ℕ
concurrency_of (pos (suc n)) = suc n
concurrency_of _ = 1

-- Where the loop is: at the semaphore, or at the `select` that waits.
pub data Phase : Type 0 where
  claiming waiting : Phase

pub record Loop : Type 0 where
  pub jobs : Store
  -- the jobs whose goroutines hold a slot, newest first
  pub active : List String
  pub claimed : Bool
  pub phase : Phase

unfoldable pub start : Store → Loop
start jobs = record { jobs = jobs; active = []; claimed = false; phase = claiming }

-- From the label `wait`: the outer loop begins again if a job was claimed.
unfoldable pub to_wait : Loop → Loop
to_wait l = if l.claimed then record l { claimed = false } else record l { phase = waiting }

-- What follows `ClaimNext`.
unfoldable pub after_claim : Loop → Store × Option String → Loop
after_claim l (jobs, none) = to_wait (record l { jobs = jobs })
after_claim l (jobs, some ident) = record l {
  jobs = jobs;
  active = ident ∷ l.active;
  claimed = true;
}

-- One turn of the inner loop, with a semaphore of so many slots.
unfoldable pub claim_turn : (slots now : ℕ) → Loop → Loop
claim_turn slots now l =
    if leb slots (length l.active) then to_wait l else after_claim l (claim_next now l.jobs)

-- `case <-ticker.C`
unfoldable pub tick : ℕ → Loop → Loop
tick now l = record l {
  jobs = wake_sleeping_jobs now (reset_stuck_jobs now l.jobs).0;
  claimed = false;
  phase = claiming;
}

-- `case <-o.wakeChan`
unfoldable pub wake : Loop → Loop
wake l = record l { claimed = false; phase = claiming }

-- `<-sem` when a goroutine ends.
unfoldable pub release_slot : String → List String → List String
release_slot ident [] = []
release_slot ident (x ∷ rest) =
    let later = release_slot ident rest in if x == ident then rest else x ∷ later

unfoldable pub end_job : String → Loop → Loop
end_job ident l = record l { active = release_slot ident l.active }

-- What may happen next. The goroutines and the rest of the server change the table at any time.
pub data Move (slots : ℕ) : Loop → Loop → Type 0 where
  claims : {l : Loop} → (now : ℕ) → l.phase ≡ claiming → Move slots l (claim_turn slots now l)
  ticks : {l : Loop} → (now : ℕ) → l.phase ≡ waiting → Move slots l (tick now l)
  wakes : {l : Loop} → l.phase ≡ waiting → Move slots l (wake l)
  ends : {l : Loop} → (ident : String) → Memᴰ ident l.active → Move slots l (end_job ident l)
  changes :
      {l : Loop}
      → (op : Operation) → (now : ℕ) → Move slots l (record l { jobs = apply op now l.jobs })

-- The loop by itself: so many turns, with the time of each.
unfoldable pub turns : (slots : ℕ) → (time : ℕ → ℕ) → ℕ → Loop → Loop
turns slots time zero l = l
turns slots time (suc n) l = elim l.phase [
  | waiting ↦ l
  | claiming ↦ turns slots time n (claim_turn slots (time n) l)
]

-- The loops that are reached from a start.
pub data Reached (slots : ℕ) (jobs : Store) : Loop → Type 0 where
  begins : Reached slots jobs (start jobs)
  moves : {l l' : Loop} → Reached slots jobs l → Move slots l l' → Reached slots jobs l'

-- ===== src/Orchestrator/Queue/Slots.antt =====
-- The slots of the loop of server/internal/orchestrator/queue.go.
use auto_dev_os.Base.{
  ℕ, zero, suc, ◌+◌, ◌*◌, ◌-◌, ◌<◌, ◌≤◌, String, ◌≡◌, ◌≢◌, refl, sym, ◌∙◌, subst, false, Option,
  none, some, List, [], ◌∷◌, arith, length, leb, All, ◌⊎◌, inl, inr, Bool-cases, if◌then◌else◌,
}
use auto_dev_os.Status.Job.{queued}
use auto_dev_os.JobStore.{Store, claim_next}
use auto_dev_os.JobStore.Claim.{claim_next-IsOldest}
use auto_dev_os.Orchestrator.Queue.{
  Phase, claiming, waiting, Loop, start, to_wait, after_claim, claim_turn, tick, wake, release_slot,
  end_job, Move, claims, ticks, wakes, ends, changes, turns, Reached, begins, moves,
}

length-release_slot : (ident : String) (l : List String) → length (release_slot ident l) ≤ length l
unfolding release_slot
length-release_slot ident [] = omega arith
length-release_slot ident (x ∷ rest) = ground (arith, length-release_slot ident rest)

active-to_wait : (l : Loop) → (to_wait l).active ≡ l.active
unfolding to_wait
active-to_wait l = elim (Bool-cases l.claimed) [
  | inl some_claimed ↦ rw (some_claimed, to_wait) refl
  | inr none_claimed ↦ rw (none_claimed, to_wait) refl
]

after_claim-le :
    (slots : ℕ) (l : Loop) (answer : Store × Option String)
    → length l.active < slots
    → length (after_claim l answer).active ≤ slots
unfolding after_claim
after_claim-le slots l (jobs, none) h =
    rw (active-to_wait (record l { jobs = jobs })) (omega (arith, h))
after_claim-le slots l (jobs, some ident) h = h

claim_turn-le :
    (slots now : ℕ) (l : Loop)
    → length l.active ≤ slots
    → length (claim_turn slots now l).active ≤ slots
unfolding claim_turn
claim_turn-le slots now l h = elim (Bool-cases (leb slots (length l.active))) [
  | inl full ↦ rw (full, claim_turn, active-to_wait l) h
  | inr free ↦ rw (free, claim_turn) (after_claim-le slots l (claim_next now l.jobs) (ground arith))
]

le_of_Move :
    (slots : ℕ) {l l' : Loop} → Move slots l l' → length l.active ≤ slots → length l'.active ≤ slots
unfolding tick wake end_job
le_of_Move slots {l} (claims now at) h = claim_turn-le slots now l h
le_of_Move slots (ticks now at) h = h
le_of_Move slots (wakes at) h = h
le_of_Move slots {l} (ends ident m) h = omega (arith, h, length-release_slot ident l.active)
le_of_Move slots (changes op now) h = h

-- Whatever happens to the queue, no more jobs run at once than the semaphore has slots.
pub active_bounded :
    (slots : ℕ) (jobs : Store) {l : Loop} → Reached slots jobs l → length l.active ≤ slots
unfolding start
active_bounded slots jobs begins = omega arith
active_bounded slots jobs (moves before move) =
    le_of_Move slots move (active_bounded slots jobs before)

Phase-cases : (p : Phase) → (p ≡ claiming) ⊎ (p ≡ waiting)
Phase-cases claiming = inl refl
Phase-cases waiting = inr refl

claiming-ne-waiting : claiming ≢ waiting
claiming-ne-waiting h = cc

-- Every slot is taken, or no job waits in the queue.
abbrev pub Busy : ℕ → Loop → Type 0
Busy slots l = (slots ≤ length l.active) ⊎ All (λ job. job.status ≢ queued) l.jobs

-- How many turns the loop may still make.
abbrev pub turns_left : ℕ → Loop → ℕ
turns_left slots l = 2 * (slots - length l.active) + (if l.claimed then 1 else 0) + 1

-- A turn that starts to wait leaves the loop busy, any other uses up a turn.
Progress : ℕ → Loop → Loop → Type 0
Progress slots l l' =
    ((l'.phase ≡ waiting) × Busy slots l')
    ⊎ ((l'.phase ≡ claiming) × (turns_left slots l' < turns_left slots l))

wait-Progress :
    (slots : ℕ) (l m : Loop)
    → l.phase ≡ claiming
    → m.phase ≡ l.phase
    → m.active ≡ l.active
    → m.claimed ≡ l.claimed
    → Busy slots m
    → Progress slots l (to_wait m)
unfolding Progress to_wait
wait-Progress slots l m at same_phase same_active same_claimed busy = elim (Bool-cases m.claimed) [
  | inl again ↦
      rw (again, to_wait) (inr (same_phase ∙ at, ground (arith, same_active, same_claimed, again)))
  | inr over ↦ rw (over, to_wait) (inl (refl, busy))
]

taken-Progress :
    (slots : ℕ) (l : Loop) (answer : Store × Option String) {ident : String}
    → l.phase ≡ claiming
    → leb slots (length l.active) ≡ false
    → answer.1 ≡ some ident
    → Progress slots l (after_claim l answer)
unfolding Progress after_claim
taken-Progress slots l (jobs, none) at free taken = cc taken
taken-Progress slots l (jobs, some ident) at free taken =
    inr (at, ground (arith, Bool-cases l.claimed))

claim-Progress :
    (slots now : ℕ) (l : Loop) → l.phase ≡ claiming → Progress slots l (claim_turn slots now l)
unfolding Progress claim_turn after_claim
claim-Progress slots now l at = elim (Bool-cases (leb slots (length l.active))) [
  | inl full ↦
      rw (full, claim_turn) (wait-Progress slots l l at refl refl refl (inl (ground arith)))
  | inr free ↦ elim (claim_next-IsOldest now l.jobs) [
    | inl (job, oldest, taken) ↦ rw (free, claim_turn) (taken-Progress slots l _ at free taken)
    | inr (idle, same) ↦
        rw (free, same, claim_turn) (wait-Progress slots l l at refl refl refl (inr idle))
  ]
]

turns-waiting :
    (slots : ℕ) (time : ℕ → ℕ) (n : ℕ) (l : Loop) → l.phase ≡ waiting → turns slots time n l ≡ l
unfolding turns
turns-waiting slots time zero l at = refl
turns-waiting slots time (suc n) l at = by_phase l.phase _ at
  where
    by_phase :
        (p : Phase) (rest : Loop)
        → p ≡ waiting
        → (elim p as (λ _. Loop) [ waiting ↦ l | claiming ↦ rest ]) ≡ l
    by_phase waiting rest h = refl
    by_phase claiming rest h = absurd (claiming-ne-waiting h)

turns-claiming :
    (slots : ℕ) (time : ℕ → ℕ) (n : ℕ) (l : Loop)
    → l.phase ≡ claiming
    → turns slots time (suc n) l ≡ turns slots time n (claim_turn slots (time n) l)
unfolding turns
turns-claiming slots time n l at = by_phase l.phase _ at
  where
    by_phase :
        (p : Phase) (rest : Loop)
        → p ≡ claiming
        → (elim p as (λ _. Loop) [ waiting ↦ l | claiming ↦ rest ]) ≡ rest
    by_phase waiting rest h = absurd (claiming-ne-waiting (sym h))
    by_phase claiming rest h = refl

turns_left-Busy :
    (slots : ℕ) (time : ℕ → ℕ) (n : ℕ) (l : Loop)
    → l.phase ≡ claiming
    → turns_left slots l ≤ n
    → ((turns slots time n l).phase ≡ waiting) × Busy slots (turns slots time n l)
unfolding Progress
turns_left-Busy slots time zero l at enough = absurd (omega (arith, enough))
turns_left-Busy slots time (suc n) l at enough =
    let l' = claim_turn slots (time n) l in
    subst (λ m. (m.phase ≡ waiting) × Busy slots m) (sym (turns-claiming slots time n l at))
      (elim (claim-Progress slots (time n) l at) [
        | inl (stopped, busy) ↦
            subst (λ m. (m.phase ≡ waiting) × Busy slots m)
              (sym (turns-waiting slots time n l' stopped)) (stopped, busy)
        | inr (on, fewer) ↦ turns_left-Busy slots time n l' on (omega (arith, enough, fewer))
      ])

-- Woken, the loop waits again after two turns for each free slot and two more, if nothing else
-- happens, and then every slot is taken or no job waits in the queue.
pub turns-Busy :
    (slots : ℕ) (time : ℕ → ℕ) (n : ℕ) (l : Loop)
    → l.phase ≡ claiming
    → 2 * (slots - length l.active) + 2 ≤ n
    → let l' = turns slots time n l in
      (l'.phase ≡ waiting) × ((slots ≤ length l'.active) ⊎ All (λ job. job.status ≢ queued) l'.jobs)
turns-Busy slots time n l at enough =
    turns_left-Busy slots time n l at (ground (arith, Bool-cases l.claimed))

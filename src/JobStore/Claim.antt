-- ===== src/JobStore/Claim.antt =====
-- What a claim takes from the queue.
use auto_dev_os.Base.{
  ℕ, ◌≤◌, String, ◌≡◌, refl, sym, ◌∙◌, ap, subst, ◌≢◌, inl, inr, Option, none, some, [], ◌∷◌, Memᴰ,
  arith, ◌==◌, eq_iff, Bool-cases, Option-cases, All, All-mem, All-map, ◌⊎◌, leb, ne_of_eq-false,
}
use native.Mathlib.Nat.{le_trans}
use auto_dev_os.Status.Job.{queued, running}
use auto_dev_os.JobStore.{Job, Store, older, oldest_queued, update_where, has_ident, claim_next}

-- A job that waits, none of the others having waited longer.
pub record IsOldest (job : Job) (s : Store) : Type 0 where
  pub listed : Memᴰ job s
  pub waits : job.status ≡ queued
  pub first : All (λ other. other.status ≡ queued → job.created_at ≤ other.created_at) s

none_found : (job : Job) (later : Option Job) → some (older job later) ≢ none
none_found job later h = cc

oldest_queued-none : (s : Store) → oldest_queued s ≡ none → All (λ job. job.status ≢ queued) s
unfolding oldest_queued
oldest_queued-none [] h = tt
oldest_queued-none (job ∷ rest) h = elim (Bool-cases (job.status == queued)) [
  | inl hit ↦ absurd (none_found job (oldest_queued rest) (rw hit at h))
  | inr miss ↦ (ne_of_eq-false miss, oldest_queued-none rest (rw miss at h))
]

module _ {x : Job} {rest : Store} where
  IsOldest-alone : x.status ≡ queued → All (λ job. job.status ≢ queued) rest → IsOldest x (x ∷ rest)
  IsOldest-alone waits none_waits = record {
    listed = Memᴰ.head refl;
    waits = waits;
    first = (λ _. omega arith, All-map (λ job busy q. absurd (busy q)) rest none_waits);
  }

  IsOldest-head :
      {other : Job}
      → x.status ≡ queued
      → IsOldest other rest
      → x.created_at ≤ other.created_at
      → IsOldest x (x ∷ rest)
  IsOldest-head waits o before = record {
    listed = Memᴰ.head refl;
    waits = waits;
    first = (λ _. omega arith, All-map (λ job le q. le_trans before (le q)) rest o.first);
  }

  IsOldest-tail :
      {other : Job}
      → IsOldest other rest
      → (x.status ≡ queued → other.created_at ≤ x.created_at)
      → IsOldest other (x ∷ rest)
  IsOldest-tail o after = record {
    listed = Memᴰ.tail o.listed;
    waits = o.waits;
    first = (after, o.first);
  }

pub oldest_queued-some : (s : Store) {job : Job} → oldest_queued s ≡ some job → IsOldest job s
unfolding oldest_queued older
oldest_queued-some [] h = cc
oldest_queued-some (x ∷ rest) {job} h = elim (Bool-cases (x.status == queued)) [
  | inr miss ↦
      IsOldest-tail (oldest_queued-some rest (rw miss at h)) (λ q. absurd (ne_of_eq-false miss q))
  | inl hit ↦
      let waits : x.status ≡ queued = (eq_iff x.status queued).0 hit in
      elim (Option-cases (oldest_queued rest)) [
        | inl alone ↦
            let same : x ≡ job = ground arith in
            subst (λ j. IsOldest j (x ∷ rest)) same
              (IsOldest-alone waits (oldest_queued-none rest alone))
        | inr (other, found) ↦ elim (Bool-cases (leb x.created_at other.created_at)) [
          | inl before ↦
              let same : x ≡ job = ground arith in
              subst (λ j. IsOldest j (x ∷ rest)) same
                (IsOldest-head waits (oldest_queued-some rest found) (ground arith))
          | inr after ↦
              let same : other ≡ job = ground arith in
              subst (λ j. IsOldest j (x ∷ rest)) same
                (IsOldest-tail (oldest_queued-some rest found) (λ _. ground arith))
        ]
      ]
]

-- A claim takes a job that waits and that no waiting job is older than; it takes none only when
-- no job waits, and then leaves the table alone.
pub claim_next-IsOldest :
    (now : ℕ) (s : Store)
    → ((job : Job) × IsOldest job s × ((claim_next now s).1 ≡ some job.ident))
      ⊎ (All (λ job. job.status ≢ queued) s × (claim_next now s ≡ (s, none)))
unfolding claim_next
claim_next-IsOldest now s = elim (Option-cases (oldest_queued s)) [
  | inl empty ↦ inr (oldest_queued-none s empty, rw (empty, claim_next))
  | inr (job, found) ↦ inl (job, oldest_queued-some s found, rw (found, claim_next))
]

-- Every row of the job that was claimed is running.
taken-running :
    (ident : String) (now : ℕ) (change : Job → Job) (s : Store)
    → ((job : Job) → (change job).status ≡ running)
    → ((job : Job) → (change job).ident ≡ job.ident)
    → All
        (λ job. job.ident ≡ ident → job.status ≡ running)
        (update_where (has_ident ident) change now s)
unfolding update_where has_ident
taken-running ident now change [] sets keeps = tt
taken-running ident now change (job ∷ rest) sets keeps = (
  λ same. ground (arith, eq_iff job.ident ident, sets job),
  taken-running ident now change rest sets keeps,
)

claimed-running :
    (now : ℕ) (s : Store) {i : String}
    → (claim_next now s).1 ≡ some i
    → All (λ job. job.ident ≡ i → job.status ≡ running) (claim_next now s).0
unfolding claim_next
claimed-running now s {i} h = elim (Option-cases (oldest_queued s)) [
  | inl empty ↦ absurd (ground arith)
  | inr (job, found) ↦
      let taken : job.ident ≡ i = ground arith in
      rw (found, claim_next)
        (rw (← taken) (taken-running job.ident now _ s (λ _. refl) (λ _. refl)))
]

running-ne-queued : running ≢ queued
running-ne-queued = ne_of_eq-false (unfold ◌==◌ in refl)

-- Two claims with nothing between them never take the same job, whenever they are made.
pub claim_next-exclusive :
    (now later : ℕ) (s : Store) {i j : String}
    → (claim_next now s).1 ≡ some i
    → (claim_next later (claim_next now s).0).1 ≡ some j
    → i ≢ j
claim_next-exclusive now later s {i} {j} first second same =
    elim (claim_next-IsOldest later (claim_next now s).0) [
      | inr (_, empty) ↦ cc (ap (λ r. r.1) empty)
      | inl (job, oldest, taken) ↦
          let named : job.ident ≡ i = cc in
          let busy =
            All-mem (λ job. job.ident ≡ i → job.status ≡ running) _ (claimed-running now s first)
              oldest.listed in
          running-ne-queued (sym (busy named) ∙ oldest.waits)
    ]

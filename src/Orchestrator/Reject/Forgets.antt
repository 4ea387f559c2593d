-- ===== src/Orchestrator/Reject/Forgets.antt =====
-- What a rejection of a pull request leaves of the rejections before it.
use auto_dev_os.Base.{
  ℕ, zero, suc, String, ◌≡◌, refl, sym, Bool, true, false, Option, none, some, List, [], ◌∷◌, arith,
  ◌==◌, eq_iff, subst, inl, inr, if◌then◌else◌, filter,
}
use auto_dev_os.Base.Int.{ℤ, pos, negsuc}
use auto_dev_os.Tasks.Table.{Task}
use auto_dev_os.Tasks.Guardrails.{Project, positive_or}
use auto_dev_os.Orchestrator.World.{
  World, Env, Op, Result, Checkpoint, failed, ok, after, ◌>>=◌, ◌>>◌, pure, asks,
}
use auto_dev_os.Orchestrator.Outcome.{get_task-cases}
use auto_dev_os.Orchestrator.Checkpoints.{is_cleared, repair_steps, delete_checkpoints}
use auto_dev_os.Orchestrator.Decomposition.{StatusUpdate, update_task_status}
use auto_dev_os.Orchestrator.Jobs.{reached, turns_of, check_loop_limit, check_review_loop_limit}
use auto_dev_os.Orchestrator.Reject.{clear_checkpoints_for_repair, reject}
use auto_dev_os.Orchestrator.Keeps.{RowRule, Keeps, bind-Keeps, pure-Keeps}
use auto_dev_os.Orchestrator.Calls.{execute_task-Keeps, update_task_status-Keeps}

module _ (Q : World → Type 0) where
  -- Where the operation succeeds, its tables have the property.
  unfoldable pub Yields : {A : Type 0} → Op A → Type 0
  Yields {A} m = (w : World) (a : A) → (m w).1 ≡ ok a → Q (m w).0

  module _ {A B : Type 0} where
    after-Yields :
        (x : World × Result A) (f : A → Op B)
        → ((a : A) → Yields (f a))
        → (b : B) → (after x f).1 ≡ ok b
        → Q (after x f).0
    unfolding Yields
    after-Yields (w, failed e) f rest b h = cc
    after-Yields (w, ok a) f rest b h = rest a w b h

    after_keeps-Yields :
        (x : World × Result A) (f : A → Op B)
        → ((a : A) → x.1 ≡ ok a → Q x.0)
        → ((a : A) → Keeps Q (f a))
        → (b : B) → (after x f).1 ≡ ok b
        → Q (after x f).0
    unfolding Keeps
    after_keeps-Yields (w, failed e) f first rest b h = cc
    after_keeps-Yields (w, ok a) f first rest b h = rest a w (first a refl)

    pub bind-Yields : (m : Op A) (f : A → Op B) → ((a : A) → Yields (f a)) → Yields (m >>= f)
    unfolding Yields ◌>>=◌
    bind-Yields m f rest w b h = after-Yields (m w) f rest b h

    pub then-Yields : (m : Op A) (k : Op B) → Yields k → Yields (m >> k)
    unfolding ◌>>◌
    then-Yields m k rest = bind-Yields m (λ _. k) (λ _. rest)

    pub keep-Yields :
        (m : Op A) (f : A → Op B) → Yields m → ((a : A) → Keeps Q (f a)) → Yields (m >>= f)
    unfolding Yields ◌>>=◌
    keep-Yields m f first rest w b h = after_keeps-Yields (m w) f (first w) rest b h

    pub keep_then-Yields : (m : Op A) (k : Op B) → Yields m → Keeps Q k → Yields (m >> k)
    unfolding ◌>>◌
    keep_then-Yields m k first rest = keep-Yields m (λ _. k) first (λ _. rest)

module _ (id : String) where
  -- No rejection of the task is stored.
  abbrev pub Forgotten : World → Type 0
  Forgotten w = turns_of id "pr_rejection" w.checkpoints ≡ 0

  Forgotten-rule : RowRule Forgotten
  Forgotten-rule = record {
    on_row = λ w other task input found valid h. h;
    frame = record {
      on_jobs = λ w jobs h. h;
      on_logs = λ w logs h. h;
      on_cancelled = λ w cancelled h. h;
      on_released = λ w released h. h;
      on_fuel = λ w h. h;
    };
  }

  module _ (like : String → String → Bool) (wild : like "pr_rejection" "pr_%" ≡ true) where
    rejection_cleared :
        (cp : Checkpoint)
        → (cp.step == "pr_rejection") ≡ true
        → is_cleared like repair_steps cp ≡ true
    unfolding is_cleared
    rejection_cleared cp named =
        let matches : like cp.step "pr_%" ≡ true =
          subst (λ s. like s "pr_%" ≡ true) (sym ((eq_iff cp.step "pr_rejection").0 named)) wild in
        ground arith

    cleared_turns :
        (cps : List Checkpoint)
        → turns_of id "pr_rejection" (
            filter
              (λ cp.
                if cp.task_id == id
                then if is_cleared like repair_steps cp then false else true
                else true)
              cps)
          ≡ 0
    unfolding turns_of
    cleared_turns [] = refl
    cleared_turns (cp ∷ rest) = ground (arith, rejection_cleared cp, cleared_turns rest)

    delete-Yields : Yields Forgotten (delete_checkpoints like id repair_steps)
    unfolding Yields delete_checkpoints
    delete-Yields w a h = cleared_turns w.checkpoints

    module _ (env : Env) (fuel : ℕ) (feedback : String) where
      reject-Yields : Yields Forgotten (reject env (update_task_status fuel env) like feedback id)
      unfolding reject clear_checkpoints_for_repair
      reject-Yields = bind-Yields Forgotten _ _ (λ task. then-Yields Forgotten _ _ (
          then-Yields Forgotten _ _ (
            then-Yields Forgotten _ _ (
              bind-Yields Forgotten _ _ (λ updated. then-Yields Forgotten _ _ (
                keep_then-Yields Forgotten _ _ (bind-Yields Forgotten _ _ (λ _. delete-Yields)) (
                  bind-Keeps Forgotten _ _
                    (execute_task-Keeps Forgotten Forgotten-rule env (update_task_status fuel env)
                      (update_task_status-Keeps Forgotten Forgotten-rule env fuel) id)
                    (λ _. pure-Keeps Forgotten updated))))))))

  positive_limit :
      (column : Project → ℤ) (project : Option Project)
      → reached 0 (positive_or 3 column project) ≡ false
  unfolding positive_or reached
  positive_limit column none = ground arith
  positive_limit column (some p) = by_value (column p)
    where
      by_value : (z : ℤ) → reached 0 (elim z [ pos (suc n) ↦ pos (suc n) | _ ↦ pos 3 ]) ≡ false
      by_value (pos zero) = ground arith
      by_value (pos (suc n)) = ground arith
      by_value (negsuc n) = ground arith

  -- The limit of the review loop lets the task pass.
  limit_passes :
      (env : Env) (update_status : StatusUpdate) (w : World)
      → Forgotten w
      → (check_review_loop_limit env update_status id w).0 ≡ w
  unfolding check_review_loop_limit check_loop_limit ◌>>=◌ asks pure
  limit_passes env update_status w h = elim (get_task-cases id w) [
    | inl (e, gone) ↦ rw gone refl
    | inr (task, (found, read)) ↦
        rw (read, h, positive_limit (λ p. p.max_review_fix_cycles) (env.project task.project_id))
          refl
  ]

-- After a rejection that went through, no rejection of the task is stored, not even the new one, and
-- so the next check of the limit on review loops changes nothing, whatever the limit. The condition
-- is that the database's LIKE takes the underscore for any character.
pub reject_forgets :
    (like : String → String → Bool) (env : Env) (fuel : ℕ) (feedback id : String) (w : World)
    (task : Task)
    → like "pr_rejection" "pr_%" ≡ true
    → (reject env (update_task_status fuel env) like feedback id w).1 ≡ ok task
    → let w' = (reject env (update_task_status fuel env) like feedback id w).0 in
      (turns_of id "pr_rejection" w'.checkpoints ≡ 0)
      × ((later : Env) (update_status : StatusUpdate)
          → (check_review_loop_limit later update_status id w').0 ≡ w')
unfolding Yields
reject_forgets like env fuel feedback id w task wild done =
    let none_left = reject-Yields id like wild env fuel feedback w task done in
    (none_left, λ later update_status. limit_passes id later update_status _ none_left)

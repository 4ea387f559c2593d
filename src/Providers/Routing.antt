-- ===== src/Providers/Routing.antt =====
-- `autoEnableGlobalRouting` of server/internal/service/credential_pool.go, with the compare and swap
-- of server/internal/repository/organization.go. Other writers change the column between the read and
-- the write of an attempt; attempts are numbered by how many follow.
pub mod History
pub mod Success
mod Examples
use auto_dev_os.Base.{
  ℕ, zero, suc, String, Bool, true, false, Option, none, some, List, if◌then◌else◌,
}
use auto_dev_os.Providers.{
  ExecutionProviderConfig, validate_execution_providers, auto_enable_execution_provider_row,
}

-- What the loop is wired to: JSON, the database and the other writers. `same` is `=` of jsonb;
-- `loads` and `persists` say whether an attempt's read and write succeed.
pub record Column : Type 0 where
  pub blank : String → Bool
  pub decode : String → Option (List ExecutionProviderConfig)
  pub encode : List ExecutionProviderConfig → Option String
  pub same : String → String → Bool
  pub others : ℕ → String → String
  pub loads : ℕ → Bool
  pub persists : ℕ → Bool

-- `autoEnableGlobalRoutingMaxAttempts`
abbrev pub max_attempts : ℕ
max_attempts = 5

-- `CompareAndSwapDefaultExecutionProviders` on the stored value: the value after it, and whether it
-- was replaced.
unfoldable pub compare_and_swap :
    (String → String → Bool) → (old_val new_val stored : String) → String × Bool
compare_and_swap same old_val new_val stored =
    if same stored old_val then (new_val, true) else (stored, false)

unfoldable pub rows_of : Column → String → Option (List ExecutionProviderConfig)
rows_of c raw = validate_execution_providers c.blank c.decode raw

-- The loop of `autoEnableGlobalRouting`: the stored value after at most so many attempts.
unfoldable pub attempt_enable : Column → (provider : String) → (attempts : ℕ) → String → String
attempt_enable c provider zero raw = raw
attempt_enable c provider (suc n) raw =
    let retry = attempt_enable c provider n (c.others n raw) in
    if c.loads n
    then elim (rows_of c raw) [
      | none ↦ raw
      | some existing ↦
          let (updated, changed) = auto_enable_execution_provider_row existing provider in
          if changed
          then elim (c.encode updated) [
            | none ↦ raw
            | some new_raw ↦
                if c.persists n
                then (let (stored, ok) = compare_and_swap c.same raw new_raw (c.others n raw) in
                    if ok then stored else retry)
                else c.others n raw
          ]
          else raw
    ]
    else raw

-- `autoEnableGlobalRouting`; `none` is that no organisations are wired.
unfoldable pub auto_enable_global_routing : Option Column → (provider : String) → String → String
auto_enable_global_routing none provider raw = raw
auto_enable_global_routing (some c) provider raw = attempt_enable c provider max_attempts raw

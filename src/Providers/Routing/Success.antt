-- ===== src/Providers/Routing/Success.antt =====
-- The row that autoEnableGlobalRouting turns on.
use auto_dev_os.Base.{
  ℕ, zero, suc, ◌<◌, String, ◌≡◌, ◌≢◌, ap, true, false, some, List, arith, Bool-cases, inl, inr,
  any,
}
use auto_dev_os.Providers.{
  ExecutionProviderConfig, row_for_credential, auto_enable_execution_provider_row,
}
use auto_dev_os.Providers.Enabled.{is_on, known_ref, auto-IsGood, auto_idle, read-valid, read_back}
use auto_dev_os.Providers.Routing.{
  Column, rows_of, compare_and_swap, attempt_enable, auto_enable_global_routing, max_attempts,
}

-- The rows are written as a text that is read back as them.
abbrev pub RoundTrips : Column → List ExecutionProviderConfig → Type 0
RoundTrips c rows =
    (text : String) × (c.encode rows ≡ some text)
    × (c.blank text ≡ false)
    × (c.decode text ≡ some rows)

-- The database answers, a value is equal to itself, and what the loop writes is read back.
pub record IsSound (c : Column) (provider : String) : Type 0 where
  pub loads : (n : ℕ) → c.loads n ≡ true
  pub persists : (n : ℕ) → c.persists n ≡ true
  pub same : (raw : String) → c.same raw raw ≡ true
  pub writes :
      (raw : String) (rows : List ExecutionProviderConfig)
      → rows_of c raw ≡ some rows
      → RoundTrips c (auto_enable_execution_provider_row rows provider).0

-- `ValidateExecutionProviders` accepts the value.
abbrev pub IsAccepted : Column → String → Type 0
IsAccepted c raw = (rows : List ExecutionProviderConfig) × (rows_of c raw ≡ some rows)

-- The value is accepted and a row of that reference is enabled in it.
abbrev pub IsOnIn : Column → String → String → Type 0
IsOnIn c ref raw =
    (rows : List ExecutionProviderConfig) × (rows_of c raw ≡ some rows)
    × (any (is_on ref) rows ≡ true)

module _ (c : Column) (provider ref : String) (sound : IsSound c provider)
    (known : row_for_credential provider ≡ some ref) where
  written-IsOnIn :
      (raw text : String) (rows : List ExecutionProviderConfig)
      → rows_of c raw ≡ some rows
      → c.blank text ≡ false
      → c.decode text ≡ some (auto_enable_execution_provider_row rows provider).0
      → IsOnIn c ref text
  unfolding rows_of
  written-IsOnIn raw text rows read full back =
      let good =
        auto-IsGood c.blank ref (known_ref provider ref known) rows provider known
          (read-valid c.blank c.decode raw rows read) in
      (_, read_back c.blank c.decode text _ full back good.0, good.1)

  idle-IsOnIn :
      (raw : String) (rows : List ExecutionProviderConfig)
      → rows_of c raw ≡ some rows
      → (auto_enable_execution_provider_row rows provider).1 ≡ false
      → IsOnIn c ref raw
  unfolding rows_of
  idle-IsOnIn raw rows read idle = (
    rows,
    read,
    auto_idle c.blank ref (known_ref provider ref known) rows provider known
        (read-valid c.blank c.decode raw rows read) idle,
  )

  module _ (accepts : (n : ℕ) (raw : String) → IsAccepted c raw → IsAccepted c (c.others n raw))
      (k : ℕ) (quiet : (raw : String) → c.others k raw ≡ raw) where
    still_before : (n : ℕ) (raw : String) → c.same (c.others n raw) raw ≡ false → k < suc n → k < n
    still_before n raw lost h =
        let other : k ≢ n =
          λ e. cc (lost, sound.same raw, quiet raw, ap (λ j. c.same (c.others j raw) raw) e) in
        ground arith

    attempt-IsOnIn :
        (n : ℕ) (raw : String)
        → k < n
        → IsAccepted c raw
        → IsOnIn c ref (attempt_enable c provider n raw)
    unfolding attempt_enable compare_and_swap
    attempt-IsOnIn zero raw below accepted = ground arith
    attempt-IsOnIn (suc n) raw below (rows, read) =
        elim (Bool-cases (auto_enable_execution_provider_row rows provider).1) [
          | inr idle ↦
              rw (sound.loads n, read, idle, attempt_enable) (idle-IsOnIn raw rows read idle)
          | inl changed ↦
              let (text, encoded, full, back) = sound.writes raw rows read in
              elim (Bool-cases (c.same (c.others n raw) raw)) [
                | inl kept ↦
                    rw
                      (
                        sound.loads n,
                        read,
                        changed,
                        encoded,
                        sound.persists n,
                        kept,
                        attempt_enable,
                        compare_and_swap,
                      )
                      (written-IsOnIn raw text rows read full back)
                | inr lost ↦
                    rw
                      (
                        sound.loads n,
                        read,
                        changed,
                        encoded,
                        sound.persists n,
                        lost,
                        attempt_enable,
                        compare_and_swap,
                      )
                      (attempt-IsOnIn n (c.others n raw) (still_before n raw lost below)
                        (accepts n raw (rows, read)))
              ]
        ]

-- A provider that is enabled for an organisation ends with its row enabled, in a value that is
-- accepted, if one of the five attempts is not disturbed by another writer. The conditions: the
-- database answers, rows are read back as written, the provider is one of those with a row, and the
-- value at the start and those that others write are accepted.
pub routing-IsOnIn :
    (c : Column) (provider ref raw : String) (k : ℕ)
    → IsSound c provider
    → row_for_credential provider ≡ some ref
    → IsAccepted c raw
    → ((n : ℕ) (v : String) → IsAccepted c v → IsAccepted c (c.others n v))
    → k < max_attempts
    → ((v : String) → c.others k v ≡ v)
    → IsOnIn c ref (auto_enable_global_routing (some c) provider raw)
unfolding auto_enable_global_routing
routing-IsOnIn c provider ref raw k sound known accepted accepts below quiet =
    attempt-IsOnIn c provider ref sound known accepts k quiet max_attempts raw below accepted

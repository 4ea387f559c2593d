-- ===== src/Providers/Routing/History.antt =====
-- What the loop of autoEnableGlobalRouting may leave in the column.
use auto_dev_os.Base.{ℕ, String, ◌≡◌, true, some, List}
use auto_dev_os.Providers.{ExecutionProviderConfig, auto_enable_execution_provider_row}
use auto_dev_os.Providers.Routing.{Column, rows_of}

-- Values that are equal as jsonb have the same rows.
abbrev pub ReadsAlike : Column → Type 0
ReadsAlike c = (a b : String) → c.same a b ≡ true → rows_of c a ≡ rows_of c b

-- The values that the column takes: what the others write, and at the end at most one value that is
-- the row enabled in the value that it replaces.
pub data History (c : Column) (provider : String) : String → String → Type 0 where
  ends : {raw : String} → History c provider raw raw
  others_write :
      {raw last : String} (n : ℕ)
      → History c provider (c.others n raw) last
      → History c provider raw last
  enables :
      {stored new_raw : String} (rows : List ExecutionProviderConfig)
      → rows_of c stored ≡ some rows
      → c.encode (auto_enable_execution_provider_row rows provider).0 ≡ some new_raw
      → History c provider stored new_raw

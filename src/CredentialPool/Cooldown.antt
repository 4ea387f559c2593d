-- ===== src/CredentialPool/Cooldown.antt =====
-- `SelectCredential` after `SetCooldown` for a model.
use auto_dev_os.Base.{ℕ, ◌≡◌, true, some, ltb, String}
use auto_dev_os.Base.Dict.{Dict, lookup}
use auto_dev_os.CredentialPool.{CacheEntry, Pool, is_fresh}

-- The cache holds a cooldown that is fresh and has not ended.
record Holds (now : ℕ) (key : String) (p : Pool) : Type 0 where
  entry : CacheEntry
  found : lookup key p.model_cooldowns ≡ some entry
  fresh : is_fresh now entry ≡ true
  active : ltb now entry.until ≡ true

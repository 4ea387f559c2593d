-- ===== src/CredentialPool.antt =====
-- server/internal/service/credential_router.go: the choice of a provider's credential, and the
-- cooldowns of models. Times are nanoseconds; one operation takes one reading of the clock, and the
-- zero time is 0. The list of active credentials and the persisted cooldowns, `stored`, come from the
-- database; `none` is its failure. The decryption of the chosen key and the audit are left out.
pub mod Cooldown
pub mod MinCooldown
mod Examples
use auto_dev_os.Base.{
  ℕ, zero, suc, ◌+◌, ◌*◌, ◌%◌, ◌^◌, Bool, true, false, ◌&&◌, Option, none, some, List, [], ◌∷◌, ltb,
  filter, length, ◌==◌, if◌then◌else◌,
}
use auto_dev_os.Base.Dict.{Dict, lookup, insert, get_or}
use Prim.Native.String.{String, ◌++◌}

-- The columns of a credential that the choice reads.
pub record Credential : Type 0 where
  pub ident : String
  pub cooldown_until : Option ℕ

-- `CredentialStrategy`
pub data Strategy : Type 0 where
  fill_first round_robin : Strategy

-- `cooldownCacheEntry`
pub record CacheEntry : Type 0 where
  pub until : ℕ
  pub fetched_at : ℕ

-- The state of `CredentialPoolService`: `rrCounters` and `modelCooldowns`.
pub record Pool : Type 0 where
  pub rr_counters : Dict ℕ
  pub model_cooldowns : Dict CacheEntry

-- `cooldownCacheTTL`
abbrev pub cooldown_cache_ttl : ℕ
cooldown_cache_ttl = 15 * 10 ^ 9

abbrev pub Stored : Type 0
Stored = String → String → Option ℕ

-- `id + ":" + model`
abbrev pub cooldown_key : String → String → String
cooldown_key ident model = ident ++ ":" ++ model

-- `ok && time.Since(entry.fetchedAt) < cooldownCacheTTL`
unfoldable pub is_fresh : ℕ → CacheEntry → Bool
is_fresh now entry = ltb now (entry.fetched_at + cooldown_cache_ttl)

unfoldable pub answer_of : ℕ → ℕ → ℕ × Bool
answer_of now until = (until, ltb now until)

-- What is answered when the store cannot be read.
unfoldable pub fallback : ℕ → Option CacheEntry → ℕ × Bool
fallback now none = (0, false)
fallback now (some entry) = answer_of now entry.until

unfoldable pub refresh : Stored → ℕ → String → String → Option CacheEntry → Pool → Pool × (ℕ × Bool)
refresh stored now ident model cached p = elim (stored ident model) [
  | none ↦ (p, fallback now cached)
  | some until ↦ (
    record p {
      model_cooldowns =
          insert (cooldown_key ident model) (record { until = until; fetched_at = now })
            p.model_cooldowns;
    },
    answer_of now until,
  )
]

-- `getModelCooldown`
unfoldable pub get_model_cooldown : Stored → ℕ → String → String → Pool → Pool × (ℕ × Bool)
get_model_cooldown stored now ident model p =
    elim (lookup (cooldown_key ident model) p.model_cooldowns) [
      | none ↦ refresh stored now ident model none p
      | some entry ↦
          if is_fresh now entry
          then (p, answer_of now entry.until)
          else refresh stored now ident model (some entry) p
    ]

unfoldable pub is_cooling : ℕ → Option ℕ → Bool
is_cooling now none = false
is_cooling now (some until) = ltb now until

-- One turn of the loop over the credentials: whether this one is available.
unfoldable pub consider : Stored → ℕ → String → (String → Bool) → Credential → Pool → Pool × Bool
consider stored now model excluded cred p =
    if excluded cred.ident
    then (p, false)
    else if is_cooling now cred.cooldown_until
    then (p, false)
    else if model == ""
    then (p, true)
    else let (p', (until, on_cooldown)) = get_model_cooldown stored now cred.ident model p in
      (p', if on_cooldown && ltb now until then false else true)

-- The loop.
unfoldable pub gather :
    Stored → ℕ → String → (String → Bool) → List Credential → Pool → Pool × List Credential
gather stored now model excluded [] p = (p, [])
gather stored now model excluded (cred ∷ rest) p =
    let (p', usable) = consider stored now model excluded cred p in
    let (p'', more) = gather stored now model excluded rest p' in
    (p'', if usable then cred ∷ more else more)

-- `available[idx]`, with `first` out of range, which `% len(available)` excludes.
pub nth : Credential → ℕ → List Credential → Credential
nth first n [] = first
nth first zero (cred ∷ rest) = cred
nth first (suc n) (cred ∷ rest) = nth first n rest

unfoldable pub choose : Strategy → String → Credential → List Credential → Pool → Pool × Credential
choose fill_first key first available p = (p, first)
choose round_robin key first available p =
    let count = get_or 0 key p.rr_counters in
    (
      record p { rr_counters = insert key (suc count) p.rr_counters },
      nth first (count % length available) available,
    )

-- `SelectCredential`; `none` is ErrNoCredentialsAvailable.
unfoldable pub select_credential :
    Stored
    → ℕ
    → (org_id provider model : String) → Strategy
    → (String → Bool)
    → List Credential
    → Pool
    → Pool × Option Credential
select_credential stored now org_id provider model strategy excluded creds p =
    let (p', available) = gather stored now model excluded creds p in
    elim available [
      | [] ↦ (p', none)
      | first ∷ more ↦
          let (p'', cred) = choose strategy (org_id ++ ":" ++ provider) first (first ∷ more) p' in
          (p'', some cred)
    ]

-- `!now.After(v.until)`
unfoldable pub is_current : ℕ → String × CacheEntry → Bool
is_current now (key, entry) = if ltb entry.until now then false else true

-- What `SetCooldown` does for a model to this replica's cache, whether or not the store took it.
unfoldable pub set_model_cooldown : ℕ → String → String → ℕ → Pool → Pool
set_model_cooldown now ident model until p = record p {
  model_cooldowns = filter (is_current now) (
      insert (cooldown_key ident model) (record { until = until; fetched_at = now })
        p.model_cooldowns);
}

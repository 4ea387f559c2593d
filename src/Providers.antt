-- ===== src/Providers.antt =====
-- The execution providers of server/pkg/models/project.go, and their choice in
-- server/internal/orchestrator/execution_router.go. Times are nanoseconds, the zero time is 0, and one
-- operation takes one reading of the clock. JSON is a parameter.
pub mod Choice
pub mod Rows
pub mod Enabled
pub mod Routing
mod Examples
use auto_dev_os.Base.{
  ℕ, zero, suc, ◌+◌, String, Bool, true, false, ◌&&◌, ◌||◌, Option, none, some, List, [], ◌∷◌, ◌++◌,
  ◌==◌, ltb, any, length, if◌then◌else◌,
}
use auto_dev_os.Base.Int.{ℤ, pos, ltz}
use auto_dev_os.Base.Sort.{sort_by}
use auto_dev_os.Base.Dict.{Dict, lookup}

-- `CLIEngineConfig`, its map of variables as a list.
pub record CliEngineConfig : Type 0 where
  pub command : String
  pub args : List String
  pub credential_id : String
  pub env : List (String × String)
  pub timeout_minutes : ℤ
  pub auth_check_command : String
  pub allow_noop : Bool
  pub underlying_provider : String
  pub profile_ref : String

-- `ExecutionProviderConfig`; its type is always cli after the validation.
pub record ExecutionProviderConfig : Type 0 where
  pub provider_type : String
  pub ref : String
  pub credential_id : String
  pub priority : ℤ
  pub enabled : Bool
  pub cli_config : Option CliEngineConfig

unfoldable pub default_row : ℕ → String → ExecutionProviderConfig
default_row priority ref = record {
  provider_type = "cli";
  ref = ref;
  credential_id = "";
  priority = pos priority;
  enabled = false;
  cli_config = none;
}

-- `DefaultExecutionProviderRows`
unfoldable pub default_execution_provider_rows : List ExecutionProviderConfig
default_execution_provider_rows =
    default_row 0 "claude_code"
    ∷ default_row 1 "antigravity"
    ∷ default_row 2 "openai_codex"
    ∷ default_row 3 "custom"
    ∷ []

-- `executionProviderRowForCredential`: the reference of the row of type cli.
unfoldable pub row_for_credential : String → Option String
row_for_credential provider =
    if provider == "cli:claude"
    then some "claude_code"
    else if provider == "cli:codex"
    then some "openai_codex"
    else if provider == "cli:antigravity"
    then some "antigravity"
    else none

unfoldable pub is_row : String → ExecutionProviderConfig → Bool
is_row ref p = p.provider_type == "cli" && p.ref == ref

-- The loop of `AutoEnableExecutionProviderRow`: the list after it, and whether it changed; `none` if
-- no row matches.
unfoldable pub enable_row :
    String → List ExecutionProviderConfig → Option (List ExecutionProviderConfig × Bool)
enable_row ref [] = none
enable_row ref (p ∷ rest) =
    let later = enable_row ref rest in
    if is_row ref p
    then if p.enabled
      then some (p ∷ rest, false)
      else some (record p { enabled = true } ∷ rest, true)
    else elim later [ none ↦ none | some (rest', changed) ↦ some (p ∷ rest', changed) ]

unfoldable pub scaffold : List ExecutionProviderConfig → List ExecutionProviderConfig
scaffold [] = default_execution_provider_rows
scaffold (p ∷ rest) = p ∷ rest

-- `AutoEnableExecutionProviderRow`
unfoldable pub auto_enable_execution_provider_row :
    List ExecutionProviderConfig → String → List ExecutionProviderConfig × Bool
auto_enable_execution_provider_row list provider = elim (row_for_credential provider) [
  | none ↦ (list, false)
  | some ref ↦ elim (enable_row ref (scaffold list)) [
    | some result ↦ result
    | none ↦ (
      scaffold list ++ (record (default_row (length (scaffold list)) ref) { enabled = true } ∷ []),
      true,
    )
  ]
]

-- `HasEnabledProvider`
unfoldable pub has_enabled_provider : List ExecutionProviderConfig → Bool
has_enabled_provider providers = any (λ p. p.enabled) providers

-- `validCLIProviderRefs`
unfoldable pub valid_ref : String → Bool
valid_ref ref =
    ref == "claude_code" || (ref == "openai_codex" || (ref == "antigravity" || ref == "custom"))

-- The first part of the test of an enabled custom row. `blank` is `strings.TrimSpace(s) == ""`.
unfoldable pub no_command : (String → Bool) → Option CliEngineConfig → Bool
no_command blank none = true
no_command blank (some cfg) = blank cfg.command

-- The checks of one row in `ValidateExecutionProviders`.
unfoldable pub row_is_valid : (String → Bool) → ExecutionProviderConfig → Bool
row_is_valid blank p =
    if p.provider_type == "cli"
    then if valid_ref p.ref
      then if p.enabled && p.ref == "custom"
        then if no_command blank p.cli_config
          then false
          else if blank p.credential_id
          then false
          else true
        else true
      else false
    else false

unfoldable pub rows_are_valid : (String → Bool) → List ExecutionProviderConfig → Bool
rows_are_valid blank [] = true
rows_are_valid blank (p ∷ rest) =
    let later = rows_are_valid blank rest in if row_is_valid blank p then later else false

-- `ValidateExecutionProviders`: `none` is an error. `decode` is `json.Unmarshal` into the list.
unfoldable pub validate_execution_providers :
    (String → Bool)
    → (String → Option (List ExecutionProviderConfig))
    → String
    → Option (List ExecutionProviderConfig)
validate_execution_providers blank decode raw = if blank raw then some [] else elim (decode raw) [
  | none ↦ none
  | some list ↦ if rows_are_valid blank list then some list else none
]

-- A profile of the registry of command line tools, which is a library.
pub record Profile : Type 0 where
  pub command : String
  pub args : List String
  pub auth_check_command : String
  pub timeout_minutes : ℤ
  pub credential_provider : String

-- The columns of a credential that the check of a pin reads.
pub record PinnedCredential : Type 0 where
  pub provider : String
  pub active : Bool
  pub cooldown_until : Option ℕ

-- `CredentialAvailability`, as it answers for one organisation.
pub record CredentialAvailability : Type 0 where
  pub select_credential : String → Option String
  pub get_by_id : String → Option PinnedCredential
  -- `none` is an error.
  pub get_min_cooldown : String → Option ℕ

-- What the router is wired to. `join_tools` is
-- `strings.Join(append(strings.Split(s, ","), "WebSearch", "WebFetch"), ",")`, `blank` is
-- `strings.TrimSpace(s) == ""` and `decode` is `json.Unmarshal` into a list of rows.
pub record Router : Type 0 where
  pub now : ℕ
  pub profile : String → Option Profile
  pub pool : Option CredentialAvailability
  pub allows_web_search : Bool
  pub join_tools : String → String
  pub blank : String → Bool
  pub decode : String → Option (List ExecutionProviderConfig)

-- `resp.CooldownUntil == nil || resp.CooldownUntil.Before(time.Now())`
unfoldable pub cooled_down : ℕ → Option ℕ → Bool
cooled_down now none = true
cooled_down now (some until) = ltb until now

-- `hasAvailableCredential` for a pinned credential, which is how the router calls it.
unfoldable pub has_available_credential : Router → (provider credential_id : String) → Bool
has_available_credential router provider credential_id = elim router.pool [
  | none ↦ true
  | some pool ↦ elim (pool.get_by_id credential_id) [
    | none ↦ false
    | some cred ↦
        cred.provider == provider && (cred.active && cooled_down router.now cred.cooldown_until)
  ]
]

-- The configuration of a candidate and its credentials' provider.
unfoldable pub base_config : Router → ExecutionProviderConfig → Option (CliEngineConfig × String)
base_config router p =
    if p.ref == "custom"
    then elim p.cli_config [ none ↦ none | some cfg ↦ some (cfg, "") ]
    else elim (router.profile p.ref) [
      | none ↦ none
      | some profile ↦ some (
        record {
          command = profile.command;
          args = profile.args;
          credential_id = "";
          env = [];
          timeout_minutes = profile.timeout_minutes;
          auth_check_command = profile.auth_check_command;
          allow_noop = false;
          underlying_provider = "";
          profile_ref = "";
        },
        profile.credential_provider,
      )
    ]

-- `appendClaudeAllowedTools`
unfoldable pub append_claude_allowed_tools : (String → String) → List String → List String
append_claude_allowed_tools add [] = []
append_claude_allowed_tools add (arg ∷ []) = arg ∷ []
append_claude_allowed_tools add (arg ∷ (value ∷ rest)) =
    let later = append_claude_allowed_tools add (value ∷ rest) in
    if arg == "--allowedTools" then arg ∷ (add value ∷ rest) else arg ∷ later

unfoldable pub with_ref : Router → ExecutionProviderConfig → CliEngineConfig → CliEngineConfig
with_ref router p cfg = record cfg {
  profile_ref = p.ref;
  args =
      if p.ref == "claude_code" && router.allows_web_search
      then append_claude_allowed_tools router.join_tools cfg.args
      else cfg.args;
}

-- The credential that a candidate runs with, if one is available.
unfoldable pub credential_for : Router → ExecutionProviderConfig → String → Option String
credential_for router p provider =
    if p.credential_id == ""
    then elim router.pool [ none ↦ some "" | some pool ↦ pool.select_credential provider ]
    else if has_available_credential router provider p.credential_id
    then some p.credential_id
    else none

-- `resolveCLICandidate`
unfoldable pub resolve_cli_candidate :
    Router → ExecutionProviderConfig → Option (CliEngineConfig × String)
resolve_cli_candidate router p = elim (base_config router p) [
  | none ↦ none
  | some (cfg, provider) ↦ elim (credential_for router p provider) [
    | none ↦ none
    | some cred ↦ some (record (with_ref router p cfg) { credential_id = cred }, cred)
  ]
]

-- `ResolvedExecutionProvider`
pub record ResolvedExecutionProvider : Type 0 where
  pub ref : String
  pub credential_id : String
  pub cli_config : CliEngineConfig

pub data RouteError : Type 0 where
  -- `ErrAllCredentialsInCooldown`
  all_credentials_in_cooldown : ℕ → RouteError
  -- `ErrNoDistinctHarness`
  no_distinct_harness : RouteError
  invalid_providers nothing_available nothing_configured : RouteError

pub data Route : Type 0 where
  no_route : RouteError → Route
  routed : ResolvedExecutionProvider → Route

-- `minSleep` after a candidate that is not available.
unfoldable pub min_sleep_after : Router → ExecutionProviderConfig → ℕ → ℕ
min_sleep_after router p min_sleep = elim (router.profile p.ref) [
  | none ↦ min_sleep
  | some profile ↦ if profile.credential_provider == "" then min_sleep else elim router.pool [
    | none ↦ min_sleep
    | some pool ↦ elim (pool.get_min_cooldown profile.credential_provider) [
      | none ↦ min_sleep
      | some zero ↦ min_sleep
      | some (suc d) ↦
          let at = router.now + suc d in
          if ltb 0 min_sleep && ltb min_sleep (suc at) then min_sleep else at
    ]
  ]
]

-- `!p.Enabled || (excludeRef != "" && p.Ref == excludeRef)`
unfoldable pub is_skipped : String → ExecutionProviderConfig → Bool
is_skipped exclude_ref p =
    if p.enabled then if exclude_ref == "" then false else p.ref == exclude_ref else true

-- The loop of `resolveFromProviderList`.
unfoldable pub try_providers : Router → String → List ExecutionProviderConfig → ℕ → Route
try_providers router exclude_ref [] zero = no_route nothing_available
try_providers router exclude_ref [] (suc n) = no_route (all_credentials_in_cooldown (suc n))
try_providers router exclude_ref (p ∷ rest) min_sleep =
    let skipping = try_providers router exclude_ref rest min_sleep in
    let failing = try_providers router exclude_ref rest (min_sleep_after router p min_sleep) in
    if is_skipped exclude_ref p then skipping else elim (resolve_cli_candidate router p) [
      | some (cfg, cred) ↦ routed (record { ref = p.ref; credential_id = cred; cli_config = cfg })
      | none ↦ failing
    ]

unfoldable pub sorted_providers : List ExecutionProviderConfig → List ExecutionProviderConfig
sorted_providers providers = sort_by (λ a b. ltz a.priority b.priority) providers

-- `resolveFromProviderList`
unfoldable pub resolve_from_provider_list : Router → String → List ExecutionProviderConfig → Route
resolve_from_provider_list router exclude_ref providers =
    try_providers router exclude_ref (sorted_providers providers) 0

-- `resolveFromOrgDefault`; `none` is that the organisation was not found or no repository is wired,
-- and the text otherwise is `DefaultExecutionProviders`.
unfoldable pub resolve_from_org_default :
    Router → Option String → String → Option ResolvedExecutionProvider
resolve_from_org_default router none exclude_ref = none
resolve_from_org_default router (some raw) exclude_ref =
    elim (validate_execution_providers router.blank router.decode raw) [
      | none ↦ none
      | some [] ↦ none
      | some (p ∷ rest) ↦ elim (resolve_from_provider_list router exclude_ref (p ∷ rest)) [
        | no_route e ↦ none
        | routed r ↦ some r
      ]
    ]

-- `resolveExecutionProvider`
unfoldable pub resolve_execution_provider :
    Router → (project : String) → Option String → String → Route
resolve_execution_provider router project org exclude_ref =
    elim (validate_execution_providers router.blank router.decode project) [
      | none ↦ no_route invalid_providers
      | some providers ↦
          if has_enabled_provider providers
          then resolve_from_provider_list router exclude_ref providers
          else elim (resolve_from_org_default router org exclude_ref) [
            | some r ↦ routed r
            | none ↦ no_route nothing_configured
          ]
    ]

-- `ResolveReviewProvider`
unfoldable pub resolve_review_provider :
    Router → (project : String) → Option String → String → Route
resolve_review_provider router project org exclude_ref =
    elim (resolve_execution_provider router project org exclude_ref) [
      | routed r ↦ routed r
      | no_route (all_credentials_in_cooldown t) ↦ no_route (all_credentials_in_cooldown t)
      | no_route _ ↦ no_route no_distinct_harness
    ]

-- ===== src/Providers/Examples.antt =====
-- Two providers without a pool of credentials.
use auto_dev_os.Base.{
  ℕ, String, ◌≡◌, ◌≢◌, refl, true, false, none, some, List, [], ◌∷◌, ◌⊎◌, ◌==◌, All, ne_of_eq-false,
}
use auto_dev_os.Base.Int.{pos}
use auto_dev_os.Base.Sort.{sort_by, insert_before}
use auto_dev_os.Providers.{
  ExecutionProviderConfig, Router, ResolvedExecutionProvider, RouteError, routed, no_route,
  has_enabled_provider, validate_execution_providers, rows_are_valid, row_is_valid, valid_ref,
  base_config, with_ref, credential_for, resolve_cli_candidate, is_skipped, try_providers,
  sorted_providers, resolve_from_provider_list, resolve_execution_provider, resolve_review_provider,
  append_claude_allowed_tools,
}
use auto_dev_os.Providers.Choice.{IsBest, IsEligible, resolve_list-IsBest, review_distinct}

abbrev enabled_row : ℕ → String → ExecutionProviderConfig
enabled_row priority ref = record {
  provider_type = "cli";
  ref = ref;
  credential_id = "";
  priority = pos priority;
  enabled = true;
  cli_config = none;
}

abbrev two_rows : List ExecutionProviderConfig
two_rows = enabled_row 1 "openai_codex" ∷ enabled_row 0 "antigravity" ∷ []

-- Every reference has a profile.
abbrev router : Router
router = record {
  now = 5;
  profile = λ ref. some (record {
    command = "run";
    args = [];
    auth_check_command = "";
    timeout_minutes = pos 30;
    credential_provider = "cli:any";
  });
  pool = none;
  allows_web_search = false;
  join_tools = λ text. text;
  blank = λ text. text == "";
  decode = λ raw. some two_rows;
}

resolve_list-IsBest_example :
    ((r : ResolvedExecutionProvider) × ((resolve_from_provider_list router "" two_rows ≡ routed r)
        × IsBest router "" two_rows r))
    ⊎ ((e : RouteError) × ((resolve_from_provider_list router "" two_rows ≡ no_route e)
          × All (λ q. ¬ IsEligible router "" q) two_rows))
resolve_list-IsBest_example = resolve_list-IsBest router "" two_rows

abbrev codex : ResolvedExecutionProvider
codex = record {
  ref = "openai_codex";
  credential_id = "";
  cli_config = record {
    command = "run";
    args = [];
    credential_id = "";
    env = [];
    timeout_minutes = pos 30;
    auth_check_command = "";
    allow_noop = false;
    underlying_provider = "";
    profile_ref = "openai_codex";
  };
}

codex_reviews : resolve_review_provider router "[..]" none "antigravity" ≡ routed codex
unfolding resolve_review_provider resolve_execution_provider validate_execution_providers
    rows_are_valid row_is_valid valid_ref has_enabled_provider resolve_from_provider_list
    sorted_providers sort_by insert_before try_providers is_skipped resolve_cli_candidate
    base_config with_ref credential_for append_claude_allowed_tools ◌==◌
codex_reviews = refl

review_distinct_example : ◌≢◌ {A = String} "openai_codex" "antigravity"
review_distinct_example =
    review_distinct router "[..]" none "antigravity" codex (ne_of_eq-false (unfold ◌==◌ in refl))
      codex_reviews

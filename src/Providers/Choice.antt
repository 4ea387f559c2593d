-- ===== src/Providers/Choice.antt =====
-- The choice of a provider in server/internal/orchestrator/execution_router.go.
use auto_dev_os.Base.{
  ℕ, zero, suc, String, ◌≡◌, refl, sym, ap, ◌∙◌, subst, ◌≢◌, Bool, true, false, Option, none, some,
  List, [], ◌∷◌, Memᴰ, arith, eq_iff, Bool-cases, Option-cases, inl, inr, All, All-mem, All-of_mem,
  ◌⊎◌,
}
use auto_dev_os.Base.Int.{ℤ, pos, negsuc, ltz}
use auto_dev_os.Base.Sort.{
  sort_by, mem-sort_by, mem-sort_by_of_mem, IsSorted, IsOrder, sort_by-IsSorted,
}
use auto_dev_os.Providers.{
  CliEngineConfig, ExecutionProviderConfig, Router, ResolvedExecutionProvider, Route, RouteError,
  no_route, routed, no_distinct_harness, all_credentials_in_cooldown, resolve_cli_candidate,
  min_sleep_after, is_skipped, try_providers, sorted_providers, resolve_from_provider_list,
  resolve_from_org_default, resolve_execution_provider, resolve_review_provider,
  has_enabled_provider, validate_execution_providers,
}

priority_order : IsOrder (λ (a b : ExecutionProviderConfig). ltz a.priority b.priority)
priority_order = record {
  one_way = λ a b. one_way a.priority b.priority;
  composes = λ a b c. composes a.priority b.priority c.priority;
}
  where
    one_way : (a b : ℤ) → ltz a b ≡ true → ltz b a ≡ false
    one_way (pos a) (pos b) h = ground arith
    one_way (pos a) (negsuc b) h = cc
    one_way (negsuc a) (pos b) h = refl
    one_way (negsuc a) (negsuc b) h = ground arith

    composes : (a b c : ℤ) → ltz a b ≡ false → ltz b c ≡ false → ltz a c ≡ false
    composes (pos a) (pos b) (pos c) h l = ground arith
    composes (pos a) (pos b) (negsuc c) h l = refl
    composes (pos a) (negsuc b) (pos c) h l = cc
    composes (pos a) (negsuc b) (negsuc c) h l = refl
    composes (negsuc a) (pos b) c h l = cc
    composes (negsuc a) (negsuc b) (pos c) h l = cc
    composes (negsuc a) (negsuc b) (negsuc c) h l = ground arith

-- The router may take the provider: it is on, not excluded, and has a configuration and a
-- credential.
pub record IsEligible (router : Router) (exclude_ref : String) (p : ExecutionProviderConfig)
    : Type 0 where
  pub kept : is_skipped exclude_ref p ≡ false
  pub config : CliEngineConfig
  pub credential : String
  pub resolves : resolve_cli_candidate router p ≡ some (config, credential)

-- A provider of the list was chosen, and no provider that may be taken has a lower priority number.
pub record IsBest (router : Router) (exclude_ref : String) (list : List ExecutionProviderConfig)
    (r : ResolvedExecutionProvider) : Type 0 where
  pub chosen : ExecutionProviderConfig
  pub listed : Memᴰ chosen list
  pub kept : is_skipped exclude_ref chosen ≡ false
  pub resolves : resolve_cli_candidate router chosen ≡ some (r.cli_config, r.credential_id)
  pub names : r.ref ≡ chosen.ref
  pub best :
      (q : ExecutionProviderConfig)
      → Memᴰ q list
      → IsEligible router exclude_ref q
      → ltz q.priority chosen.priority ≡ false

module _ (router : Router) (exclude_ref : String) where
  abbrev Sorted : List ExecutionProviderConfig → Type 0
  Sorted = IsSorted (λ (a b : ExecutionProviderConfig). ltz a.priority b.priority)

  ltz_self : (a : ℤ) → ltz a a ≡ false
  ltz_self (pos a) = ground arith
  ltz_self (negsuc a) = ground arith

  -- A provider in front that may not be taken.
  pass_over :
      (p : ExecutionProviderConfig) (rest : List ExecutionProviderConfig)
      (r : ResolvedExecutionProvider)
      → ¬ IsEligible router exclude_ref p
      → IsBest router exclude_ref rest r
      → IsBest router exclude_ref (p ∷ rest) r
  pass_over p rest r unfit h = record {
    chosen = h.chosen;
    listed = Memᴰ.tail h.listed;
    kept = h.kept;
    resolves = h.resolves;
    names = h.names;
    best = λ q m fit. elim m [
      | Memᴰ.head e ↦ absurd (unfit (subst (IsEligible router exclude_ref) e fit))
      | Memᴰ.tail n ↦ h.best q n fit
    ];
  }

  routed-injective : {a b : ResolvedExecutionProvider} → routed a ≡ routed b → a ≡ b
  routed-injective e = cc

  try-IsBest :
      (list : List ExecutionProviderConfig) (min_sleep : ℕ) (r : ResolvedExecutionProvider)
      → Sorted list
      → try_providers router exclude_ref list min_sleep ≡ routed r
      → IsBest router exclude_ref list r
  unfolding try_providers
  try-IsBest [] zero r sorted h = cc
  try-IsBest [] (suc n) r sorted h = cc
  try-IsBest (p ∷ rest) min_sleep r sorted h = elim (Bool-cases (is_skipped exclude_ref p)) [
    | inl skipped ↦
        pass_over p rest r (λ fit. cc (sym skipped ∙ fit.kept))
          (try-IsBest rest min_sleep r sorted.1 (rw (skipped, try_providers) at h))
    | inr kept ↦ elim (Option-cases (resolve_cli_candidate router p)) [
      | inl unfit ↦
          pass_over p rest r (λ fit. cc (sym unfit ∙ fit.resolves))
            (try-IsBest rest (min_sleep_after router p min_sleep) r sorted.1
              (rw (kept, unfit, try_providers) at h))
      | inr ((cfg, cred), found) ↦
          let same : record { ref = p.ref; credential_id = cred; cli_config = cfg } ≡ r =
            routed-injective (rw (kept, found, try_providers) at h) in
          subst (IsBest router exclude_ref (p ∷ rest)) same (record {
            chosen = p;
            listed = Memᴰ.head refl;
            kept = kept;
            resolves = found;
            names = refl;
            best = λ q m fit. elim m [
              | Memᴰ.head e ↦
                  subst (λ x. ltz x.priority p.priority ≡ false) (sym e) (ltz_self p.priority)
              | Memᴰ.tail n ↦ All-mem (λ x. ltz x.priority p.priority ≡ false) rest sorted.0 n
            ];
          })
    ]
  ]

  try-unfit :
      (list : List ExecutionProviderConfig) (min_sleep : ℕ) (e : RouteError)
      (q : ExecutionProviderConfig)
      → try_providers router exclude_ref list min_sleep ≡ no_route e
      → Memᴰ q list
      → ¬ IsEligible router exclude_ref q
  unfolding try_providers
  try-unfit [] min_sleep e q h m fit = elim m [ ]
  try-unfit (p ∷ rest) min_sleep e q h m fit = elim (Bool-cases (is_skipped exclude_ref p)) [
    | inl skipped ↦ elim m [
      | Memᴰ.head same ↦
          cc (sym skipped ∙ subst (λ x. is_skipped exclude_ref x ≡ false) same fit.kept)
      | Memᴰ.tail n ↦ try-unfit rest min_sleep e q (rw (skipped, try_providers) at h) n fit
    ]
    | inr kept ↦ elim (Option-cases (resolve_cli_candidate router p)) [
      | inl unfit ↦ elim m [
        | Memᴰ.head same ↦ cc (
            sym unfit
            ∙ subst (λ x. resolve_cli_candidate router x ≡ some (fit.config, fit.credential)) same
                fit.resolves)
        | Memᴰ.tail n ↦
            try-unfit rest (min_sleep_after router p min_sleep) e q
              (rw (kept, unfit, try_providers) at h) n fit
      ]
      | inr ((cfg, cred), found) ↦ cc (rw (kept, found, try_providers) at h)
    ]
  ]

  list-IsBest :
      (list : List ExecutionProviderConfig) (r : ResolvedExecutionProvider)
      → resolve_from_provider_list router exclude_ref list ≡ routed r
      → IsBest router exclude_ref list r
  unfolding resolve_from_provider_list sorted_providers
  list-IsBest list r h =
      let before : ExecutionProviderConfig → ExecutionProviderConfig → Bool =
        λ a b. ltz a.priority b.priority in
      let best =
        try-IsBest (sort_by before list) 0 r (sort_by-IsSorted before priority_order list) h in
      record {
        chosen = best.chosen;
        listed = mem-sort_by before list best.listed;
        kept = best.kept;
        resolves = best.resolves;
        names = best.names;
        best = λ q m. best.best q (mem-sort_by_of_mem before list m);
      }

  -- The choice from a list of providers takes one that is on, not excluded and available, of the
  -- lowest priority number among those; it fails only if there is none.
  pub resolve_list-IsBest :
      (list : List ExecutionProviderConfig)
      → ((r : ResolvedExecutionProvider) × ((resolve_from_provider_list router exclude_ref list
              ≡ routed r)
            × IsBest router exclude_ref list r))
        ⊎ ((e : RouteError) × ((resolve_from_provider_list router exclude_ref list ≡ no_route e)
              × All (λ q. ¬ IsEligible router exclude_ref q) list))
  unfolding resolve_from_provider_list sorted_providers
  resolve_list-IsBest list = by_route (resolve_from_provider_list router exclude_ref list) refl
    where
      by_route :
          (route : Route)
          → resolve_from_provider_list router exclude_ref list ≡ route
          → ((r : ResolvedExecutionProvider) × ((resolve_from_provider_list router exclude_ref list
                  ≡ routed r)
                × IsBest router exclude_ref list r))
            ⊎ ((e : RouteError) × ((resolve_from_provider_list router exclude_ref list ≡ no_route e)
                  × All (λ q. ¬ IsEligible router exclude_ref q) list))
      by_route (routed r) h = inl (r, (h, list-IsBest list r h))
      by_route (no_route e) h = inr (
        e,
        (
          h,
          All-of_mem (λ q. ¬ IsEligible router exclude_ref q) list
              (λ q m. try-unfit _ 0 e q h (mem-sort_by_of_mem _ list m)),
        ),
      )

  best-ne :
      (list : List ExecutionProviderConfig) (r : ResolvedExecutionProvider)
      → exclude_ref ≢ ""
      → IsBest router exclude_ref list r
      → r.ref ≢ exclude_ref
  unfolding is_skipped
  best-ne list r named best same =
      let kept : is_skipped exclude_ref best.chosen ≡ false = best.kept in
      ground (arith, eq_iff exclude_ref "", eq_iff best.chosen.ref exclude_ref, best.names)

module _ (router : Router) (exclude_ref : String) (r : ResolvedExecutionProvider)
    (named : exclude_ref ≢ "") where
  list_distinct :
      (list : List ExecutionProviderConfig)
      → resolve_from_provider_list router exclude_ref list ≡ routed r
      → r.ref ≢ exclude_ref
  list_distinct list h =
      best-ne router exclude_ref list r named (list-IsBest router exclude_ref list r h)

  some_of_route :
      (route : Route)
      → (elim route [ no_route e ↦ none | routed x ↦ some x ]) ≡ some r
      → route ≡ routed r
  some_of_route (routed x) h = let same : x ≡ r = cc in ap routed same
  some_of_route (no_route e) h = cc

  org_distinct :
      (org : Option String)
      → resolve_from_org_default router org exclude_ref ≡ some r
      → r.ref ≢ exclude_ref
  unfolding resolve_from_org_default
  org_distinct none h = cc
  org_distinct (some raw) h =
      by_list (validate_execution_providers router.blank router.decode raw) h
    where
      by_list :
          (o : Option (List ExecutionProviderConfig))
          → (elim o [
            | none ↦ none
            | some [] ↦ none
            | some (p ∷ rest) ↦ elim (resolve_from_provider_list router exclude_ref (p ∷ rest)) [
              | no_route e ↦ none
              | routed x ↦ some x
            ]
          ])
            ≡ some r
          → r.ref ≢ exclude_ref
      by_list none h = cc
      by_list (some []) h = cc
      by_list (some (p ∷ rest)) h = list_distinct (p ∷ rest) (some_of_route _ h)

  execution_distinct :
      (project : String) (org : Option String)
      → resolve_execution_provider router project org exclude_ref ≡ routed r
      → r.ref ≢ exclude_ref
  unfolding resolve_execution_provider
  execution_distinct project org h =
      elim (Option-cases (validate_execution_providers router.blank router.decode project)) [
        | inl invalid ↦ cc (rw (invalid, resolve_execution_provider) at h)
        | inr (providers, valid) ↦ elim (Bool-cases (has_enabled_provider providers)) [
          | inl on ↦ list_distinct providers (rw (valid, on, resolve_execution_provider) at h)
          | inr off ↦ elim (Option-cases (resolve_from_org_default router org exclude_ref)) [
            | inl none_left ↦ cc (rw (valid, off, none_left, resolve_execution_provider) at h)
            | inr (x, found) ↦
                let same : x ≡ r =
                  routed-injective router exclude_ref
                    (rw (valid, off, found, resolve_execution_provider) at h) in
                org_distinct org (found ∙ ap some same)
          ]
        ]
      ]

  review_route :
      (route : Route)
      → (elim route [
        | routed x ↦ routed x
        | no_route (all_credentials_in_cooldown t) ↦ no_route (all_credentials_in_cooldown t)
        | no_route _ ↦ no_route no_distinct_harness
      ])
        ≡ routed r
      → route ≡ routed r
  review_route (routed x) h = h
  review_route (no_route (all_credentials_in_cooldown t)) h = cc
  review_route (no_route _) h = cc

-- The reviewer's provider is never the one that is excluded, the coder's, wherever it comes from:
-- the project's list or the organisation's. The condition is that one is excluded.
pub review_distinct :
    (router : Router) (project : String) (org : Option String) (exclude_ref : String)
    (r : ResolvedExecutionProvider)
    → exclude_ref ≢ ""
    → resolve_review_provider router project org exclude_ref ≡ routed r
    → r.ref ≢ exclude_ref
unfolding resolve_review_provider
review_distinct router project org exclude_ref r named h =
    execution_distinct router exclude_ref r named project org
      (review_route router exclude_ref r named _ h)

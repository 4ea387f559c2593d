-- ===== src/Providers/Routing/Examples.antt =====
-- A column in which another writer wins the first attempt.
use auto_dev_os.Base.{
  ℕ, zero, suc, String, ◌≡◌, refl, sym, ap, subst, true, Option, none, some, List, [], arith,
  Bool-cases, inl, inr, if◌then◌else◌, ◌==◌, eq_self,
}
use auto_dev_os.Providers.{
  ExecutionProviderConfig, row_for_credential, auto_enable_execution_provider_row,
  validate_execution_providers, rows_are_valid,
}
use auto_dev_os.Providers.Rows.{auto_enable_idempotent}
use auto_dev_os.Providers.Routing.{Column, rows_of, auto_enable_global_routing}
use auto_dev_os.Providers.Routing.History.{History}
use auto_dev_os.Providers.Routing.Success.{IsSound, IsAccepted, IsOnIn, RoundTrips, routing-IsOnIn}

abbrev claude_on : List ExecutionProviderConfig
claude_on = (auto_enable_execution_provider_row [] "cli:claude").0

abbrev decoded : String → Option (List ExecutionProviderConfig)
decoded text = if text == "[]" then some [] else if text == "on" then some claude_on else none

-- The writer of the first attempt stores an empty list.
abbrev first_writes : ℕ → String → String
first_writes zero v = v
first_writes (suc n) v = "[]"

abbrev column : Column
column = record {
  blank = λ text. text == "";
  decode = decoded;
  encode = λ rows. some "on";
  same = λ a b. a == b;
  others = first_writes;
  loads = λ n. true;
  persists = λ n. true;
}

-- The value that an accepted text of the column becomes.
claude_enabled :
    (raw : String) (rows : List ExecutionProviderConfig)
    → rows_of column raw ≡ some rows
    → (auto_enable_execution_provider_row rows "cli:claude").0 ≡ claude_on
unfolding rows_of validate_execution_providers rows_are_valid
claude_enabled raw rows read = elim (Bool-cases (raw == "")) [
  | inl blank ↦ from_empty (cc (rw (blank, rows_of, validate_execution_providers) at read))
  | inr full ↦ elim (Bool-cases (raw == "[]")) [
    | inl list ↦ from_empty (cc (rw (full, list, rows_of, validate_execution_providers) at read))
    | inr other ↦ elim (Bool-cases (raw == "on")) [
      | inr bad ↦ cc (rw (full, other, bad, rows_of, validate_execution_providers) at read)
      | inl on ↦ elim (Bool-cases (rows_are_valid column.blank claude_on)) [
        | inl valid ↦
            from_on
              (cc (rw (full, other, on, valid, rows_of, validate_execution_providers) at read))
        | inr wrong ↦
            cc (rw (full, other, on, wrong, rows_of, validate_execution_providers) at read)
      ]
    ]
  ]
]
  where
    from_empty : [] ≡ rows → (auto_enable_execution_provider_row rows "cli:claude").0 ≡ claude_on
    from_empty e =
        subst (λ l. (auto_enable_execution_provider_row l "cli:claude").0 ≡ claude_on) e refl

    from_on :
        claude_on ≡ rows → (auto_enable_execution_provider_row rows "cli:claude").0 ≡ claude_on
    from_on e =
        subst (λ l. (auto_enable_execution_provider_row l "cli:claude").0 ≡ claude_on) e
          (ap (λ x. x.0) (auto_enable_idempotent [] "cli:claude"))

claude_RoundTrips :
    (raw : String) (rows : List ExecutionProviderConfig)
    → rows_of column raw ≡ some rows
    → RoundTrips column (auto_enable_execution_provider_row rows "cli:claude").0
unfolding ◌==◌
claude_RoundTrips raw rows read =
    ("on", refl, refl, ap (λ l. some l) (sym (claude_enabled raw rows read)))

column-IsSound : IsSound column "cli:claude"
column-IsSound = record {
  loads = λ n. refl;
  persists = λ n. refl;
  same = λ raw. eq_self raw;
  writes = claude_RoundTrips;
}

writers-IsAccepted :
    (n : ℕ) (v : String) → IsAccepted column v → IsAccepted column (column.others n v)
unfolding rows_of validate_execution_providers rows_are_valid ◌==◌
writers-IsAccepted zero v h = h
writers-IsAccepted (suc n) v h = ([], refl)

routing-IsOnIn_example :
    IsOnIn column "claude_code" (auto_enable_global_routing (some column) "cli:claude" "")
routing-IsOnIn_example =
    routing-IsOnIn column "cli:claude" "claude_code" "" 0 column-IsSound
      (unfold row_for_credential ◌==◌ in refl)
      ([], unfold rows_of validate_execution_providers rows_are_valid ◌==◌ in refl)
      writers-IsAccepted (omega arith) (λ v. refl)

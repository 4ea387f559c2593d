-- ===== src/Providers/Enabled.antt =====
-- What `AutoEnableExecutionProviderRow` of server/pkg/models/project.go does to a list of rows that
-- `ValidateExecutionProviders` accepts.
use auto_dev_os.Base.{
  String, ◌≡◌, refl, sym, ap, subst, ◌∙◌, Bool, true, false, ◌&&◌, Option, some, List, [], ◌∷◌,
  ◌++◌, arith, ◌==◌, eq_iff, Bool-cases, Option-cases, inl, inr, any,
}
use auto_dev_os.Providers.Rows.{
  result-eq, row_on, row_off, enabled-is_row, auto_found, auto_appended, new_row-is_row,
}
use auto_dev_os.Providers.{
  ExecutionProviderConfig, default_row, default_execution_provider_rows, row_for_credential, is_row,
  enable_row, scaffold, auto_enable_execution_provider_row, valid_ref, row_is_valid, rows_are_valid,
  validate_execution_providers,
}

abbrev pub is_on : String → ExecutionProviderConfig → Bool
is_on ref p = p.enabled && is_row ref p

-- A reference that can be enabled without a configuration.
abbrev Fit : String → Type 0
Fit ref = (valid_ref ref ≡ true) × ((ref == "custom") ≡ false)

Fit-of_same : {a ref : String} → Fit a → ◌≡◌ {A = Option String} (some a) (some ref) → Fit ref
Fit-of_same {a} {ref} fit h = let same : a ≡ ref = cc in subst Fit same fit

pub known_ref : (provider ref : String) → row_for_credential provider ≡ some ref → Fit ref
unfolding row_for_credential valid_ref ◌==◌
known_ref provider ref h = elim (Bool-cases (provider == "cli:claude")) [
  | inl a ↦ Fit-of_same {a = "claude_code"} (refl, refl) (rw (a, row_for_credential) at h)
  | inr a ↦ elim (Bool-cases (provider == "cli:codex")) [
    | inl b ↦ Fit-of_same {a = "openai_codex"} (refl, refl) (rw (a, b, row_for_credential) at h)
    | inr b ↦ elim (Bool-cases (provider == "cli:antigravity")) [
      | inl d ↦ Fit-of_same {a = "antigravity"} (refl, refl) (rw (a, b, d, row_for_credential) at h)
      | inr d ↦ cc (rw (a, b, d, row_for_credential) at h)
    ]
  ]
]

module _ (blank : String → Bool) (ref : String) (fit : Fit ref) where
  abbrev Rows : Type 0
  Rows = List ExecutionProviderConfig

  abbrev IsGood : Rows → Type 0
  IsGood list = (rows_are_valid blank list ≡ true) × (any (is_on ref) list ≡ true)

  row-valid :
      (p : ExecutionProviderConfig)
      → (p.provider_type == "cli") ≡ true
      → valid_ref p.ref ≡ true
      → (p.ref == "custom") ≡ false
      → row_is_valid blank p ≡ true
  unfolding row_is_valid
  row-valid p cli known plain = ground arith

  enabled-valid :
      (p : ExecutionProviderConfig)
      → is_row ref p ≡ true
      → row_is_valid blank (record p { enabled = true }) ≡ true
  unfolding is_row
  enabled-valid p own =
      let same : p.ref ≡ ref = (eq_iff p.ref ref).0 (ground arith) in
      row-valid (record p { enabled = true }) (ground arith)
        (subst (λ r. valid_ref r ≡ true) (sym same) fit.0)
        (subst (λ r. (r == "custom") ≡ false) (sym same) fit.1)

  enable-IsGood :
      (list list' : Rows) (changed : Bool)
      → rows_are_valid blank list ≡ true
      → enable_row ref list ≡ some (list', changed)
      → IsGood list'
  unfolding enable_row rows_are_valid
  enable-IsGood [] list' changed valid h = cc
  enable-IsGood (p ∷ rest) list' changed valid h = elim (Bool-cases (is_row ref p)) [
    | inl own ↦ elim (Bool-cases p.enabled) [
      | inl on ↦
          subst IsGood (result-eq ref (sym (row_on ref p rest own on) ∙ h)) (valid, ground arith)
      | inr off ↦
          subst IsGood (result-eq ref (sym (row_off ref p rest own off) ∙ h))
            (ground (arith, enabled-valid p own), ground (arith, enabled-is_row ref p own))
    ]
    | inr other ↦ elim (Option-cases (enable_row ref rest)) [
      | inl absent ↦ cc (rw (other, absent, enable_row) at h)
      | inr ((rest', c), found) ↦
          let more : IsGood rest' = enable-IsGood rest rest' c (ground arith) found in
          subst IsGood (result-eq ref (rw (other, found, enable_row) at h))
            (ground (arith, more.0), ground (arith, more.1))
    ]
  ]

  enable_idle : (list list' : Rows) → enable_row ref list ≡ some (list', false) → list' ≡ list
  unfolding enable_row
  enable_idle [] list' h = cc
  enable_idle (p ∷ rest) list' h = elim (Bool-cases (is_row ref p)) [
    | inl own ↦ elim (Bool-cases p.enabled) [
      | inl on ↦ sym (result-eq ref (sym (row_on ref p rest own on) ∙ h))
      | inr off ↦ cc (sym (row_off ref p rest own off) ∙ h)
    ]
    | inr other ↦ elim (Option-cases (enable_row ref rest)) [
      | inl absent ↦ cc (rw (other, absent, enable_row) at h)
      | inr ((rest', true), found) ↦ cc (rw (other, found, enable_row) at h)
      | inr ((rest', false), found) ↦
          sym (result-eq ref (rw (other, found, enable_row) at h))
          ∙ ap (λ l. p ∷ l) (enable_idle rest rest' found)
    ]
  ]

  append-IsGood :
      (list : Rows) (new : ExecutionProviderConfig)
      → rows_are_valid blank list ≡ true
      → row_is_valid blank new ≡ true
      → is_on ref new ≡ true
      → IsGood (list ++ (new ∷ []))
  unfolding rows_are_valid
  append-IsGood [] new valid good on = (ground arith, ground arith)
  append-IsGood (p ∷ rest) new valid good on =
      let more : IsGood (rest ++ (new ∷ [])) = append-IsGood rest new (ground arith) good on in
      (ground (arith, more.0), ground (arith, more.1))

  scaffold-valid :
      (list : Rows) → rows_are_valid blank list ≡ true → rows_are_valid blank (scaffold list) ≡ true
  unfolding scaffold default_execution_provider_rows default_row rows_are_valid row_is_valid
      valid_ref ◌==◌
  scaffold-valid [] h = refl
  scaffold-valid (p ∷ rest) h = h

  scaffold_on : (list : Rows) → any (is_on ref) (scaffold list) ≡ true → any (is_on ref) list ≡ true
  unfolding scaffold default_execution_provider_rows default_row
  scaffold_on [] h = cc
  scaffold_on (p ∷ rest) h = h

  module _ (list : Rows) (provider : String) (known : row_for_credential provider ≡ some ref)
      (valid : rows_are_valid blank list ≡ true) where
    found-IsGood :
        (list' : Rows) (changed : Bool)
        → enable_row ref (scaffold list) ≡ some (list', changed)
        → IsGood list'
    found-IsGood list' changed found =
        enable-IsGood (scaffold list) list' changed (scaffold-valid list valid) found

    pub auto-IsGood : IsGood (auto_enable_execution_provider_row list provider).0
    unfolding default_row ◌==◌
    auto-IsGood = elim (Option-cases (enable_row ref (scaffold list))) [
      | inr ((list', changed), found) ↦
          subst IsGood
            (sym (ap (λ x. x.0) (auto_found list provider ref (list', changed) known found)))
            (found-IsGood list' changed found)
      | inl absent ↦ subst IsGood (sym (auto_appended list provider ref known absent)) (
          append-IsGood (scaffold list) _ (scaffold-valid list valid) (row-valid _ refl fit.0 fit.1)
            (new_row-is_row ref _))
    ]

    -- Where nothing changes, the row was on.
    pub auto_idle :
        (auto_enable_execution_provider_row list provider).1 ≡ false → any (is_on ref) list ≡ true
    unfolding auto_enable_execution_provider_row
    auto_idle h = elim (Option-cases (enable_row ref (scaffold list))) [
      | inl absent ↦ cc (rw (known, absent, auto_enable_execution_provider_row) at h)
      | inr ((list', true), found) ↦ cc (rw (known, found, auto_enable_execution_provider_row) at h)
      | inr ((list', false), found) ↦ scaffold_on list (
          subst (λ l. any (is_on ref) l ≡ true) (enable_idle (scaffold list) list' found)
            (found-IsGood list' false found).1)
    ]

-- The rows that are read are valid.
pub read-valid :
    (blank : String → Bool) (decode : String → Option (List ExecutionProviderConfig)) (raw : String)
    (list : List ExecutionProviderConfig)
    → validate_execution_providers blank decode raw ≡ some list
    → rows_are_valid blank list ≡ true
unfolding validate_execution_providers rows_are_valid
read-valid blank decode raw list h = elim (Bool-cases (blank raw)) [
  | inl empty ↦
      let same : [] ≡ list = cc (rw (empty, validate_execution_providers) at h) in
      subst (λ l. rows_are_valid blank l ≡ true) same refl
  | inr full ↦ elim (Option-cases (decode raw)) [
    | inl bad ↦ cc (rw (full, bad, validate_execution_providers) at h)
    | inr (rows, read) ↦ elim (Bool-cases (rows_are_valid blank rows)) [
      | inl good ↦
          let same : rows ≡ list = cc (rw (full, read, good, validate_execution_providers) at h) in
          subst (λ l. rows_are_valid blank l ≡ true) same good
      | inr wrong ↦ cc (rw (full, read, wrong, validate_execution_providers) at h)
    ]
  ]
]

-- Valid rows that are written are read back.
pub read_back :
    (blank : String → Bool) (decode : String → Option (List ExecutionProviderConfig)) (raw : String)
    (list : List ExecutionProviderConfig)
    → blank raw ≡ false
    → decode raw ≡ some list
    → rows_are_valid blank list ≡ true
    → validate_execution_providers blank decode raw ≡ some list
unfolding validate_execution_providers
read_back blank decode raw list full read good =
    rw (full, read, good, validate_execution_providers) refl

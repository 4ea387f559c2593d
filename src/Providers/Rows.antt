-- ===== src/Providers/Rows.antt =====
-- `AutoEnableExecutionProviderRow` of server/pkg/models/project.go.
use auto_dev_os.Base.{
  ℕ, String, ◌≡◌, refl, sym, ap, subst, ◌∙◌, Bool, true, false, Option, none, some, List, [], ◌∷◌,
  ◌++◌, ◌==◌, eq_self, Bool-cases, Option-cases, inl, inr, length,
}
use auto_dev_os.Providers.{
  ExecutionProviderConfig, default_row, row_for_credential, is_row, enable_row, scaffold,
  auto_enable_execution_provider_row,
}

module _ (ref : String) where
  abbrev pub Rows : Type 0
  Rows = List ExecutionProviderConfig

  pub enabled-is_row :
      (p : ExecutionProviderConfig)
      → is_row ref p ≡ true
      → is_row ref (record p { enabled = true }) ≡ true
  unfolding is_row
  enabled-is_row p h = h

  pub row_on :
      (p : ExecutionProviderConfig) (rest : Rows)
      → is_row ref p ≡ true
      → p.enabled ≡ true
      → enable_row ref (p ∷ rest) ≡ some (p ∷ rest, false)
  unfolding enable_row
  row_on p rest own on = rw (own, on, enable_row) refl

  pub row_off :
      (p : ExecutionProviderConfig) (rest : Rows)
      → is_row ref p ≡ true
      → p.enabled ≡ false
      → enable_row ref (p ∷ rest) ≡ some (record p { enabled = true } ∷ rest, true)
  unfolding enable_row
  row_off p rest own off = rw (own, off, enable_row) refl

  -- The result that `enable_row` gives does not change again.
  abbrev IsStable : Rows → Type 0
  IsStable list = enable_row ref list ≡ some (list, false)

  first_of : Rows → Option (Rows × Bool) → Rows
  first_of d none = d
  first_of d (some x) = x.0

  pub result-eq :
      {a b : Rows} {c d : Bool} → ◌≡◌ {A = Option (Rows × Bool)} (some (a, c)) (some (b, d)) → a ≡ b
  unfolding first_of
  result-eq {a = a} h = ap (first_of a) h

  enable_row-IsStable :
      (list list' : Rows) (changed : Bool)
      → enable_row ref list ≡ some (list', changed)
      → IsStable list'
  unfolding enable_row
  enable_row-IsStable [] list' changed h = cc
  enable_row-IsStable (p ∷ rest) list' changed h = elim (Bool-cases (is_row ref p)) [
    | inl own ↦ elim (Bool-cases p.enabled) [
      | inl on ↦ subst IsStable (result-eq (sym (row_on p rest own on) ∙ h)) (row_on p rest own on)
      | inr off ↦
          subst IsStable (result-eq (sym (row_off p rest own off) ∙ h))
            (row_on (record p { enabled = true }) rest (enabled-is_row p own) refl)
    ]
    | inr other ↦ elim (Option-cases (enable_row ref rest)) [
      | inl absent ↦ cc (rw (other, absent, enable_row) at h)
      | inr ((rest', c), found) ↦
          subst IsStable (result-eq (rw (other, found, enable_row) at h))
            (rw (other, enable_row-IsStable rest rest' c found, enable_row) refl)
    ]
  ]

  -- A row that is appended, enabled, where no row matched.
  append-IsStable :
      (list : Rows) (new : ExecutionProviderConfig)
      → enable_row ref list ≡ none
      → is_row ref new ≡ true
      → new.enabled ≡ true
      → IsStable (list ++ (new ∷ []))
  unfolding enable_row
  append-IsStable [] new absent own on = row_on new [] own on
  append-IsStable (p ∷ rest) new absent own on = elim (Bool-cases (is_row ref p)) [
    | inl hit ↦ elim (Bool-cases p.enabled) [
      | inl e ↦ cc (rw (hit, e, enable_row) at absent)
      | inr e ↦ cc (rw (hit, e, enable_row) at absent)
    ]
    | inr other ↦ elim (Option-cases (enable_row ref rest)) [
      | inl gone ↦ rw (other, append-IsStable rest new gone own on, enable_row) refl
      | inr (result, found) ↦ cc (rw (other, found, enable_row) at absent)
    ]
  ]

  pub new_row-is_row : (n : ℕ) → is_row ref (record (default_row n ref) { enabled = true }) ≡ true
  unfolding is_row default_row ◌==◌
  new_row-is_row n = own_ref
    where
      own_ref : (ref == ref) ≡ true
      own_ref = eq_self ref

  stable_scaffold : (list : Rows) → IsStable list → scaffold list ≡ list
  unfolding scaffold enable_row
  stable_scaffold [] h = cc
  stable_scaffold (p ∷ rest) h = refl

module _ (list : List ExecutionProviderConfig) (provider : String) where
  pub auto_unknown :
      row_for_credential provider ≡ none
      → auto_enable_execution_provider_row list provider ≡ (list, false)
  unfolding auto_enable_execution_provider_row
  auto_unknown unknown = rw (unknown, auto_enable_execution_provider_row) refl

  pub auto_found :
      (ref : String) (result : List ExecutionProviderConfig × Bool)
      → row_for_credential provider ≡ some ref
      → enable_row ref (scaffold list) ≡ some result
      → auto_enable_execution_provider_row list provider ≡ result
  unfolding auto_enable_execution_provider_row
  auto_found ref result known found = rw (known, auto_enable_execution_provider_row, found) refl

  pub auto_appended :
      (ref : String)
      → row_for_credential provider ≡ some ref
      → enable_row ref (scaffold list) ≡ none
      → (auto_enable_execution_provider_row list provider).0
        ≡ scaffold list
          ++ (record (default_row (length (scaffold list)) ref) { enabled = true } ∷ [])
  unfolding auto_enable_execution_provider_row
  auto_appended ref known absent = rw (known, auto_enable_execution_provider_row, absent) refl

again_of_stable :
    (list list' : List ExecutionProviderConfig) (provider ref : String)
    → row_for_credential provider ≡ some ref
    → (auto_enable_execution_provider_row list provider).0 ≡ list'
    → IsStable ref list'
    → auto_enable_execution_provider_row
        (auto_enable_execution_provider_row list provider).0
        provider
      ≡ ((auto_enable_execution_provider_row list provider).0, false)
again_of_stable list list' provider ref known first stable =
    subst (λ l. auto_enable_execution_provider_row l provider ≡ (l, false)) (sym first)
      (auto_found list' provider ref (list', false) known
        (subst (λ l. enable_row ref l ≡ some (list', false))
          (sym (stable_scaffold ref list' stable)) stable))

-- Enabling the row of a provider a second time changes nothing, and says so.
pub auto_enable_idempotent :
    (list : List ExecutionProviderConfig) (provider : String)
    → auto_enable_execution_provider_row
        (auto_enable_execution_provider_row list provider).0
        provider
      ≡ ((auto_enable_execution_provider_row list provider).0, false)
auto_enable_idempotent list provider = elim (Option-cases (row_for_credential provider)) [
  | inl unknown ↦
      let first : auto_enable_execution_provider_row list provider ≡ (list, false) =
        auto_unknown list provider unknown in
      subst (λ l. auto_enable_execution_provider_row l provider ≡ (l, false))
        (sym (ap (λ x. x.0) first)) first
  | inr (ref, known) ↦ elim (Option-cases (enable_row ref (scaffold list))) [
    | inr ((list', changed), found) ↦
        again_of_stable list list' provider ref known
          (ap (λ x. x.0) (auto_found list provider ref (list', changed) known found))
          (enable_row-IsStable ref (scaffold list) list' changed found)
    | inl absent ↦
        again_of_stable list _ provider ref known (auto_appended list provider ref known absent)
          (append-IsStable ref (scaffold list) _ absent (new_row-is_row ref _) refl)
  ]
]

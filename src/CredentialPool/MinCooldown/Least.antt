-- ===== src/CredentialPool/MinCooldown/Least.antt =====
-- What GetMinCooldown answers when no model is named, as the router asks it.
use auto_dev_os.Base.{
  ℕ, ◌≤◌, String, ◌≡◌, refl, sym, ap, ◌∙◌, subst, true, false, Option, none, some, List, [], ◌∷◌,
  Memᴰ, arith, Bool-cases, inl, inr, ◌⊎◌, ltb, ◌==◌,
}
use auto_dev_os.CredentialPool.{Pool, Stored}
use auto_dev_os.CredentialPool.MinCooldown.{
  ListedCredential, is_counted, own_until, until_of, wait_of, shorter, scan, or_zero,
  get_min_cooldown,
}

-- The wait of a credential on its own: 0 unless its status is rate_limited.
abbrev pub own_wait : ℕ → ListedCredential → ℕ
own_wait now cred = wait_of now (own_until now cred)

-- The loop has a wait that is at most so long.
abbrev Below : Option (ℕ × String) → ℕ → Type 0
Below r w = (a : ℕ × String) × (r ≡ some a) × (a.0 ≤ w)

shorter-Below :
    (w : ℕ) (ident : String) (least : Option (ℕ × String)) → Below (shorter w ident least) w
unfolding shorter
shorter-Below w ident none = ((w, ident), refl, omega arith)
shorter-Below w ident (some (m, i)) = elim (Bool-cases (ltb w m)) [
  | inl less ↦ ((w, ident), rw (less, shorter) refl, omega arith)
  | inr more ↦ ((m, i), rw (more, shorter) refl, ground arith)
]

shorter_keeps-Below :
    (w : ℕ) (ident : String) (m : ℕ) (i : String) → Below (shorter w ident (some (m, i))) m
unfolding shorter
shorter_keeps-Below w ident m i = elim (Bool-cases (ltb w m)) [
  | inl less ↦ ((w, ident), rw (less, shorter) refl, ground arith)
  | inr more ↦ ((m, i), rw (more, shorter) refl, omega arith)
]

shorter-cases :
    (w : ℕ) (ident : String) (least : Option (ℕ × String))
    → (shorter w ident least ≡ least) ⊎ (shorter w ident least ≡ some (w, ident))
unfolding shorter
shorter-cases w ident none = inr refl
shorter-cases w ident (some (m, i)) = elim (Bool-cases (ltb w m)) [
  | inl less ↦ inr (rw (less, shorter) refl)
  | inr more ↦ inl (rw (more, shorter) refl)
]

module _ (stored : Stored) (lower : String → String) (now : ℕ) (provider : String) where
  abbrev pub Counted : ListedCredential → List ListedCredential → Type 0
  Counted cred creds = Memᴰ cred creds × (is_counted lower provider cred ≡ true)

  -- The answer of the loop: the shortest wait of the credentials and of what it had.
  record IsScanned (creds : List ListedCredential) (least r : Option (ℕ × String)) : Type 0 where
    bounds : (cred : ListedCredential) → Counted cred creds → Below r (own_wait now cred)
    starts : (m : ℕ) (i : String) → least ≡ some (m, i) → Below r m
    comes :
        (r ≡ least)
        ⊎ ((cred : ListedCredential) × Counted cred creds
            × (r ≡ some (own_wait now cred, cred.ident)))

  Below-le : (r : Option (ℕ × String)) (m w : ℕ) → Below r m → m ≤ w → Below r w
  Below-le r m w (a, e, h) l = (a, e, omega arith)

  count-IsScanned :
      (cred : ListedCredential) (rest : List ListedCredential) (least r : Option (ℕ × String))
      → is_counted lower provider cred ≡ true
      → IsScanned rest (shorter (own_wait now cred) cred.ident least) r
      → IsScanned (cred ∷ rest) least r
  count-IsScanned cred rest least r counted h = record {
    bounds = λ other m. elim m.0 [
      | Memᴰ.head e ↦
          subst (λ c. Below r (own_wait now c)) (sym e) (passes (shorter-Below _ _ least))
      | Memᴰ.tail n ↦ h.bounds other (n, m.1)
    ];
    starts = λ m i e. passes (
        subst (λ l. Below (shorter (own_wait now cred) cred.ident l) m) (sym e)
          (shorter_keeps-Below _ _ m i));
    comes = elim h.comes [
      | inr (found, m, e) ↦ inr (found, (Memᴰ.tail m.0, m.1), e)
      | inl e ↦ elim (shorter-cases (own_wait now cred) cred.ident least) [
        | inl kept ↦ inl (e ∙ kept)
        | inr new ↦ inr (cred, (Memᴰ.head refl, counted), e ∙ new)
      ]
    ];
  }
    where
      passes : {w : ℕ} → Below (shorter (own_wait now cred) cred.ident least) w → Below r w
      passes (a, e, l) = Below-le r a.0 _ (h.starts a.0 a.1 e) l

  skip-IsScanned :
      (cred : ListedCredential) (rest : List ListedCredential) (least r : Option (ℕ × String))
      → is_counted lower provider cred ≡ false
      → IsScanned rest least r
      → IsScanned (cred ∷ rest) least r
  skip-IsScanned cred rest least r skipped h = record {
    bounds = λ other m. elim m.0 [
      | Memᴰ.head e ↦ cc (sym skipped ∙ ap (is_counted lower provider) (sym e) ∙ m.1)
      | Memᴰ.tail n ↦ h.bounds other (n, m.1)
    ];
    starts = h.starts;
    comes = elim h.comes [
      | inl e ↦ inl e
      | inr (found, m, e) ↦ inr (found, (Memᴰ.tail m.0, m.1), e)
    ];
  }

  scan-IsScanned :
      (creds : List ListedCredential) (least : Option (ℕ × String)) (p : Pool)
      → (r : Option (ℕ × String)) × (scan stored lower now provider "" creds least p ≡ (p, r))
        × IsScanned creds least r
  unfolding scan until_of ◌==◌ own_until
  scan-IsScanned [] least p = (
    least,
    refl,
    record {
      bounds = λ cred m. elim m.0 [ ];
      starts = λ m i e. ((m, i), e, omega arith);
      comes = inl refl;
    },
  )
  scan-IsScanned (cred ∷ rest) least p = elim (Bool-cases (is_counted lower provider cred)) [
    | inl counted ↦
        let (r, e, h) = scan-IsScanned rest (shorter (own_wait now cred) cred.ident least) p in
        (r, rw (counted, scan) e, count-IsScanned cred rest least r counted h)
    | inr skipped ↦
        let (r, e, h) = scan-IsScanned rest least p in
        (r, rw (skipped, scan) e, skip-IsScanned cred rest least r skipped h)
  ]

  -- The answer is the shortest wait: no counted credential waits less, and one waits just so long,
  -- or none is counted.
  pub record IsShortest (creds : List ListedCredential) (answer : ℕ × String) : Type 0 where
    pub bounds : (cred : ListedCredential) → Counted cred creds → answer.0 ≤ own_wait now cred
    pub attained :
        ((cred : ListedCredential) × Counted cred creds
          × (answer ≡ (own_wait now cred, cred.ident)))
        ⊎ (((cred : ListedCredential) → ¬ Counted cred creds) × (answer ≡ (0, "")))

  IsShortest-of_scanned :
      (creds : List ListedCredential) (r : Option (ℕ × String))
      → IsScanned creds none r
      → IsShortest creds (or_zero r)
  unfolding or_zero
  IsShortest-of_scanned creds none h = record {
    bounds = λ cred m. omega arith;
    attained = inr ((λ cred m. cc (h.bounds cred m).1), refl);
  }
  IsShortest-of_scanned creds (some a) h = record {
    bounds = λ cred m.
        let (b, e, l) = h.bounds cred m in
        subst (λ x. x ≤ own_wait now cred) (ap (λ x. x.0) (some-injective (sym e))) l;
    attained = elim h.comes [ inl e ↦ cc e | inr (cred, m, e) ↦ inl (cred, m, some-injective e) ];
  }
    where
      some-injective : {x y : ℕ × String} → ◌≡◌ {A = Option (ℕ × String)} (some x) (some y) → x ≡ y
      some-injective e = cc

-- The wait that is answered when no model is named is the shortest of the provider's credentials that
-- are not disabled, or 0 if there are none.
pub min_cooldown-IsShortest :
    (stored : Stored) (lower : String → String) (now : ℕ) (provider : String)
    (creds : List ListedCredential) (p : Pool)
    → (answer : ℕ × String) × (get_min_cooldown stored lower now provider "" (some creds) p
        ≡ (p, some answer))
      × IsShortest stored lower now provider creds answer
unfolding get_min_cooldown
min_cooldown-IsShortest stored lower now provider creds p =
    let (r, e, h) = scan-IsScanned stored lower now provider creds none p in
    (
      or_zero r,
      rw (e, get_min_cooldown) refl,
      IsShortest-of_scanned stored lower now provider creds r h,
    )

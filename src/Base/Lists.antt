-- ===== src/Base/Lists.antt =====
-- Lists measured and cut by native numbers, and membership as a predicate that can be matched.
use Prim.Native.Nat.{ℕ, zero, suc, ◌+◌, ◌≤◌}
use mathlib.Core.Path.{◌≡◌, refl, sym, ap, ◌∙◌, subst}
use mathlib.Core.Bool.{Bool, true, false}
use mathlib.Core.List.{List, [], ◌∷◌, ◌++◌, Memᴰ}
use native.Mathlib.Omega.{arith}
use mathlib.Core.Logic.{◌⊎◌, inl, inr}
use auto_dev_os.Base.Test.{if◌then◌else◌, Bool-cases}

module _ {ℓ} {A : Type ℓ} where
  abbrev pub length : List A → ℕ
  length [] = 0
  length (x ∷ xs) = suc (length xs)

  abbrev pub take : ℕ → List A → List A
  take zero xs = []
  take (suc n) [] = []
  take (suc n) (x ∷ xs) = x ∷ take n xs

  -- `for _, x := range xs { if test(x) { out = append(out, x) } }`
  abbrev pub filter : (A → Bool) → List A → List A
  filter test [] = []
  filter test (x ∷ xs) = if test x then x ∷ filter test xs else filter test xs

  abbrev pub any : (A → Bool) → List A → Bool
  any test [] = false
  any test (x ∷ xs) = if test x then true else any test xs

  abbrev pub all : (A → Bool) → List A → Bool
  all test [] = true
  all test (x ∷ xs) = if test x then all test xs else false

  pub length-append : (xs ys : List A) → length (xs ++ ys) ≡ length xs + length ys
  length-append [] ys = omega arith
  length-append (x ∷ xs) ys = omega (arith, length-append xs ys)

  pub List-cases : (l : List A) → (l ≡ []) ⊎ ((x : A) × (xs : List A) × (l ≡ x ∷ xs))
  List-cases [] = inl refl
  List-cases (x ∷ xs) = inr (x, xs, refl)

  pub mem-filter :
      (test : A → Bool) {x : A} (xs : List A)
      → Memᴰ x (filter test xs)
      → Memᴰ x xs × (test x ≡ true)
  mem-filter test [] m = elim m [ ]
  mem-filter test {x} (y ∷ ys) m = split (test y) refl (mem-filter test ys) m
    where
      split :
          (b : Bool)
          → test y ≡ b
          → (Memᴰ x (filter test ys) → Memᴰ x ys × (test x ≡ true))
          → Memᴰ x (if b then y ∷ filter test ys else filter test ys)
          → Memᴰ x (y ∷ ys) × (test x ≡ true)
      split true holds rest (Memᴰ.head e) = (Memᴰ.head e, ap test e ∙ holds)
      split true holds rest (Memᴰ.tail n) = (Memᴰ.tail (rest n).0, (rest n).1)
      split false fails rest n = (Memᴰ.tail (rest n).0, (rest n).1)

  pub mem-filter_of_mem :
      (test : A → Bool) {x : A} (xs : List A) → Memᴰ x xs → test x ≡ true → Memᴰ x (filter test xs)
  mem-filter_of_mem test [] m h = elim m [ ]
  mem-filter_of_mem test (y ∷ ys) (Memᴰ.head e) h = rw (sym (ap test e) ∙ h) (Memᴰ.head e)
  mem-filter_of_mem test (y ∷ ys) (Memᴰ.tail m) h = elim (Bool-cases (test y)) [
    | inl kept ↦ rw kept (Memᴰ.tail (mem-filter_of_mem test ys m h))
    | inr dropped ↦ rw dropped (mem-filter_of_mem test ys m h)
  ]

  pub all-mem :
      (test : A → Bool) (xs : List A) {x : A} → all test xs ≡ true → Memᴰ x xs → test x ≡ true
  all-mem test [] h m = elim m [ ]
  all-mem test (y ∷ ys) h (Memᴰ.head e) = rw e (ground arith)
  all-mem test (y ∷ ys) h (Memᴰ.tail m) = all-mem test ys (ground arith) m

  pub mem-take : {x : A} (n : ℕ) (xs : List A) → Memᴰ x (take n xs) → Memᴰ x xs
  mem-take zero xs m = elim m [ ]
  mem-take (suc n) [] m = elim m [ ]
  mem-take (suc n) (x ∷ xs) (Memᴰ.head e) = Memᴰ.head e
  mem-take (suc n) (x ∷ xs) (Memᴰ.tail m) = Memᴰ.tail (mem-take n xs m)

  pub length-take-le : (n : ℕ) (xs : List A) → length (take n xs) ≤ n
  length-take-le zero xs = omega arith
  length-take-le (suc n) [] = omega arith
  length-take-le (suc n) (x ∷ xs) = omega (arith, length-take-le n xs)

-- A predicate of every element, by recursion.
abbrev pub All {ℓ κ} : {A : Type ℓ} → (A → Type κ) → List A → Type κ
All P [] = Unit
All P (x ∷ xs) = P x × All P xs

pub All-append {ℓ κ} :
    {A : Type ℓ} (P : A → Type κ) (first_list more : List A)
    → All P first_list
    → All P more
    → All P (first_list ++ more)
All-append P [] more first second = second
All-append P (x ∷ rest) more first second = (first.0, All-append P rest more first.1 second)

pub All-mem {ℓ κ} : {A : Type ℓ} (P : A → Type κ) {x : A} (xs : List A) → All P xs → Memᴰ x xs → P x
All-mem P [] h m = elim m [ ]
All-mem P (y ∷ xs) h (Memᴰ.head e) = subst P (sym e) h.0
All-mem P (y ∷ xs) h (Memᴰ.tail m) = All-mem P xs h.1 m

pub All-map {ℓ κ μ} :
    {A : Type ℓ} {P : A → Type κ} {Q : A → Type μ}
    → ((x : A) → P x → Q x)
    → (xs : List A) → All P xs
    → All Q xs
All-map f [] h = tt
All-map f (x ∷ xs) h = (f x h.0, All-map f xs h.1)

pub All-of_mem {ℓ κ} :
    {A : Type ℓ} (P : A → Type κ) (xs : List A) → ((x : A) → Memᴰ x xs → P x) → All P xs
All-of_mem P [] h = tt
All-of_mem P (x ∷ xs) h = (h x (Memᴰ.head refl), All-of_mem P xs (λ y m. h y (Memᴰ.tail m)))

pub All-trivial {ℓ} : {A : Type ℓ} (xs : List A) → All (λ _. Unit {0}) xs
All-trivial [] = tt
All-trivial (x ∷ xs) = (tt, All-trivial xs)

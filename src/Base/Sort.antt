-- ===== src/Base/Sort.antt =====
-- Go's `sort.SliceStable`, and `sort.Slice` on up to twelve elements: insertion by a test that
-- says whether one element comes before another.
use mathlib.Core.Path.{◌≡◌, refl, sym, subst}
use mathlib.Core.Bool.{Bool, true, false}
use mathlib.Core.List.{List, [], ◌∷◌, Memᴰ}
use mathlib.Core.Logic.{◌⊎◌, inl, inr}
use auto_dev_os.Base.Test.{if◌then◌else◌, Bool-cases}
use auto_dev_os.Base.Lists.{All, All-of_mem, All-mem}

module _ {A : Type 0} (before : A → A → Bool) where
  -- The element stood before those of the list: it passes only what comes strictly before it.
  unfoldable pub insert_before : A → List A → List A
  insert_before x [] = x ∷ []
  insert_before x (y ∷ ys) = if before y x then y ∷ insert_before x ys else x ∷ y ∷ ys

  unfoldable pub sort_by : List A → List A
  sort_by [] = []
  sort_by (x ∷ xs) = insert_before x (sort_by xs)

  mem-insert_before :
      (x : A) {z : A} (ys : List A) → Memᴰ z (insert_before x ys) → (z ≡ x) ⊎ Memᴰ z ys
  unfolding insert_before
  mem-insert_before x [] (Memᴰ.head e) = inl e
  mem-insert_before x [] (Memᴰ.tail m) = inr m
  mem-insert_before x (y ∷ ys) m = elim (Bool-cases (before y x)) [
    | inl passes ↦ elim (rw passes at m) [
      | Memᴰ.head e ↦ inr (Memᴰ.head e)
      | Memᴰ.tail n ↦ elim (mem-insert_before x ys n) [
        | inl e ↦ inl e
        | inr deeper ↦ inr (Memᴰ.tail deeper)
      ]
    ]
    | inr stays ↦ elim (rw stays at m) [ Memᴰ.head e ↦ inl e | Memᴰ.tail n ↦ inr n ]
  ]

  pub mem-sort_by : {z : A} (xs : List A) → Memᴰ z (sort_by xs) → Memᴰ z xs
  unfolding sort_by
  mem-sort_by [] m = m
  mem-sort_by (x ∷ xs) m = elim (mem-insert_before x (sort_by xs) m) [
    | inl e ↦ Memᴰ.head e
    | inr n ↦ Memᴰ.tail (mem-sort_by xs n)
  ]

  mem_insert_before_self : (x : A) (ys : List A) → Memᴰ x (insert_before x ys)
  unfolding insert_before
  mem_insert_before_self x [] = Memᴰ.head refl
  mem_insert_before_self x (y ∷ ys) = elim (Bool-cases (before y x)) [
    | inl passes ↦ rw passes (Memᴰ.tail (mem_insert_before_self x ys))
    | inr stays ↦ rw stays (Memᴰ.head refl)
  ]

  mem_insert_before_of_mem : (x : A) {z : A} (ys : List A) → Memᴰ z ys → Memᴰ z (insert_before x ys)
  unfolding insert_before
  mem_insert_before_of_mem x [] m = Memᴰ.tail m
  mem_insert_before_of_mem x (y ∷ ys) m = elim (Bool-cases (before y x)) [
    | inl passes ↦ rw passes (elim m [
      | Memᴰ.head e ↦ Memᴰ.head e
      | Memᴰ.tail n ↦ Memᴰ.tail (mem_insert_before_of_mem x ys n)
    ])
    | inr stays ↦ rw stays (Memᴰ.tail m)
  ]

  pub mem-sort_by_of_mem : {z : A} (xs : List A) → Memᴰ z xs → Memᴰ z (sort_by xs)
  unfolding sort_by
  mem-sort_by_of_mem [] m = m
  mem-sort_by_of_mem {z} (x ∷ xs) (Memᴰ.head e) = rw e (mem_insert_before_self x (sort_by xs))
  mem-sort_by_of_mem (x ∷ xs) (Memᴰ.tail m) =
      mem_insert_before_of_mem x (sort_by xs) (mem-sort_by_of_mem xs m)

  -- No element stands after one that it comes before.
  abbrev pub IsSorted : List A → Type 0
  IsSorted [] = Unit
  IsSorted (x ∷ xs) = All (λ y. before y x ≡ false) xs × IsSorted xs

  -- What makes the test an order of classes: it goes one way, and not coming before composes.
  pub record IsOrder : Type 0 where
    pub one_way : (a b : A) → before a b ≡ true → before b a ≡ false
    pub composes : (a b c : A) → before a b ≡ false → before b c ≡ false → before a c ≡ false

  module _ (order : IsOrder) where
    insert_before-IsSorted : (x : A) (ys : List A) → IsSorted ys → IsSorted (insert_before x ys)
    unfolding insert_before
    insert_before-IsSorted x [] h = (tt, tt)
    insert_before-IsSorted x (y ∷ ys) h = elim (Bool-cases (before y x)) [
      | inl passes ↦ rw passes (
        All-of_mem (λ z. before z y ≡ false) (insert_before x ys)
            (λ z m. elim (mem-insert_before x ys m) [
              | inl e ↦ subst (λ v. before v y ≡ false) (sym e) (order.one_way y x passes)
              | inr n ↦ All-mem (λ v. before v y ≡ false) ys h.0 n
            ]),
        insert_before-IsSorted x ys h.1,
      )
      | inr stays ↦ rw stays (
        (
          stays,
          All-of_mem (λ z. before z x ≡ false) ys
              (λ z m. order.composes z y x (All-mem (λ v. before v y ≡ false) ys h.0 m) stays),
        ),
        h,
      )
    ]

    pub sort_by-IsSorted : (xs : List A) → IsSorted (sort_by xs)
    unfolding sort_by
    sort_by-IsSorted [] = tt
    sort_by-IsSorted (x ∷ xs) = insert_before-IsSorted x (sort_by xs) (sort_by-IsSorted xs)

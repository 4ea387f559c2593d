-- ===== src/Base/Counts.antt =====
-- Lists of texts as multisets: how often a text stands in a list.
use Prim.Native.Nat.{ℕ, suc, ◌+◌, ◌≤◌, ◌<◌}
use Prim.Native.String.{String}
use mathlib.Core.Path.{◌≡◌, sym}
use mathlib.Core.Bool.{Bool, true}
use mathlib.Core.Logic.{inl, inr}
use mathlib.Core.List.{List, [], ◌∷◌, ◌++◌, Memᴰ}
use native.Mathlib.Omega.{arith}
use auto_dev_os.Base.Test.{◌==◌, eq_iff, eq_self, Bool-cases, if◌then◌else◌, ltb}
use auto_dev_os.Base.Lists.{length, filter}

unfoldable pub count : String → List String → ℕ
count k [] = 0
count k (x ∷ xs) = let n = count k xs in if x == k then suc n else n

pub count-append : (k : String) (xs ys : List String) → count k (xs ++ ys) ≡ count k xs + count k ys
unfolding count
count-append k [] ys = omega arith
count-append k (x ∷ xs) ys = ground (arith, count-append k xs ys)

pub count-one : (k x : String) → count k (x ∷ []) ≡ (if x == k then 1 else 0)
unfolding count
count-one k x = ground arith

pub count-head : (x : String) (xs : List String) → 0 < count x (x ∷ xs)
unfolding count
count-head x xs = ground (arith, eq_self x)

pub count-le-cons : (k x : String) (xs : List String) → 0 < count k xs → 0 < count k (x ∷ xs)
unfolding count
count-le-cons k x xs h = ground arith

pub count_of_mem : {x : String} (xs : List String) → Memᴰ x xs → 0 < count x xs
unfolding count
count_of_mem [] m = elim m [ ]
count_of_mem {x} (y ∷ xs) (Memᴰ.head e) = ground (arith, eq_iff y x)
count_of_mem {x} (y ∷ xs) (Memᴰ.tail m) = ground (arith, count_of_mem xs m)

pub mem_of_count : {x : String} (xs : List String) → 0 < count x xs → Memᴰ x xs
unfolding count
mem_of_count [] h = absurd (omega arith)
mem_of_count {x} (y ∷ xs) h = elim (Bool-cases (y == x)) [
  | inl hit ↦ Memᴰ.head (sym ((eq_iff y x).0 hit))
  | inr miss ↦ Memᴰ.tail (mem_of_count xs (ground arith))
]

-- The list without its first `x`.
remove : String → List String → List String
remove x [] = []
remove x (y ∷ ys) = if y == x then ys else y ∷ remove x ys

count-remove :
    (k x : String) (ys : List String)
    → 0 < count x ys
    → count k ys ≡ count k (remove x ys) + (if x == k then 1 else 0)
unfolding count remove
count-remove k x [] h = absurd (omega arith)
count-remove k x (y ∷ ys) h =
    ground (arith, count-remove k x ys, eq_iff y x, eq_iff y k, eq_iff x k)

length-remove :
    (x : String) (ys : List String) → 0 < count x ys → length ys ≡ suc (length (remove x ys))
unfolding count remove
length-remove x [] h = absurd (omega arith)
length-remove x (y ∷ ys) h = ground (arith, length-remove x ys)

pub length-le_of_count :
    (xs ys : List String) → ((k : String) → count k xs ≤ count k ys) → length xs ≤ length ys
length-le_of_count [] ys h = omega arith
length-le_of_count (x ∷ xs) ys h =
    omega (arith, length-remove x ys listed, length-le_of_count xs (remove x ys) rest)
  where
    listed : 0 < count x ys
    listed = omega (arith, count-head x xs, h x)

    rest : (k : String) → count k xs ≤ count k (remove x ys)
    rest k = unfold count in ground (arith, h k, count-remove k x ys listed)

-- Of lists of one length, the one that holds no more holds the same.
pub count-eq_of_length :
    (xs ys : List String)
    → ((k : String) → count k xs ≤ count k ys)
    → length ys ≤ length xs
    → (k : String) → count k xs ≡ count k ys
count-eq_of_length xs ys h short k = elim (Bool-cases (ltb (count k xs) (count k ys))) [
  | inr no_more ↦ ground (arith, h k)
  | inl more ↦ absurd (omega (arith, length-le_of_count (k ∷ xs) ys (longer more)))
]
  where
    longer : ltb (count k xs) (count k ys) ≡ true → (j : String) → count j (k ∷ xs) ≤ count j ys
    longer more j = unfold count in ground (arith, h j, eq_iff k j)

-- A function that rearranges lists, as a range over a map rearranges its keys.
abbrev pub Rearranges : (List String → List String) → Type 0
Rearranges f = (l : List String) (k : String) → count k (f l) ≡ count k l

pub count-filter :
    (test : String → Bool) (k : String) (xs : List String)
    → count k (filter test xs) ≡ (if test k then count k xs else 0)
unfolding count
count-filter test k [] = ground arith
count-filter test k (x ∷ xs) = ground (arith, count-filter test k xs, eq_iff x k)

-- ===== src/Base/Dict.antt =====
-- Go maps with text keys, as association lists: a key stands at most once after `insert`, a new key
-- goes to the end, and what a range over the map visits is the list.
use Prim.Native.String.{String}
use mathlib.Core.Path.{◌≡◌, refl, ap}
use mathlib.Core.Bool.{Bool, true, false}
use mathlib.Core.Option.{Option, none, some}
use mathlib.Core.List.{List, [], ◌∷◌, ◌++◌, Memᴰ}
use Prim.Native.Nat.{suc}
use auto_dev_os.Base.Lists.{length}
use auto_dev_os.Base.Counts.{count}
use mathlib.Core.Logic.{◌↔◌, inl, inr}
use native.Mathlib.Omega.{arith}
use auto_dev_os.Base.Test.{◌==◌, eq_iff, Bool-cases, Option-cases, if◌then◌else◌, ltb}

abbrev pub Dict : Type 0 → Type 0
Dict V = List (String × V)

module _ {V : Type 0} where
  unfoldable pub lookup : String → Dict V → Option V
  lookup wanted [] = none
  lookup wanted ((key, value) ∷ rest) = if key == wanted then some value else lookup wanted rest

  unfoldable pub insert : String → V → Dict V → Dict V
  insert new value [] = (new, value) ∷ []
  insert new value ((key, old) ∷ rest) =
      if key == new then (new, value) ∷ rest else (key, old) ∷ insert new value rest

  -- `m[k]`: the zero value stands for a missing key.
  unfoldable pub get_or : V → String → Dict V → V
  get_or d k m = elim (lookup k m) [ none ↦ d | some v ↦ v ]

  pub lookup-insert :
      (new wanted : String) (value : V) (dict : Dict V)
      → lookup wanted (insert new value dict)
        ≡ (if new == wanted then some value else lookup wanted dict)
  unfolding lookup insert
  lookup-insert new wanted value [] = refl
  lookup-insert new wanted value ((key, old) ∷ rest) = ground (
    arith,
    lookup-insert new wanted value rest,
    eq_iff key new,
    eq_iff key wanted,
    eq_iff new wanted,
  )

  pub get_or-insert :
      (d : V) (k j : String) (v : V) (m : Dict V)
      → get_or d j (insert k v m) ≡ (if k == j then v else get_or d j m)
  unfolding get_or
  get_or-insert d k j v m = ground (arith, lookup-insert k j v m)

  pub mem_of_lookup : {k : String} {v : V} (m : Dict V) → lookup k m ≡ some v → Memᴰ (k, v) m
  unfolding lookup
  mem_of_lookup [] h = cc
  mem_of_lookup {k} {v} ((j, w) ∷ m) h = elim (Bool-cases (j == k)) [
    | inl e ↦ Memᴰ.head (ground (arith, eq_iff j k))
    | inr n ↦ Memᴰ.tail (mem_of_lookup m (rw n at h))
  ]

  -- `_, ok := m[k]`
  unfoldable pub is_key : String → Dict V → Bool
  is_key k m = elim (lookup k m) [ none ↦ false | some _ ↦ true ]

  abbrev pub IsKey : String → Dict V → Type 0
  IsKey k m = (v : V) × (lookup k m ≡ some v)

  pub is_key_iff : (k : String) (m : Dict V) → (is_key k m ≡ true) ↔ IsKey k m
  unfolding is_key
  is_key_iff k m = (
    λ h. elim (Option-cases (lookup k m)) [
      | inl absent ↦ cc (known_absent h absent)
      | inr (v, found) ↦ (v, found)
    ],
    λ (v, found). rw (found, is_key),
  )
    where
      known_absent : is_key k m ≡ true → lookup k m ≡ none → true ≡ false
      known_absent h absent = ground arith

  -- `for k := range m`
  unfoldable pub keys : Dict V → List String
  keys [] = []
  keys ((k, v) ∷ m) = k ∷ keys m

  pub keys-insert_of_key :
      (k : String) (v : V) (m : Dict V) → is_key k m ≡ true → keys (insert k v m) ≡ keys m
  unfolding keys insert is_key lookup
  keys-insert_of_key k v [] h = cc
  keys-insert_of_key k v ((j, w) ∷ m) h = ground (arith, keys-insert_of_key k v m, eq_iff j k)

  pub keys-insert_of_new :
      (k : String) (v : V) (m : Dict V)
      → is_key k m ≡ false
      → keys (insert k v m) ≡ keys m ++ k ∷ []
  unfolding keys insert is_key lookup
  keys-insert_of_new k v [] h = refl
  keys-insert_of_new k v ((j, w) ∷ m) h = ground (arith, keys-insert_of_new k v m, eq_iff j k)

  pub length-keys : (m : Dict V) → length (keys m) ≡ length m
  unfolding keys
  length-keys [] = refl
  length-keys ((k, v) ∷ m) = ap suc (length-keys m)

  pub is_key-insert :
      (k j : String) (v : V) (m : Dict V)
      → is_key j (insert k v m) ≡ (if k == j then true else is_key j m)
  unfolding is_key
  is_key-insert k j v m = ground (arith, lookup-insert k j v m)

  pub get_or_of_new : (d : V) (k : String) (m : Dict V) → is_key k m ≡ false → get_or d k m ≡ d
  unfolding get_or is_key
  get_or_of_new d k m h = ground arith

  pub is_key-eq-count : (k : String) (m : Dict V) → is_key k m ≡ ltb 0 (count k (keys m))
  unfolding is_key keys lookup count
  is_key-eq-count k [] = ground arith
  is_key-eq-count k ((j, v) ∷ m) = ground (arith, is_key-eq-count k m)

  pub IsKey-of_mem : {k : String} {v : V} (m : Dict V) → Memᴰ (k, v) m → IsKey k m
  unfolding lookup
  IsKey-of_mem [] p = elim p [ ]
  IsKey-of_mem {k} {v} ((j, w) ∷ m) (Memᴰ.head e) = (w, ground (arith, eq_iff j k, e))
  IsKey-of_mem {k} {v} ((j, w) ∷ m) (Memᴰ.tail p) = elim (Bool-cases (j == k)) [
    | inl here ↦ (w, rw (here) refl)
    | inr later ↦ rw (later) (IsKey-of_mem m p)
  ]

  pub get_or_of_lookup :
      (d : V) (k : String) (m : Dict V) {v : V} → lookup k m ≡ some v → get_or d k m ≡ v
  unfolding get_or
  get_or_of_lookup d k m found = ground arith

  pub count-keys-insert :
      (j k : String) (v : V) (m : Dict V)
      → count j (keys (insert k v m))
        ≡ (if ltb 0 (count k (keys m)) then count j (keys m) else count j (k ∷ keys m))
  unfolding insert keys count
  count-keys-insert j k v [] = ground arith
  count-keys-insert j k v ((i, w) ∷ m) =
      ground (arith, eq_iff i k, eq_iff i j, eq_iff k j, count-keys-insert j k v m)

  pub get_or_of_absent : (d : V) (k : String) (m : Dict V) → lookup k m ≡ none → get_or d k m ≡ d
  unfolding get_or
  get_or_of_absent d k m absent = ground arith

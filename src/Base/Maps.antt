-- ===== src/Base/Maps.antt =====
-- Maps as lists of entries in the order of their keys: `BTreeMap`, and `HashMap` where the order in
-- which it is run through shows in no result.
use Prim.Native.Nat.{ℕ}
use mathlib.Core.Path.{◌≡◌, refl}
use mathlib.Core.Logic.{◌↔◌}
use mathlib.Core.Bool.{Bool, true, false, ◌&&◌, ◌||◌}
use mathlib.Core.Option.{Option, none, some}
use mathlib.Core.List.{List, [], ◌∷◌}
use native.Mathlib.Omega.{arith}
use solen.Base.Tests.{◌==◌, ==_iff, ltb, if◌then◌else◌}

-- What a map compares its keys by.
pub record Key {ℓ} (K : Type ℓ) : Type ℓ where
  pub same : K → K → Bool
  pub before : K → K → Bool
  pub same_iff : (a b : K) → (same a b ≡ true) ↔ (a ≡ b)
  pub before_irrefl : (a : K) → before a a ≡ false
  pub before_trans : (a b c : K) → before a b ≡ true → before b c ≡ true → before a c ≡ true
  pub before_total : (a b : K) → same a b ≡ false → before a b ≡ false → before b a ≡ true

pub ltb_irrefl : (a : ℕ) → ltb a a ≡ false
ltb_irrefl a = ground arith

pub ltb_trans : (a b c : ℕ) → ltb a b ≡ true → ltb b c ≡ true → ltb a c ≡ true
ltb_trans a b c h k = ground arith

pub ltb_total : (a b : ℕ) → (a == b) ≡ false → ltb a b ≡ false → ltb b a ≡ true
ltb_total a b h k = ground arith

instance abbrev pub nat_key : Key ℕ
nat_key = record {
  same = λ a b. a == b;
  before = ltb;
  same_iff = ==_iff;
  before_irrefl = ltb_irrefl;
  before_trans = ltb_trans;
  before_total = ltb_total;
}

-- Byte strings, in the order of their first difference.
abbrev pub bytes_same : List ℕ → List ℕ → Bool
bytes_same [] [] = true
bytes_same [] (y ∷ ys) = false
bytes_same (x ∷ xs) [] = false
bytes_same (x ∷ xs) (y ∷ ys) = (x == y) && bytes_same xs ys

abbrev pub bytes_before : List ℕ → List ℕ → Bool
bytes_before [] [] = false
bytes_before [] (y ∷ ys) = true
bytes_before (x ∷ xs) [] = false
bytes_before (x ∷ xs) (y ∷ ys) = ltb x y || ((x == y) && bytes_before xs ys)

pub bytes_same_iff : (a b : List ℕ) → (bytes_same a b ≡ true) ↔ (a ≡ b)
bytes_same_iff [] [] = (λ h. refl, λ h. refl)
bytes_same_iff [] (y ∷ ys) = (λ h. cc, λ h. cc)
bytes_same_iff (x ∷ xs) [] = (λ h. cc, λ h. cc)
bytes_same_iff (x ∷ xs) (y ∷ ys) = ground (arith, bytes_same_iff xs ys)

pub bytes_before_irrefl : (a : List ℕ) → bytes_before a a ≡ false
bytes_before_irrefl [] = refl
bytes_before_irrefl (x ∷ xs) = ground (arith, bytes_before_irrefl xs)

pub bytes_before_trans :
    (a b c : List ℕ) → bytes_before a b ≡ true → bytes_before b c ≡ true → bytes_before a c ≡ true
bytes_before_trans [] [] c h k = cc
bytes_before_trans [] (y ∷ ys) [] h k = cc
bytes_before_trans [] (y ∷ ys) (z ∷ zs) h k = refl
bytes_before_trans (x ∷ xs) [] c h k = cc
bytes_before_trans (x ∷ xs) (y ∷ ys) [] h k = cc
bytes_before_trans (x ∷ xs) (y ∷ ys) (z ∷ zs) h k = ground (arith, bytes_before_trans xs ys zs)

pub bytes_before_total :
    (a b : List ℕ) → bytes_same a b ≡ false → bytes_before a b ≡ false → bytes_before b a ≡ true
bytes_before_total [] [] h k = cc
bytes_before_total [] (y ∷ ys) h k = cc
bytes_before_total (x ∷ xs) [] h k = refl
bytes_before_total (x ∷ xs) (y ∷ ys) h k = ground (arith, bytes_before_total xs ys)

instance abbrev pub bytes_key : Key (List ℕ)
bytes_key = record {
  same = bytes_same;
  before = bytes_before;
  same_iff = bytes_same_iff;
  before_irrefl = bytes_before_irrefl;
  before_trans = bytes_before_trans;
  before_total = bytes_before_total;
}

module _ {ℓ κ} {K : Type ℓ} {V : Type κ} ⦃key : Key K⦄ where
  unfoldable pub lookup : K → List (K × V) → Option V
  lookup k [] = none
  lookup k ((j, v) ∷ m) = if key.same k j then some v else lookup k m

  unfoldable pub insert : K → V → List (K × V) → List (K × V)
  insert k v [] = (k, v) ∷ []
  insert k v ((j, w) ∷ m) =
      if key.same k j
      then (k, v) ∷ m
      else if key.before k j
      then (k, v) ∷ (j, w) ∷ m
      else (j, w) ∷ insert k v m

  unfoldable pub erase : K → List (K × V) → List (K × V)
  erase k [] = []
  erase k ((j, w) ∷ m) = let rest = erase k m in if key.same k j then rest else (j, w) ∷ rest

  pub lookup-insert :
      (j k : K) (v : V) (m : List (K × V))
      → lookup j (insert k v m) ≡ (if key.same j k then some v else lookup j m)
  unfolding lookup insert
  lookup-insert j k v [] = refl
  lookup-insert j k v ((i, w) ∷ m) =
      ground (arith, lookup-insert j k v m, key.same_iff j k, key.same_iff k i, key.same_iff j i)

  pub lookup-erase :
      (j k : K) (m : List (K × V))
      → lookup j (erase k m) ≡ (if key.same j k then none else lookup j m)
  unfolding lookup erase
  lookup-erase j k [] = ground arith
  lookup-erase j k ((i, w) ∷ m) =
      ground (arith, lookup-erase j k m, key.same_iff j k, key.same_iff k i, key.same_iff j i)

  -- The entries stand in the order of their keys, so no key stands twice.
  abbrev pub HasKeysAfter : K → List (K × V) → Type 0
  HasKeysAfter k [] = Unit
  HasKeysAfter k ((j, w) ∷ m) = (key.before k j ≡ true) × HasKeysAfter k m

  abbrev pub IsSortedMap : List (K × V) → Type 0
  IsSortedMap [] = Unit
  IsSortedMap ((k, v) ∷ m) = HasKeysAfter k m × IsSortedMap m

  pub lookup-after : (k : K) (m : List (K × V)) → HasKeysAfter k m → lookup k m ≡ none
  unfolding lookup
  lookup-after k [] h = refl
  lookup-after k ((j, w) ∷ m) h =
      ground (arith, lookup-after k m, key.before_irrefl k, key.same_iff k j)

  after_trans :
      (k j : K) (m : List (K × V)) → key.before k j ≡ true → HasKeysAfter j m → HasKeysAfter k m
  after_trans k j [] h a = tt
  after_trans k j ((i, w) ∷ m) h a = (key.before_trans k j i h a.0, after_trans k j m h a.1)

  pub insert_same :
      (k : K) (v : V) (m : List (K × V)) → IsSortedMap m → lookup k m ≡ some v → insert k v m ≡ m
  unfolding insert lookup
  insert_same k v [] h at = ground arith
  insert_same k v ((j, w) ∷ m) h at =
      ground (arith, insert_same k v m, key.same_iff k j, after_trans k j m, lookup-after k m)

  insert-after :
      (k j : K) (v : V) (m : List (K × V))
      → key.before j k ≡ true
      → HasKeysAfter j m
      → HasKeysAfter j (insert k v m)
  unfolding insert
  insert-after k j v [] h a = (h, tt)
  insert-after k j v ((i, w) ∷ m) h a = ground (arith, insert-after k j v m)

  pub insert-IsSortedMap :
      (k : K) (v : V) (m : List (K × V)) → IsSortedMap m → IsSortedMap (insert k v m)
  unfolding insert
  insert-IsSortedMap k v [] h = (tt, tt)
  insert-IsSortedMap k v ((j, w) ∷ m) h = ground (
    arith,
    insert-IsSortedMap k v m,
    insert-after k j v m,
    after_trans k j m,
    key.before_total k j,
    key.same_iff k j,
  )

  erase-after : (k j : K) (m : List (K × V)) → HasKeysAfter j m → HasKeysAfter j (erase k m)
  unfolding erase
  erase-after k j [] a = tt
  erase-after k j ((i, w) ∷ m) a = ground (arith, erase-after k j m)

  pub erase-IsSortedMap : (k : K) (m : List (K × V)) → IsSortedMap m → IsSortedMap (erase k m)
  unfolding erase
  erase-IsSortedMap k [] h = tt
  erase-IsSortedMap k ((j, w) ∷ m) h = ground (arith, erase-IsSortedMap k m, erase-after k j m)

-- ===== src/Base/Lists.antt =====
-- The iterator methods of Rust that the crates call on their vectors: `find`, `any`, `filter`,
-- `retain`, `contains`, `count`, `sum`, and a write through `iter_mut().find(..)`.
use Prim.Native.Nat.{ℕ, zero, suc, ◌+◌, ◌≤◌, ◌<◌, ◌%◌}
use mathlib.Core.Path.{◌≡◌, refl}
use mathlib.Core.Bool.{Bool, true, false, not, ◌||◌}
use mathlib.Core.Option.{Option, none, some}
use mathlib.Core.List.{List, [], ◌∷◌, ◌++◌, map}
use native.Mathlib.Omega.{arith}
use solen.Base.Tests.{if◌then◌else◌, ◌==◌, is_some}
use solen.Base.Words.{u128_mod}

module _ {ℓ} {A : Type ℓ} where
  abbrev pub length : List A → ℕ
  length [] = 0
  length (x ∷ xs) = suc (length xs)

  abbrev pub get_elem? : List A → ℕ → Option A
  get_elem? [] i = none
  get_elem? (x ∷ xs) zero = some x
  get_elem? (x ∷ xs) (suc i) = get_elem? xs i

  abbrev pub get_or : List A → ℕ → A → A
  get_or [] i d = d
  get_or (x ∷ xs) zero d = x
  get_or (x ∷ xs) (suc i) d = get_or xs i d

  abbrev pub take : ℕ → List A → List A
  take zero xs = []
  take (suc n) [] = []
  take (suc n) (x ∷ xs) = x ∷ take n xs

  abbrev pub replicate : ℕ → A → List A
  replicate zero a = []
  replicate (suc n) a = a ∷ replicate n a

  pub length-append : (xs ys : List A) → length (xs ++ ys) ≡ length xs + length ys
  length-append [] ys = omega arith
  length-append (x ∷ xs) ys = omega (arith, length-append xs ys)

  -- `push`: the new element goes to the end.
  abbrev pub push : List A → A → List A
  push [] a = a ∷ []
  push (x ∷ xs) a = x ∷ push xs a

  abbrev pub All {κ} : (A → Type κ) → List A → Type κ
  All P [] = Unit
  All P (x ∷ xs) = P x × All P xs

  unfoldable pub find : (A → Bool) → List A → Option A
  find p [] = none
  find p (x ∷ xs) = if p x then some x else find p xs

  unfoldable pub any : (A → Bool) → List A → Bool
  any p [] = false
  any p (x ∷ xs) = p x || any p xs

  -- `if let Some(x) = xs.iter_mut().find(p) { *x = f(x) }`
  unfoldable pub update_first : (A → Bool) → (A → A) → List A → List A
  update_first p f [] = []
  update_first p f (x ∷ xs) = if p x then f x ∷ xs else x ∷ update_first p f xs

  -- `retain`, and `filter` followed by `collect`.
  unfoldable pub retain : (A → Bool) → List A → List A
  retain p [] = []
  retain p (x ∷ xs) = if p x then x ∷ retain p xs else retain p xs

  -- The exact sum, which no word bounds.
  unfoldable pub sum_by : (A → ℕ) → List A → ℕ
  sum_by g [] = 0
  sum_by g (x ∷ xs) = g x + sum_by g xs

  -- `map(g).sum::<u128>()`: wrapping additions in any order leave the exact sum modulo 2 ^ 128.
  unfoldable pub sum_u128 : (A → ℕ) → List A → ℕ
  sum_u128 g xs = sum_by g xs % u128_mod

  unfoldable pub count : (A → Bool) → List A → ℕ
  count p [] = 0
  count p (x ∷ xs) = if p x then suc (count p xs) else count p xs

module _ {ℓ} {A : Type ℓ} (p : A → Bool) where
  pub any-find : (xs : List A) → any p xs ≡ is_some (find p xs)
  unfolding any find
  any-find [] = refl
  any-find (x ∷ xs) = ground (arith, any-find xs)

  pub find-test : (xs : List A) {x : A} → find p xs ≡ some x → p x ≡ true
  unfolding find
  find-test [] e = cc
  find-test (y ∷ xs) {x} e = ground (arith, find-test xs {x = x})

  pub find-push :
      (xs : List A) (a : A)
      → find p (push xs a)
        ≡ elim (find p xs) [ none ↦ if p a then some a else none | some x ↦ some x ]
  unfolding find
  find-push [] a = ground arith
  find-push (x ∷ xs) a = ground (arith, find-push xs a)

  pub update_first-none : (f : A → A) (xs : List A) → find p xs ≡ none → update_first p f xs ≡ xs
  unfolding find update_first
  update_first-none f [] e = refl
  update_first-none f (x ∷ xs) e = ground (arith, update_first-none f xs)

  pub All-find {κ} : (P : A → Type κ) (xs : List A) {x : A} → All P xs → find p xs ≡ some x → P x
  unfolding find
  All-find P [] h e = absurd (cc)
  All-find P (y ∷ xs) {x} h e = ground (arith, All-find P xs {x = x})

  pub All-update_first {κ} :
      (P : A → Type κ) (f : A → A) (xs : List A) {x : A}
      → All P xs
      → find p xs ≡ some x
      → P (f x)
      → All P (update_first p f xs)
  unfolding find update_first
  All-update_first P f [] h e q = tt
  All-update_first P f (y ∷ xs) {x} h e q = ground (arith, All-update_first P f xs {x = x})

  -- A write changes a sum by what it changes in the element that is found.
  pub sum_by-update_first :
      (g : A → ℕ) (f : A → A) (xs : List A) {x : A}
      → find p xs ≡ some x
      → sum_by g (update_first p f xs) + g x ≡ sum_by g xs + g (f x)
  unfolding find update_first sum_by
  sum_by-update_first g f [] e = cc
  sum_by-update_first g f (y ∷ xs) {x} e = ground (arith, sum_by-update_first g f xs {x = x})

  pub le-sum_by : (g : A → ℕ) (xs : List A) {x : A} → find p xs ≡ some x → g x ≤ sum_by g xs
  unfolding find sum_by
  le-sum_by g [] e = absurd (cc)
  le-sum_by g (y ∷ xs) {x} e = ground (arith, le-sum_by g xs {x = x})

  -- The element that is written is the one that the same test finds again.
  pub find-update_first :
      (f : A → A) (xs : List A) {x : A}
      → find p xs ≡ some x
      → p (f x) ≡ true
      → find p (update_first p f xs) ≡ some (f x)
  unfolding find update_first
  find-update_first f [] e q = absurd (cc)
  find-update_first f (y ∷ xs) {x} e q = ground (arith, find-update_first f xs {x = x})

  -- A test that neither the old nor the new element passes does not see the write.
  pub find-update_first_ne :
      (q : A → Bool) (f : A → A) (xs : List A) {x : A}
      → find p xs ≡ some x
      → q x ≡ false
      → q (f x) ≡ false
      → find q (update_first p f xs) ≡ find q xs
  unfolding find update_first
  find-update_first_ne q f [] e n m = refl
  find-update_first_ne q f (y ∷ xs) {x} e n m = ground (arith, find-update_first_ne q f xs {x = x})

  pub count-update_first :
      (q : A → Bool) (f : A → A) (xs : List A) {x : A}
      → find p xs ≡ some x
      → count q (update_first p f xs) + (if q x then 1 else 0)
        ≡ count q xs + (if q (f x) then 1 else 0)
  unfolding find update_first count
  count-update_first q f [] e = absurd (cc)
  count-update_first q f (y ∷ xs) {x} e = ground (arith, count-update_first q f xs {x = x})

module _ {ℓ} {A : Type ℓ} where
  pub length-map {κ} : {B : Type κ} (f : A → B) (xs : List A) → length (map f xs) ≡ length xs
  length-map f [] = refl
  length-map f (x ∷ xs) = omega (arith, length-map f xs)

  pub All-push {κ} : (P : A → Type κ) (xs : List A) (a : A) → All P xs → P a → All P (push xs a)
  All-push P [] a h q = (q, tt)
  All-push P (x ∷ xs) a h q = (h.0, All-push P xs a h.1 q)

  pub sum_by-push : (g : A → ℕ) (xs : List A) (a : A) → sum_by g (push xs a) ≡ sum_by g xs + g a
  unfolding sum_by
  sum_by-push g [] a = omega arith
  sum_by-push g (x ∷ xs) a = omega (arith, sum_by-push g xs a)

  pub count-push :
      (q : A → Bool) (xs : List A) (a : A)
      → count q (push xs a) ≡ count q xs + (if q a then 1 else 0)
  unfolding count
  count-push q [] a = ground arith
  count-push q (x ∷ xs) a = ground (arith, count-push q xs a)

  -- What `retain` keeps and what it drops add up to the whole.
  pub sum_by-retain :
      (g : A → ℕ) (p : A → Bool) (xs : List A)
      → sum_by g (retain p xs) + sum_by g (retain (λ x. not (p x)) xs) ≡ sum_by g xs
  unfolding retain sum_by
  sum_by-retain g p [] = omega arith
  sum_by-retain g p (x ∷ xs) = ground (arith, sum_by-retain g p xs)

  -- Dropping elements that count for nothing keeps a sum.
  pub sum_by-retain_zero :
      (g : A → ℕ) (p : A → Bool) (xs : List A)
      → ((x : A) → p x ≡ false → g x ≡ 0)
      → sum_by g (retain p xs) ≡ sum_by g xs
  unfolding retain sum_by
  sum_by-retain_zero g p [] h = refl
  sum_by-retain_zero g p (x ∷ xs) h = ground (arith, sum_by-retain_zero g p xs h, h x)

  -- The sum over the elements that pass a test.
  pub sum_by-retain_if :
      (g : A → ℕ) (p : A → Bool) (xs : List A)
      → sum_by g (retain p xs) ≡ sum_by (λ x. if p x then g x else 0) xs
  unfolding retain sum_by
  sum_by-retain_if g p [] = refl
  sum_by-retain_if g p (x ∷ xs) = ground (arith, sum_by-retain_if g p xs)

  pub sum_by-retain_le :
      (g : A → ℕ) (p : A → Bool) (xs : List A) → sum_by g (retain p xs) ≤ sum_by g xs
  unfolding retain sum_by
  sum_by-retain_le g p [] = omega arith
  sum_by-retain_le g p (x ∷ xs) = ground (arith, sum_by-retain_le g p xs)

  pub sum_by_mono : (g h : A → ℕ) (xs : List A) → ((x : A) → g x ≤ h x) → sum_by g xs ≤ sum_by h xs
  unfolding sum_by
  sum_by_mono g h [] le = omega arith
  sum_by_mono g h (x ∷ xs) le = omega (arith, le x, sum_by_mono g h xs le)

  pub sum_by-congr : (g h : A → ℕ) (xs : List A) → ((x : A) → g x ≡ h x) → sum_by g xs ≡ sum_by h xs
  unfolding sum_by
  sum_by-congr g h [] eq = refl
  sum_by-congr g h (x ∷ xs) eq = omega (arith, eq x, sum_by-congr g h xs eq)

  pub All-retain {κ} :
      (P : A → Type κ) (p : A → Bool) (xs : List A) → All P xs → All P (retain p xs)
  unfolding retain
  All-retain P p [] h = tt
  All-retain P p (x ∷ xs) h = ground (arith, All-retain P p xs)

  pub count-retain_le : (q p : A → Bool) (xs : List A) → count q (retain p xs) ≤ count q xs
  unfolding retain count
  count-retain_le q p [] = omega arith
  count-retain_le q p (x ∷ xs) = ground (arith, count-retain_le q p xs)

  pub count-map {κ} :
      {B : Type κ} (q : A → Bool) (f : B → A) (xs : List B)
      → count q (map f xs) ≡ count (λ x. q (f x)) xs
  unfolding count
  count-map q f [] = refl
  count-map q f (x ∷ xs) = ground (arith, count-map q f xs)

  -- What one search finds, a test that nothing passes does not accept.
  pub any-find-false :
      (p q : A → Bool) (xs : List A) {x : A} → any q xs ≡ false → find p xs ≡ some x → q x ≡ false
  unfolding any find
  any-find-false p q [] h e = cc
  any-find-false p q (y ∷ xs) {x} h e = ground (arith, any-find-false p q xs {x = x})

  pub retain-push :
      (p : A → Bool) (xs : List A) (a : A)
      → retain p (push xs a) ≡ (if p a then push (retain p xs) a else retain p xs)
  unfolding retain
  retain-push p [] a = refl
  retain-push p (x ∷ xs) a = ground (arith, retain-push p xs a)

  pub length-push : (xs : List A) (a : A) → length (push xs a) ≡ length xs + 1
  length-push [] a = refl
  length-push (x ∷ xs) a = ground (arith, length-push xs a)

  pub sum_u128-eq : (g : A → ℕ) (xs : List A) → sum_by g xs < u128_mod → sum_u128 g xs ≡ sum_by g xs
  unfolding sum_u128
  sum_u128-eq g xs h = omega arith

-- `contains` of a vector of identifiers.
unfoldable pub contains : ℕ → List ℕ → Bool
contains a [] = false
contains a (x ∷ xs) = a == x || contains a xs

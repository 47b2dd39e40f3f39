-- ===== src/Consensus/Ordering.antt =====
-- Sorting by a key and rotating only move the elements of a list.
use mathlib.Core.List.{Perm, perm_append_comm}
use mathlib.Core.List.Perm
use native.Mathlib.Numerals.{add-one}
use native.Mathlib.Nat.{add_comm, mod-lt, mod-eq_of_lt, add-mod_right}
use solen.Base.{
  ℕ, zero, suc, ◌+◌, ◌%◌, ◌-◌, ◌≤◌, ◌<◌, ◌≡◌, refl, sym, ap, ap₂, subst, ◌∙◌, List, [], ◌∷◌, ◌++◌,
  inl, inr, arith, leb, Bool-cases, length, get_or,
}
use solen.Consensus.Validators.{sort_by_key, insert_by_key}
use solen.Consensus.Proposer.{map_from, rotation}

module _ {ℓ} {A : Type ℓ} (key : A → ℕ) where
  insert_by_key-perm : (x : A) (xs : List A) → Perm (insert_by_key key x xs) (x ∷ xs)
  unfolding insert_by_key
  insert_by_key-perm x [] = Perm.refl (x ∷ [])
  insert_by_key-perm x (y ∷ ys) = elim (Bool-cases (leb (key x) (key y))) [
    | inl le ↦ rw le (Perm.refl (x ∷ y ∷ ys))
    | inr gt ↦ rw gt (Perm.trans (Perm.cons y (insert_by_key-perm x ys)) (Perm.swap x y ys))
  ]

  pub sort_by_key-perm : (xs : List A) → Perm (sort_by_key key xs) xs
  unfolding sort_by_key
  sort_by_key-perm [] = Perm.refl []
  sort_by_key-perm (x ∷ xs) =
      Perm.trans (insert_by_key-perm x (sort_by_key key xs)) (Perm.cons x (sort_by_key-perm xs))

  -- Each key is at most the next.
  abbrev pub IsSorted : List A → Type 0
  IsSorted [] = Unit
  IsSorted (x ∷ []) = Unit
  IsSorted (x ∷ y ∷ ys) = (key x ≤ key y) × IsSorted (y ∷ ys)

  insert_by_key-IsSorted : (x : A) (xs : List A) → IsSorted xs → IsSorted (insert_by_key key x xs)
  unfolding insert_by_key
  insert_by_key-IsSorted x [] h = tt
  insert_by_key-IsSorted x (y ∷ []) h = ground arith
  insert_by_key-IsSorted x (y ∷ z ∷ ys) h = ground (arith, insert_by_key-IsSorted x (z ∷ ys) h.1)

  pub sort_by_key-IsSorted : (xs : List A) → IsSorted (sort_by_key key xs)
  unfolding sort_by_key
  sort_by_key-IsSorted [] = tt
  sort_by_key-IsSorted (x ∷ xs) =
      insert_by_key-IsSorted x (sort_by_key key xs) (sort_by_key-IsSorted xs)

map_from-append :
    (f : ℕ → ℕ) (i a b : ℕ) → map_from f i (a + b) ≡ map_from f i a ++ map_from f (i + a) b
unfolding map_from
map_from-append f i zero b = ap₂ (map_from f) (omega arith) (omega arith)
map_from-append f i (suc a) b =
    let step : suc a + b ≡ suc (a + b) = omega arith in
    ap (map_from f i) step
    ∙ ap (◌∷◌ (f i)) (
        map_from-append f (suc i) a b
        ∙ ap (λ k. map_from f (suc i) a ++ map_from f k b) (omega arith))

map_from-congr :
    (f g : ℕ → ℕ) (i j n : ℕ)
    → ((m : ℕ) → m < n → f (i + m) ≡ g (j + m))
    → map_from f i n ≡ map_from g j n
unfolding map_from
map_from-congr f g i j zero same = refl
map_from-congr f g i j (suc n) same =
    ap₂ ◌∷◌ (ap f (omega arith) ∙ same 0 (omega arith) ∙ ap g (omega arith)) (
      map_from-congr f g (suc i) (suc j) n
        (λ m h. ap f (omega arith) ∙ same (suc m) (omega arith) ∙ ap g (omega arith)))

map_from-get_or : (xs : List ℕ) (d : ℕ) → map_from (λ i. get_or xs i d) 0 (length xs) ≡ xs
unfolding map_from
map_from-get_or [] d = refl
map_from-get_or (x ∷ xs) d = ap (◌∷◌ x) (
    map_from-congr (λ i. get_or (x ∷ xs) i d) (λ i. get_or xs i d) 1 0 (length xs)
      (λ m h.
        ap (λ k. get_or (x ∷ xs) k d) (add_comm 1 m ∙ add-one m)
        ∙ ap (λ k. get_or xs k d) (omega arith))
    ∙ map_from-get_or xs d)

wraps : (n start m : ℕ) → start < n → m < start → (start + (0 + (n - start) + m)) % n ≡ 0 + m
wraps n start m within h =
    ap (λ k. k % n) (omega arith) ∙ add-mod_right m n ∙ mod-eq_of_lt (omega arith) ∙ omega arith

-- Rotating a list by any number only moves its elements.
pub rotation-perm : (ids : List ℕ) (height : ℕ) → Perm (rotation ids height) ids
unfolding rotation
rotation-perm [] height = Perm.refl []
rotation-perm (x ∷ xs) height =
    let n : ℕ = length (x ∷ xs) in
    let start : ℕ = height % n in
    let at : ℕ → ℕ = λ i. get_or (x ∷ xs) i 0 in
    let turned : ℕ → ℕ = λ i. at ((start + i) % n) in
    let within : start < n = mod-lt height (omega arith) in
    let front =
      map_from-congr turned at 0 start (n - start)
        (λ m h. ap at (mod-eq_of_lt (omega arith) ∙ omega arith)) in
    let back =
      map_from-congr turned at (0 + (n - start)) 0 start
        (λ m h. ap at (wraps n start m within h)) in
    let parts : n ≡ (n - start) + start = omega arith in
    let sum : start + (n - start) ≡ n = omega arith in
    let split =
      ap (map_from turned 0) parts
      ∙ map_from-append turned 0 (n - start) start
      ∙ ap₂ ◌++◌ front back in
    let whole : map_from at 0 start ++ map_from at start (n - start) ≡ x ∷ xs =
      ap (λ k. map_from at 0 start ++ map_from at k (n - start)) (omega arith)
      ∙ sym (map_from-append at 0 start (n - start))
      ∙ ap (map_from at 0) sum
      ∙ map_from-get_or (x ∷ xs) 0 in
    subst (λ l. Perm l (x ∷ xs)) (sym split)
      (subst (Perm (map_from at start (n - start) ++ map_from at 0 start)) whole
        (perm_append_comm (map_from at start (n - start)) (map_from at 0 start)))

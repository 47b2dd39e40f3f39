-- ===== src/Base/Counts.antt =====
-- How many elements pass a test, and what a search for one then finds.
use Prim.Native.Nat.{ℕ, ◌≤◌}
use mathlib.Core.Path.{◌≡◌, refl, subst}
use mathlib.Core.Logic.{inl, inr}
use mathlib.Core.Bool.{Bool, false}
use mathlib.Core.Option.{none}
use mathlib.Core.List.{List, [], ◌∷◌}
use native.Mathlib.Omega.{arith}
use solen.Base.Tests.{◌==◌, ==_iff, Bool-cases}
use solen.Base.Lists.{any, find, count, count-push, push}

module _ {ℓ} {A : Type ℓ} where
  pub count-find : (p : A → Bool) (xs : List A) → count p xs ≡ 0 → find p xs ≡ none
  unfolding count find
  count-find p [] e = refl
  count-find p (x ∷ xs) e = ground (arith, count-find p xs)

  pub count-any : (p : A → Bool) (xs : List A) → any p xs ≡ false → count p xs ≡ 0
  unfolding any count
  count-any p [] e = refl
  count-any p (x ∷ xs) e = ground (arith, count-any p xs)

  -- Pushing the first element that passes the test of `n`, and of no other number, repeats none.
  pub count-push_fresh :
      (test : ℕ → A → Bool) (n k : ℕ) (xs : List A) (a : A)
      → count (test n) xs ≡ 0
      → count (test k) xs ≤ 1
      → ((n == k) ≡ false → test k a ≡ false)
      → count (test k) (push xs a) ≤ 1
  count-push_fresh test n k xs a none_yet one other = elim (Bool-cases (n == k)) [
    | inl eq ↦
        let none_here : count (test k) xs ≡ 0 =
          subst (λ j. count (test j) xs ≡ 0) ((==_iff n k).0 eq) none_yet in
        ground (arith, count-push (test k) xs a, none_here)
    | inr ne ↦ ground (arith, count-push (test k) xs a, other ne)
  ]

-- ===== src/Intents/Choice.antt =====
-- The choice among solutions (crates/solen-intents/src/pool.rs).
use solen.Base.{
  ℕ, ◌≡◌, refl, ◌≤◌, ◌<◌, ◌⊎◌, inl, inr, true, false, Option, none, some, List, [], ◌∷◌, All, ok,
  err, lookup, nat_key, arith, on_branches,
}
use solen.Intents.Types.{Solution}
use solen.Intents.Pool.{
  IntentPool, no_solution, or_empty, surpasses, best_from, select_from, select_best_solution,
}

-- A solution with a lower score than another, or with the same score and a higher claim of the tip.
abbrev pub IsWorse : Solution → Solution → Type 0
IsWorse best s =
    (s.score < best.score) ⊎ ((s.score ≡ best.score) × (best.claimed_tip < s.claimed_tip))

-- The same, or one with the same score and the same claim.
abbrev pub IsNoBetter : Solution → Solution → Type 0
IsNoBetter best s =
    (s.score < best.score) ⊎ ((s.score ≡ best.score) × (best.claimed_tip ≤ s.claimed_tip))

-- A solution of the list: those in front of it are no better, and those behind it are worse.
abbrev pub IsLastBest : Solution → List Solution → Type 0
IsLastBest best [] = ⊥
IsLastBest best (s ∷ ss) =
    ((best ≡ s) × All (IsWorse best) ss) ⊎ (IsNoBetter best s × IsLastBest best ss)

surpasses-IsWorse : (a b : Solution) → surpasses a b ≡ true → IsWorse a b
unfolding surpasses
surpasses-IsWorse a b h = ground arith

surpasses-IsNoBetter : (a b : Solution) → surpasses a b ≡ false → IsNoBetter b a
unfolding surpasses
surpasses-IsNoBetter a b h = ground arith

IsNoBetter-IsWorse : (a b c : Solution) → IsNoBetter a b → IsWorse b c → IsNoBetter a c
IsNoBetter-IsWorse a b c h k = ground arith

IsNoBetter-trans : (a b c : Solution) → IsNoBetter a b → IsNoBetter b c → IsNoBetter a c
IsNoBetter-trans a b c h k = ground arith

best_from-IsLastBest :
    (best : Solution) (ss : List Solution) → IsLastBest (best_from best ss) (best ∷ ss)
unfolding best_from
best_from-IsLastBest best [] = inl (refl, tt)
best_from-IsLastBest best (s ∷ ss) =
    on_branches (λ (x : Solution). IsLastBest (best_from x ss) (best ∷ s ∷ ss)) (surpasses best s)
      (λ stays.
        keep (best_from best ss) (surpasses-IsWorse best s stays) (best_from-IsLastBest best ss))
      (λ moves.
        move (best_from s ss) (surpasses-IsNoBetter best s moves) (best_from-IsLastBest s ss))
  where
    keep : (b : Solution) → IsWorse best s → IsLastBest b (best ∷ ss) → IsLastBest b (best ∷ s ∷ ss)
    keep b worse (inl (same, behind)) = inl (same, (rw (same) worse, behind))
    keep b worse (inr (front, rest)) =
        inr (front, inr (IsNoBetter-IsWorse b best s front worse, rest))

    move : (b : Solution) → IsNoBetter s best → IsLastBest b (s ∷ ss) → IsLastBest b (best ∷ s ∷ ss)
    move b over (inl (same, behind)) = inr (rw (same) over, inl (same, behind))
    move b over (inr (front, rest)) = inr (IsNoBetter-trans b s best front over, inr (front, rest))

-- When no solution was submitted for an intent there is none to select. Otherwise the one selected
-- is among those submitted: none before it has a higher score, or the same score and a lower claim
-- of the tip, and each behind it has a lower score, or the same score and a higher claim.
pub select_best_solution-best :
    (intent_id : ℕ) (pool : IntentPool)
    → let candidates = or_empty (lookup intent_id pool.solutions) in
      let selected = select_best_solution intent_id pool in
      ((candidates ≡ []) × (selected ≡ err (no_solution intent_id)))
      ⊎ ((best : Solution) × (selected ≡ ok best) × IsLastBest best candidates)
unfolding select_best_solution
select_best_solution-best intent_id pool = chosen (lookup intent_id pool.solutions)
  where
    chosen :
        (o : Option (List Solution))
        → ((or_empty o ≡ []) × (select_from intent_id o ≡ err (no_solution intent_id)))
          ⊎ ((best : Solution) × (select_from intent_id o ≡ ok best) × IsLastBest best (or_empty o))
    chosen none = inl (refl, refl)
    chosen (some []) = inl (refl, refl)
    chosen (some (s ∷ ss)) = inr (best_from s ss, refl, best_from-IsLastBest s ss)

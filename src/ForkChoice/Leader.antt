-- ===== src/ForkChoice/Leader.antt =====
-- The leader does not depend on the order in which the votes are run through
-- (crates/solen-consensus/src/engine.rs).
use mathlib.Core.List.{Permᴰ}
use solen.Base.{
  ℕ, true, false, ◌≡◌, refl, ◌∙◌, ap, ap₂, Option, none, some, List, lookup, nat_key, arith,
}
use solen.ForkChoice.State.{Hash, PendingBlock, Engine, blocks_at}
use solen.ForkChoice.Rules.{
  Best, beats, improve, candidate, consider, round, leader_loop, best_hash, v2_leader,
}

beats_asym : (c d : Best) → beats c d ≡ true → beats d c ≡ false
unfolding beats
beats_asym c d h = ground arith

beats_trans : (b c d : Best) → beats b c ≡ true → beats c d ≡ true → beats b d ≡ true
unfolding beats
beats_trans b c d h k = ground arith

best_eq :
    {h i s t r q : ℕ}
    → h ≡ i
    → s ≡ t
    → r ≡ q
    → Path Best
        (record { hash = h; stake = s; rank = r })
        (record { hash = i; stake = t; rank = q })
best_eq p q r = ground (arith, p, q, r)

beats_total : (c d : Best) → beats c d ≡ false → beats d c ≡ false → c ≡ d
unfolding beats
beats_total c d h k = best_eq (ground (arith, h, k)) (ground (arith, h, k)) (ground (arith, h, k))

-- Two improvements may change places: the order of the candidates is total.
improve-swap :
    (c d : Best) (best : Option Best) → improve c (improve d best) ≡ improve d (improve c best)
unfolding improve
improve-swap c d none = ground (arith, beats_asym c d, beats_total c d)
improve-swap c d (some b) = ground (
  arith,
  beats_asym c d,
  beats_total c d,
  beats_total c b,
  beats_total d b,
  beats_trans c d b,
  beats_trans d c b,
  beats_trans c b d,
  beats_trans d b c,
)

module _ (blake3_hash : List ℕ → List ℕ) (e : Engine) (height : ℕ) where
  consider-swap :
      (h k : Hash) (vs ws : List ℕ) (p q : Option PendingBlock) (best : Option Best)
      → let take = consider blake3_hash e height in
        take h vs p (take k ws q best) ≡ take k ws q (take h vs p best)
  consider-swap h k vs ws none q best = refl
  consider-swap h k vs ws (some p) none best = refl
  consider-swap h k vs ws (some p) (some q) best =
      improve-swap (candidate blake3_hash e height h vs p) (candidate blake3_hash e height k ws q)
        best

  round-swap :
      (h k : Hash) (vs ws : List ℕ) (best : Option Best)
      → let take = round blake3_hash e height in
        take h vs (take k ws best) ≡ take k ws (take h vs best)
  unfolding round
  round-swap h k vs ws best = ground (
    arith,
    consider-swap h k vs ws (lookup h (blocks_at e height)) (lookup k (blocks_at e height)) best,
  )

  leader_loop-perm :
      {t u : List (Hash × List ℕ)}
      → Permᴰ t u
      → (best : Option Best)
      → leader_loop blake3_hash e height t best ≡ leader_loop blake3_hash e height u best
  unfolding leader_loop
  leader_loop-perm Permᴰ.nil best = refl
  leader_loop-perm (Permᴰ.cons {a = a} {l₂ = l} same p) best =
      leader_loop-perm p (round blake3_hash e height a.0 a.1 best)
      ∙ ap
          (λ (x : Hash × List ℕ).
            leader_loop blake3_hash e height l (round blake3_hash e height x.0 x.1 best))
          same
  leader_loop-perm (Permᴰ.swap {a = a} {b = b} {l = l} first second) best =
      ap (leader_loop blake3_hash e height l) (
        round-swap b.0 a.0 b.1 a.1 best
        ∙ ap₂
            (λ (x y : Hash × List ℕ).
              round blake3_hash e height x.0 x.1 (round blake3_hash e height y.0 y.1 best))
            first second)
  leader_loop-perm (Permᴰ.trans p q) best = leader_loop-perm p best ∙ leader_loop-perm q best

  -- The tally of the votes may be run through in any order: the leader, if there is one, is the
  -- same.
  pub v2_leader-perm :
      (t u : List (Hash × List ℕ))
      → Permᴰ t u
      → v2_leader blake3_hash e height t ≡ v2_leader blake3_hash e height u
  unfolding v2_leader
  v2_leader-perm t u p = ap best_hash (leader_loop-perm p none)

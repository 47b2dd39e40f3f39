-- ===== src/Mempool/Draining.antt =====
-- The order in which the pool gives its operations away (crates/solen-consensus/src/mempool.rs).
use Prim.Native.Nat.{min}
use solen.Base.{
  ℕ, zero, suc, ◌≡◌, refl, ap, sym, subst, Option-cases, inl, inr, ◌≤◌, List, [], ◌∷◌, ◌++◌, length,
  find, nat_key, arith,
}
use solen.Mempool.Entries.{UserOperation, insert_entry, remove_entry, without_last}
use solen.Mempool.Pool.{
  MempoolInner, is_key, forget, make_room, admitted, admit, submit, clear, drain, drain_loop,
  remove_one, remove_finalized,
}
use solen.Mempool.Limits.{
  Reached, reached_new, reached_submit, reached_drain, reached_remove, reached_clear,
}

-- No operation of a list pays more than a fee.
abbrev pub PayAtMost : ℕ → List UserOperation → Type 0
PayAtMost fee [] = Unit
PayAtMost fee (e ∷ es) = (e.max_fee ≤ fee) × PayAtMost fee es

-- The fees fall along the list.
abbrev pub HasFallingFees : List UserOperation → Type 0
HasFallingFees [] = Unit
HasFallingFees (e ∷ es) = PayAtMost e.max_fee es × HasFallingFees es

-- Each operation of the first list pays as much as any of the second.
abbrev pub PayAsMuchAs : List UserOperation → List UserOperation → Type 0
PayAsMuchAs [] left = Unit
PayAsMuchAs (d ∷ ops) left = PayAtMost d.max_fee left × PayAsMuchAs ops left

at_most_mono : (m n : ℕ) (es : List UserOperation) → m ≤ n → PayAtMost m es → PayAtMost n es
at_most_mono m n [] le h = tt
at_most_mono m n (e ∷ es) le h = (ground (arith, le, h.0), at_most_mono m n es le h.1)

at_most-insert_entry :
    (m : ℕ) (op : UserOperation) (es : List UserOperation)
    → op.max_fee ≤ m
    → PayAtMost m es
    → PayAtMost m (insert_entry op es)
unfolding insert_entry
at_most-insert_entry m op [] le h = (le, tt)
at_most-insert_entry m op (e ∷ es) le h = ground (arith, at_most-insert_entry m op es)

falling-insert_entry :
    (op : UserOperation) (es : List UserOperation)
    → HasFallingFees es
    → HasFallingFees (insert_entry op es)
unfolding insert_entry
falling-insert_entry op [] h = (tt, tt)
falling-insert_entry op (e ∷ es) h = ground (
  arith,
  falling-insert_entry op es,
  at_most-insert_entry e.max_fee op es,
  at_most_mono e.max_fee op.max_fee es,
)

at_most-without_last :
    (m : ℕ) (es : List UserOperation) → PayAtMost m es → PayAtMost m (without_last es)
unfolding without_last
at_most-without_last m [] h = tt
at_most-without_last m (e ∷ []) h = tt
at_most-without_last m (e ∷ f ∷ es) h = (h.0, at_most-without_last m (f ∷ es) h.1)

falling-without_last :
    (es : List UserOperation) → HasFallingFees es → HasFallingFees (without_last es)
unfolding without_last
falling-without_last [] h = tt
falling-without_last (e ∷ []) h = tt
falling-without_last (e ∷ f ∷ es) h =
    (at_most-without_last e.max_fee (f ∷ es) h.0, falling-without_last (f ∷ es) h.1)

at_most-remove_entry :
    (m : ℕ) (op : UserOperation) (es : List UserOperation)
    → PayAtMost m es
    → PayAtMost m (remove_entry op es)
unfolding remove_entry
at_most-remove_entry m op [] h = tt
at_most-remove_entry m op (e ∷ es) h = ground (arith, at_most-remove_entry m op es)

falling-remove_entry :
    (op : UserOperation) (es : List UserOperation)
    → HasFallingFees es
    → HasFallingFees (remove_entry op es)
unfolding remove_entry
falling-remove_entry op [] h = tt
falling-remove_entry op (e ∷ es) h =
    ground (arith, falling-remove_entry op es, at_most-remove_entry e.max_fee op es)

submit-falling :
    (max_size : ℕ) (op : UserOperation) (pool : MempoolInner)
    → HasFallingFees pool.entries
    → HasFallingFees (submit max_size op pool).0.entries
unfolding submit make_room admit admitted forget
submit-falling max_size op pool h = ground (
  arith,
  falling-insert_entry op pool.entries,
  falling-without_last pool.entries,
  falling-insert_entry op (without_last pool.entries),
)

-- What `drain` returns and what it leaves.
drain_loop-splits :
    (n : ℕ) (es : List UserOperation) (pool : MempoolInner)
    → pool.entries ≡ es
    → HasFallingFees es
    → let (left, ops) = drain_loop n es pool in
      (ops ++ left.entries ≡ es) × (length ops ≡ min n (length es)) × HasFallingFees left.entries
unfolding drain_loop forget
drain_loop-splits zero es pool at h = (at, omega arith, subst HasFallingFees (sym at) h)
drain_loop-splits (suc n) [] pool at h = (at, omega arith, subst HasFallingFees (sym at) h)
drain_loop-splits (suc n) (e ∷ es) pool at h =
    let (split, counted, falling) = drain_loop-splits n es (forget e es pool) refl h.1 in
    (ap (◌∷◌ e) split, omega (arith, counted), falling)

at_most-append :
    (m : ℕ) (ops left : List UserOperation) → PayAtMost m (ops ++ left) → PayAtMost m left
at_most-append m [] left h = h
at_most-append m (d ∷ ops) left h = at_most-append m ops left h.1

falling-append :
    (ops left : List UserOperation) → HasFallingFees (ops ++ left) → PayAsMuchAs ops left
falling-append [] left h = tt
falling-append (d ∷ ops) left h =
    (at_most-append d.max_fee ops left h.0, falling-append ops left h.1)

remove_one-falling :
    (op : UserOperation) (pool : MempoolInner)
    → HasFallingFees pool.entries
    → HasFallingFees (remove_one op pool).entries
unfolding remove_one
remove_one-falling op pool h = elim (Option-cases (find (is_key op.sender op.nonce) pool.entries)) [
  | inl missing ↦ ground (arith, missing)
  | inr (e, found) ↦ ground (arith, found, falling-remove_entry e pool.entries)
]

remove_finalized-falling :
    (ops : List UserOperation) (pool : MempoolInner)
    → HasFallingFees pool.entries
    → HasFallingFees (remove_finalized ops pool).entries
unfolding remove_finalized
remove_finalized-falling [] pool h = h
remove_finalized-falling (op ∷ ops) pool h =
    remove_finalized-falling ops (remove_one op pool) (remove_one-falling op pool h)

Reached-falling :
    (max_size : ℕ) {pool : MempoolInner} → Reached max_size pool → HasFallingFees pool.entries
unfolding drain clear
Reached-falling max_size reached_new = tt
Reached-falling max_size (reached_submit op r) =
    submit-falling max_size op _ (Reached-falling max_size r)
Reached-falling max_size (reached_drain limit r) =
    (drain_loop-splits (min limit (length _)) _ _ refl (Reached-falling max_size r)).2
Reached-falling max_size (reached_remove ops r) =
    remove_finalized-falling ops _ (Reached-falling max_size r)
Reached-falling max_size (reached_clear r) = tt

-- A drain of a pool that the methods made takes operations off the front of the pool, as many as
-- the limit or all of them, with falling fees, and each pays as much as any that stays.
pub drain-highest :
    (max_size limit : ℕ) (pool : MempoolInner)
    → Reached max_size pool
    → let (left, ops) = drain limit pool in
      (ops ++ left.entries ≡ pool.entries)
      × (length ops ≡ min limit (length pool.entries))
      × HasFallingFees (ops ++ left.entries)
      × PayAsMuchAs ops left.entries
unfolding drain
drain-highest max_size limit pool r =
    let falling = Reached-falling max_size r in
    let (split, counted, rest) =
      drain_loop-splits (min limit (length pool.entries)) pool.entries pool refl falling in
    let whole = subst HasFallingFees (sym split) falling in
    (split, omega (arith, counted), whole, falling-append _ _ whole)

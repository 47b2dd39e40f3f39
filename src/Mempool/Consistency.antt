-- ===== src/Mempool/Consistency.antt =====
-- The three parts of the pool's state agree (crates/solen-consensus/src/mempool.rs).
use Prim.Native.Nat.{min}
use solen.Base.{
  ℕ, zero, suc, Bool, true, false, ◌≡◌, refl, ◌≤◌, Option, none, some, List, [], ◌∷◌, ◌+◌, ◌&&◌,
  ltb, leb, ◌==◌, length, any, find, count, lookup, nat_key, arith, bytes_same, on_branches,
}
use solen.Mempool.Entries.{UserOperation, remove_entry, last, without_last, op_size}
use solen.Mempool.Pool.{
  MempoolInner, new, is_key, contains_key, or_zero, forget, evicted, make_room, admitted, admit,
  admit_in, submit, drain, drain_loop, remove_found, remove_one, remove_finalized, max_op_size,
  max_ops_per_sender,
}
use solen.Mempool.Counting.{
  by, one_if, count-insert_entry, count-without_last, count-remove_entry, find-uncounted,
  contains_key-insert_key, contains_key-remove_key, pending-increment, pending-decrement,
}

abbrev pub of_sender : ℕ → ℕ → ℕ → Bool
of_sender s sender nonce = sender == s

abbrev pub of_key : ℕ → ℕ → ℕ → ℕ → Bool
of_key s n sender nonce = (sender == s) && (nonce == n)

-- The counts are exact, a key was seen when an entry has it, and no key has two entries.
pub record IsConsistent (pool : MempoolInner) : Type 0 where
  pub counted :
      (s : ℕ) → or_zero (lookup s pool.sender_counts) ≡ count (by (of_sender s)) pool.entries
  pub seen_entry : (s n : ℕ) → contains_key s n pool.seen ≡ ltb 0 (count (is_key s n) pool.entries)
  pub unique : (s n : ℕ) → count (is_key s n) pool.entries ≤ 1

pub new-IsConsistent : IsConsistent new
unfolding lookup contains_key any count
new-IsConsistent = record {
  counted = λ s. refl;
  seen_entry = λ s n. refl;
  unique = λ s n. omega arith;
}

-- An entry with a key is taken out of the entries, of the keys seen and of the counts.
module _ (e : UserOperation) (rest : List UserOperation) (pool : MempoolInner)
    (taken : (f : ℕ → ℕ → Bool)
      → one_if (by f e) + count (by f) rest ≡ count (by f) pool.entries) where
  pub forget-IsConsistent : IsConsistent pool → IsConsistent (forget e rest pool)
  unfolding forget
  forget-IsConsistent h = record {
    counted = λ s.
        ground (
          arith,
          pending-decrement e.sender s pool.sender_counts,
          taken (of_sender s),
          h.counted s,
        );
    seen_entry = λ s n. ground (
      arith,
      contains_key-remove_key e.sender e.nonce s n pool.seen,
      taken (of_key s n),
      h.seen_entry s n,
      h.unique s n,
    );
    unique = λ s n. ground (arith, taken (of_key s n), h.unique s n);
  }

admit-IsConsistent :
    (op : UserOperation) (pool : MempoolInner)
    → IsConsistent pool
    → contains_key op.sender op.nonce pool.seen ≡ false
    → IsConsistent (admitted op pool)
unfolding admitted
admit-IsConsistent op pool h new_key =
    let fresh : count (is_key op.sender op.nonce) pool.entries ≡ 0 =
      ground (arith, h.seen_entry op.sender op.nonce, new_key) in
    record {
      counted = λ s. ground (
        arith,
        pending-increment op.sender s pool.sender_counts,
        count-insert_entry (of_sender s) op pool.entries fresh,
        h.counted s,
      );
      seen_entry = λ s n. ground (
        arith,
        contains_key-insert_key op.sender op.nonce s n pool.seen,
        count-insert_entry (of_key s n) op pool.entries fresh,
        h.seen_entry s n,
      );
      unique = λ s n.
          ground
            (arith, count-insert_entry (of_key s n) op pool.entries fresh, fresh, h.unique s n);
    }

abbrev pub OnSome {κ} : (MempoolInner → Type κ) → Option MempoolInner → Type κ
OnSome P none = Unit
OnSome P (some pool) = P pool

make_room-IsConsistent :
    (max_size : ℕ) (op : UserOperation) (pool : MempoolInner)
    → IsConsistent pool
    → OnSome IsConsistent (make_room max_size op pool)
unfolding make_room
make_room-IsConsistent max_size op pool h =
    on_branches (OnSome IsConsistent) (leb max_size (length pool.entries)) (λ full. evict)
      (λ room. h)
  where
    lowest :
        (o : Option UserOperation) → last pool.entries ≡ o → OnSome IsConsistent (evicted op o pool)
    lowest none none_last = tt
    lowest (some e) e_last =
        on_branches (OnSome IsConsistent) (ltb e.max_fee op.max_fee)
          (λ higher.
            forget-IsConsistent e (without_last pool.entries) pool
              (λ f. count-without_last f pool.entries e_last) h)
          (λ lower. tt)

    evict : OnSome IsConsistent (evicted op (last pool.entries) pool)
    evict = lowest (last pool.entries) refl

admit_in-IsConsistent :
    (op : UserOperation) (pool : MempoolInner) (roomy : Option MempoolInner)
    → IsConsistent pool
    → OnSome IsConsistent roomy
    → IsConsistent (admit_in op pool roomy).0
unfolding admit
admit_in-IsConsistent op pool none h k = h
admit_in-IsConsistent op pool (some roomy) h k =
    on_branches (λ (r : MempoolInner × Bool). IsConsistent r.0)
      (leb max_ops_per_sender (or_zero (lookup op.sender roomy.sender_counts))) (λ many. k)
      (λ few.
        on_branches (λ (r : MempoolInner × Bool). IsConsistent r.0)
          (contains_key op.sender op.nonce roomy.seen) (λ duplicate. k)
          (λ new_key. admit-IsConsistent op roomy k new_key))

pub submit-IsConsistent :
    (max_size : ℕ) (op : UserOperation) (pool : MempoolInner)
    → IsConsistent pool
    → IsConsistent (submit max_size op pool).0
unfolding submit
submit-IsConsistent max_size op pool h =
    on_branches (λ (r : MempoolInner × Bool). IsConsistent r.0) (bytes_same op.signature (255 ∷ []))
      (λ reserved. h)
      (λ external.
        on_branches (λ (r : MempoolInner × Bool). IsConsistent r.0) (ltb max_op_size (op_size op))
          (λ large. h)
          (λ small.
            admit_in-IsConsistent op pool (make_room max_size op pool) h
              (make_room-IsConsistent max_size op pool h)))

drain_loop-IsConsistent :
    (n : ℕ) (pool : MempoolInner) (es : List UserOperation)
    → pool.entries ≡ es
    → IsConsistent pool
    → IsConsistent (drain_loop n es pool).0
unfolding drain_loop forget count
drain_loop-IsConsistent zero pool es at h = h
drain_loop-IsConsistent (suc n) pool [] at h = h
drain_loop-IsConsistent (suc n) pool (e ∷ es) at h =
    drain_loop-IsConsistent n (forget e es pool) es refl
      (forget-IsConsistent e es pool (λ f. ground (arith, at)) h)

pub drain-IsConsistent :
    (limit : ℕ) (pool : MempoolInner) → IsConsistent pool → IsConsistent (drain limit pool).0
unfolding drain
drain-IsConsistent limit pool h =
    drain_loop-IsConsistent (min limit (length pool.entries)) pool pool.entries refl h

remove_found-IsConsistent :
    (op : UserOperation) (pool : MempoolInner) (o : Option UserOperation)
    → find (is_key op.sender op.nonce) pool.entries ≡ o
    → contains_key op.sender op.nonce pool.seen ≡ true
    → IsConsistent pool
    → IsConsistent (remove_found op o pool)
unfolding forget
remove_found-IsConsistent op pool none missing seen h = ground (
  arith,
  find-uncounted (is_key op.sender op.nonce) pool.entries missing,
  h.seen_entry op.sender op.nonce,
  seen,
)
remove_found-IsConsistent op pool (some e) found seen h =
    forget-IsConsistent op (remove_entry e pool.entries) pool
      (λ f. count-remove_entry f op.sender op.nonce pool.entries found) h

remove_one-IsConsistent :
    (op : UserOperation) (pool : MempoolInner)
    → IsConsistent pool
    → IsConsistent (remove_one op pool)
unfolding remove_one
remove_one-IsConsistent op pool h =
    on_branches IsConsistent (contains_key op.sender op.nonce pool.seen)
      (λ seen.
        remove_found-IsConsistent op pool (find (is_key op.sender op.nonce) pool.entries) refl seen
          h)
      (λ unseen. h)

pub remove_finalized-IsConsistent :
    (ops : List UserOperation) (pool : MempoolInner)
    → IsConsistent pool
    → IsConsistent (remove_finalized ops pool)
unfolding remove_finalized
remove_finalized-IsConsistent [] pool h = h
remove_finalized-IsConsistent (op ∷ ops) pool h =
    remove_finalized-IsConsistent ops (remove_one op pool) (remove_one-IsConsistent op pool h)

-- ===== src/Mempool/Pool.antt =====
-- `Mempool` (crates/solen-consensus/src/mempool.rs): what each method does to the state under the
-- lock, which is held from the first access to the last.
use solen.Base.{
  ℕ, zero, suc, Bool, true, false, not, Option, none, some, List, [], ◌∷◌, ◌+◌, ◌-◌, ◌*◌, ◌&&◌,
  if◌then◌else◌, ltb, leb, ◌==◌, length, any, find, retain, lookup, insert, erase, nat_key,
  bytes_same,
}
use Prim.Native.Nat.{min}
use solen.Mempool.Entries.{UserOperation, insert_entry, remove_entry, last, without_last, op_size}

abbrev pub max_ops_per_sender : ℕ
max_ops_per_sender = 64

abbrev pub max_op_size : ℕ
max_op_size = 8 * 1024 * 1024

pub record MempoolInner : Type 0 where
  pub entries : List UserOperation
  pub seen : List (ℕ × ℕ)
  pub sender_counts : List (ℕ × ℕ)

-- `Mempool::new`
abbrev pub new : MempoolInner
new = record { entries = []; seen = []; sender_counts = [] }

abbrev pub is_seen_key : ℕ → ℕ → ℕ × ℕ → Bool
is_seen_key sender nonce k = (k.0 == sender) && (k.1 == nonce)

abbrev pub is_key : ℕ → ℕ → UserOperation → Bool
is_key sender nonce e = (e.sender == sender) && (e.nonce == nonce)

-- The `HashSet` of the keys that were seen.
unfoldable pub contains_key : ℕ → ℕ → List (ℕ × ℕ) → Bool
contains_key sender nonce seen = any (is_seen_key sender nonce) seen

unfoldable pub insert_key : ℕ → ℕ → List (ℕ × ℕ) → List (ℕ × ℕ)
insert_key sender nonce seen =
    if contains_key sender nonce seen then seen else (sender, nonce) ∷ seen

unfoldable pub remove_key : ℕ → ℕ → List (ℕ × ℕ) → List (ℕ × ℕ)
remove_key sender nonce seen = retain (λ k. not (is_seen_key sender nonce k)) seen

abbrev pub or_zero : Option ℕ → ℕ
or_zero none = 0
or_zero (some n) = n

-- The counts by sender: one less, and no entry for 0.
abbrev pub lowered : ℕ → Option ℕ → List (ℕ × ℕ) → List (ℕ × ℕ)
lowered sender none counts = counts
lowered sender (some c) counts =
    if c - 1 == 0 then erase sender (insert sender (c - 1) counts) else insert sender (c - 1) counts

unfoldable pub decrement : ℕ → List (ℕ × ℕ) → List (ℕ × ℕ)
decrement sender counts = lowered sender (lookup sender counts) counts

unfoldable pub increment : ℕ → List (ℕ × ℕ) → List (ℕ × ℕ)
increment sender counts = insert sender (or_zero (lookup sender counts) + 1) counts

-- What `submit` and `drain` do for an entry that they popped, leaving `rest`.
unfoldable pub forget : UserOperation → List UserOperation → MempoolInner → MempoolInner
forget e rest pool = record {
  entries = rest;
  seen = remove_key e.sender e.nonce pool.seen;
  sender_counts = decrement e.sender pool.sender_counts;
}

-- The eviction of `submit`: the pool with room for one more, or none when the operation is refused.
abbrev pub evicted : UserOperation → Option UserOperation → MempoolInner → Option MempoolInner
evicted op none pool = none
evicted op (some lowest) pool =
    if ltb lowest.max_fee op.max_fee
    then some (forget lowest (without_last pool.entries) pool)
    else none

unfoldable pub make_room : ℕ → UserOperation → MempoolInner → Option MempoolInner
make_room max_size op pool =
    if leb max_size (length pool.entries) then evicted op (last pool.entries) pool else some pool

-- The three insertions of an operation that is accepted.
unfoldable pub admitted : UserOperation → MempoolInner → MempoolInner
admitted op pool = record {
  seen = insert_key op.sender op.nonce pool.seen;
  entries = insert_entry op pool.entries;
  sender_counts = increment op.sender pool.sender_counts;
}

unfoldable pub admit : UserOperation → MempoolInner → MempoolInner × Bool
admit op pool =
    if leb max_ops_per_sender (or_zero (lookup op.sender pool.sender_counts))
    then (pool, false)
    else if contains_key op.sender op.nonce pool.seen
    then (pool, false)
    else (admitted op pool, true)

abbrev pub admit_in : UserOperation → MempoolInner → Option MempoolInner → MempoolInner × Bool
admit_in op pool none = (pool, false)
admit_in op pool (some roomy) = admit op roomy

unfoldable pub submit : ℕ → UserOperation → MempoolInner → MempoolInner × Bool
submit max_size op pool =
    if bytes_same op.signature (255 ∷ [])
    then (pool, false)
    else if ltb max_op_size (op_size op)
    then (pool, false)
    else admit_in op pool (make_room max_size op pool)

unfoldable pub clear : MempoolInner → MempoolInner
clear pool = record { entries = []; seen = []; sender_counts = [] }

-- The loop of `drain`, which pops the first entry each time.
unfoldable pub drain_loop :
    ℕ → List UserOperation → MempoolInner → MempoolInner × List UserOperation
drain_loop zero es pool = (pool, [])
drain_loop (suc n) [] pool = (pool, [])
drain_loop (suc n) (e ∷ es) pool =
    let (left, ops) = drain_loop n es (forget e es pool) in (left, e ∷ ops)

unfoldable pub drain : ℕ → MempoolInner → MempoolInner × List UserOperation
drain limit pool = drain_loop (min limit (length pool.entries)) pool.entries pool

-- One operation of a finalized block.
abbrev pub remove_found : UserOperation → Option UserOperation → MempoolInner → MempoolInner
remove_found op none pool = record pool { seen = remove_key op.sender op.nonce pool.seen }
remove_found op (some e) pool = record {
  entries = remove_entry e pool.entries;
  seen = remove_key op.sender op.nonce pool.seen;
  sender_counts = decrement op.sender pool.sender_counts;
}

unfoldable pub remove_one : UserOperation → MempoolInner → MempoolInner
remove_one op pool =
    if contains_key op.sender op.nonce pool.seen
    then remove_found op (find (is_key op.sender op.nonce) pool.entries) pool
    else pool

unfoldable pub remove_finalized : List UserOperation → MempoolInner → MempoolInner
remove_finalized [] pool = pool
remove_finalized (op ∷ ops) pool = remove_finalized ops (remove_one op pool)

unfoldable pub len : MempoolInner → ℕ
len pool = length pool.entries

unfoldable pub pending_count_for_sender : ℕ → MempoolInner → ℕ
pending_count_for_sender sender pool = or_zero (lookup sender pool.sender_counts)

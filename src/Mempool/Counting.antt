-- ===== src/Mempool/Counting.antt =====
-- Counting the entries of the pool as they come and go (crates/solen-consensus/src/mempool.rs).
use solen.Base.{
  ℕ, Bool, false, ◌≡◌, refl, ◌≤◌, none, some, List, [], ◌∷◌, ◌+◌, ◌-◌, ◌&&◌, ◌||◌, if◌then◌else◌,
  ◌==◌, any, find, retain, count, lookup, insert, nat_key, arith, lookup-insert, lookup-erase,
  Option-cases, find-test, inl, inr,
}
use solen.Mempool.Entries.{UserOperation, insert_entry, remove_entry, last, without_last}
use solen.Mempool.Pool.{is_key, contains_key, insert_key, remove_key, or_zero, decrement, increment}

-- A test of an entry by its sender and nonce.
abbrev pub by : (ℕ → ℕ → Bool) → UserOperation → Bool
by f e = f e.sender e.nonce

abbrev pub one_if : Bool → ℕ
one_if b = if b then 1 else 0

module _ (f : ℕ → ℕ → Bool) where
  -- An entry whose key is new is inserted.
  pub count-insert_entry :
      (op : UserOperation) (es : List UserOperation)
      → count (is_key op.sender op.nonce) es ≡ 0
      → count (by f) (insert_entry op es) ≡ one_if (by f op) + count (by f) es
  unfolding count insert_entry
  count-insert_entry op [] fresh = ground arith
  count-insert_entry op (e ∷ es) fresh = ground (arith, count-insert_entry op es)

  pub count-without_last :
      (es : List UserOperation) {e : UserOperation}
      → last es ≡ some e
      → one_if (by f e) + count (by f) (without_last es) ≡ count (by f) es
  unfolding count last without_last
  count-without_last [] h = cc
  count-without_last (e ∷ []) h = ground (arith, h)
  count-without_last (e ∷ g ∷ es) h = ground (arith, count-without_last (g ∷ es) h)

  -- The entry that is found by a key is removed, or one with the same sender and nonce.
  pub count-remove_entry :
      (s n : ℕ) (es : List UserOperation) {e : UserOperation}
      → find (is_key s n) es ≡ some e
      → one_if (f s n) + count (by f) (remove_entry e es) ≡ count (by f) es
  unfolding count find remove_entry
  count-remove_entry s n [] h = cc
  count-remove_entry s n (g ∷ es) {e = e} h =
      ground (arith, count-remove_entry s n es {e = e}, h, find-test (is_key s n) (g ∷ es) h)

pub count-found :
    (p : UserOperation → Bool) (es : List UserOperation) {e : UserOperation}
    → find p es ≡ some e
    → 1 ≤ count p es
unfolding count find
count-found p [] h = cc
count-found p (g ∷ es) {e = e} h = ground (arith, count-found p es {e = e}, h)

pub find-uncounted :
    (p : UserOperation → Bool) (es : List UserOperation) → find p es ≡ none → count p es ≡ 0
unfolding count find
find-uncounted p [] h = refl
find-uncounted p (g ∷ es) h = ground (arith, find-uncounted p es, h)

-- The set of the keys that were seen.
contains_key-cons :
    (s n t m : ℕ) (seen : List (ℕ × ℕ))
    → contains_key t m ((s, n) ∷ seen) ≡ (((s == t) && (n == m)) || contains_key t m seen)
unfolding contains_key any
contains_key-cons s n t m seen = refl

pub contains_key-insert_key :
    (s n t m : ℕ) (seen : List (ℕ × ℕ))
    → contains_key t m (insert_key s n seen) ≡ (((s == t) && (n == m)) || contains_key t m seen)
unfolding insert_key
contains_key-insert_key s n t m seen = ground (arith, contains_key-cons s n t m seen)

pub contains_key-remove_key :
    (s n t m : ℕ) (seen : List (ℕ × ℕ))
    → contains_key t m (remove_key s n seen)
      ≡ (if (s == t) && (n == m) then false else contains_key t m seen)
unfolding remove_key contains_key any retain
contains_key-remove_key s n t m [] = ground arith
contains_key-remove_key s n t m (k ∷ seen) = ground (arith, contains_key-remove_key s n t m seen)

-- The counts by sender.
pub pending-increment :
    (s t : ℕ) (counts : List (ℕ × ℕ))
    → or_zero (lookup t (increment s counts)) ≡ or_zero (lookup t counts) + one_if (s == t)
unfolding increment
pending-increment s t counts =
    ground (arith, lookup-insert t s (or_zero (lookup s counts) + 1) counts)

pub pending-decrement :
    (s t : ℕ) (counts : List (ℕ × ℕ))
    → or_zero (lookup t (decrement s counts)) ≡ or_zero (lookup t counts) - one_if (s == t)
unfolding decrement
pending-decrement s t counts = elim (Option-cases (lookup s counts)) [
  | inl absent ↦ ground (arith, absent)
  | inr (c, found) ↦
      ground
        (arith, found, lookup-insert t s (c - 1) counts, lookup-erase t s (insert s (c - 1) counts))
]

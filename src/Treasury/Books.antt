-- ===== src/Treasury/Books.antt =====
-- The treasury's books, and the numbers of its grants.
use Prim.Native.String.{String}
use solen.Base.{
  ℕ, count-find, count-push_fresh, ◌+◌, ◌-◌, ◌≤◌, ◌<◌, ◌≡◌, refl, ap, ◌∙◌, false, none, some, List,
  [], ◌∷◌, inl, inr, arith, ltb, Bool-cases, Option-cases, Result, ok, err, IsOk, All, All-push,
  All-find, All-update_first, find, find-test, update_first, count, count-update_first, add_u64-eq,
  add_u128, add_u128-eq, sub_u128, sub_u128-eq, u64_mod, u128_mod,
}
use solen.Treasury.State.{
  TreasuryContract, TreasuryError, Grant, grant_not_found, collect_fee, create_grant,
  disburse_grant, open_grant, has_id, set_disbursed,
}

-- What was collected is what is left, what was burned and what was granted. Every grant's number is
-- used once.
pub record IsBalanced (s : TreasuryContract) : Type 0 where
  pub books : s.balance + s.total_burned + s.total_grants_disbursed ≡ s.total_fees_collected
  pub fits : s.total_fees_collected < u128_mod
  pub numbered : All (λ g. g.id < s.next_grant_id) s.grants
  pub unique : (i : ℕ) → count (has_id i) s.grants ≤ 1

-- One call. No more is burned than was paid, and the fees stay within 128 bits.
pub data Step (s : TreasuryContract) : TreasuryContract → Type 0 where
  collects :
      (amount burned : ℕ)
      → burned ≤ amount
      → s.total_fees_collected + amount < u128_mod
      → Step s (collect_fee s amount burned)
  creates :
      (recipient amount : ℕ) (description : String)
      → s.next_grant_id + 1 < u64_mod
      → Step s (create_grant s recipient amount description).0
  disburses : (i : ℕ) → Step s (disburse_grant s i).0

pub data Reach (s : TreasuryContract) : TreasuryContract → Type 0 where
  here : Reach s s
  next : {t u : TreasuryContract} → Reach s t → Step t u → Reach s u

fresh-count :
    (n : ℕ) (gs : List Grant)
    → All (λ g. g.id < n) gs
    → (count (has_id n) gs ≡ 0) × All (λ g. g.id < n + 1) gs
unfolding count
fresh-count n [] h = (refl, tt)
fresh-count n (g ∷ gs) h = ground (arith, fresh-count n gs)

module _ (s : TreasuryContract) (h : IsBalanced s) where
  collect-IsBalanced :
      (amount burned : ℕ)
      → burned ≤ amount
      → s.total_fees_collected + amount < u128_mod
      → IsBalanced (collect_fee s amount burned)
  unfolding collect_fee
  collect-IsBalanced amount burned less room =
      let balance = add_u128-eq s.balance (amount - burned) (omega (arith, h.books)) in
      let fees = add_u128-eq s.total_fees_collected amount room in
      let burns = add_u128-eq s.total_burned burned (omega (arith, h.books)) in
      record {
        books = omega (arith, balance, fees, burns, h.books);
        fits = omega (arith, fees);
        numbered = h.numbered;
        unique = h.unique;
      }

  create-IsBalanced :
      (recipient amount : ℕ) (description : String)
      → s.next_grant_id + 1 < u64_mod
      → IsBalanced (create_grant s recipient amount description).0
  unfolding create_grant
  create-IsBalanced recipient amount description room = elim (Bool-cases (ltb s.balance amount)) [
    | inl short ↦ rw (short, create_grant) h
    | inr enough ↦
        let grant : Grant = record {
          id = s.next_grant_id;
          recipient = recipient;
          amount = amount;
          description = description;
          disbursed = false;
        } in
        rw (enough, create_grant)
          (record {
            books = h.books;
            fits = h.fits;
            numbered = rw (add_u64-eq s.next_grant_id 1 room) (
                All-push (λ g. g.id < s.next_grant_id + 1) s.grants grant
                  (fresh-count s.next_grant_id s.grants h.numbered).1 (omega arith));
            unique = λ k.
                count-push_fresh has_id s.next_grant_id k s.grants grant
                  (fresh-count s.next_grant_id s.grants h.numbered).0 (h.unique k) (λ ne. ne);
          })
  ]

  disburse-IsBalanced : (i : ℕ) → IsBalanced (disburse_grant s i).0
  unfolding disburse_grant
  disburse-IsBalanced i = elim (Option-cases (find (open_grant i) s.grants)) [
    | inl absent ↦ rw (absent, disburse_grant) h
    | inr (g, found) ↦ elim (Bool-cases (ltb s.balance g.amount)) [
      | inl short ↦ rw (found, disburse_grant) (rw short h)
      | inr enough ↦
          let there : g.amount ≤ s.balance = ground (arith, enough) in
          let left = sub_u128-eq s.balance g.amount (omega (arith, h.books, h.fits)) there in
          let paid =
            add_u128-eq s.total_grants_disbursed g.amount (omega (arith, there, h.books, h.fits)) in
          rw (found, disburse_grant)
            (rw enough (record {
              books = omega (arith, left, paid, there, h.books);
              fits = h.fits;
              numbered =
                  All-update_first (open_grant i) (λ x. x.id < s.next_grant_id) set_disbursed
                    s.grants h.numbered found
                    (All-find (open_grant i) (λ x. x.id < s.next_grant_id) s.grants h.numbered
                      found);
              unique = λ k. ground (
                arith,
                h.unique k,
                count-update_first (open_grant i) (has_id k) set_disbursed s.grants found,
              );
            }))
    ]
  ]

Step-IsBalanced : {s t : TreasuryContract} → Step s t → IsBalanced s → IsBalanced t
Step-IsBalanced {s} (collects amount burned less room) h =
    collect-IsBalanced s h amount burned less room
Step-IsBalanced {s} (creates recipient amount description room) h =
    create-IsBalanced s h recipient amount description room
Step-IsBalanced {s} (disburses i) h = disburse-IsBalanced s h i

-- After every history of calls from balanced books the fees that were collected are what is left,
-- what was burned and what was granted, and every grant has a number of its own. A call may burn no
-- more than it collects; fees must stay within 128 bits and grant numbers within 64.
pub Reach-IsBalanced : {s t : TreasuryContract} → IsBalanced s → Reach s t → IsBalanced t
Reach-IsBalanced h here = h
Reach-IsBalanced h (next r step) = Step-IsBalanced step (Reach-IsBalanced h r)

disburse_grant-inv :
    (s : TreasuryContract) (i : ℕ)
    → IsOk (disburse_grant s i).1
    → (g : Grant) × (find (open_grant i) s.grants ≡ some g)
      × (g.amount ≤ s.balance)
      × (disburse_grant s i ≡ (
        record s {
          balance = sub_u128 s.balance g.amount;
          total_grants_disbursed = add_u128 s.total_grants_disbursed g.amount;
          grants = update_first (open_grant i) set_disbursed s.grants;
        },
        ok (g.recipient, g.amount),
      ))
unfolding disburse_grant
disburse_grant-inv s i done = ground arith

count-open_le : (i : ℕ) (gs : List Grant) → count (open_grant i) gs ≤ count (has_id i) gs
unfolding count
count-open_le i [] = omega arith
count-open_le i (g ∷ gs) = ground (arith, count-open_le i gs)

disburse_grant-absent :
    (s : TreasuryContract) (i : ℕ)
    → find (open_grant i) s.grants ≡ none
    → (disburse_grant s i).1 ≡ err grant_not_found
unfolding disburse_grant
disburse_grant-absent s i absent = ground arith

-- A grant is paid to its recipient out of the balance, which holds its amount and falls by exactly
-- that, and it is paid once: the next call finds no such grant.
pub disburse_grant-IsOk :
    (s : TreasuryContract) (i : ℕ)
    → IsBalanced s
    → IsOk (disburse_grant s i).1
    → (g : Grant) × (find (open_grant i) s.grants ≡ some g)
      × ((disburse_grant s i).1 ≡ ok (g.recipient, g.amount))
      × ((disburse_grant s i).0.balance + g.amount ≡ s.balance)
      × ((disburse_grant (disburse_grant s i).0 i).1 ≡ err grant_not_found)
disburse_grant-IsOk s i h done =
    let (g, found, there, result) = disburse_grant-inv s i done in
    let left = sub_u128-eq s.balance g.amount (omega (arith, h.books, h.fits)) there in
    let none_left = count-find (open_grant i) (update_first (open_grant i) set_disbursed s.grants) (
      ground (
        arith,
        h.unique i,
        count-open_le i s.grants,
        find-test (open_grant i) s.grants found,
        count-update_first (open_grant i) (open_grant i) set_disbursed s.grants found,
      )) in
    (
      g,
      found,
      ap (λ (r : TreasuryContract × Result (ℕ × ℕ) TreasuryError). r.1) result,
      ap (λ (r : TreasuryContract × Result (ℕ × ℕ) TreasuryError). r.0.balance + g.amount) result
          ∙ omega (arith, left, there),
      disburse_grant-absent (disburse_grant s i).0 i (
          ap
            (λ (r : TreasuryContract × Result (ℕ × ℕ) TreasuryError).
              find (open_grant i) r.0.grants)
            result
          ∙ none_left),
    )

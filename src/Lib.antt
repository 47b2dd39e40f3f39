-- ===== src/Lib.antt =====
-- Solen, a settlement network: its system contracts, its state store and accounts, its mempool and the
-- core of its consensus.
--
-- The system contracts are native code that the execution engine runs at fixed addresses. Each keeps
-- its state in one struct, and a method changes it or fails. Base holds the shared tests, results,
-- lists and machine words. A method is modelled as a function from the contract's state to the state
-- that it leaves and its result, so that an error path shows what it has changed.
--
--   Staking     crates/solen-system-contracts/src/staking.rs. State: the types and queries. Registry:
--               registering, deregistering, commission and unjail. Delegations: delegate, undelegate,
--               withdraw_undelegated and distribute_rewards. Rotation: rotate_key and
--               apply_pending_rotations. Sums, Accounting, Holdings, Unbonding, Membership, Steps and
--               Collision prove what the methods keep.
--   Bridge      crates/solen-system-contracts/src/bridge.rs. State and Operations: the vaults and the
--               withdrawals; Solvency, History, Once and Payouts: the vaults' books and when they pay.
--   Governance  crates/solen-system-contracts/src/governance.rs. State and Operations: proposals,
--               votes, finalize and execute; Ballots, Outcome, Once and Execution: what decides them.
--   Vesting     crates/solen-system-contracts/src/vesting.rs. State: schedules and claims; Schedules
--               and Claims: what is vested and what is paid.
--   Treasury    crates/solen-system-contracts/src/treasury.rs. State: fees and grants; Books: what
--               goes in and out.
--   Guardian    crates/solen-system-contracts/src/guardian.rs. State and Operations: recovery requests
--               and their methods; Requests, History and Recovery: who confirms, and how it ends.
--   Consensus   crates/solen-consensus/src/validator.rs, slashing.rs and checkpoint.rs. Validators: the
--               set, quorum and stake; Proposer: proposer_for_height and proposer_order_for_height;
--               Slashing: penalties and missed blocks; Checkpoints: the periodic, the finalized and
--               the trusted ones; Quorum, Ordering, Selection, Penalties, Attestations
--               and Retention: their proofs.
--   Storage     crates/solen-storage/src/traits.rs, memory.rs and overlay.rs. Traits: a store as a
--               record of operations, and the promises that IsLawful names; Memory and Overlay: the two
--               stores; Laws: both keep the promises; Commit, Refinement, Savepoints and Prefixes: what
--               an overlay's commit, savepoints and deletions do; Roots and Coherence: the Merkle root.
--   Execution   crates/solen-execution/src/state.rs, with account.rs and system.rs of
--               crates/solen-types/src. State: the account manager above any lawful store; Loading,
--               Transfers, Conservation and Nonces: what its calls do.
--   Mempool     crates/solen-consensus/src/mempool.rs, with crates/solen-types/src/transaction.rs.
--               Entries: operations and their order; Pool: the methods; Counting, Consistency, Limits
--               and Draining: what they keep. Encrypted and Reveals:
--               crates/solen-consensus/src/encrypted_mempool.rs, operations that are committed to and
--               revealed.
--   ForkChoice  crates/solen-consensus/src/engine.rs, the attestation-aware fork choice. State: the
--               engine's fields that it uses; Rules: tally, leader and finalization; Voting: votes,
--               candidates and the re-evaluation; Leader, Finality, Decision, Keyed, Candidates,
--               Safety and Bookkeeping: who leads and what becomes final.
--   Intents     crates/solen-intents/src. Types: intents, solutions and the built-in solver; Pool: the
--               pool's methods; Capacity, History and Choice: what it keeps, and which solution wins.
--
-- The parts meet in the node. ForkChoice uses Consensus: the leader is ranked by the proposer order
-- and by stake, and a quorum of the validator set makes a block final. Execution stands above a
-- record of Storage, which both stores fill. The engine also applies slashing to the validator set,
-- takes the finalized operations out of the mempool, and rebuilds the set from the staking contract
-- at an epoch boundary; those calls are not modelled, each part is.
--
-- Identifiers, accounts and hashes are numbers where the code compares, orders and copies them only:
-- the number that the bytes spell orders as they do. In Storage and Execution they are bytes. A Rust
-- vector is a list, and iter_mut().find(..) is find for a read and update_first for a write: both take
-- the first entry that passes. A BTreeMap, and a HashMap whose order shows in no result, is a list of
-- entries in the order of their keys (Base.Maps). Machine words wrap at 2 ^ 64 and 2 ^ 128, as a
-- release build of this workspace does; saturating operations stop at the ends. A theorem that needs a
-- value to stay in range says so. Loops are over lists or counters, by structural recursion. The one
-- loop with fuel is that of merkle_root, with as many rounds as there are leaves, and it is proved
-- that it never runs out.
--
-- Parameters stand for code that is not the repository's: blake3, borsh's encoding of an account
-- (what is encoded is read back), the JSON of a block header, and the check of a solver's signature.
-- The executor's verdict on a block is a parameter of the fork choice. What comparing the store's
-- root with the finalized tip shows is a field of the engine, which no operation writes.
-- apply_batch_atomic runs through its changes in the order of their keys, the source in any order,
-- which shows only after a change that failed. Not modelled: storing a contract's state (load and
-- save), log lines, the signature checks of check_double_sign, the rest of the engine, the executor
-- and its system calls, the RocksDB backend, full snapshots, rollups, the virtual machine, networking
-- and clients.
pub mod Base
pub mod Staking
pub mod Consensus
pub mod Bridge
pub mod Governance
pub mod Vesting
pub mod Treasury
pub mod Guardian
pub mod Storage
pub mod Execution
pub mod Mempool
pub mod ForkChoice
pub mod Intents

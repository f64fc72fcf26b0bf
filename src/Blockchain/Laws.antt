-- ===== src/Blockchain/Laws.antt =====
-- The three counters of blockchain/blockchain.go agree, after Init and after each Increment.
use simple_blockchain_go.Base.{Slice, arith, ◌%◌, ◌*◌, ◌+◌, ◌/◌, ◌<◌, ◌≡◌, ◌≢◌, ◌≤◌}
use simple_blockchain_go.Blockchain.{Blockchain, increment, init, slots_in_epoch}
use simple_blockchain_go.Common.{u32_mod, u64_mod}

-- Epoch and slot are the quotient and the remainder of the height.
abbrev pub IsAligned : Blockchain → Type 0
IsAligned bc =
    (bc.next_epoch ≡ bc.next_height / slots_in_epoch)
    × (bc.next_slot ≡ bc.next_height % slots_in_epoch)

-- From an aligned position below the last uint64 height, `Increment` moves one height on, to an
-- aligned position that is, with its previous hash, the one that `Init` sets up below 2^32.
pub increment-init :
    (bc old : Blockchain) (hash : Slice)
    → IsAligned bc
    → bc.next_height + 1 < u32_mod
    → IsAligned (increment hash bc) × (increment hash bc ≡ init (bc.next_height + 1) hash old)
unfolding increment init
increment-init bc old hash h low = ground arith

-- At every height from 2^32 on and below 2^33, a node that restarts there with `Init` and a node that
-- has counted its way there from an aligned position with `Increment` are in different slots.
pub init_disagrees :
    (bc old : Blockchain) (hash : Slice)
    → IsAligned bc
    → bc.next_height + 1 < u64_mod
    → u32_mod ≤ bc.next_height + 1
    → bc.next_height + 1 < 2 * u32_mod
    → (increment hash bc).next_slot ≢ (init (bc.next_height + 1) hash old).next_slot
unfolding increment init
init_disagrees bc old hash h low high below = ground arith

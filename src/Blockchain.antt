-- ===== src/Blockchain.antt =====
-- blockchain/blockchain.go: the position that the next block takes.
pub mod Laws
use simple_blockchain_go.Base.{Slice, if◌then◌else◌, none, ℕ, ◌%◌, ◌+◌, ◌/◌, ◌==◌}
use simple_blockchain_go.Common.{u32_mod, u64_mod}

abbrev pub slots_in_epoch : ℕ
slots_in_epoch = 30

pub record Blockchain : Type 0 where
  pub next_height : ℕ  -- uint64
  pub next_epoch : ℕ  -- uint64
  pub next_slot : ℕ  -- uint32
  pub previous_block_hash : Slice

-- `NewBlockchain`
abbrev pub new_blockchain : Blockchain
new_blockchain = record {
  next_height = 0;
  next_epoch = 0;
  next_slot = 0;
  previous_block_hash = none;
}

-- `Init`. The height is cut to 32 bits before its slot is taken.
unfoldable pub init : ℕ → Slice → Blockchain → Blockchain
init height prev bc = record {
  next_height = height;
  next_epoch = height / slots_in_epoch;
  next_slot = height % u32_mod % slots_in_epoch;
  previous_block_hash = prev;
}

unfoldable pub increment_height : Blockchain → Blockchain
increment_height bc = record bc { next_height = (bc.next_height + 1) % u64_mod }

unfoldable pub increment_epoch : Blockchain → Blockchain
increment_epoch bc = record bc { next_epoch = (bc.next_epoch + 1) % u64_mod }

-- `icrementSlot`
unfoldable pub increment_slot : Blockchain → Blockchain
unfolding increment_epoch
increment_slot bc =
    let bc' = record bc { next_slot = (bc.next_slot + 1) % u32_mod % slots_in_epoch } in
    if bc'.next_slot == 0 then increment_epoch bc' else bc'

-- `Increment`
unfoldable pub increment : Slice → Blockchain → Blockchain
unfolding increment_height increment_slot
increment hash bc = record (increment_slot (increment_height bc)) { previous_block_hash = hash }

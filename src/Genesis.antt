-- ===== src/Genesis.antt =====
-- genesis/genesis.go: the first block of a chain.
pub mod Laws
pub mod Generator
use simple_blockchain_go.Storage.Service.{put as put_in_storage}
use simple_blockchain_go.Base.{Bytes, Outcome, [], some, ℕ, ◌++◌}
use simple_blockchain_go.Env.{Env}
use simple_blockchain_go.Nodes.Sync.Blocks.{block_content}
use simple_blockchain_go.Storage.Bolt.{Bolt}
use simple_blockchain_go.Storage.Service.{blocks}
use simple_blockchain_go.Types.{Block}
use simple_blockchain_go.Wallets.{Wallet, sign_raw}

module _ (e : Env) where
  -- The block of `Generate`, from the random previous hash and state hash that it draws, at the
  -- clock's second `now`.
  unfoldable pub first_block : ℕ → Wallet → Bytes → Bytes → Block
  first_block now w prev state =
      let hash = e.sum256 (prev ++ state) in
      record {
        info = record {
          height = 0;
          hash = some hash;
          public_key = w.public_key;
          signature = sign_raw e w (some hash);
          timestamp = now;
        };
        bundle = record { transactions = [] };
        previous_block_hash = some prev;
        state_hash = some state;
      }

module _ (bolt : Bolt) (e : Env) where
  -- `Generate`, where the random bytes could be read.
  unfoldable pub generate : ℕ → Wallet → Bytes → Bytes → bolt.Db → bolt.Db × Outcome (Unit {0})
  unfolding first_block
  generate now w prev state db =
      put_in_storage bolt blocks (some (block_content e (first_block e now w prev state))) db

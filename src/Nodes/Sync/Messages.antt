-- ===== src/Nodes/Sync/Messages.antt =====
-- nodes/sync/sync_msgs.go.
use simple_blockchain_go.Base.{Bool, List, Outcome, all, and_then, false, if◌then◌else◌, ok, ℕ}
use simple_blockchain_go.Blocks.{verify_block}
use simple_blockchain_go.Env.{Codec, Env}
use simple_blockchain_go.P2p.Messages.{verify_node}
use simple_blockchain_go.Txs.{verify_tx}
use simple_blockchain_go.Types.{Block, NodeInfo, Transaction}

abbrev pub tx_message : ℕ
tx_message = 1

abbrev pub block_request_message : ℕ
block_request_message = 2

abbrev pub block_response_message : ℕ
block_response_message = 3

pub record TransactionMsg : Type 0 where
  pub origins : List NodeInfo
  pub tx : Transaction

pub record BlockRequestMsg : Type 0 where
  pub from : NodeInfo
  pub height : ℕ

pub record BlockResponseMsg : Type 0 where
  pub from : NodeInfo
  pub block : Block

pub record SyncJson : Type 0 where
  pub tx_msg_json : Codec TransactionMsg
  pub block_request_json : Codec BlockRequestMsg
  pub block_response_json : Codec BlockResponseMsg

module _ (e : Env) where
  -- `TransactionMsg.Verify`
  unfoldable pub verify_tx_msg : TransactionMsg → Outcome Bool
  verify_tx_msg tm = if all tm.origins verify_node then verify_tx e tm.tx else ok false

  -- `BlockRequestMsg.Verify`
  unfoldable pub verify_block_request : BlockRequestMsg → Bool
  verify_block_request bqm = verify_node bqm.from

  -- `BlockResponseMsg.Verify`
  unfoldable pub verify_block_response : BlockResponseMsg → Outcome Bool
  verify_block_response bsm = and_then (verify_node bsm.from) (verify_block e bsm.block)

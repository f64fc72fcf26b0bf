-- ===== src/Types.antt =====
-- The records that the packages pass to one another. A field `Data` is called `payload`; a
-- `Timestamp` (int64) is its bit pattern.
use simple_blockchain_go.Accounts.{AccountState}
use simple_blockchain_go.Base.{Bool, Bytes, List, Slice, ltb, ℕ, ◌&&◌, ◌^◌}

-- p2p/node_info.go
pub record NodeInfo : Type 0 where
  pub ip4 : Bytes
  pub network : ℕ

-- txs/transaction.go
pub record TransactionData : Type 0 where
  pub payload : Slice
  pub public_key : Slice
  pub nonce : ℕ
  pub signature : Slice
  pub timestamp : ℕ

pub record Transaction : Type 0 where
  pub hash : Slice
  pub inner_data : TransactionData
  pub status : Bool

-- txs/bundle.go; every use of the list treats nil as empty.
pub record TxBundle : Type 0 where
  pub transactions : List Transaction

-- blocks/block.go
pub record BlockInfo : Type 0 where
  pub height : ℕ
  pub hash : Slice
  pub signature : Slice
  pub public_key : Slice
  pub timestamp : ℕ

pub record Block : Type 0 where
  pub info : BlockInfo
  pub bundle : TxBundle
  pub previous_block_hash : Slice
  pub state_hash : Slice

-- rpc/call.go and rpc/params.go
pub record Call : Type 0 where
  pub call : ℕ
  pub params : Slice

pub record AirdropParam : Type 0 where
  pub amount : ℕ

pub record TransferParam : Type 0 where
  pub amount : ℕ
  pub to : Slice

-- accounts/account.go
pub record Account : Type 0 where
  pub public_key : Slice
  pub state : AccountState
  pub timestamp : ℕ

-- `Timestamp > 0` of an int64.
abbrev pub is_positive : ℕ → Bool
is_positive t = ltb 0 t && ltb t (2 ^ 63)

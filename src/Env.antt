-- ===== src/Env.antt =====
-- The code outside the repository that the packages call: hashes, signatures, base58, JSON.
use simple_blockchain_go.Accounts.{AccountState}
use simple_blockchain_go.Base.{
  Bool, Bytes, Option, Outcome, Slice, content, if◌then◌else◌, len, length, ok, panic, some, ◌==◌,
  ◌≡◌,
}
use simple_blockchain_go.Common.{hash_size, public_key_size}
use simple_blockchain_go.Types.{
  AirdropParam, Block, Call, Transaction, TransactionData, TransferParam,
}

-- `json.Marshal` and `json.Unmarshal` at one type.
pub record Codec (A : Type 0) : Type 0 where
  pub marshal : A → Option Bytes
  pub unmarshal : Bytes → Option A

-- What was marshalled is read back.
abbrev pub IsFaithful : {A : Type 0} → Codec A → Type 0
IsFaithful {A} c = (a : A) (b : Bytes) → c.marshal a ≡ some b → c.unmarshal b ≡ some a

pub record Env : Type 0 where
  pub sum256 : Bytes → Bytes  -- sha3.Sum256
  pub ed25519_verify : Bytes → Bytes → Bytes → Bool  -- key, message, signature
  pub ed25519_sign : Bytes → Bytes → Bytes  -- private key, message
  pub base58_encode : Bytes → Bytes
  pub base58_decode : Bytes → Bytes
  pub tx_data_json : Codec TransactionData
  pub tx_json : Codec Transaction
  pub call_json : Codec Call
  pub airdrop_json : Codec AirdropParam
  pub transfer_json : Codec TransferParam
  pub state_json : Codec AccountState
  pub block_json : Codec Block

-- sha3.Sum256 returns 32 bytes.
abbrev pub HasHashSize : Env → Type 0
HasHashSize e = (b : Bytes) → length (e.sum256 b) ≡ hash_size

-- base58.Decode undoes base58.Encode.
abbrev pub HasBase58 : Env → Type 0
HasBase58 e = (b : Bytes) → e.base58_decode (e.base58_encode b) ≡ b

module _ (e : Env) where
  -- `ed25519.Verify` panics on a public key that does not have 32 bytes.
  unfoldable pub verify_signature : Slice → Slice → Slice → Outcome Bool
  verify_signature pub_key msg sig =
      if len pub_key == public_key_size
      then ok (e.ed25519_verify (content pub_key) (content msg) (content sig))
      else panic

-- ===== src/Wallets.antt =====
-- accounts/wallets/wallet.go and accounts/keys/keypair.go; the key files are in Files. The key pair of a
-- wallet is two of its fields.
pub mod Laws
pub mod Files
use simple_blockchain_go.Base.{Bytes, Outcome, Slice, content, err, json, none, ok, some, ℕ}
use simple_blockchain_go.Env.{Env}
use simple_blockchain_go.Types.{Transaction}

pub record Wallet : Type 0 where
  pub private_key : Bytes
  pub public_key : Slice
  pub nonce : ℕ  -- uint64
  pub balance : ℕ  -- uint64

-- `Wallet.Init`
unfoldable pub init_wallet : ℕ → ℕ → Wallet → Wallet
init_wallet nonce balance w = record w { nonce = nonce; balance = balance }

module _ (e : Env) where
  -- `SignRaw`
  unfoldable pub sign_raw : Wallet → Slice → Slice
  sign_raw w d = some (e.ed25519_sign w.private_key (content d))

  -- `KeyPair.Sign`: the transaction as it is left, and the error.
  unfoldable pub sign_with_key : Wallet → Transaction → Transaction × Outcome (Unit {0})
  sign_with_key w tx =
      let signed = record (tx.inner_data) {
        signature = some (e.ed25519_sign w.private_key (content tx.inner_data.payload));
      } in
      elim (e.tx_data_json.marshal signed) [
        | none ↦ (record tx { inner_data = signed }, err json)
        | some enc ↦ (record tx { inner_data = signed; hash = some (e.sum256 enc) }, ok tt)
      ]

  -- `Wallet.Sign`
  unfoldable pub sign_tx : Wallet → Transaction → Transaction × Outcome (Unit {0})
  unfolding sign_with_key
  sign_tx w tx = sign_with_key w (record tx {
    inner_data = record (tx.inner_data) { public_key = w.public_key; nonce = w.nonce };
  })

-- ===== src/Clients.antt =====
-- clients/client.go: the calls of a client, over a connection to a node: `serve` gives the bytes that
-- the node writes back on those that it is sent.
pub mod Laws
use simple_blockchain_go.Accounts.{AccountState}
use simple_blockchain_go.Base.{
  Bytes, Outcome, [], connection, err, if◌then◌else◌, json, leb, none, ok, or_err, panic, some, ℕ,
  ◌>>=◌, ◌^◌, ◌∷◌,
}
use simple_blockchain_go.Env.{Codec, Env}
use simple_blockchain_go.Rpc.{airdrop_kind, get_account_state_kind, transfer_kind}
use simple_blockchain_go.Rpc.Wire.{
  Net, read_conn, read_length, signed_rpc, unsigned_rpc, with_length,
}
use simple_blockchain_go.Txs.{new_transaction}
use simple_blockchain_go.Types.{Call, Transaction}
use simple_blockchain_go.Wallets.{Wallet, init_wallet, sign_tx}
use simple_blockchain_go.Wallets.Files.{Files, KeyPair, new_wallet}

-- The bytes after a length; a negative length cannot be allocated.
unfoldable pub read_reply : Net → Bytes → Outcome Bytes
read_reply net sent = elim (read_length net sent) [
  | none ↦ err connection
  | some (n, rest) ↦
      if leb (2 ^ 31) n
      then panic
      else elim (read_conn net n rest) [ none ↦ err connection | some (buff, rest') ↦ ok buff ]
]

module _ (e : Env) (net : Net) (serve : Bytes → Bytes) where
  -- `send`, without the dialling.
  unfoldable pub send_request : Bytes → Outcome Bytes
  unfolding read_reply
  send_request payload = read_reply net (serve (with_length payload))

  -- `sendCall`
  unfoldable pub send_call : Call → Outcome Bytes
  unfolding send_request
  send_call c = do enc ← or_err (e.call_json.marshal c) json; send_request (unsigned_rpc ∷ enc)

  -- `sendTransaction`
  unfoldable pub send_transaction : Transaction → Outcome Bytes
  unfolding send_request
  send_transaction t = do enc ← or_err (e.tx_json.marshal t) json; send_request (signed_rpc ∷ enc)

  -- `GetAccountInfo`
  unfoldable pub get_account_info : Wallet → Outcome AccountState
  unfolding send_call
  get_account_info w = do
    res ← send_call (record { call = get_account_state_kind; params = w.public_key })
    or_err (e.state_json.unmarshal res) json

  -- The transaction of `Airdrop` and of `Transfer`: a call with its parameters, signed by the wallet
  -- with the nonce that the node gave.
  unfoldable pub make_tx : ℕ → Call → Wallet → Outcome Transaction
  make_tx now c w = do
    enc ← or_err (e.call_json.marshal c) json
    let signed = sign_tx e w (new_transaction (some enc) now)
    u ← signed.1
    ok (signed.0)

  -- The error of `sendTransaction` is dropped: the reply is then empty.
  unfoldable pub ignore_failure : Outcome Bytes → Outcome Bytes
  ignore_failure (ok res) = ok res
  ignore_failure (err x) = ok []
  ignore_failure panic = panic

  -- `Airdrop`, at the clock's second `now`.
  unfoldable pub airdrop : ℕ → ℕ → Wallet → Outcome Bytes
  unfolding get_account_info make_tx ignore_failure send_transaction
  airdrop now amount w = do
    info ← get_account_info w
    param ← or_err (e.airdrop_json.marshal (record { amount = amount })) json
    t ←
        make_tx now (record { call = airdrop_kind; params = some param })
          (init_wallet info.nonce info.balance w)
    ignore_failure (send_transaction t)

  -- `Transfer`
  unfoldable pub transfer : ℕ → ℕ → Bytes → Wallet → Outcome Bytes
  unfolding get_account_info make_tx ignore_failure send_transaction
  transfer now amount to w = do
    info ← get_account_info w
    param ←
        or_err
          (e.transfer_json.marshal (record { amount = amount; to = some (e.base58_decode to) }))
          json
    t ←
        make_tx now (record { call = transfer_kind; params = some param })
          (init_wallet info.nonce info.balance w)
    ignore_failure (send_transaction t)

-- `NewClient`; the name is not read again.
unfoldable pub new_client :
    (files : Files)
    → Codec KeyPair
    → Outcome KeyPair
    → Bytes
    → files.Disk
    → files.Disk × Outcome Wallet
new_client files key_json generated name d = new_wallet files key_json generated name d

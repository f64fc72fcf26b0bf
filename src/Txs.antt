-- ===== src/Txs.antt =====
-- txs/: transactions and bundles.
pub mod Laws
use simple_blockchain_go.Base.{
  Bool, Bytes, List, Outcome, Slice, [], bytes_eq, content, empty_bundle, err, false, if◌then◌else◌,
  json, leb, len, length, ltb, map, none, not_nil, ok, or_err, panic, true, ℕ, ◌&&◌, ◌==◌, ◌>>=◌,
  ◌∷◌,
}
use simple_blockchain_go.Common.{hash_size, max_payload_size, public_key_size}
use simple_blockchain_go.Env.{Env, verify_signature}
use simple_blockchain_go.Merkle.{node_data, tree_from_raw}
use simple_blockchain_go.Types.{Transaction, TxBundle, is_positive}

-- `NewTransaction`, at the clock's second `now`.
unfoldable pub new_transaction : Slice → ℕ → Transaction
new_transaction payload now = record {
  hash = none;
  inner_data = record {
    payload = payload;
    public_key = none;
    nonce = 0;
    signature = none;
    timestamp = now;
  };
  status = false;
}

-- `CheckContents`
unfoldable pub check_contents : Transaction → Bool
check_contents tx =
    is_positive tx.inner_data.timestamp
    && not_nil tx.inner_data.payload
    && ltb 0 (len tx.inner_data.payload)
    && leb (len tx.inner_data.payload) max_payload_size
    && not_nil tx.inner_data.public_key
    && len tx.inner_data.public_key == public_key_size
    && not_nil tx.inner_data.signature
    && ltb 0 (len tx.inner_data.signature)
    && not_nil tx.hash
    && len tx.hash == hash_size

module _ (e : Env) where
  -- `Transaction.Verify`
  unfoldable pub verify_tx : Transaction → Outcome Bool
  unfolding verify_signature
  verify_tx tx =
      if check_contents tx
      then (do
        enc ← or_err (e.tx_data_json.marshal tx.inner_data) json
        if bytes_eq (e.sum256 enc) (content tx.hash)
            then verify_signature e tx.inner_data.public_key tx.inner_data.payload
                tx.inner_data.signature
            else ok false)
      else ok false

  unfoldable pub marshal_all : List Transaction → Outcome (List Bytes)
  marshal_all [] = ok []
  marshal_all (tx ∷ txs) = do
    enc ← or_err (e.tx_json.marshal tx) json
    raws ← marshal_all txs
    ok (enc ∷ raws)

  -- `HashTransactions`
  unfoldable pub hash_transactions : TxBundle → Outcome Bytes
  hash_transactions txb = if length txb.transactions == 0 then err empty_bundle else (do
    raws ← marshal_all txb.transactions
    root ← tree_from_raw e.sum256 raws
    ok (node_data root))

  -- `ToKeys`
  unfoldable pub to_keys : TxBundle → List Bytes
  to_keys txb = map (λ tx. e.base58_encode (content tx.hash)) txb.transactions

  -- The loop of `TxBundle.Verify`: an error counts as a failed check.
  unfoldable pub verify_each : List Transaction → Outcome Bool
  verify_each [] = ok true
  verify_each (tx ∷ txs) =
      let rest = verify_each txs in
      elim (verify_tx tx) [
        | ok good ↦ if good then rest else ok false
        | err x ↦ ok false
        | panic ↦ panic
      ]

  -- `TxBundle.Verify`
  unfoldable pub verify_bundle : TxBundle → Outcome Bool
  verify_bundle txb =
      if length txb.transactions == 0 then ok false else verify_each txb.transactions

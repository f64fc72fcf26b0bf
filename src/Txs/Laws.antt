-- ===== src/Txs/Laws.antt =====
-- txs/: what Verify accepts, and which bundles have a hash.
use simple_blockchain_go.Base.{
  All, Bytes, Error, List, Option-cases, Outcome-cases, Returns, [], arith, bytes_eq_iff, content,
  err, inl, inr, len, length, none, ok, panic, refl, some, true, ◌↔◌, ◌∷◌, ◌≡◌, ◌≢◌,
}
use simple_blockchain_go.Common.{public_key_size}
use simple_blockchain_go.Env.{Env}
use simple_blockchain_go.Txs.{check_contents, marshal_all, verify_bundle, verify_each, verify_tx}
use simple_blockchain_go.Types.{Transaction, TxBundle}

len-public_key_of_check :
    (tx : Transaction) → check_contents tx ≡ true → len tx.inner_data.public_key ≡ public_key_size
unfolding check_contents
len-public_key_of_check tx h = ground arith

module _ (e : Env) where
  -- `Transaction.Verify` never panics. It accepts exactly the transactions that pass the checks on
  -- their contents, carry the hash of their inner data, and are signed over their payload; it returns
  -- an error only where the checks pass and the inner data does not marshal.
  pub verify_tx_lem :
      (tx : Transaction)
      → (verify_tx e tx ≢ panic)
        × ((verify_tx e tx ≡ ok true) ↔ (
            (check_contents tx ≡ true)
            × ((enc : Bytes) × (e.tx_data_json.marshal tx.inner_data ≡ some enc)
                × (e.sum256 enc ≡ content tx.hash))
            × (e.ed25519_verify
                  (content tx.inner_data.public_key)
                  (content tx.inner_data.payload)
                  (content tx.inner_data.signature)
                ≡ true)))
        × ((x : Error)
            → verify_tx e tx ≡ err x
            → (check_contents tx ≡ true) × (e.tx_data_json.marshal tx.inner_data ≡ none))
  unfolding verify_tx
  verify_tx_lem tx = elim (Option-cases (e.tx_data_json.marshal tx.inner_data)) [
    | inl fails ↦ ground (arith, len-public_key_of_check tx)
    | inr (enc, marshals) ↦ (
      λ h. ground (arith, len-public_key_of_check tx),
      (
        λ h. (
          ground arith,
          (enc, marshals, ground (arith, bytes_eq_iff (e.sum256 enc) (content tx.hash))),
          ground arith,
        ),
        λ h.
            ground
              (arith, len-public_key_of_check tx, bytes_eq_iff (e.sum256 enc) (content tx.hash)),
      ),
      λ x h. ground arith,
    )
  ]

  length-marshal_all :
      (txs : List Transaction) (raws : List Bytes)
      → marshal_all e txs ≡ ok raws
      → length raws ≡ length txs
  unfolding marshal_all
  length-marshal_all [] raws h = ground arith
  length-marshal_all (tx ∷ txs) raws h = elim (Outcome-cases (marshal_all e txs)) [
    | inl (rs, r) ↦ ground (arith, length-marshal_all txs rs r)
    | inr other ↦ ground arith
  ]

  -- The loop over the transactions ends in a verdict, which is yes exactly if all are accepted.
  pub verify_each_lem :
      (txs : List Transaction)
      → Returns (verify_each e txs)
        × (verify_each e txs ≡ ok true → All (λ tx. verify_tx e tx ≡ ok true) txs)
        × (All (λ tx. verify_tx e tx ≡ ok true) txs → verify_each e txs ≡ ok true)
  unfolding verify_each
  verify_each_lem [] = (tt, λ h. tt, λ h. refl)
  verify_each_lem (tx ∷ txs) = ground (
    arith,
    (verify_tx_lem tx).0,
    (verify_each_lem txs).0,
    (verify_each_lem txs).1,
    (verify_each_lem txs).2,
  )

  -- `TxBundle.Verify` gives a verdict on every bundle, and accepts exactly a bundle that is not empty and
  -- whose transactions are all accepted.
  pub verify_bundle_lem :
      (txb : TxBundle)
      → Returns (verify_bundle e txb)
        × ((verify_bundle e txb ≡ ok true)
            ↔ ((txb.transactions ≢ []) × All (λ tx. verify_tx e tx ≡ ok true) txb.transactions))
  unfolding verify_bundle
  verify_bundle_lem txb =
      let (returns, there, back) = verify_each_lem txb.transactions in ground arith

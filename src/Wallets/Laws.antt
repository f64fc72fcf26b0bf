-- ===== src/Wallets/Laws.antt =====
-- accounts/wallets and txs: what a wallet signs is what Verify accepts.
use mathlib.Core.Path.{subst}
use simple_blockchain_go.Base.{
  Bytes, Option-cases, Outcome, ap, arith, content, false, inl, inr, len, length, not_nil,
  not_nil_of_len, ok, refl, some, sym, true, ℕ, ◌<◌, ◌≡◌, ◌≤◌,
}
use simple_blockchain_go.Common.{max_payload_size, public_key_size}
use simple_blockchain_go.Env.{Env, HasHashSize}
use simple_blockchain_go.Txs.{check_contents, new_transaction, verify_tx}
use simple_blockchain_go.Txs.Laws.{verify_tx_lem}
use simple_blockchain_go.Types.{Transaction, TransactionData, is_positive}
use simple_blockchain_go.Wallets.{Wallet, sign_tx, sign_with_key}

module _ (e : Env) (hashes : HasHashSize e) where
  abbrev tx_of : TransactionData → Bytes → Transaction
  tx_of d enc = record { hash = some (e.sum256 enc); inner_data = d; status = false }

  checked :
      (w : Wallet) (data_bytes sig enc : Bytes) (now : ℕ)
      → len w.public_key ≡ public_key_size
      → 0 < length sig
      → is_positive now ≡ true
      → 0 < length data_bytes
      → length data_bytes ≤ max_payload_size
      → check_contents (record {
        hash = some (e.sum256 enc);
        inner_data = record {
          payload = some data_bytes;
          public_key = w.public_key;
          nonce = w.nonce;
          signature = some sig;
          timestamp = now;
        };
        status = false;
      })
        ≡ true
  unfolding check_contents
  checked w data_bytes sig enc now sized long positive some_data bounded =
      let there : not_nil w.public_key ≡ true = not_nil_of_len w.public_key (omega arith) in
      ground (arith, there, hashes enc)

  accepted :
      (tx : Transaction) (enc : Bytes)
      → e.tx_data_json.marshal tx.inner_data ≡ some enc
      → tx.hash ≡ some (e.sum256 enc)
      → check_contents tx ≡ true
      → len tx.inner_data.public_key ≡ public_key_size
      → e.ed25519_verify
          (content tx.inner_data.public_key)
          (content tx.inner_data.payload)
          (content tx.inner_data.signature)
        ≡ true
      → verify_tx e tx ≡ ok true
  accepted tx enc made hashed good sized signed =
      (verify_tx_lem e tx).1.1 (good, (enc, made, ap content (sym hashed)), signed)

  -- A new transaction with 1 to 2048 bytes of data, made at a positive time and signed without an error
  -- by a wallet with a public key of 32 bytes, passes `Transaction.Verify`, where the key pair
  -- verifies its own signatures and signatures are not empty.
  pub sign_tx-verify :
      (w : Wallet) (data_bytes : Bytes) (now : ℕ)
      → len w.public_key ≡ public_key_size
      → ((m : Bytes)
          → e.ed25519_verify (content w.public_key) m (e.ed25519_sign w.private_key m) ≡ true)
      → ((m : Bytes) → 0 < length (e.ed25519_sign w.private_key m))
      → is_positive now ≡ true
      → 0 < length data_bytes
      → length data_bytes ≤ max_payload_size
      → (sign_tx e w (new_transaction (some data_bytes) now)).1 ≡ ok tt
      → verify_tx e (sign_tx e w (new_transaction (some data_bytes) now)).0 ≡ ok true
  unfolding sign_tx sign_with_key new_transaction
  sign_tx-verify w data_bytes now sized signs long positive some_data bounded went =
      let sig = e.ed25519_sign w.private_key data_bytes in
      let d : TransactionData = record {
        payload = some data_bytes;
        public_key = w.public_key;
        nonce = w.nonce;
        signature = some sig;
        timestamp = now;
      } in
      elim (Option-cases (e.tx_data_json.marshal d)) [
        | inl fails_to ↦ absurd (ground arith)
        | inr (enc, made) ↦
            let step : sign_tx e w (new_transaction (some data_bytes) now) ≡ (tx_of d enc, ok tt) =
              cc in
            subst (λ (r : Transaction × Outcome (Unit {0})). verify_tx e r.0 ≡ ok true) (sym step)
              (accepted (tx_of d enc) enc made refl
                (checked w data_bytes sig enc now sized (long data_bytes) positive some_data
                  bounded)
                sized (signs data_bytes))
      ]

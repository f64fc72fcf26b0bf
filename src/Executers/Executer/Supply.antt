-- ===== src/Executers/Executer/Supply.antt =====
-- executers/executer.go: a block whose calls all succeed keeps the supply.
use simple_blockchain_go.Base.{
  Bool, Bytes, List, Option-cases, Outcome, Outcome-cases, Returns, Slice, [], arith, content, err,
  inl, inr, none, ok, panic, refl, some, ℕ, ◌∷◌, ◌≡◌,
}
use simple_blockchain_go.Env.{Env}
use simple_blockchain_go.Executers.Executer.{
  Executed, execute_airdrop, execute_call, execute_now, execute_transfer, execute_tx,
  faucet_generator, finish_turn, leaves_reply, note_keys, runnable, with_keys,
}
use simple_blockchain_go.Executers.Executer.Laws.{execute_now-cons}
use simple_blockchain_go.Executers.Impl.{States, airdrop_impl, transfer_impl}
use simple_blockchain_go.Executers.Impl.Supply.{
  IsSupplied, airdrop_impl-IsSupplied, transfer_impl-IsSupplied,
}
use simple_blockchain_go.Memory.Service.{MemoryService}
use simple_blockchain_go.Storage.Bolt.{Bolt}
use simple_blockchain_go.Types.{Call, Transaction, TransactionData}

module _ (bolt : Bolt) (e : Env) where
  -- An implementation that keeps the supply, if it succeeds.
  abbrev Keeps : (Bytes → Bytes → States → States × Outcome (Unit {0})) → Type 0
  Keeps impl =
      (a b : Bytes) (m : States) → IsSupplied m → (impl a b m).1 ≡ ok tt → IsSupplied (impl a b m).0

  with_keys-IsSupplied :
      (impl : Bytes → Bytes → States → States × Outcome (Unit {0})) (a b : Slice)
      (ms : MemoryService)
      → Keeps impl
      → IsSupplied ms.state_mem
      → (with_keys bolt e impl a b ms).1 ≡ ok tt
      → IsSupplied (with_keys bolt e impl a b ms).0.state_mem
  unfolding with_keys
  with_keys-IsSupplied impl none b ms keeps h went = cc
  with_keys-IsSupplied impl (some a) none ms keeps h went = cc
  with_keys-IsSupplied impl (some a) (some b) ms keeps h went =
      keeps (e.base58_encode a) (e.base58_encode b) ms.state_mem h went

  note_keys-ok :
      (a b : Slice) (keys : List Slice) (r : MemoryService × Outcome (Unit {0}))
      → (note_keys bolt e a b keys r).result ≡ ok tt
      → (r.1 ≡ ok tt) × ((note_keys bolt e a b keys r).memory ≡ r.0)
  unfolding note_keys
  note_keys-ok a b keys (ms, ok u) h = (refl, refl)
  note_keys-ok a b keys (ms, err x) h = cc
  note_keys-ok a b keys (ms, panic) h = cc

  note_keys-IsSupplied :
      (impl : Bytes → Bytes → States → States × Outcome (Unit {0})) (a b : Slice)
      (keys : List Slice) (ms : MemoryService)
      → Keeps impl
      → IsSupplied ms.state_mem
      → let x = note_keys bolt e a b keys (with_keys bolt e impl a b ms) in
        x.result ≡ ok tt → IsSupplied x.memory.state_mem
  note_keys-IsSupplied impl a b keys ms keeps h went =
      let (fine, same) = note_keys-ok a b keys (with_keys bolt e impl a b ms) went in
      rw same (with_keys-IsSupplied impl a b ms keeps h fine)

  execute_airdrop-IsSupplied :
      (generator raw_param caller : Slice) (nonce : ℕ) (keys : List Slice) (ms : MemoryService)
      → IsSupplied ms.state_mem
      → let x = execute_airdrop bolt e generator raw_param caller nonce keys ms in
        x.result ≡ ok tt → IsSupplied x.memory.state_mem
  unfolding execute_airdrop
  execute_airdrop-IsSupplied generator raw_param caller nonce keys ms h went =
      elim (Option-cases (e.airdrop_json.unmarshal (content raw_param))) [
        | inl bad ↦ absurd (ground arith)
        | inr (p, read) ↦ elim (Outcome-cases (faucet_generator generator)) [
          | inl (gen, known) ↦
              let impl : Bytes → Bytes → States → States × Outcome (Unit {0}) =
                λ to from m. airdrop_impl to nonce from p.amount m in
              ground (
                arith,
                note_keys-IsSupplied impl caller gen keys ms
                    (λ to from m. airdrop_impl-IsSupplied to nonce from p.amount m) h,
              )
          | inr bad ↦ absurd (ground arith)
        ]
      ]

  execute_transfer-IsSupplied :
      (raw_param caller : Slice) (nonce : ℕ) (keys : List Slice) (ms : MemoryService)
      → IsSupplied ms.state_mem
      → let x = execute_transfer bolt e raw_param caller nonce keys ms in
        x.result ≡ ok tt → IsSupplied x.memory.state_mem
  unfolding execute_transfer
  execute_transfer-IsSupplied raw_param caller nonce keys ms h went =
      elim (Option-cases (e.transfer_json.unmarshal (content raw_param))) [
        | inl bad ↦ absurd (ground arith)
        | inr (p, read) ↦
            let impl : Bytes → Bytes → States → States × Outcome (Unit {0}) =
              λ from to m. transfer_impl from nonce to p.amount m in
            ground (
              arith,
              note_keys-IsSupplied impl caller p.to keys ms
                  (λ from to m. transfer_impl-IsSupplied from nonce to p.amount m) h,
            )
      ]

  execute_call-IsSupplied :
      (generator : Slice) (c : Call) (d : TransactionData) (keys : List Slice) (ms : MemoryService)
      → IsSupplied ms.state_mem
      → let x = execute_call bolt e generator c d keys ms in
        x.result ≡ ok tt → IsSupplied x.memory.state_mem
  unfolding execute_call
  execute_call-IsSupplied generator c d keys ms h went = ground (
    arith,
    execute_airdrop-IsSupplied generator c.params d.public_key d.nonce keys ms h,
    execute_transfer-IsSupplied c.params d.public_key d.nonce keys ms h,
  )

module _ (bolt : Bolt) (e : Env) (generator : Slice) (db : bolt.Db) where
  -- Every call in the transactions succeeds where it is executed, so that none is reverted.
  abbrev pub AllSucceed : List Transaction → List Slice → MemoryService → Type 0
  AllSucceed [] keys ms = Unit
  AllSucceed (t ∷ txs) keys ms =
      ((c : Call)
        → runnable bolt e t ≡ some c
        → (execute_call bolt e generator c t.inner_data keys ms).result ≡ ok tt)
      × AllSucceed txs (execute_tx bolt e generator db t keys ms).executed
          (execute_tx bolt e generator db t keys ms).memory

  finish_turn-ok :
      (t : Transaction) (unread : Bool) (x : Executed bolt e)
      → x.result ≡ ok tt
      → ((finish_turn bolt e db t unread x).result ≡ ok tt)
        × ((finish_turn bolt e db t unread x).memory ≡ x.memory)
  unfolding finish_turn
  finish_turn-ok t unread x h = ground arith

  execute_tx-IsSupplied :
      (t : Transaction) (keys : List Slice) (ms : MemoryService)
      → IsSupplied ms.state_mem
      → ((c : Call)
          → runnable bolt e t ≡ some c
          → (execute_call bolt e generator c t.inner_data keys ms).result ≡ ok tt)
      → let turn = execute_tx bolt e generator db t keys ms in
        (turn.result ≡ ok tt) × IsSupplied turn.memory.state_mem
  unfolding execute_tx
  execute_tx-IsSupplied t keys ms h fine = elim (Option-cases (runnable bolt e t)) [
    | inl skip ↦ ground arith
    | inr (c, run) ↦
        let x = execute_call bolt e generator c t.inner_data keys ms in
        ground (
          arith,
          finish_turn-ok t (leaves_reply bolt e generator c t.inner_data ms) x (fine c run),
          execute_call-IsSupplied bolt e generator c t.inner_data keys ms h (fine c run),
        )
  ]

  -- Where the balances in memory add up to the supply, and every call in the transactions succeeds where
  -- it is executed, the execution succeeds, and afterwards the balances add up to the supply again.
  pub execute_now-IsSupplied :
      (txs : List Transaction) (keys : List Slice) (ms : MemoryService)
      → IsSupplied ms.state_mem
      → AllSucceed txs keys ms
      → let (ms', txs', r) = execute_now bolt e generator db txs keys ms in
        Returns r × IsSupplied ms'.state_mem
  unfolding execute_now
  execute_now-IsSupplied [] keys ms h fine = (tt, h)
  execute_now-IsSupplied (t ∷ txs) keys ms h fine =
      let turn = execute_tx bolt e generator db t keys ms in
      let (went, supplied) = execute_tx-IsSupplied t keys ms h fine.0 in
      rw (execute_now-cons bolt e generator db t txs keys ms turn refl went)
        (execute_now-IsSupplied txs turn.executed turn.memory supplied fine.1)

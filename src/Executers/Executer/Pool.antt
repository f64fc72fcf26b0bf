-- ===== src/Executers/Executer/Pool.antt =====
-- executers/executer.go and storage/storage_service.go: the mempool has no part in an execution.
use mathlib.Core.Path.{fun_ext}
use simple_blockchain_go.Accounts.{AccountState}
use simple_blockchain_go.Base.{
  Bool, Bytes, List, Option-cases, Outcome, Outcome-cases, Slice, [], ap, arith, content, err,
  if◌then◌else◌, inl, inr, length, ltb, ok, panic, refl, suc, ℕ, ◌>>=◌, ◌∷◌, ◌≡◌,
}
use simple_blockchain_go.Env.{Env}
use simple_blockchain_go.Executers.Executer.{
  Executed, Turn, after_revert, execute_airdrop, execute_call, execute_now, execute_transfer,
  execute_tx, faucet_generator, finish_turn, leaves_reply, note_keys, revert, runnable,
  wait_for_replies, with_keys,
}
use simple_blockchain_go.Executers.Impl.{States, airdrop_impl, transfer_impl}
use simple_blockchain_go.Memory.Mempool.{Mempool}
use simple_blockchain_go.Memory.Service.{
  MemoryService, get_account_state, handle_state, put_account_state,
}
use simple_blockchain_go.Storage.Bolt.{Bolt}
use simple_blockchain_go.Storage.Db.{update}
use simple_blockchain_go.Storage.Service.{
  accounts_bucket, batch_size, fetch_accounts, fetch_each, push_accounts, push_each, push_one,
  read_state, send_put,
}
use simple_blockchain_go.Types.{Call, Transaction, TransactionData}

-- The service with another mempool.
abbrev pub in_pool : Mempool → MemoryService → MemoryService
in_pool mp ms = record ms { mempool = mp }

module _ (bolt : Bolt) (e : Env) (db : bolt.Db) (mp : Mempool) where
  put_account_state-in_pool :
      (k : Slice) (s : AccountState) (ms : MemoryService)
      → (put_account_state e k s (in_pool mp ms)).0 ≡ in_pool mp (put_account_state e k s ms).0
  unfolding put_account_state handle_state
  put_account_state-in_pool k s ms = refl

  -- A result whose memory is given the mempool.
  abbrev moved {ℓ} : {A : Type ℓ} → MemoryService × A → MemoryService × A
  moved (ms, a) = (in_pool mp ms, a)

  fetch_each-in_pool :
      (sent : ℕ) (keys : List Slice) (ms : MemoryService)
      → fetch_each bolt e sent keys db (in_pool mp ms) ≡ moved (fetch_each bolt e sent keys db ms)
  unfolding fetch_each send_put
  fetch_each-in_pool sent [] ms = refl
  fetch_each-in_pool sent (pk ∷ keys) ms =
      elim (Outcome-cases (read_state bolt e (bolt.read db accounts_bucket (content pk)))) [
        | inl (s, there) ↦ ground (
          arith,
          put_account_state-in_pool pk s ms,
          fetch_each-in_pool (suc sent) keys (put_account_state e pk s ms).0,
        )
        | inr (inl (x, bad)) ↦ ground arith
        | inr (inr bad) ↦ ground arith
      ]

  with_keys-in_pool :
      (impl : Bytes → Bytes → States → States × Outcome (Unit {0})) (a b : Slice)
      (ms : MemoryService)
      → with_keys bolt e impl a b (in_pool mp ms) ≡ moved (with_keys bolt e impl a b ms)
  unfolding with_keys
  with_keys-in_pool impl a b ms = ground arith

  abbrev moved_call : Executed bolt e → Executed bolt e
  moved_call x = record x { memory = in_pool mp x.memory }

  note_keys-in_pool :
      (a b : Slice) (keys : List Slice) (r : MemoryService × Outcome (Unit {0}))
      → note_keys bolt e a b keys (moved r) ≡ moved_call (note_keys bolt e a b keys r)
  unfolding note_keys
  note_keys-in_pool a b keys (ms, ok u) = refl
  note_keys-in_pool a b keys (ms, err x) = refl
  note_keys-in_pool a b keys (ms, panic) = refl

  execute_airdrop-in_pool :
      (generator raw_param caller : Slice) (nonce : ℕ) (keys : List Slice) (ms : MemoryService)
      → execute_airdrop bolt e generator raw_param caller nonce keys (in_pool mp ms)
        ≡ moved_call (execute_airdrop bolt e generator raw_param caller nonce keys ms)
  unfolding execute_airdrop
  execute_airdrop-in_pool generator raw_param caller nonce keys ms =
      elim (Option-cases (e.airdrop_json.unmarshal (content raw_param))) [
        | inl bad ↦ ground arith
        | inr (p, read) ↦ elim (Outcome-cases (faucet_generator generator)) [
          | inl (gen, known) ↦
              let impl : Bytes → Bytes → States → States × Outcome (Unit {0}) =
                λ to from m. airdrop_impl to nonce from p.amount m in
              ground (
                arith,
                with_keys-in_pool impl caller gen ms,
                note_keys-in_pool caller gen keys (with_keys bolt e impl caller gen ms),
              )
          | inr (inl (x, bad)) ↦ ground arith
          | inr (inr bad) ↦ ground arith
        ]
      ]

  execute_transfer-in_pool :
      (raw_param caller : Slice) (nonce : ℕ) (keys : List Slice) (ms : MemoryService)
      → execute_transfer bolt e raw_param caller nonce keys (in_pool mp ms)
        ≡ moved_call (execute_transfer bolt e raw_param caller nonce keys ms)
  unfolding execute_transfer
  execute_transfer-in_pool raw_param caller nonce keys ms =
      elim (Option-cases (e.transfer_json.unmarshal (content raw_param))) [
        | inl bad ↦ ground arith
        | inr (p, read) ↦
            let impl : Bytes → Bytes → States → States × Outcome (Unit {0}) =
              λ from to m. transfer_impl from nonce to p.amount m in
            ground (
              arith,
              with_keys-in_pool impl caller p.to ms,
              note_keys-in_pool caller p.to keys (with_keys bolt e impl caller p.to ms),
            )
      ]

  execute_call-in_pool :
      (generator : Slice) (c : Call) (d : TransactionData) (keys : List Slice) (ms : MemoryService)
      → execute_call bolt e generator c d keys (in_pool mp ms)
        ≡ moved_call (execute_call bolt e generator c d keys ms)
  unfolding execute_call
  execute_call-in_pool generator c d keys ms = ground (
    arith,
    execute_airdrop-in_pool generator c.params d.public_key d.nonce keys ms,
    execute_transfer-in_pool c.params d.public_key d.nonce keys ms,
  )

  abbrev moved_turn : Turn bolt e → Turn bolt e
  moved_turn t = record t { memory = in_pool mp t.memory }

  after_revert-in_pool :
      (keys : List Slice) (t : Transaction) (r : MemoryService × Outcome (Unit {0}))
      → after_revert bolt e keys t (moved r) ≡ moved_turn (after_revert bolt e keys t r)
  unfolding after_revert
  after_revert-in_pool keys t (ms, ok u) = refl
  after_revert-in_pool keys t (ms, err x) = refl
  after_revert-in_pool keys t (ms, panic) = refl

  fetch_accounts-in_pool :
      (keys : List Slice) (ms : MemoryService)
      → fetch_accounts bolt e keys db (in_pool mp ms) ≡ moved (fetch_accounts bolt e keys db ms)
  unfolding fetch_accounts
  fetch_accounts-in_pool keys ms = fetch_each-in_pool 0 keys ms

  wait_for_replies-in_pool :
      (ms : MemoryService) (r : Outcome (Unit {0}))
      → wait_for_replies bolt e (in_pool mp ms) r ≡ moved (wait_for_replies bolt e ms r)
  unfolding wait_for_replies
  wait_for_replies-in_pool ms (ok u) = refl
  wait_for_replies-in_pool ms (err x) = refl
  wait_for_replies-in_pool ms panic = refl

  revert-in_pool :
      (unread : Bool) (keys : List Slice) (ms : MemoryService)
      → revert bolt e unread keys db (in_pool mp ms) ≡ moved (revert bolt e unread keys db ms)
  unfolding revert
  revert-in_pool unread keys ms = ground (
    arith,
    fetch_accounts-in_pool keys ms,
    wait_for_replies-in_pool ms (fetch_accounts bolt e keys db ms).1,
  )

  finish_turn-in_pool :
      (t : Transaction) (unread : Bool) (x : Executed bolt e)
      → finish_turn bolt e db t unread (moved_call x)
        ≡ moved_turn (finish_turn bolt e db t unread x)
  unfolding finish_turn
  finish_turn-in_pool t unread x = elim (Outcome-cases x.result) [
    | inl (u, there) ↦ ground arith
    | inr (inl (y, bad)) ↦ ground (
      arith,
      revert-in_pool unread x.dirty x.memory,
      after_revert-in_pool x.executed t (revert bolt e unread x.dirty db x.memory),
    )
    | inr (inr bad) ↦ ground arith
  ]

  execute_tx-in_pool :
      (generator : Slice) (t : Transaction) (keys : List Slice) (ms : MemoryService)
      → execute_tx bolt e generator db t keys (in_pool mp ms)
        ≡ moved_turn (execute_tx bolt e generator db t keys ms)
  unfolding execute_tx leaves_reply
  execute_tx-in_pool generator t keys ms = elim (Option-cases (runnable bolt e t)) [
    | inl skip ↦ ground arith
    | inr (c, run) ↦ ground (
      arith,
      execute_call-in_pool generator c t.inner_data keys ms,
      finish_turn-in_pool t (leaves_reply bolt e generator c t.inner_data ms)
          (execute_call bolt e generator c t.inner_data keys ms),
    )
  ]

  -- An execution on a service with another mempool leaves the same states, the same transactions and the
  -- same end, and the mempool as it was.
  pub execute_now-in_pool :
      (generator : Slice) (txs : List Transaction) (keys : List Slice) (ms : MemoryService)
      → execute_now bolt e generator db txs keys (in_pool mp ms) ≡ (
          let (ms', txs', r) = execute_now bolt e generator db txs keys ms in
          (in_pool mp ms', txs', r))
  unfolding execute_now
  execute_now-in_pool generator [] keys ms = refl
  execute_now-in_pool generator (t ∷ txs) keys ms =
      let turn = execute_tx bolt e generator db t keys ms in
      let head = execute_tx-in_pool generator t keys ms in
      let rest = execute_now-in_pool generator txs turn.executed turn.memory in
      elim (Outcome-cases turn.result) [
        | inl (u, went) ↦ ground (arith, head, rest)
        | inr (inl (x, bad)) ↦ ground (arith, head)
        | inr (inr bad) ↦ ground (arith, head)
      ]

  push_each-in_pool :
      (keys : List Slice) (ms : MemoryService) (d : bolt.Db)
      → push_each bolt e keys (in_pool mp ms) d ≡ push_each bolt e keys ms d
  unfolding push_each get_account_state handle_state
  push_each-in_pool [] ms d = refl
  push_each-in_pool (pk ∷ keys) ms d =
      ap (λ f. push_one bolt e pk (get_account_state e pk ms).1 d >>= f)
        (fun_ext (λ d'. push_each-in_pool keys ms d'))

  -- A push from a service with another mempool ends as the push from the service does.
  pub push_accounts-in_pool :
      (keys : List Slice) (ms : MemoryService)
      → push_accounts bolt e keys (in_pool mp ms) ≡ push_accounts bolt e keys ms
  unfolding push_accounts
  push_accounts-in_pool keys ms =
      ap {B = bolt.Db → bolt.Db × Outcome (Unit {0})}
        (λ (f : bolt.Db → Outcome bolt.Db) d.
          if ltb batch_size (length keys) then (d, panic) else update bolt f d)
        (fun_ext (λ d. push_each-in_pool keys ms d))

-- ===== src/Executers/Executer/Mint.antt =====
-- executers/executer.go: what a reverted call does to a block whose earlier calls touched its accounts.
use simple_blockchain_go.Memory.Db.{put as put_in_memory}
use simple_blockchain_go.Accounts.{AccountState, add, check_nonce, subtract}
use simple_blockchain_go.Base.{
  Bytes, Error, List, Outcome, Slice, [], ap, arith, bytes_eq_iff, bytes_eq_self, content, err,
  false, insert, insert-present, lookup, lookup-insert, lt→ltb, nonce_invalid, not,
  not_enough_balance, ok, panic, refl, some, suc, true, ℕ, ◌%◌, ◌+◌, ◌-◌, ◌<◌, ◌∙◌, ◌∷◌, ◌≡◌, ◌≢◌,
}
use simple_blockchain_go.Common.{u64_mod}
use simple_blockchain_go.Env.{Env}
use simple_blockchain_go.Executers.Executer.{
  Turn, add_key, after_revert, execute_call, execute_now, execute_transfer, execute_tx, finish_turn,
  leaves_reply, note_keys, revert, runnable, wait_for_replies, with_keys,
}
use simple_blockchain_go.Executers.Impl.{States, transfer_impl}
use simple_blockchain_go.Executers.Impl.Laws.{
  in_place_lem, m₁, m₂, s₁, s₂, total, total-insert, transfer_steps, t₂,
}
use simple_blockchain_go.Memory.Service.{MemoryService, handle_state, put_account_state, put_state}
use simple_blockchain_go.Rpc.{transfer_kind}
use simple_blockchain_go.Storage.Bolt.{Bolt}
use simple_blockchain_go.Storage.Service.{
  accounts_bucket, batch_size, fetch_accounts, fetch_each, read_state, send_put,
}
use simple_blockchain_go.Types.{Call, Transaction}

-- What a transfer that succeeds leaves of the sender.
pub transfer_impl_sender :
    (from : Bytes) (nonce : ℕ) (to : Bytes) (amount : ℕ) (m : States) (s t : AccountState)
    → lookup from m ≡ some s
    → lookup to m ≡ some t
    → to ≢ from
    → (transfer_impl from nonce to amount m).1 ≡ ok tt
    → lookup from (transfer_impl from nonce to amount m).0
      ≡ some (record { nonce = (nonce + 1) % u64_mod; balance = s.balance - amount })
unfolding check_nonce subtract
transfer_impl_sender from nonce to amount m s t hs ht apart went =
    let S₁ = s₁ from nonce to amount m s t in
    let S₂ = s₂ from nonce to amount m s t in
    let T₃ = (add (t₂ from nonce to amount m s t) amount).1 in
    let M₂ = m₂ from nonce to amount m s t in
    ground (
      arith,
      transfer_steps from nonce to amount m s t hs ht,
      bytes_eq_iff from to,
      bytes_eq_self from,
      lookup-insert to from T₃ M₂,
      lookup-insert from from S₂ (m₁ from nonce to amount m s t),
    )

-- A transfer with another nonce than the sender's does nothing.
pub transfer_impl_bad_nonce :
    (from : Bytes) (nonce : ℕ) (to : Bytes) (amount : ℕ) (m : States) (s : AccountState)
    → lookup from m ≡ some s
    → s.nonce ≢ nonce
    → transfer_impl from nonce to amount m ≡ (m, err nonce_invalid)
unfolding transfer_impl check_nonce
transfer_impl_bad_nonce from nonce to amount m s hs wrong =
    let same = insert-present from s m hs in
    let checked = in_place_lem from (λ s. check_nonce s nonce) m s hs in
    ground (arith, same, checked)

-- A transfer with the sender's nonce of more than the sender has advances the nonce only.
pub transfer_impl_poor :
    (from : Bytes) (nonce : ℕ) (to : Bytes) (amount : ℕ) (m : States) (s t : AccountState)
    → lookup from m ≡ some s
    → lookup to m ≡ some t
    → to ≢ from
    → s.nonce ≡ nonce
    → s.balance < amount
    → let (m', r) = transfer_impl from nonce to amount m in
      (r ≡ err not_enough_balance)
      × (lookup from m' ≡ some (record { nonce = (nonce + 1) % u64_mod; balance = s.balance }))
      × (lookup to m' ≡ some t)
      × (total m' ≡ total m)
unfolding check_nonce subtract
transfer_impl_poor from nonce to amount m s t hs ht apart right poor =
    let S₁ = s₁ from nonce to amount m s t in
    let S₂ = s₂ from nonce to amount m s t in
    let M₁ = m₁ from nonce to amount m s t in
    rw (transfer_steps from nonce to amount m s t hs ht) (
      ground (
        arith,
        bytes_eq_iff from to,
        bytes_eq_iff to from,
        bytes_eq_self from,
        lookup-insert from from S₂ M₁,
        lookup-insert from from S₁ m,
        lookup-insert from to S₂ M₁,
        lookup-insert from to S₁ m,
        total-insert from s S₁ m hs,
        total-insert from S₁ S₂ M₁,
      ))

module _ (bolt : Bolt) (e : Env) (generator : Slice) (db : bolt.Db) where
  -- A transfer that a transaction holds, as `ExecuteNow` reads it.
  pub record IsTransfer (tx : Transaction) (from to : Bytes) (nonce amount : ℕ) : Type 0 where
    pub call : Call
    pub runs : runnable bolt e tx ≡ some call
    pub transfers : call.call ≡ transfer_kind
    pub reads :
        e.transfer_json.unmarshal (content call.params)
        ≡ some (record { amount = amount; to = some to })
    pub of_sender : tx.inner_data.public_key ≡ some from
    pub with_nonce : tx.inner_data.nonce ≡ nonce

  -- What `executeTransfer` runs between two keys that are there.
  abbrev pub ran : Bytes → ℕ → Bytes → ℕ → MemoryService → MemoryService × Outcome (Unit {0})
  ran from nonce to amount ms =
      let r = transfer_impl (e.base58_encode from) nonce (e.base58_encode to) amount ms.state_mem in
      (record ms { state_mem = r.0 }, r.1)

  execute_transfer-ran :
      (raw caller : Slice) (from to : Bytes) (nonce amount : ℕ) (keys : List Slice)
      (ms : MemoryService)
      → e.transfer_json.unmarshal (content raw) ≡ some (record { amount = amount; to = some to })
      → caller ≡ some from
      → execute_transfer bolt e raw caller nonce keys ms
        ≡ note_keys bolt e (some from) (some to) keys (ran from nonce to amount ms)
  unfolding execute_transfer with_keys
  execute_transfer-ran raw caller from to nonce amount keys ms reads sender =
      rw (reads, execute_transfer) (rw sender refl)

  execute_call-ran :
      (tx : Transaction) (from to : Bytes) (nonce amount : ℕ) (keys : List Slice)
      (ms : MemoryService) (t : IsTransfer tx from to nonce amount)
      → execute_call bolt e generator t.call tx.inner_data keys ms
        ≡ note_keys bolt e (some from) (some to) keys (ran from nonce to amount ms)
  unfolding execute_call
  execute_call-ran tx from to nonce amount keys ms t =
      rw (t.transfers, execute_call)
        (rw (t.with_nonce) (
          execute_transfer-ran t.call.params tx.inner_data.public_key from to nonce amount keys ms
            t.reads t.of_sender))

  -- The end of a turn on a transfer.
  execute_tx_transfer :
      (tx : Transaction) (from to : Bytes) (nonce amount : ℕ) (keys : List Slice)
      (ms : MemoryService) (t : IsTransfer tx from to nonce amount)
      → execute_tx bolt e generator db tx keys ms
        ≡ finish_turn bolt e db tx
            (leaves_reply bolt e generator t.call tx.inner_data ms)
            (note_keys bolt e (some from) (some to) keys (ran from nonce to amount ms))
  unfolding execute_tx
  execute_tx_transfer tx from to nonce amount keys ms t =
      rw (t.runs, execute_tx)
        (ap (finish_turn bolt e db tx (leaves_reply bolt e generator t.call tx.inner_data ms))
          (execute_call-ran tx from to nonce amount keys ms t))

  leaves_reply-transfer :
      (tx : Transaction) (from to : Bytes) (nonce amount : ℕ) (ms : MemoryService)
      (s : AccountState) (t : IsTransfer tx from to nonce amount)
      → lookup (e.base58_encode from) ms.state_mem ≡ some s
      → leaves_reply bolt e generator t.call tx.inner_data ms ≡ not (check_nonce s nonce).0
  unfolding leaves_reply
  leaves_reply-transfer tx from to nonce amount ms s t there =
      let found : lookup (e.base58_encode (content tx.inner_data.public_key)) ms.state_mem
          ≡ some s =
        ap (λ k. lookup (e.base58_encode (content k)) ms.state_mem) t.of_sender ∙ there in
      rw (t.transfers, leaves_reply) (rw found (rw (t.with_nonce) refl))

  fetch_each-cons :
      (sent : ℕ) (pk : Bytes) (keys : List Slice) (s : AccountState) (ms : MemoryService)
      → read_state bolt e (bolt.read db accounts_bucket pk) ≡ ok s
      → sent < batch_size
      → fetch_each bolt e sent (some pk ∷ keys) db ms
        ≡ fetch_each bolt e
            (suc sent)
            keys
            db
            (record ms { state_mem = insert (e.base58_encode pk) s ms.state_mem })
  unfolding fetch_each send_put put_account_state handle_state put_state put_in_memory
  fetch_each-cons sent pk keys s ms h room =
      rw (h, fetch_each) (rw (lt→ltb sent batch_size room) refl)

  -- The states of two accounts, put back as the database has them.
  fetch_accounts_two :
      (from to : Bytes) (s u : AccountState) (ms : MemoryService)
      → read_state bolt e (bolt.read db accounts_bucket from) ≡ ok s
      → read_state bolt e (bolt.read db accounts_bucket to) ≡ ok u
      → fetch_accounts bolt e (some from ∷ some to ∷ []) db ms ≡ (
        record ms {
          state_mem = insert (e.base58_encode to) u (insert (e.base58_encode from) s ms.state_mem);
        },
        ok tt,
      )
  unfolding fetch_accounts fetch_each
  fetch_accounts_two from to s u ms hs hu =
      fetch_each-cons 0 from (some to ∷ []) s ms hs (omega arith)
      ∙ fetch_each-cons 1 to [] u
          (record ms { state_mem = insert (e.base58_encode from) s ms.state_mem }) hu (omega arith)

  two_keys :
      (from to : Bytes)
      → to ≢ from
      → add_key (add_key [] (some from)) (some to) ≡ some from ∷ some to ∷ []
  unfolding add_key
  two_keys from to apart = ground (arith, bytes_eq_iff to from)

  -- The two accounts of a failed call are put back as the database has them, if no reply is left
  -- unread; if one is, the turn does not end.
  pub finish_turn_reverts :
      (tx : Transaction) (from to : Bytes) (keys : List Slice) (ms : MemoryService) (x : Error)
      (s u : AccountState)
      → to ≢ from
      → read_state bolt e (bolt.read db accounts_bucket from) ≡ ok s
      → read_state bolt e (bolt.read db accounts_bucket to) ≡ ok u
      → let turn =
          finish_turn bolt e db tx false
            (note_keys bolt e (some from) (some to) keys (ms, err x)) in
        (turn.result ≡ ok tt)
        × (turn.executed ≡ keys)
        × (turn.memory.state_mem
            ≡ insert (e.base58_encode to) u (insert (e.base58_encode from) s ms.state_mem))
  unfolding finish_turn note_keys revert after_revert
  finish_turn_reverts tx from to keys ms x s u apart hs hu =
      rw (two_keys from to apart) (rw (fetch_accounts_two from to s u ms hs hu) (refl, refl, refl))

  pub finish_turn_waits :
      (tx : Transaction) (from to : Bytes) (keys : List Slice) (ms : MemoryService) (x : Error)
      (s u : AccountState)
      → to ≢ from
      → read_state bolt e (bolt.read db accounts_bucket from) ≡ ok s
      → read_state bolt e (bolt.read db accounts_bucket to) ≡ ok u
      → finish_turn bolt e db tx true (note_keys bolt e (some from) (some to) keys (ms, err x))
        ≡ record { memory = ms; executed = keys; tx = tx; result = panic }
  unfolding finish_turn note_keys revert after_revert wait_for_replies
  finish_turn_waits tx from to keys ms x s u apart hs hu =
      rw (two_keys from to apart) (rw (fetch_accounts_two from to s u ms hs hu) refl)

  -- The end of a turn on a transfer that succeeded.
  abbrev pub kept : Transaction → Bytes → Bytes → List Slice → MemoryService → Turn bolt e
  kept tx from to keys ms = record {
    memory = ms;
    executed = add_key (add_key keys (some from)) (some to);
    tx = record tx { status = true };
    result = ok tt;
  }

  pub execute_tx-kept :
      (tx : Transaction) (from to : Bytes) (nonce amount : ℕ) (keys : List Slice)
      (ms : MemoryService)
      → IsTransfer tx from to nonce amount
      → (ran from nonce to amount ms).1 ≡ ok tt
      → execute_tx bolt e generator db tx keys ms
        ≡ kept tx from to keys (ran from nonce to amount ms).0
  unfolding finish_turn note_keys
  execute_tx-kept tx from to nonce amount keys ms t went =
      execute_tx_transfer tx from to nonce amount keys ms t
      ∙ ap
          (λ (o : Outcome (Unit {0})).
            finish_turn bolt e db tx (leaves_reply bolt e generator t.call tx.inner_data ms)
              (note_keys bolt e (some from) (some to) keys ((ran from nonce to amount ms).0, o)))
          went

  -- A transfer that fails, between accounts whose sender has a state in memory.
  pub execute_tx_failed :
      (tx : Transaction) (from to : Bytes) (nonce amount : ℕ) (keys : List Slice)
      (ms : MemoryService) (s : AccountState) (x : Error)
      → IsTransfer tx from to nonce amount
      → lookup (e.base58_encode from) ms.state_mem ≡ some s
      → (ran from nonce to amount ms).1 ≡ err x
      → execute_tx bolt e generator db tx keys ms
        ≡ finish_turn bolt e db tx
            (not (check_nonce s nonce).0)
            (note_keys bolt e (some from) (some to) keys ((ran from nonce to amount ms).0, err x))
  execute_tx_failed tx from to nonce amount keys ms s x t there failed =
      execute_tx_transfer tx from to nonce amount keys ms t
      ∙ ap
          (λ b.
            finish_turn bolt e db tx b
              (note_keys bolt e (some from) (some to) keys (ran from nonce to amount ms)))
          (leaves_reply-transfer tx from to nonce amount ms s t there)
      ∙ ap
          (λ (o : Outcome (Unit {0})).
            finish_turn bolt e db tx (not (check_nonce s nonce).0)
              (note_keys bolt e (some from) (some to) keys ((ran from nonce to amount ms).0, o)))
          failed

  pub execute_now_nil :
      (keys : List Slice) (ms : MemoryService)
      → execute_now bolt e generator db [] keys ms ≡ (ms, [], ok keys)
  unfolding execute_now
  execute_now_nil keys ms = refl

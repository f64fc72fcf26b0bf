-- ===== src/Executers/Executer.antt =====
-- executers/executer.go. Between the start and the end of one execution the memory service takes no
-- other request on the account states, so the calls of an executer run one after the other.
pub mod Laws
pub mod Pool
pub mod Supply
pub mod Mint
pub mod Replay
use simple_blockchain_go.Accounts.{check_nonce}
use simple_blockchain_go.Base.{
  Bool, Bytes, Error, List, Option, Outcome, Slice, [], bad_param, contains_func, content, equal,
  err, false, if◌then◌else◌, length, lookup, ltb, no_generator, none, not, not_nil, ok, panic, some,
  true, ℕ, ◌&&◌, ◌++◌, ◌==◌, ◌||◌, ◌∷◌,
}
use simple_blockchain_go.Env.{Env}
use simple_blockchain_go.Executers.Impl.{States, airdrop_impl, transfer_impl}
use simple_blockchain_go.Memory.Service.{MemoryService}
use simple_blockchain_go.Rpc.{airdrop_kind, transfer_kind, verify_call}
use simple_blockchain_go.Storage.Bolt.{Bolt}
use simple_blockchain_go.Storage.Service.{fetch_accounts, push_accounts}
use simple_blockchain_go.Types.{Call, Transaction, TransactionData}

-- `publicKeys.add`
unfoldable pub add_key : List Slice → Slice → List Slice
add_key keys pub_key =
    if contains_func keys (λ pk. equal pub_key pk) then keys else keys ++ pub_key ∷ []

-- `Faucet.Generator`
unfoldable pub faucet_generator : Slice → Outcome Slice
faucet_generator none = err no_generator
faucet_generator (some key) = ok (some key)

module _ (bolt : Bolt) (e : Env) where
  open bolt use {Db}

  -- The states that a call leaves, put back into the service.
  abbrev run_impl : States × Outcome (Unit {0}) → MemoryService → MemoryService × Outcome (Unit {0})
  run_impl (m, r) ms = (record ms { state_mem = m }, r)

  -- A call of `airdropImpl` or `transferImpl` with two keys. The reply for a nil key is a nil result,
  -- whose field `Err` is read.
  unfoldable pub with_keys :
      (Bytes → Bytes → States → States × Outcome (Unit {0}))
      → Slice
      → Slice
      → MemoryService
      → MemoryService × Outcome (Unit {0})
  with_keys impl a b ms =
      if not_nil a && not_nil b
      then run_impl (impl (e.base58_encode (content a)) (e.base58_encode (content b)) ms.state_mem)
          ms
      else (ms, panic)

  -- What a call leaves behind: the memory, the keys executed, the keys to revert, and its end.
  pub record Executed : Type 0 where
    pub memory : MemoryService
    pub executed : List Slice
    pub dirty : List Slice
    pub result : Outcome (Unit {0})

  -- The end of `executeAirdrop` and of `executeTransfer`, on the two keys.
  unfoldable pub note_keys :
      Slice → Slice → List Slice → MemoryService × Outcome (Unit {0}) → Executed
  note_keys a b keys (ms, ok u) = record {
    memory = ms;
    executed = add_key (add_key keys a) b;
    dirty = [];
    result = ok u;
  }
  note_keys a b keys (ms, err x) = record {
    memory = ms;
    executed = keys;
    dirty = add_key (add_key [] a) b;
    result = err x;
  }
  note_keys a b keys (ms, panic) = record {
    memory = ms;
    executed = keys;
    dirty = [];
    result = panic;
  }

  abbrev stopped : Error → List Slice → MemoryService → Executed
  stopped x keys ms = record { memory = ms; executed = keys; dirty = []; result = err x }

  -- `executeAirdrop`
  unfoldable pub execute_airdrop : Slice → Slice → Slice → ℕ → List Slice → MemoryService → Executed
  unfolding note_keys
  execute_airdrop generator raw_param caller nonce keys ms =
      elim (e.airdrop_json.unmarshal (content raw_param)) [
        | none ↦ stopped bad_param keys ms
        | some p ↦ elim (faucet_generator generator) [
          | err x ↦ stopped x keys ms
          | panic ↦ stopped no_generator keys ms
          | ok gen ↦
              note_keys caller gen keys
                (with_keys (λ to from m. airdrop_impl to nonce from p.amount m) caller gen ms)
        ]
      ]

  -- `executeTransfer`
  unfoldable pub execute_transfer : Slice → Slice → ℕ → List Slice → MemoryService → Executed
  unfolding note_keys
  execute_transfer raw_param caller nonce keys ms =
      elim (e.transfer_json.unmarshal (content raw_param)) [
        | none ↦ stopped bad_param keys ms
        | some p ↦
            note_keys caller p.to keys
              (with_keys (λ from to m. transfer_impl from nonce to p.amount m) caller p.to ms)
      ]

  -- Whether `airdropImpl` or `transferImpl` returns before it reads the reply on its second key: where
  -- the first account is not there, and, of a transfer, where the nonce is not the sender's.
  unfoldable pub leaves_reply : Slice → Call → TransactionData → MemoryService → Bool
  leaves_reply generator c d ms =
      if c.call == airdrop_kind
      then elim (lookup (e.base58_encode (content generator)) ms.state_mem) [
        | none ↦ true
        | some _ ↦ false
      ]
      else elim (lookup (e.base58_encode (content d.public_key)) ms.state_mem) [
        | none ↦ true
        | some s ↦ not (check_nonce s d.nonce).0
      ]

  -- A call that waits for replies of a memory service that has stopped: it ends by an error, or not.
  unfoldable pub wait_for_replies :
      MemoryService → Outcome (Unit {0}) → MemoryService × Outcome (Unit {0})
  wait_for_replies ms (ok u) = (ms, panic)
  wait_for_replies ms (err x) = (ms, err x)
  wait_for_replies ms panic = (ms, panic)

  -- `revert`: the two error texts in one. After a call that left a reply unread the memory service
  -- still waits to deliver that reply, so the Puts of the revert are never answered.
  unfoldable pub revert :
      Bool → List Slice → Db → MemoryService → MemoryService × Outcome (Unit {0})
  revert unread dirty db ms =
      if unread && ltb 0 (length dirty)
      then wait_for_replies ms (fetch_accounts bolt e dirty db ms).1
      else fetch_accounts bolt e dirty db ms

  -- The call in a transaction, if it is one that is executed.
  unfoldable pub runnable : Transaction → Option Call
  runnable tx = elim (e.call_json.unmarshal (content tx.inner_data.payload)) [
    | none ↦ none
    | some c ↦
        if verify_call e c && (c.call == airdrop_kind || c.call == transfer_kind)
        then some c
        else none
  ]

  unfoldable pub execute_call :
      Slice → Call → TransactionData → List Slice → MemoryService → Executed
  execute_call generator c d keys ms =
      if c.call == airdrop_kind
      then execute_airdrop generator c.params d.public_key d.nonce keys ms
      else execute_transfer c.params d.public_key d.nonce keys ms

  -- What a turn of the loop of `ExecuteNow` leaves behind. `Status` is true after a revert too: the
  -- line that sets it to false is followed by the one that sets it to true.
  pub record Turn : Type 0 where
    pub memory : MemoryService
    pub executed : List Slice
    pub tx : Transaction
    pub result : Outcome (Unit {0})

  unfoldable pub after_revert : List Slice → Transaction → MemoryService × Outcome (Unit {0}) → Turn
  after_revert keys t (ms, ok u) = record {
    memory = ms;
    executed = keys;
    tx = record t { status = true };
    result = ok u;
  }
  after_revert keys t (ms, err x) = record { memory = ms; executed = keys; tx = t; result = err x }
  after_revert keys t (ms, panic) = record { memory = ms; executed = keys; tx = t; result = panic }

  unfoldable pub finish_turn : Db → Transaction → Bool → Executed → Turn
  unfolding after_revert
  finish_turn db t unread x = elim x.result [
    | ok u ↦ record {
      memory = x.memory;
      executed = x.executed;
      tx = record t { status = true };
      result = ok u;
    }
    | err y ↦ after_revert x.executed t (revert unread x.dirty db x.memory)
    | panic ↦ record { memory = x.memory; executed = x.executed; tx = t; result = panic }
  ]

  unfoldable pub execute_tx : Slice → Db → Transaction → List Slice → MemoryService → Turn
  unfolding finish_turn
  execute_tx generator db t keys ms = elim (runnable t) [
    | none ↦ record { memory = ms; executed = keys; tx = t; result = ok tt }
    | some c ↦
        finish_turn db t (leaves_reply generator c t.inner_data ms)
          (execute_call generator c t.inner_data keys ms)
  ]

  -- `ExecuteNow`: the memory, the transactions as the slice holds them now, and the executed keys.
  unfoldable pub execute_now :
      Slice
      → Db
      → List Transaction
      → List Slice
      → MemoryService
      → MemoryService × List Transaction × Outcome (List Slice)
  execute_now generator db [] keys ms = (ms, [], ok keys)
  execute_now generator db (t ∷ txs) keys ms =
      let turn = execute_tx generator db t keys ms in
      let rest = execute_now generator db txs turn.executed turn.memory in
      elim turn.result [
        | ok u ↦ (rest.0, turn.tx ∷ rest.1, rest.2)
        | err x ↦ (turn.memory, turn.tx ∷ txs, err x)
        | panic ↦ (turn.memory, turn.tx ∷ txs, panic)
      ]

  -- What `waitForFinality` does once the verdict on the block is in: the database, the memory and the
  -- error that it sends. The execution before it has succeeded, so no reply is unread.
  unfoldable pub after_finality :
      Bool → List Slice → Db → MemoryService → Db × MemoryService × Outcome (Unit {0})
  after_finality true keys db ms = let (db', r) = push_accounts bolt e keys ms db in (db', ms, r)
  after_finality false keys db ms = let (ms', r) = revert false keys db ms in (db, ms', r)

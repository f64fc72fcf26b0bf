-- ===== src/Nodes/RpcServer.antt =====
-- nodes/rpc/rpc_server.go.
use simple_blockchain_go.Storage.Service.{get as get_from_storage}
use simple_blockchain_go.Accounts.{zero_state}
use simple_blockchain_go.Base.{
  Bytes, Outcome, Slice, [], connection, err, if◌then◌else◌, json, ltb, none, not, ok, or_err,
  panic, some, ◌==◌, ◌>>=◌, ◌||◌, ◌∷◌,
}
use simple_blockchain_go.Common.{max_payload_size}
use simple_blockchain_go.Env.{Env}
use simple_blockchain_go.Memory.Service.{MemoryService, append_tx, contains_tx}
use simple_blockchain_go.Nodes.Sync.Handlers.{broadcast_tx, is_call}
use simple_blockchain_go.Nodes.Sync.Messages.{SyncJson}
use simple_blockchain_go.P2p.Service.{P2pService, Sent}
use simple_blockchain_go.Rpc.{verify_get_account_state_call}
use simple_blockchain_go.Rpc.Wire.{
  Net, read_conn, read_length, signed_rpc, unsigned_rpc, with_length,
}
use simple_blockchain_go.Storage.Bolt.{Bolt}
use simple_blockchain_go.Storage.Service.{accounts, by_key}
use simple_blockchain_go.Txs.{verify_tx}
use simple_blockchain_go.Types.{Transaction}

-- The letters of "ok".
abbrev pub ok_reply : Bytes
ok_reply = b'o' ∷ b'k' ∷ []

-- What one connection leaves: the memory, the messages to the peers, the bytes written back, and the
-- error.
pub record Served : Type 0 where
  pub memory : MemoryService
  pub sent : Sent
  pub written : Bytes
  pub result : Outcome (Unit {0})

module _ (e : Env) (js : SyncJson) (bolt : Bolt) where
  -- The answer of `handleCall` to a verified query: the zero state, if there is no account.
  unfoldable pub answer_query : Slice → Outcome Slice
  answer_query (some v) = ok (some v)
  answer_query none = do v ← or_err (e.state_json.marshal zero_state) json; ok (some v)

  -- `handleCall`
  unfoldable pub handle_call : Bytes → bolt.Db → Outcome Slice
  unfolding answer_query
  handle_call raw db = elim (e.call_json.unmarshal raw) [
    | none ↦ ok none
    | some c ↦
        if verify_get_account_state_call e c
        then answer_query (get_from_storage bolt accounts by_key c.params db)
        else ok none
  ]

  -- `handleTransaction`, of a transaction that passed `Verify`.
  unfoldable pub submit_tx :
      Transaction → P2pService → MemoryService → MemoryService × Sent × Outcome Slice
  submit_tx t ps ms =
      if not (is_call e t)
      then (ms, [], ok none)
      else if contains_tx e t.hash ms
      then (ms, [], ok none)
      else (let (sent, r) = broadcast_tx e js t [] ps in
          (append_tx e t ms, sent, (do u ← r; ok (some ok_reply))))

  -- `handleTransaction`
  unfoldable pub handle_transaction :
      Bytes → P2pService → MemoryService → MemoryService × Sent × Outcome Slice
  unfolding submit_tx
  handle_transaction raw ps ms = elim (e.tx_json.unmarshal raw) [
    | none ↦ (ms, [], ok none)
    | some t ↦ elim (verify_tx e t) [
      | ok good ↦ if good then submit_tx t ps ms else (ms, [], ok none)
      | err x ↦ (ms, [], err x)
      | panic ↦ (ms, [], panic)
    ]
  ]

  -- The switch on the first byte.
  unfoldable pub dispatch :
      Bytes → P2pService → bolt.Db → MemoryService → MemoryService × Sent × Outcome Slice
  unfolding handle_transaction handle_call
  dispatch [] ps db ms = (ms, [], panic)
  dispatch (kind ∷ raw) ps db ms =
      if kind == signed_rpc
      then handle_transaction raw ps ms
      else if kind == unsigned_rpc
      then (ms, [], handle_call raw db)
      else (ms, [], ok none)

  -- The reply is written, unless it is nil.
  unfoldable pub reply : MemoryService × Sent × Outcome Slice → Served
  reply (ms, sent, ok none) = record { memory = ms; sent = sent; written = []; result = ok tt }
  reply (ms, sent, ok (some res)) = record {
    memory = ms;
    sent = sent;
    written = with_length res;
    result = ok tt;
  }
  reply (ms, sent, err x) = record { memory = ms; sent = sent; written = []; result = err x }
  reply (ms, sent, panic) = record { memory = ms; sent = sent; written = []; result = panic }

  abbrev nothing : MemoryService → Outcome (Unit {0}) → Served
  nothing ms r = record { memory = ms; sent = []; written = []; result = r }

  -- `handleRpc`, on the bytes that the client sends. A negative int32 is a bit pattern of 2^31 or
  -- more, so it is too big as well.
  unfoldable pub handle_rpc : Net → Bytes → P2pService → bolt.Db → MemoryService → Served
  handle_rpc net sent ps db ms = elim (read_length net sent) [
    | none ↦ nothing ms (err connection)
    | some (n, rest) ↦
        if ltb max_payload_size n || ltb n 1
        then nothing ms (ok tt)
        else elim (read_conn net n rest) [
          | none ↦ nothing ms (err connection)
          | some (buff, rest') ↦ reply (dispatch buff ps db ms)
        ]
  ]

-- ===== src/Nodes/Sync/Pool.antt =====
-- nodes/sync/sync_service.go and nodes/rpc/rpc_server.go: the transactions that a node takes.
use simple_blockchain_go.Base.{
  Bool-cases, Bytes, List, Option, Option-cases, Outcome, Outcome-cases, Slice, [], arith,
  contains_func, err, false, inl, inr, ltb, none, ok, panic, refl, some, true, ℕ, ◌==◌, ◌||◌, ◌∷◌,
  ◌≡◌, ◌⊎◌,
}
use simple_blockchain_go.Common.{max_payload_size}
use simple_blockchain_go.Env.{Env}
use simple_blockchain_go.Memory.Service.{MemoryService, append_tx, contains_tx}
use simple_blockchain_go.Nodes.Node.{Node}
use simple_blockchain_go.Nodes.RpcServer.{
  dispatch, handle_rpc, handle_transaction, reply, submit_tx,
}
use simple_blockchain_go.Nodes.Sync.Handlers.{
  Delivered, accept_tx, handle_block_req, handle_block_res, handle_sync_message, handle_tx_msg,
  is_call, of_request, of_response,
}
use simple_blockchain_go.Nodes.Sync.Messages.{SyncJson, TransactionMsg, tx_message, verify_tx_msg}
use simple_blockchain_go.P2p.Messages.{is_same_ip, sync_message}
use simple_blockchain_go.P2p.Network.{fresh}
use simple_blockchain_go.P2p.Service.{P2pService, Sent}
use simple_blockchain_go.Rpc.Wire.{Net, read_conn, read_length, signed_rpc}
use simple_blockchain_go.Storage.Bolt.{Bolt}
use simple_blockchain_go.Txs.{verify_tx}
use simple_blockchain_go.Types.{Transaction}

module _ (e : Env) where
  -- A transaction that passed `Verify`, and whose payload is a call that passed its own.
  abbrev pub IsAccepted : Transaction → Type 0
  IsAccepted t = (verify_tx e t ≡ ok true) × (is_call e t ≡ true)

  -- What a node takes from a transaction that it was sent: nothing, or an accepted transaction.
  abbrev pub Takes : MemoryService → MemoryService → Type 0
  Takes ms ms' =
      (ms' ≡ ms)
      ⊎ ((t : Transaction) × IsAccepted t
          × (contains_tx e t.hash ms ≡ false)
          × (ms' ≡ append_tx e t ms))

  verify_tx_msg-ok :
      (msg : TransactionMsg) → verify_tx_msg e msg ≡ ok true → verify_tx e msg.tx ≡ ok true
  unfolding verify_tx_msg
  verify_tx_msg-ok msg h = ground arith

  module _ (js : SyncJson) where
    accept_tx-Takes :
        (msg : TransactionMsg) (ps : P2pService) (ms : MemoryService)
        → verify_tx e msg.tx ≡ ok true
        → Takes ms (accept_tx e js msg ps ms).0
    unfolding accept_tx
    accept_tx-Takes msg ps ms good = elim (Bool-cases (is_call e msg.tx)) [
      | inr no_call ↦ inl (ground arith)
      | inl call ↦ elim (Bool-cases (contains_func msg.origins (λ n. is_same_ip n ps.info))) [
        | inl known ↦ inl (ground arith)
        | inr fresh ↦ elim (Bool-cases (contains_tx e msg.tx.hash ms)) [
          | inl there ↦ inl (ground arith)
          | inr absent ↦ inr (msg.tx, (good, call), absent, ground arith)
        ]
      ]
    ]

    handle_tx_msg-accept_tx :
        (raw : Bytes) (ps : P2pService) (ms : MemoryService) (msg : TransactionMsg)
        → js.tx_msg_json.unmarshal raw ≡ some msg
        → verify_tx_msg e msg ≡ ok true
        → handle_tx_msg e js raw ps ms ≡ accept_tx e js msg ps ms
    unfolding handle_tx_msg
    handle_tx_msg-accept_tx raw ps ms msg read good = ground arith

    handle_tx_msg-Takes :
        (raw : Bytes) (ps : P2pService) (ms : MemoryService)
        → Takes ms (handle_tx_msg e js raw ps ms).0
    unfolding handle_tx_msg
    handle_tx_msg-Takes raw ps ms = elim (Option-cases (js.tx_msg_json.unmarshal raw)) [
      | inl bad ↦ inl (ground arith)
      | inr (msg, read) ↦ elim (Outcome-cases (verify_tx_msg e msg)) [
        | inl (true, good) ↦
            rw (handle_tx_msg-accept_tx raw ps ms msg read good)
              (accept_tx-Takes msg ps ms (verify_tx_msg-ok msg good))
        | inl (false, bad) ↦ inl (ground arith)
        | inr bad ↦ inl (ground arith)
      ]
    ]

    module _ (bolt : Bolt) where
      submit_tx-Takes :
          (t : Transaction) (ps : P2pService) (ms : MemoryService)
          → verify_tx e t ≡ ok true
          → Takes ms (submit_tx e js bolt t ps ms).0
      unfolding submit_tx
      submit_tx-Takes t ps ms good = elim (Bool-cases (is_call e t)) [
        | inr no_call ↦ inl (ground arith)
        | inl call ↦ elim (Bool-cases (contains_tx e t.hash ms)) [
          | inl there ↦ inl (ground arith)
          | inr absent ↦ inr (t, (good, call), absent, ground arith)
        ]
      ]

      handle_transaction-submit_tx :
          (raw : Bytes) (ps : P2pService) (ms : MemoryService) (t : Transaction)
          → e.tx_json.unmarshal raw ≡ some t
          → verify_tx e t ≡ ok true
          → handle_transaction e js bolt raw ps ms ≡ submit_tx e js bolt t ps ms
      unfolding handle_transaction
      handle_transaction-submit_tx raw ps ms t read good = ground arith

      handle_transaction-Takes :
          (raw : Bytes) (ps : P2pService) (ms : MemoryService)
          → Takes ms (handle_transaction e js bolt raw ps ms).0
      unfolding handle_transaction
      handle_transaction-Takes raw ps ms = elim (Option-cases (e.tx_json.unmarshal raw)) [
        | inl bad ↦ inl (ground arith)
        | inr (t, read) ↦ elim (Outcome-cases (verify_tx e t)) [
          | inl (true, good) ↦
              rw (handle_transaction-submit_tx raw ps ms t read good) (submit_tx-Takes t ps ms good)
          | inl (false, bad) ↦ inl (ground arith)
          | inr bad ↦ inl (ground arith)
        ]
      ]

      dispatch-Takes :
          (raw : Bytes) (ps : P2pService) (db : bolt.Db) (ms : MemoryService)
          → Takes ms (dispatch e js bolt raw ps db ms).0
      unfolding dispatch
      dispatch-Takes [] ps db ms = inl refl
      dispatch-Takes (kind ∷ raw) ps db ms = elim (Bool-cases (kind == signed_rpc)) [
        | inl signed ↦ rw signed (handle_transaction-Takes raw ps ms)
        | inr other_kind ↦ inl (ground arith)
      ]

      memory-reply : (r : MemoryService × Sent × Outcome Slice) → (reply e js bolt r).memory ≡ r.0
      unfolding reply
      memory-reply (ms, sent, ok none) = refl
      memory-reply (ms, sent, ok (some res)) = refl
      memory-reply (ms, sent, err x) = refl
      memory-reply (ms, sent, panic) = refl

      -- A request leaves the memory alone, or its bytes are dispatched.
      memory-handle_rpc :
          (net : Net) (sent : Bytes) (ps : P2pService) (db : bolt.Db) (ms : MemoryService)
          → ((handle_rpc e js bolt net sent ps db ms).memory ≡ ms)
            ⊎ ((buff : Bytes) × ((handle_rpc e js bolt net sent ps db ms).memory
                  ≡ (dispatch e js bolt buff ps db ms).0))
      unfolding handle_rpc
      memory-handle_rpc net sent ps db ms = elim (Option-cases (read_length net sent)) [
        | inl bad ↦ inl (ground arith)
        | inr ((n, rest), read) ↦ elim (Bool-cases (ltb max_payload_size n || ltb n 1)) [
          | inl wrong ↦ inl (ground arith)
          | inr right ↦ elim (Option-cases (read_conn net n rest)) [
            | inl bad ↦ inl (ground arith)
            | inr ((buff, rest'), whole) ↦
                inr (buff, ground (arith, memory-reply (dispatch e js bolt buff ps db ms)))
          ]
        ]
      ]

      pub handle_rpc-Takes :
          (net : Net) (sent : Bytes) (ps : P2pService) (db : bolt.Db) (ms : MemoryService)
          → Takes ms (handle_rpc e js bolt net sent ps db ms).memory
      handle_rpc-Takes net sent ps db ms = elim (memory-handle_rpc net sent ps db ms) [
        | inl same ↦ inl same
        | inr (buff, same) ↦ rw same (dispatch-Takes buff ps db ms)
      ]

      memory-of_request :
          (ms : MemoryService) (r : Outcome Sent) → (of_request e js bolt ms r).memory ≡ ms
      memory-of_request ms (ok sent) = refl
      memory-of_request ms (err x) = refl
      memory-of_request ms panic = refl

      memory-of_response :
          (ms : MemoryService) (r : Outcome Delivered) → (of_response e js bolt ms r).memory ≡ ms
      memory-of_response ms (ok d) = refl
      memory-of_response ms (err x) = refl
      memory-of_response ms panic = refl

      -- A message leaves the memory alone, or brings a transaction.
      memory-handle_sync_message :
          (raw : Bytes) (channels : Option (List ℕ)) (ps : P2pService) (n : Node bolt)
          → ((handle_sync_message e js bolt raw channels ps n).memory ≡ n.memory)
            ⊎ ((rest : Bytes) × ((handle_sync_message e js bolt raw channels ps n).memory
                  ≡ (handle_tx_msg e js rest ps n.memory).0))
      unfolding handle_sync_message
      memory-handle_sync_message [] channels ps n = inl refl
      memory-handle_sync_message (network ∷ []) channels ps n = inl refl
      memory-handle_sync_message (network ∷ kind ∷ raw) channels ps n =
          let asked = memory-of_request n.memory (handle_block_req e js bolt raw ps n) in
          let answered = memory-of_response n.memory (handle_block_res e js channels raw) in
          elim (Bool-cases (network == sync_message)) [
            | inr alien ↦ inl (ground arith)
            | inl here ↦ elim (Bool-cases (kind == tx_message)) [
              | inl is_tx ↦ inr (raw, ground arith)
              | inr no_tx ↦ inl (ground (arith, asked, answered))
            ]
          ]

      pub handle_sync_message-Takes :
          (raw : Bytes) (channels : Option (List ℕ)) (ps : P2pService) (n : Node bolt)
          → Takes n.memory (handle_sync_message e js bolt raw channels ps n).memory
      handle_sync_message-Takes raw channels ps n =
          elim (memory-handle_sync_message raw channels ps n) [
            | inl same ↦ inl same
            | inr (rest, same) ↦ rw same (handle_tx_msg-Takes rest ps n.memory)
          ]

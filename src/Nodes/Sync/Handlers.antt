-- ===== src/Nodes/Sync/Handlers.antt =====
-- nodes/sync/sync_service.go: `BroadcastTx` and the handlers of the messages.
use simple_blockchain_go.Storage.Service.{get as get_from_storage}
use simple_blockchain_go.Base.{
  Bool, Bytes, List, Option, Outcome, Slice, [], contains_func, content, err, false, if◌then◌else◌,
  json, len, ltb, none, not, not_nil, ok, or_err, panic, some, ℕ, ◌%◌, ◌&&◌, ◌++◌, ◌+◌, ◌-◌, ◌==◌,
  ◌>>=◌, ◌∷◌,
}
use simple_blockchain_go.Common.{hash_size, u64_mod}
use simple_blockchain_go.Common.Hex.{to_hex}
use simple_blockchain_go.Env.{Env}
use simple_blockchain_go.Memory.Service.{MemoryService, append_tx, contains_tx}
use simple_blockchain_go.Nodes.Node.{Node}
use simple_blockchain_go.Nodes.Sync.Messages.{
  BlockResponseMsg, SyncJson, TransactionMsg, block_request_message, block_response_message,
  tx_message, verify_block_request, verify_block_response, verify_tx_msg,
}
use simple_blockchain_go.P2p.Messages.{is_same_ip, pack_payload, sync_message}
use simple_blockchain_go.P2p.Service.{P2pService, Sent, broadcast, send}
use simple_blockchain_go.Rpc.{verify_call}
use simple_blockchain_go.Storage.Bolt.{Bolt}
use simple_blockchain_go.Storage.Service.{blocks, by_index}
use simple_blockchain_go.Types.{Block, NodeInfo, Transaction}

-- A block handed to the channel of its height.
abbrev pub Delivered : Type 0
Delivered = Option (ℕ × Block)

-- What a block without a verification must hold: the first one of a chain.
unfoldable pub is_first_block : Block → Bool
is_first_block b =
    not_nil b.info.hash
    && len b.info.hash == hash_size
    && not_nil b.previous_block_hash
    && len b.previous_block_hash == hash_size
    && not_nil b.state_hash
    && len b.state_hash == hash_size

module _ (e : Env) where
  -- The call in the transaction is read and verified.
  unfoldable pub is_call : Transaction → Bool
  is_call t = elim (e.call_json.unmarshal (content t.inner_data.payload)) [
    | none ↦ false
    | some c ↦ verify_call e c
  ]

module _ (e : Env) (js : SyncJson) where
  -- `BroadcastTx`
  unfoldable pub broadcast_tx : Transaction → List NodeInfo → P2pService → Sent × Outcome (Unit {0})
  broadcast_tx t origin ps =
      let origins = origin ++ ps.info ∷ [] in
      elim (pack_payload js.tx_msg_json (record { origins = origins; tx = t })
        (sync_message ∷ tx_message ∷ [])) [
          | ok payload ↦ (broadcast payload origins ps, ok tt)
          | err x ↦ ([], err x)
          | panic ↦ ([], panic)
        ]

  -- `handleTx`, of a message that passed `Verify`.
  unfoldable pub accept_tx :
      TransactionMsg → P2pService → MemoryService → MemoryService × Sent × Outcome (Unit {0})
  unfolding is_call
  accept_tx msg ps ms =
      if not (is_call e msg.tx)
      then (ms, [], ok tt)
      else if contains_func msg.origins (λ n. is_same_ip n ps.info)
      then (ms, [], ok tt)
      else if contains_tx e msg.tx.hash ms
      then (ms, [], ok tt)
      else (let (sent, r) = broadcast_tx msg.tx msg.origins ps in (append_tx e msg.tx ms, sent, r))

  -- `handleTx`
  unfoldable pub handle_tx_msg :
      Bytes → P2pService → MemoryService → MemoryService × Sent × Outcome (Unit {0})
  unfolding accept_tx
  handle_tx_msg raw ps ms = elim (js.tx_msg_json.unmarshal raw) [
    | none ↦ (ms, [], err json)
    | some msg ↦ elim (verify_tx_msg e msg) [
      | ok good ↦ if good then accept_tx msg ps ms else (ms, [], ok tt)
      | err x ↦ (ms, [], err x)
      | panic ↦ (ms, [], panic)
    ]
  ]

  unfoldable pub check_response : BlockResponseMsg → Outcome Bool
  unfolding is_first_block
  check_response msg =
      if not (msg.block.info.height == 0)
      then verify_block_response e msg
      else ok (is_first_block msg.block)

  -- The channel of the block's height, among those that are open; none are, if the map is nil.
  unfoldable pub deliver : Option (List ℕ) → Block → Delivered
  deliver none b = none
  deliver (some open_heights) b =
      if contains_func open_heights (λ h. h == b.info.height) then some (b.info.height, b) else none

  -- `handleBlockRes`
  unfoldable pub handle_block_res : Option (List ℕ) → Bytes → Outcome Delivered
  unfolding check_response deliver
  handle_block_res channels raw = do
    msg ← or_err (js.block_response_json.unmarshal raw) json
    good ← check_response msg
    ok (if good then deliver channels msg.block else none)

  module _ (bolt : Bolt) where
    -- The answer to a request whose block was found.
    unfoldable pub respond : NodeInfo → Slice → P2pService → Outcome Sent
    respond to none ps = ok []
    respond to (some raw) ps = do
      blk ← or_err (e.block_json.unmarshal raw) json
      payload ←
          pack_payload js.block_response_json (record { from = ps.info; block = blk })
            (sync_message ∷ block_response_message ∷ [])
      ok (send to payload ps)

    -- `handleBlockReq`; `NextHeight () - 1` wraps around.
    unfoldable pub handle_block_req : Bytes → P2pService → Node bolt → Outcome Sent
    unfolding respond
    handle_block_req raw ps n = do
      req ← or_err (js.block_request_json.unmarshal raw) json
      if not (verify_block_request e req)
          then ok []
          else if ltb ((n.chain.next_height + u64_mod - 1) % u64_mod) req.height
          then ok []
          else respond req.from
              (get_from_storage bolt blocks by_index (some (to_hex 8 req.height)) n.db) ps

    -- What `handleSyncMessage` leaves: the memory, what it sent, the block that it delivered, and the
    -- error.
    pub record Handled : Type 0 where
      pub memory : MemoryService
      pub sent : Sent
      pub delivered : Delivered
      pub result : Outcome (Unit {0})

    abbrev quiet : MemoryService → Outcome (Unit {0}) → Handled
    quiet ms r = record { memory = ms; sent = []; delivered = none; result = r }

    abbrev of_tx : MemoryService × Sent × Outcome (Unit {0}) → Handled
    of_tx (ms, sent, r) = record { memory = ms; sent = sent; delivered = none; result = r }

    abbrev pub of_request : MemoryService → Outcome Sent → Handled
    of_request ms (ok sent) = record { memory = ms; sent = sent; delivered = none; result = ok tt }
    of_request ms (err x) = quiet ms (err x)
    of_request ms panic = quiet ms panic

    abbrev pub of_response : MemoryService → Outcome Delivered → Handled
    of_response ms (ok d) = record { memory = ms; sent = []; delivered = d; result = ok tt }
    of_response ms (err x) = quiet ms (err x)
    of_response ms panic = quiet ms panic

    -- `handleSyncMessage`: `raw[0]` and `raw[1]` may be out of range.
    unfoldable pub handle_sync_message : Bytes → Option (List ℕ) → P2pService → Node bolt → Handled
    handle_sync_message [] channels ps n = quiet n.memory panic
    handle_sync_message (network ∷ []) channels ps n =
        quiet n.memory (if network == sync_message then panic else ok tt)
    handle_sync_message (network ∷ kind ∷ raw) channels ps n =
        if not (network == sync_message)
        then quiet n.memory (ok tt)
        else if kind == tx_message
        then of_tx (handle_tx_msg raw ps n.memory)
        else if kind == block_request_message
        then of_request n.memory (handle_block_req raw ps n)
        else if kind == block_response_message
        then of_response n.memory (handle_block_res channels raw)
        else quiet n.memory (ok tt)

-- ===== src/Nodes/Sync/Exchange.antt =====
-- nodes/sync/sync_service.go: a block is asked of a node that has it, over the messages.
use simple_blockchain_go.Storage.Service.{get as get_from_storage, put as put_in_storage}
use simple_blockchain_go.Base.{
  Bool-cases, Bytes, List, Option, Option-cases, Outcome-cases, [], ap, arith, contains_func, false,
  inl, inr, len, length, ltb, none, ok, refl, some, true, ℕ, ◌%◌, ◌+◌, ◌-◌, ◌<◌, ◌==◌, ◌∙◌, ◌∷◌,
  ◌≡◌, ◌≤◌,
}
use simple_blockchain_go.Common.{max_payload_size, u64_mod}
use simple_blockchain_go.Common.Hex.{to_hex}
use simple_blockchain_go.Env.{Env, IsFaithful}
use simple_blockchain_go.Nodes.Node.{Node}
use simple_blockchain_go.Nodes.Stored.{put_block_lem}
use simple_blockchain_go.Nodes.Sync.Blocks.{block_content}
use simple_blockchain_go.Nodes.Sync.Handlers.{
  Delivered, check_response, deliver, handle_block_req, handle_block_res, handle_sync_message,
  respond,
}
use simple_blockchain_go.Nodes.Sync.Loop.{block_request}
use simple_blockchain_go.Nodes.Sync.Messages.{
  SyncJson, block_request_message, block_response_message, verify_block_request,
}
use simple_blockchain_go.P2p.Messages.{is_same_ip, pack_payload, sync_message, verify_node}
use simple_blockchain_go.P2p.Service.{P2pService, Sent, handle_inbound, other, peer_by_index, send}
use simple_blockchain_go.Storage.Bolt.{Bolt, IsBolt}
use simple_blockchain_go.Storage.Service.{blocks, by_index}
use simple_blockchain_go.Types.{Block, NodeInfo}

-- A message of this kind, and of a size that is taken, goes to the handlers of the services.
handle_inbound_sync :
    (raw : Bytes)
    → length (sync_message ∷ raw) ≤ max_payload_size
    → handle_inbound (sync_message ∷ raw) ≡ ok (other (sync_message ∷ raw))
unfolding handle_inbound
handle_inbound_sync raw fits = ground arith

module _ (e : Env) (js : SyncJson) where
  send-one :
      (p to : NodeInfo) (sent payload : Bytes) (ps : P2pService)
      → send p sent ps ≡ (to, payload) ∷ []
      → payload ≡ sent
  unfolding send
  send-one p to sent payload ps h = elim (Bool-cases (is_same_ip p ps.info)) [
    | inl same ↦ absurd (ground arith)
    | inr apart ↦ ground arith
  ]

  block_request-sent :
      (height index : ℕ) (ps : P2pService) (to : NodeInfo) (payload : Bytes)
      → block_request js height index ps ≡ ok ((to, payload) ∷ [])
      → (raw : Bytes) × (js.block_request_json.marshal (record { from = ps.info; height = height })
          ≡ some raw)
        × (payload ≡ sync_message ∷ block_request_message ∷ raw)
  unfolding block_request pack_payload
  block_request-sent height index ps to payload h =
      elim (Option-cases
        (js.block_request_json.marshal (record { from = ps.info; height = height }))) [
          | inl bad ↦ absurd (ground arith)
          | inr (raw, enc) ↦ (
            raw,
            enc,
            elim (Outcome-cases (peer_by_index index ps)) [
              | inr bad ↦ absurd (ground arith)
              | inl (none, none_there) ↦ absurd (ground arith)
              | inl (some p, there) ↦
                  send-one p to (sync_message ∷ block_request_message ∷ raw) payload ps
                    (ground arith)
            ],
          )
        ]

  handle_block_res-delivers :
      (open_heights : List ℕ) (from : NodeInfo) (blk : Block) (body : Bytes)
      → js.block_response_json.unmarshal body ≡ some (record { from = from; block = blk })
      → check_response e js (record { from = from; block = blk }) ≡ ok true
      → contains_func open_heights (λ h. h == blk.info.height) ≡ true
      → handle_block_res e js (some open_heights) body ≡ ok (some (blk.info.height, blk))
  unfolding handle_block_res deliver
  handle_block_res-delivers open_heights from blk body read good there = ground arith

  -- The height that a node has reached, as the handler computes it.
  last_height :
      (next height : ℕ)
      → height < next
      → next < u64_mod
      → ltb ((next + u64_mod - 1) % u64_mod) height ≡ false
  last_height next height below bound = ground arith

  module _ (bolt : Bolt) where
    respond-sends :
        (to : NodeInfo) (ps : P2pService) (enc body : Bytes) (blk : Block)
        → is_same_ip to ps.info ≡ false
        → e.block_json.unmarshal enc ≡ some blk
        → js.block_response_json.marshal (record { from = ps.info; block = blk }) ≡ some body
        → respond e js bolt to (some enc) ps
          ≡ ok ((to, sync_message ∷ block_response_message ∷ body) ∷ [])
    unfolding respond pack_payload send
    respond-sends to ps enc body blk apart read made = ground arith

    handle_block_req-sends :
        (raw enc : Bytes) (ps : P2pService) (n : Node bolt) (from : NodeInfo) (height : ℕ)
        → js.block_request_json.unmarshal raw ≡ some (record { from = from; height = height })
        → verify_node from ≡ true
        → height < n.chain.next_height
        → n.chain.next_height < u64_mod
        → get_from_storage bolt blocks by_index (some (to_hex 8 height)) n.db ≡ some enc
        → handle_block_req e js bolt raw ps n ≡ respond e js bolt from (some enc) ps
    unfolding handle_block_req verify_block_request
    handle_block_req-sends raw enc ps n from height read known below bound found =
        ground (arith, last_height n.chain.next_height height below bound)

    handle_sync_message-block_request :
        (raw : Bytes) (sent : Sent) (channels : Option (List ℕ)) (ps : P2pService) (n : Node bolt)
        → handle_block_req e js bolt raw ps n ≡ ok sent
        → let h =
            handle_sync_message e js bolt
              (sync_message ∷ block_request_message ∷ raw)
              channels
              ps
              n in
          (h.memory ≡ n.memory) × (h.sent ≡ sent)
    unfolding handle_sync_message
    handle_sync_message-block_request raw sent channels ps n h = rw h (refl, refl)

    handle_sync_message-block_response :
        (raw : Bytes) (d : Delivered) (channels : Option (List ℕ)) (ps : P2pService) (n : Node bolt)
        → handle_block_res e js channels raw ≡ ok d
        → let reply = sync_message ∷ block_response_message ∷ raw in
          (handle_sync_message e js bolt reply channels ps n).delivered ≡ d
    unfolding handle_sync_message
    handle_sync_message-block_response raw d channels ps n h = rw h refl

    -- A node that stored a block, with a hash of 32 bytes and an encoding within the database's bound, as
    -- the last one put, and has a next height above the block's, answers the request for its height, from a
    -- peer with a valid address that is not its own, with the block. The node that asked hands that block to
    -- the channel of the height, if the channel is open and the block passes the check of responses. Blocks
    -- and messages are read back as they were marshalled, and the request and the response are within the
    -- 2048 bytes that `handleInbound` takes, so that it hands each of them to the handler.
    pub handle_sync_message-exchange :
        IsBolt bolt
        → IsFaithful e.block_json
        → IsFaithful js.block_request_json
        → IsFaithful js.block_response_json
        → (blk : Block) (enc body payload : Bytes) (index : ℕ) (open_heights : List ℕ)
          (here there : P2pService) (asks has : Node bolt) (db : bolt.Db)
          (channels : Option (List ℕ))
        → e.block_json.marshal blk ≡ some enc
        → length enc ≤ 2147483646
        → len blk.info.hash ≡ 32
        → has.db ≡ (put_in_storage bolt blocks (some (block_content e blk)) db).0
        → blk.info.height < has.chain.next_height
        → has.chain.next_height < u64_mod
        → verify_node here.info ≡ true
        → is_same_ip here.info there.info ≡ false
        → block_request js blk.info.height index here ≡ ok ((there.info, payload) ∷ [])
        → js.block_response_json.marshal (record { from = there.info; block = blk }) ≡ some body
        → check_response e js (record { from = there.info; block = blk }) ≡ ok true
        → contains_func open_heights (λ h. h == blk.info.height) ≡ true
        → length payload ≤ max_payload_size
        → length (sync_message ∷ block_response_message ∷ body) ≤ max_payload_size
        → let asked = handle_sync_message e js bolt payload channels there has in
          let reply = sync_message ∷ block_response_message ∷ body in
          (handle_inbound payload ≡ ok (other payload))
          × (asked.memory ≡ has.memory)
          × (asked.sent ≡ (here.info, reply) ∷ [])
          × (handle_inbound reply ≡ ok (other reply))
          × ((handle_sync_message e js bolt reply (some open_heights) here asks).delivered
              ≡ some (blk.info.height, blk))
    handle_sync_message-exchange laws fb fq fr blk enc body payload index open_heights here there
          asks has db channels made small sized stored_there below bound known apart asked answer
          good opened asked_fits reply_fits =
        let (raw, request, is_payload) =
          block_request-sent blk.info.height index here there.info payload asked in
        let (went, found, newest) = put_block_lem bolt e laws blk enc db made small sized in
        let read = fq (record { from = here.info; height = blk.info.height }) raw request in
        let sends =
          handle_block_req-sends raw enc there has here.info blk.info.height read known below bound
            (ap (λ d. get_from_storage bolt blocks by_index (some (to_hex 8 blk.info.height)) d)
                stored_there
              ∙ found)
          ∙ respond-sends here.info there enc body blk apart (fb blk enc made) answer in
        let (memory, sent) =
          handle_sync_message-block_request raw
            ((here.info, sync_message ∷ block_response_message ∷ body) ∷ []) channels there has
            sends in
        let delivered =
          handle_sync_message-block_response body (some (blk.info.height, blk)) (some open_heights)
            here asks
            (handle_block_res-delivers open_heights there.info blk body
              (fr (record { from = there.info; block = blk }) body answer) good opened) in
        let asked_fits' : length (sync_message ∷ block_request_message ∷ raw) ≤ max_payload_size =
          omega (arith, ap length is_payload) in
        rw is_payload (
          handle_inbound_sync (block_request_message ∷ raw) asked_fits',
          memory,
          sent,
          handle_inbound_sync (block_response_message ∷ body) reply_fits,
          delivered,
        )

-- ===== src/Nodes/Sync/Loop.antt =====
-- nodes/sync/sync_service.go: `StartSync`, `sync` and `blockRequest`.
use simple_blockchain_go.Base.{
  Bool, Error, List, Option, Outcome, Sort, [], false, if◌then◌else◌, length, ltb, none, ok, or_err,
  out_of_peers, some, suc, true, zero, ℕ, ◌%◌, ◌+◌, ◌>>=◌, ◌∷◌,
}
use simple_blockchain_go.Common.{u64_mod}
use simple_blockchain_go.Env.{Env}
use simple_blockchain_go.Merkle.{MerkleNode}
use simple_blockchain_go.Nodes.Node.{Node}
use simple_blockchain_go.Nodes.Sync.Blocks.{apply_block, crashed, refused, stopped_by, stored}
use simple_blockchain_go.Nodes.Sync.Messages.{SyncJson, block_request_message}
use simple_blockchain_go.P2p.Messages.{pack_payload, sync_message}
use simple_blockchain_go.P2p.Service.{P2pService, Sent, peer_by_index, send}
use simple_blockchain_go.Storage.Bolt.{Bolt}
use simple_blockchain_go.Types.{Block}

-- What arrives on the channel of a height, before the timer fires or not.
pub data Answer : Type 0 where
  timed_out : Answer
  failed_answer : Error → Answer
  nil_block : Answer
  got_block : Block → Answer

-- How `sync` ends: at its target, with the flag cleared for another try, or with an error or in a
-- call that panics or never returns, which leave the flag set.
pub data SyncEnd : Type 0 where
  synced : SyncEnd
  gave_up : SyncEnd
  sync_failed : Error → SyncEnd
  sync_crashed : SyncEnd

-- `blockRequest`: the message sent, or the error that goes to the channel.
unfoldable pub block_request : SyncJson → ℕ → ℕ → P2pService → Outcome Sent
block_request js height index ps = do
  payload ←
      pack_payload js.block_request_json (record { from = ps.info; height = height })
        (sync_message ∷ block_request_message ∷ [])
  peer ← peer_by_index index ps
  to ← or_err peer out_of_peers
  ok (send to payload ps)

-- The heights that one round asks for, one of each peer.
unfoldable pub request_heights : ℕ → ℕ → ℕ → List ℕ
request_heights zero current target = []
request_heights (suc peers) current target =
    let next = (current + 1) % u64_mod in
    let rest = request_heights peers next target in
    if ltb target next then current ∷ [] else current ∷ rest

-- The flag `isSyncing` after `sync`.
unfoldable pub flag_after : SyncEnd → Bool
flag_after synced = false
flag_after gave_up = false
flag_after (sync_failed x) = true
flag_after sync_crashed = true

module _ (bolt : Bolt) where
  -- The end of a round: the target is passed, there is another round, or `sync` returns.
  unfoldable pub end_round :
      ℕ
      → ℕ
      → (Node bolt → Option (Node bolt × SyncEnd))
      → Node bolt × SyncEnd
      → Option (Node bolt × SyncEnd)
  end_round target next again (n, synced) = elim (ltb target next) [
    | true ↦ some (n, synced)
    | false ↦ again n
  ]
  end_round target next again (n, gave_up) = some (n, gave_up)
  end_round target next again (n, sync_failed x) = some (n, sync_failed x)
  end_round target next again (n, sync_crashed) = some (n, sync_crashed)

module _ (bolt : Bolt) (e : Env) (now : ℕ) (sort_nodes : Sort MerkleNode)
    (answer : ℕ → Answer) where
  -- The loop over the channels of one round.
  unfoldable pub wait_each : List ℕ → Node bolt → Node bolt × SyncEnd
  wait_each [] n = (n, synced)
  wait_each (h ∷ heights) n = elim (answer h) [
    | timed_out ↦ (n, gave_up)
    | failed_answer x ↦ (n, sync_failed x)
    | nil_block ↦ (n, sync_crashed)
    | got_block blk ↦
        let (n', r) = apply_block bolt e now sort_nodes blk n in
        elim r [
          | stored ↦ wait_each heights n'
          | refused ↦ (n', gave_up)
          | stopped_by x ↦ (n', sync_failed x)
          | crashed ↦ (n', sync_crashed)
        ]
  ]

  -- The loop of `sync`, where `peers round` peers are known in a round; `none` if the fuel runs out.
  unfoldable pub sync_loop : ℕ → (ℕ → ℕ) → ℕ → ℕ → ℕ → Node bolt → Option (Node bolt × SyncEnd)
  unfolding end_round
  sync_loop zero peers round target current n = none
  sync_loop (suc fuel) peers round target current n =
      let heights = request_heights (peers round) current target in
      let next = (current + length heights) % u64_mod in
      end_round bolt target next (λ n'. sync_loop fuel peers (round + 1) target next n')
        (wait_each heights n)

  -- `sync`
  unfoldable pub sync : ℕ → (ℕ → ℕ) → ℕ → Node bolt → Option (Node bolt × SyncEnd)
  unfolding sync_loop
  sync fuel peers target n = sync_loop fuel peers 0 target n.chain.next_height n

  -- `StartSync`, with the flag `isSyncing`: the node and the flag once `sync` has ended.
  unfoldable pub start_sync : Bool → ℕ → (ℕ → ℕ) → ℕ → Node bolt → Option (Node bolt × Bool)
  unfolding sync
  start_sync true fuel peers target n = some (n, true)
  start_sync false fuel peers target n = elim (sync fuel peers target n) [
    | none ↦ none
    | some (n', how) ↦ some (n', flag_after how)
  ]

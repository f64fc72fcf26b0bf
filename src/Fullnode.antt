-- ===== src/Fullnode.antt =====
-- fullnode/full_node.go: the services of one node, put together and started. What runs in goroutines
-- is in the modules of the services.
pub mod Laws
pub mod Start
use simple_blockchain_go.Base.{Bytes, Outcome, err, false, ok, panic, ℕ, ◌*◌, ◌+◌, ◌-◌, ◌/◌, ◌>>=◌}
use simple_blockchain_go.Consensus.Service.{ConsensusService, new_consensus_service}
use simple_blockchain_go.Env.{Codec, Env}
use simple_blockchain_go.Memory.Service.{new_memory_service}
use simple_blockchain_go.Nodes.Node.{Node, new_node, run_node}
use simple_blockchain_go.P2p.Messages.{P2pJson, consensus_node, new_node_info, sync_node}
use simple_blockchain_go.P2p.Network.{local_discovery}
use simple_blockchain_go.P2p.Service.{P2pService, Sent, new_p2p_service}
use simple_blockchain_go.Storage.Bolt.{Bolt}
use simple_blockchain_go.Storage.Open.{Opener, new_storage_service}
use simple_blockchain_go.Tests.Data.{wallet}
use simple_blockchain_go.Types.{NodeInfo}
use simple_blockchain_go.Wallets.{Wallet}
use simple_blockchain_go.Wallets.Files.{Files, KeyPair, new_wallet}

-- `syncTime`: the microseconds to wait, at a clock of `now_mic` microseconds.
unfoldable pub sync_time : ℕ → ℕ
sync_time now_mic =
    let now_sec = now_mic / 1000000 in let t = (now_sec + 1) * 1000000 in t - now_mic

-- The node with its two peer services, its RPC server, the consensus service, and its wallet.
pub record FullNode (bolt : Bolt) : Type 0 where
  pub node : Node bolt
  pub sync_peers : P2pService
  pub rpc_info : NodeInfo
  pub consensus_peers : P2pService
  pub consensus : ConsensusService
  pub wallet : Wallet

module _ (files : Files) (bolt : Bolt) (opener : Opener files bolt) (key_json : Codec KeyPair) where
  -- What `NewFullNode` puts together, over an open database and a wallet.
  unfoldable pub assemble_node : Bytes → Bytes → Bytes → bolt.Db → Wallet → FullNode bolt
  assemble_node sync_port consensus_port rpc_port db w = record {
    node = new_node bolt db new_memory_service;
    sync_peers = new_p2p_service sync_port sync_node;
    rpc_info = new_node_info rpc_port 0;
    consensus_peers = new_p2p_service consensus_port consensus_node;
    consensus = new_consensus_service;
    wallet = w;
  }

  -- `NewFullNode`
  unfoldable pub new_full_node :
      Outcome KeyPair
      → Bytes
      → Bytes
      → Bytes
      → Bytes
      → files.Disk
      → files.Disk × Outcome (FullNode bolt)
  unfolding assemble_node
  new_full_node generated name sync_port consensus_port rpc_port d =
      let (d₁, s) = new_storage_service files bolt opener name d in
      elim s [
        | err x ↦ (d₁, err x)
        | panic ↦ (d₁, panic)
        | ok db ↦
            let (d₂, w) = new_wallet files key_json generated name d₁ in
            (d₂, w >>= λ w. ok (assemble_node sync_port consensus_port rpc_port db w))
      ]

-- A full node that was started, the messages by which it looks for others, and the first error.
pub record Started (bolt : Bolt) : Type 0 where
  pub full : FullNode bolt
  pub consensus_hellos : Sent
  pub sync_hellos : Sent
  pub result : Outcome (Unit {0})

module _ (bolt : Bolt) (e : Env) (js : P2pJson) (itoa : ℕ → Bytes) (now : ℕ) where
  -- `Run` of the sync service, up to the handler: what it sends and the error of `Discover`.
  unfoldable pub start_sync : P2pService → Sent × Outcome (Unit {0})
  start_sync ps = local_discovery js itoa 3000 3002 ps

  -- `Run` of the consensus service, up to the loop, with the counts and the flag that it stores.
  unfoldable pub start_consensus :
      P2pService → ConsensusService → ConsensusService × Sent × Outcome (Unit {0})
  start_consensus ps cs =
      let (hellos, r) = local_discovery js itoa 5000 5002 ps in
      (record cs { num_voted = 0; num_voted_ok = 0; waiting_finality = false }, hellos, r)

  -- `FullNode.Run`, until the services wait for messages: the consensus service starts before the node.
  unfoldable pub run_full_node : FullNode bolt → Started bolt
  run_full_node full =
      let (consensus, consensus_hellos, r₁) = start_consensus full.consensus_peers full.consensus in
      let (sync_hellos, r₂) = start_sync full.sync_peers in
      let (node, r₃) = run_node bolt e now full.node in
      record {
        full = record full { node = node; consensus = consensus };
        consensus_hellos = consensus_hellos;
        sync_hellos = sync_hellos;
        result = r₁ >>= λ u. r₂ >>= λ v. r₃;
      }

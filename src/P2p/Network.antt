-- ===== src/P2p/Network.antt =====
-- p2p/discovery.go, p2p/p2pService.go, p2p/server.go and p2p/transporter.go: the nodes of a network and
-- the messages that are on their way between them. Every `send` of a transporter runs in its own
-- goroutine, so the messages arrive in any order, and a dial that fails is reported at any time.
pub mod Segregation
pub mod Received
pub mod Reached
pub mod Handshake
use simple_blockchain_go.Base.{
  Bytes, List, Option, Outcome, [], err, if◌then◌else◌, map, none, ok, panic, some, suc, zero, ℕ,
  ◌++◌, ◌-◌, ◌∷◌,
}
use simple_blockchain_go.P2p.Messages.{
  P2pJson, consensus_message, hello_message, is_same_ip, new_node_info, pack_payload, sync_message,
}
use simple_blockchain_go.P2p.Service.{
  Inbound, P2pService, Sent, broadcast, handle_inbound, handle_join, handle_welcome, join, other,
  remove_peer, skipped, welcome,
}
use simple_blockchain_go.Types.{NodeInfo}

-- The loop of `localDiscovery` over as many ports from `p` on. `itoa` is `strconv.Itoa`.
unfoldable pub greet_ports : (ℕ → Bytes) → Bytes → NodeInfo → ℕ → ℕ → Sent
greet_ports itoa payload self zero p = []
greet_ports itoa payload self (suc count) p =
    let to = new_node_info (itoa p) 0 in
    let rest = greet_ports itoa payload self count (suc p) in
    if is_same_ip self to then rest else (to, payload) ∷ rest

-- A message that a transporter was given, with the node that sends it.
pub record Message : Type 0 where
  pub sender : NodeInfo
  pub to : NodeInfo
  pub payload : Bytes

pub record Network : Type 0 where
  pub nodes : List P2pService
  pub flight : List Message

pub data Topic : Type 0 where
  on_sync on_consensus : Topic

abbrev pub kind_of : Topic → ℕ
kind_of on_sync = sync_message
kind_of on_consensus = consensus_message

-- What happens on the network: a node looks for others, broadcasts a message of the sync or of the
-- consensus service, a message arrives, or the dial for a message fails.
pub data Event : Type 0 where
  discovers : NodeInfo → ℕ → ℕ → Event
  tells : NodeInfo → Topic → Bytes → List NodeInfo → Event
  arrives : ℕ → Event
  dial_fails : ℕ → Event

-- The message at a place, and the others.
unfoldable pub take_message : ℕ → List Message → Option (Message × List Message)
take_message i [] = none
take_message zero (m ∷ ms) = some (m, ms)
take_message (suc i) (m ∷ ms) = elim (take_message i ms) [
  | none ↦ none
  | some (x, rest) ↦ some (x, m ∷ rest)
]

abbrev pub sent_by : NodeInfo → Sent → List Message
sent_by self sent = map (λ s. record { sender = self; to = s.0; payload = s.1 }) sent

-- What the node of an address does, if there is one.
unfoldable pub at_node :
    NodeInfo → (P2pService → P2pService × Sent) → List P2pService → List P2pService × List Message
at_node who f [] = ([], [])
at_node who f (n ∷ nodes) =
    let rest = at_node who f nodes in
    if is_same_ip who n.info
    then ((f n).0 ∷ nodes, sent_by n.info (f n).1)
    else (n ∷ rest.0, rest.1)

-- A node that does something, and the messages on their way besides what it sends.
unfoldable pub act :
    NodeInfo → (P2pService → P2pService × Sent) → List P2pService → List Message → Network
act who f nodes flight =
    let (nodes', sent) = at_node who f nodes in record { nodes = nodes'; flight = flight ++ sent }

-- `onFail`. What the function given to `SetOnFail` does has no part in the peers.
unfoldable pub on_fail : NodeInfo → P2pService → P2pService × Sent
on_fail failed ps = (remove_peer failed ps, [])

-- A node that knows no peers yet, and a network of such nodes.
abbrev pub fresh : NodeInfo → P2pService
fresh info = record { info = info; peers = [] }

abbrev pub fresh_network : List NodeInfo → Network
fresh_network infos = record { nodes = map fresh infos; flight = [] }

module _ (js : P2pJson) where
  -- `localDiscovery`
  unfoldable pub local_discovery : (ℕ → Bytes) → ℕ → ℕ → P2pService → Sent × Outcome (Unit {0})
  unfolding greet_ports
  local_discovery itoa discovery_min discovery_max ps =
      elim (pack_payload js.hello_json (record { from = ps.info }) (hello_message ∷ [])) [
        | ok payload ↦ (
          greet_ports itoa payload ps.info (suc discovery_max - discovery_min) discovery_min,
          ok tt,
        )
        | err x ↦ ([], err x)
        | panic ↦ ([], panic)
      ]

  -- The switch of `handleInbound`. What the handler that was given to `Run` does with the other
  -- messages has no part in the peers.
  unfoldable pub handle_kind : Inbound → P2pService → P2pService × Sent × Outcome (Unit {0})
  handle_kind skipped ps = (ps, [], ok tt)
  handle_kind (join raw) ps = handle_join js raw ps
  handle_kind (welcome raw) ps = handle_welcome js raw ps
  handle_kind (other raw) ps = (ps, [], ok tt)

  -- `handleInbound`, on the bytes that a connection held.
  unfoldable pub receive : Bytes → P2pService → P2pService × Sent × Outcome (Unit {0})
  unfolding handle_kind
  receive raw ps = elim (handle_inbound raw) [
    | ok inbound ↦ handle_kind inbound ps
    | err x ↦ (ps, [], err x)
    | panic ↦ (ps, [], panic)
  ]

  abbrev pub deliver : Bytes → P2pService → P2pService × Sent
  deliver raw ps = let (ps', sent, r) = receive raw ps in (ps', sent)

  unfoldable pub step : (ℕ → Bytes) → Event → Network → Network
  step itoa (discovers who lo hi) net =
      act who (λ ps. (ps, (local_discovery itoa lo hi ps).0)) net.nodes net.flight
  step itoa (tells who topic body except) net =
      act who (λ ps. (ps, broadcast (kind_of topic ∷ body) except ps)) net.nodes net.flight
  step itoa (arrives i) net = elim (take_message i net.flight) [
    | none ↦ net
    | some (m, rest) ↦ act m.to (deliver m.payload) net.nodes rest
  ]
  step itoa (dial_fails i) net = elim (take_message i net.flight) [
    | none ↦ net
    | some (m, rest) ↦ act m.sender (on_fail m.to) net.nodes rest
  ]

  unfoldable pub run_network : (ℕ → Bytes) → List Event → Network → Network
  run_network itoa [] net = net
  run_network itoa (ev ∷ evs) net = run_network itoa evs (step itoa ev net)

-- ===== src/P2p/Service.antt =====
-- p2p/p2pService.go and p2p/discovery.go.
use simple_blockchain_go.Base.{
  Bool, Bytes, List, Option, Outcome, [], contains_func, delete_first, err, get_elem?,
  if◌then◌else◌, length, ltb, none, not, ok, panic, some, suc, ℕ, ◌&&◌, ◌++◌, ◌==◌, ◌∷◌,
}
use simple_blockchain_go.Common.{max_payload_size}
use simple_blockchain_go.P2p.Messages.{
  HelloMsg, P2pJson, WelcomeMsg, hello_message, is_same_ip, new_node_info, pack_payload,
  verify_hello, verify_welcome, welcome_message,
}
use simple_blockchain_go.Types.{NodeInfo}

pub record P2pService : Type 0 where
  pub info : NodeInfo  -- of the server
  pub peers : List NodeInfo

-- `NewP2pService`
abbrev pub new_p2p_service : Bytes → ℕ → P2pService
new_p2p_service port network = record { info = new_node_info port network; peers = [] }

abbrev pub Sent : Type 0
Sent = List (NodeInfo × Bytes)

-- `KnowsPeer`
abbrev pub knows_peer : List NodeInfo → NodeInfo → Bool
knows_peer peers peer = contains_func peers (λ p. is_same_ip peer p)

-- `addPeer`
unfoldable pub add_peer : NodeInfo → P2pService → P2pService
add_peer peer ps =
    if not (knows_peer ps.peers peer) && not (is_same_ip ps.info peer)
    then record ps { peers = ps.peers ++ peer ∷ [] }
    else ps

-- `removePeer`
unfoldable pub remove_peer : NodeInfo → P2pService → P2pService
remove_peer peer ps = record ps { peers = delete_first ps.peers (λ p. is_same_ip peer p) }

-- `Send`
unfoldable pub send : NodeInfo → Bytes → P2pService → Sent
send to payload ps = if is_same_ip to ps.info then [] else (to, payload) ∷ []

-- The loops of `Broadcast` over the peers, and over the exceptions for one peer.
unfoldable pub send_to_all : Bytes → List NodeInfo → Sent
send_to_all payload [] = []
send_to_all payload (p ∷ peers) = (p, payload) ∷ send_to_all payload peers

unfoldable pub send_unless : Bytes → NodeInfo → List NodeInfo → Sent
send_unless payload p [] = []
send_unless payload p (exc ∷ except) =
    let rest = send_unless payload p except in
    if is_same_ip p exc then rest else (p, payload) ∷ rest

unfoldable pub send_to_others : Bytes → List NodeInfo → List NodeInfo → Sent
unfolding send_unless
send_to_others payload [] except = []
send_to_others payload (p ∷ peers) except =
    send_unless payload p except ++ send_to_others payload peers except

-- `Broadcast`
unfoldable pub broadcast : Bytes → List NodeInfo → P2pService → Sent
unfolding send_to_all send_to_others
broadcast payload except ps =
    if length except == 0
    then send_to_all payload ps.peers
    else send_to_others payload ps.peers except

-- `PeerByIndex`, of an index that is not negative. The slice is indexed past its end by the index
-- that equals its length.
unfoldable pub peer_by_index : ℕ → P2pService → Outcome (Option NodeInfo)
peer_by_index idx ps =
    if length ps.peers == 0
    then ok none
    else if ltb (length ps.peers) idx
    then ok none
    else elim (get_elem? ps.peers idx) [ none ↦ panic | some p ↦ ok (some p) ]

-- What an inbound message is handed to.
pub data Inbound : Type 0 where
  skipped : Inbound
  join : Bytes → Inbound
  welcome : Bytes → Inbound
  other : Bytes → Inbound

-- `handleInbound`, up to the handler: `raw[0]` of an empty message is out of range.
unfoldable pub handle_inbound : Bytes → Outcome Inbound
handle_inbound [] = panic
handle_inbound (kind ∷ raw) =
    if ltb max_payload_size (suc (length raw))
    then ok skipped
    else if kind == hello_message
    then ok (join raw)
    else if kind == welcome_message
    then ok (welcome raw)
    else ok (other (kind ∷ raw))

module _ (js : P2pJson) where
  -- `handleJoin`, of a message that was read.
  unfoldable pub join_peer : HelloMsg → P2pService → P2pService × Sent × Outcome (Unit {0})
  join_peer hello ps =
      if verify_hello hello && hello.from.network == ps.info.network
      then (let ps' = add_peer hello.from ps in
          elim (pack_payload js.welcome_json (record { from = ps.info; known_peer = ps'.peers })
            (welcome_message ∷ [])) [
              | ok payload ↦ (ps', (hello.from, payload) ∷ [], ok tt)
              | err x ↦ (ps', [], err x)
              | panic ↦ (ps', [], panic)
            ])
      else (ps, [], ok tt)

  unfoldable pub handle_join : Bytes → P2pService → P2pService × Sent × Outcome (Unit {0})
  unfolding join_peer
  handle_join raw ps = elim (js.hello_json.unmarshal raw) [
    | none ↦ (ps, [], ok tt)
    | some hello ↦ join_peer hello ps
  ]

  -- The peers of a welcome that are greeted: those not known, this node left out.
  unfoldable pub greet : Bytes → List NodeInfo → P2pService → Sent
  greet payload [] ps = []
  greet payload (peer ∷ peers) ps =
      let rest = greet payload peers ps in
      if not (knows_peer ps.peers peer) && not (is_same_ip ps.info peer)
      then (peer, payload) ∷ rest
      else rest

  -- `handleWelcome`, of a message that was read.
  unfoldable pub welcome_peer : WelcomeMsg → P2pService → P2pService × Sent × Outcome (Unit {0})
  unfolding greet
  welcome_peer w ps =
      if verify_welcome w
      then (let ps' = add_peer w.from ps in
          elim (pack_payload js.hello_json (record { from = ps.info }) (hello_message ∷ [])) [
            | ok payload ↦ (ps', greet payload w.known_peer ps', ok tt)
            | err x ↦ (ps', [], if length w.known_peer == 0 then ok tt else err x)
            | panic ↦ (ps', [], panic)
          ])
      else (ps, [], ok tt)

  unfoldable pub handle_welcome : Bytes → P2pService → P2pService × Sent × Outcome (Unit {0})
  unfolding welcome_peer
  handle_welcome raw ps = elim (js.welcome_json.unmarshal raw) [
    | none ↦ (ps, [], ok tt)
    | some w ↦ welcome_peer w ps
  ]

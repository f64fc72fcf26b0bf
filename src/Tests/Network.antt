-- ===== src/Tests/Network.antt =====
-- The theorems on the network of nodes at concrete inputs.
use simple_blockchain_go.Base.{
  All, Bytes, List, Option, [], ap, arith, bytes_eq, drop, drop-append, false, inl, inr, length,
  none, refl, replicate, some, sym, take, take-append, true, ℕ, ◌++◌, ◌∙◌, ◌∷◌, ◌≡◌, ◌⊎◌,
}
use simple_blockchain_go.Env.{Codec, IsFaithful}
use simple_blockchain_go.P2p.Laws.{same_ip_comm}
use simple_blockchain_go.P2p.Messages.{
  HelloMsg, P2pJson, WelcomeMsg, is_same_ip, verify_node, verify_welcome, welcome_message,
}
use simple_blockchain_go.P2p.Network.{
  Event, arrives, dial_fails, discovers, fresh, fresh_network, receive, run_network,
}
use simple_blockchain_go.P2p.Network.Handshake.{receive_handshake, welcome_by}
use simple_blockchain_go.P2p.Network.Reached.{run_network-IsSound}
use simple_blockchain_go.P2p.Network.Segregation.{IsSound}
use simple_blockchain_go.P2p.Service.{P2pService, add_peer, knows_peer}
use simple_blockchain_go.Tests.Nodes.{node_at}
use simple_blockchain_go.Types.{NodeInfo}

abbrev read_hello : Bytes → Option HelloMsg
read_hello [] = none
read_hello (n ∷ ip) = some (record { from = record { ip4 = ip; network = n } })

abbrev write_hello : HelloMsg → Option Bytes
write_hello h = some (h.from.network ∷ h.from.ip4)

abbrev hello_codec : Codec HelloMsg
hello_codec = record { marshal = write_hello; unmarshal = read_hello }

hello_codec-IsFaithful : IsFaithful hello_codec
hello_codec-IsFaithful a b e =
    let same : a.from.network ∷ a.from.ip4 ≡ b = cc in ap read_hello (sym same)

-- A welcome of a node with at most one peer.
abbrev write_peers : NodeInfo → List NodeInfo → Option Bytes
write_peers from [] = some (from.network ∷ length from.ip4 ∷ (from.ip4 ++ []))
write_peers from (p ∷ []) = some (from.network ∷ length from.ip4 ∷ (from.ip4 ++ p.network ∷ p.ip4))
write_peers from (p ∷ q ∷ peers) = none

abbrev read_peers : NodeInfo → Bytes → Option WelcomeMsg
read_peers from [] = some (record { from = from; known_peer = [] })
read_peers from (n ∷ ip) =
    some (record { from = from; known_peer = record { ip4 = ip; network = n } ∷ [] })

abbrev read_welcome : Bytes → Option WelcomeMsg
read_welcome (n ∷ size ∷ l) = read_peers (record { ip4 = take size l; network = n }) (drop size l)
read_welcome _ = none

abbrev welcome_codec : Codec WelcomeMsg
welcome_codec = record { marshal = λ w. write_peers w.from w.known_peer; unmarshal = read_welcome }

faithful_peers :
    (from : NodeInfo) (peers : List NodeInfo) (b : Bytes)
    → write_peers from peers ≡ some b
    → read_welcome b ≡ some (record { from = from; known_peer = peers })
faithful_peers from [] b e =
    let same : from.network ∷ length from.ip4 ∷ (from.ip4 ++ []) ≡ b = cc in
    ap read_welcome (sym same) ∙ rw (take-append from.ip4 [], drop-append from.ip4 []) refl
faithful_peers from (p ∷ []) b e =
    let same : from.network ∷ length from.ip4 ∷ (from.ip4 ++ p.network ∷ p.ip4) ≡ b = cc in
    ap read_welcome (sym same)
    ∙ rw (take-append from.ip4 (p.network ∷ p.ip4), drop-append from.ip4 (p.network ∷ p.ip4)) refl
faithful_peers from (p ∷ q ∷ peers) b e = cc

welcome_codec-IsFaithful : IsFaithful welcome_codec
welcome_codec-IsFaithful a b e = faithful_peers a.from a.known_peer b e

abbrev pub network_json : P2pJson
network_json = record { hello_json = hello_codec; welcome_json = welcome_codec }

-- The two nodes.
abbrev OneOfTwo : NodeInfo → Type 0
OneOfTwo n = (n ≡ node_at 49) ⊎ (n ≡ node_at 50)

apart_nodes : is_same_ip (node_at 49) (node_at 50) ≡ false
unfolding bytes_eq
apart_nodes = refl

two_nodes_unique : (a b : NodeInfo) → OneOfTwo a → OneOfTwo b → is_same_ip a b ≡ true → a ≡ b
two_nodes_unique a b (inl x) (inl y) h = x ∙ sym y
two_nodes_unique a b (inr x) (inr y) h = x ∙ sym y
two_nodes_unique a b (inl x) (inr y) h =
    absurd (cc (apart_nodes, h, ap (λ n. is_same_ip n b) x, ap (is_same_ip (node_at 49)) y))
two_nodes_unique a b (inr x) (inl y) h = absurd (
    cc (
      apart_nodes,
      h,
      ap (is_same_ip a) y,
      ap (λ n. is_same_ip n (node_at 49)) x,
      same_ip_comm (node_at 50) (node_at 49),
    ))

-- The first node looks for others on three ports, and all that is sent arrives.
abbrev meeting : List Event
meeting = discovers (node_at 49) 48 50 ∷ arrives 1 ∷ arrives 1 ∷ dial_fails 0 ∷ []

abbrev port_name : ℕ → Bytes
port_name p = replicate 4 p

run_network-IsSound_example :
    All
      (IsSound OneOfTwo)
      (run_network network_json port_name meeting
        (fresh_network (node_at 49 ∷ node_at 50 ∷ []))).nodes
run_network-IsSound_example =
    run_network-IsSound network_json OneOfTwo hello_codec-IsFaithful welcome_codec-IsFaithful
      two_nodes_unique port_name (node_at 49 ∷ node_at 50 ∷ []) meeting (inl refl, (inr refl, tt))

abbrev alone : ℕ → P2pService
alone n = fresh (node_at n)

abbrev hello_bytes : Bytes
hello_bytes = 2 ∷ (node_at 49).ip4

abbrev welcome_bytes : Bytes
welcome_bytes = 2 ∷ 14 ∷ ((node_at 50).ip4 ++ 2 ∷ (node_at 49).ip4)

valid_node : verify_node (node_at 49) ≡ true
unfolding bytes_eq verify_node
valid_node = refl

valid_welcome : verify_welcome (welcome_by network_json (alone 50) (alone 49)) ≡ true
unfolding bytes_eq verify_welcome add_peer
valid_welcome = refl

welcome_written :
    (welcome_codec.marshal (welcome_by network_json (alone 50) (alone 49)) ≡ some welcome_bytes)
    × (welcome_codec.unmarshal welcome_bytes ≡ some (welcome_by network_json (alone 50) (alone 49)))
unfolding bytes_eq add_peer
welcome_written = (refl, refl)

receive_handshake_example :
    knows_peer
      (receive network_json (welcome_message ∷ welcome_bytes) (alone 49)).0.peers
      (node_at 50)
    ≡ true
receive_handshake_example =
    (receive_handshake network_json (alone 49) (alone 50) hello_bytes welcome_bytes valid_node
      valid_welcome refl apart_nodes refl refl (omega arith) welcome_written.0 welcome_written.1
      (omega arith)).3

-- ===== src/P2p/Network/Handshake.antt =====
-- p2p/discovery.go: the hello and the welcome by which two nodes come to know one another.
use simple_blockchain_go.Base.{
  Bool-cases, Bytes, List, [], ap, arith, bytes_eq, bytes_eq_iff, bytes_eq_self, contains_func,
  false, inl, inr, length, ltb, ok, refl, some, suc, sym, true, ◌&&◌, ◌==◌, ◌||◌, ◌∙◌, ◌∷◌, ◌≡◌,
  ◌≤◌,
}
use simple_blockchain_go.Common.{max_payload_size}
use simple_blockchain_go.P2p.Laws.{knows_peer-append, reaches, same_ip_comm}
use simple_blockchain_go.P2p.Messages.{
  HelloMsg, P2pJson, WelcomeMsg, hello_message, is_same_ip, pack_payload, verify_hello, verify_node,
  verify_welcome, welcome_message,
}
use simple_blockchain_go.P2p.Network.{handle_kind, receive}
use simple_blockchain_go.P2p.Network.Segregation.{add_peer-info}
use simple_blockchain_go.P2p.Service.{
  P2pService, add_peer, greet, handle_inbound, handle_join, handle_welcome, join_peer, knows_peer,
  welcome_peer,
}
use simple_blockchain_go.Types.{NodeInfo}

module _ (js : P2pJson) where
  knows_peer-add_peer :
      (peer : NodeInfo) (ps : P2pService)
      → is_same_ip ps.info peer ≡ false
      → knows_peer (add_peer peer ps).peers peer ≡ true
  unfolding add_peer
  knows_peer-add_peer peer ps apart =
      ground (arith, knows_peer-append ps.peers peer peer, bytes_eq_self peer.ip4)

  receive-hello :
      (b : Bytes) (hello : HelloMsg) (ps : P2pService)
      → suc (length b) ≤ max_payload_size
      → js.hello_json.unmarshal b ≡ some hello
      → receive js (hello_message ∷ b) ps ≡ join_peer js hello ps
  unfolding receive handle_inbound handle_kind handle_join
  receive-hello b hello ps fits read =
      let small : ltb max_payload_size (suc (length b)) ≡ false = ground arith in
      rw (small, receive) (rw (read, handle_join) refl)

  receive-welcome :
      (b : Bytes) (w : WelcomeMsg) (ps : P2pService)
      → suc (length b) ≤ max_payload_size
      → js.welcome_json.unmarshal b ≡ some w
      → receive js (welcome_message ∷ b) ps ≡ welcome_peer js w ps
  unfolding receive handle_inbound handle_kind handle_welcome
  receive-welcome b w ps fits read =
      let small : ltb max_payload_size (suc (length b)) ≡ false = ground arith in
      rw (small, receive) (rw (read, handle_welcome) refl)

  -- Who is in a welcome is known, is the node itself, or is greeted.
  greet-reaches :
      (payload : Bytes) (peers : List NodeInfo) (ps : P2pService) (p : NodeInfo)
      → knows_peer peers p ≡ true
      → (knows_peer ps.peers p || is_same_ip ps.info p || reaches p (greet js payload peers ps))
        ≡ true
  unfolding greet
  greet-reaches payload [] ps p h = cc
  greet-reaches payload (x ∷ peers) ps p h = elim (Bool-cases (is_same_ip p x)) [
    | inl same ↦
        let ip : p.ip4 ≡ x.ip4 = (bytes_eq_iff p.ip4 x.ip4).0 same in
        let known : knows_peer ps.peers p ≡ knows_peer ps.peers x =
          ap (λ i. contains_func ps.peers (λ q. bytes_eq i q.ip4)) ip in
        let own : is_same_ip ps.info p ≡ is_same_ip ps.info x = ap (bytes_eq ps.info.ip4) ip in
        ground arith
    | inr differs ↦ ground (arith, greet-reaches payload peers ps p)
  ]

  abbrev pub hello_of_node : P2pService → HelloMsg
  hello_of_node a = record { from = a.info }

  -- The welcome of `b` to `a`.
  abbrev pub welcome_by : P2pService → P2pService → WelcomeMsg
  welcome_by b a = record { from = b.info; known_peer = (add_peer a.info b).peers }

  join_peer-answers :
      (a b : P2pService) (w : Bytes)
      → verify_node a.info ≡ true
      → a.info.network ≡ b.info.network
      → js.welcome_json.marshal (welcome_by b a) ≡ some w
      → join_peer js (hello_of_node a) b
        ≡ (add_peer a.info b, (a.info, welcome_message ∷ w) ∷ [], ok tt)
  unfolding join_peer pack_payload verify_hello
  join_peer-answers a b w va same wm =
      let met : (verify_hello (hello_of_node a) && a.info.network == b.info.network) ≡ true =
        ground arith in
      rw (met, join_peer) (rw wm refl)

  welcome_peer-greets :
      (a : P2pService) (m : WelcomeMsg) (h : Bytes)
      → verify_welcome m ≡ true
      → js.hello_json.marshal (hello_of_node a) ≡ some h
      → let a' = add_peer m.from a in
        welcome_peer js m a ≡ (a', greet js (hello_message ∷ h) m.known_peer a', ok tt)
  unfolding welcome_peer pack_payload
  welcome_peer-greets a m h vw hm = rw (vw, welcome_peer) (rw hm refl)

  -- Two nodes of one network, with valid addresses that differ. The JSON of the hello of the first and
  -- of the welcome of the second, with the peers that the second then has, are read as they were
  -- written and are within the limit on the size of a message, and the addresses of those peers are
  -- valid. The second answers the hello with the welcome and with no error. Afterwards each knows the
  -- other, and the first knows or greets every peer of the second other than itself.
  pub receive_handshake :
      (a b : P2pService) (h w : Bytes)
      → verify_node a.info ≡ true
      → verify_welcome (welcome_by b a) ≡ true
      → a.info.network ≡ b.info.network
      → is_same_ip a.info b.info ≡ false
      → js.hello_json.marshal (hello_of_node a) ≡ some h
      → js.hello_json.unmarshal h ≡ some (hello_of_node a)
      → suc (length h) ≤ max_payload_size
      → js.welcome_json.marshal (welcome_by b a) ≡ some w
      → js.welcome_json.unmarshal w ≡ some (welcome_by b a)
      → suc (length w) ≤ max_payload_size
      → let b' = add_peer a.info b in
        let (a', greeted, r) = receive js (welcome_message ∷ w) a in
        (receive js (hello_message ∷ h) b ≡ (b', (a.info, welcome_message ∷ w) ∷ [], ok tt))
        × (r ≡ ok tt)
        × (knows_peer b'.peers a.info ≡ true)
        × (knows_peer a'.peers b.info ≡ true)
        × ((p : NodeInfo)
            → knows_peer b'.peers p ≡ true
            → (knows_peer a'.peers p || is_same_ip a.info p || reaches p greeted) ≡ true)
  receive_handshake a b h w va vw same apart hm hu hs wm wu ws =
      let a' = add_peer b.info a in
      let known = (welcome_by b a).known_peer in
      rw (receive-welcome w (welcome_by b a) a ws wu) (
        rw (welcome_peer-greets a (welcome_by b a) h vw hm) (
          receive-hello h (hello_of_node a) b hs hu ∙ join_peer-answers a b w va same wm,
          refl,
          knows_peer-add_peer a.info b (same_ip_comm b.info a.info ∙ apart),
          knows_peer-add_peer b.info a apart,
          λ p known_p.
              rw (sym (ap (λ (n : NodeInfo). is_same_ip n p) (add_peer-info (λ n. Unit) b.info a)))
                (greet-reaches (hello_message ∷ h) known a' p known_p),
        ))

-- ===== src/P2p/Network/Segregation.antt =====
-- p2p/: which nodes a node comes to know, whatever the order in which messages arrive.
use simple_blockchain_go.Base.{
  All, All-append, All-delete_first, Bool, Bool-cases, Bytes, List, Option-cases, Outcome, [],
  arith, false, if◌then◌else◌, inl, inr, not, refl, some, suc, true, zero, ℕ, ◌&&◌, ◌-◌, ◌==◌, ◌∷◌,
  ◌≡◌,
}
use simple_blockchain_go.P2p.Messages.{
  HelloMsg, P2pJson, WelcomeMsg, hello_message, is_same_ip, new_node_info, pack_payload,
  verify_hello, verify_welcome, welcome_message,
}
use simple_blockchain_go.P2p.Network.{Topic, greet_ports, kind_of, local_discovery}
use simple_blockchain_go.P2p.Service.{
  P2pService, Sent, add_peer, greet, join_peer, knows_peer, remove_peer, welcome_peer,
}
use simple_blockchain_go.Types.{NodeInfo}

module _ (World : NodeInfo → Type 0) where
  -- A node that runs, of the same network as another.
  abbrev pub Fellow : NodeInfo → NodeInfo → Type 0
  Fellow self p = World p × (p.network ≡ self.network)

  -- A node of the world that knows fellows only.
  abbrev pub IsSound : P2pService → Type 0
  IsSound ps = World ps.info × All (Fellow ps.info) ps.peers

  pub add_peer-info : (peer : NodeInfo) (ps : P2pService) → (add_peer peer ps).info ≡ ps.info
  unfolding add_peer
  add_peer-info peer ps = ground arith

  pub add_peer-fellows :
      (peer : NodeInfo) (ps : P2pService)
      → IsSound ps
      → Fellow ps.info peer
      → All (Fellow ps.info) (add_peer peer ps).peers
  unfolding add_peer
  add_peer-fellows peer ps h f =
      ground (arith, All-append (Fellow ps.info) ps.peers (peer ∷ []) h.1 (f, tt))

  pub remove_peer-IsSound :
      (peer : NodeInfo) (ps : P2pService) → IsSound ps → IsSound (remove_peer peer ps)
  unfolding remove_peer
  remove_peer-IsSound peer ps h =
      (h.0, All-delete_first (Fellow ps.info) ps.peers (λ p. is_same_ip peer p) h.1)

module _ (js : P2pJson) (World : NodeInfo → Type 0) where
  -- The messages that nodes send: a hello of a node, the welcome of a node with its fellows to one of
  -- them, and messages of other kinds.
  pub data IsSent : NodeInfo → Bytes → Type 0 where
    hello_of :
        {to from : NodeInfo} {b : Bytes}
        → World from
        → js.hello_json.marshal (record { from = from }) ≡ some b
        → IsSent to (hello_message ∷ b)
    welcome_of :
        {to from : NodeInfo} {known_peer : List NodeInfo} {b : Bytes}
        → World from
        → All (Fellow World from) known_peer
        → World to
        → to.network ≡ from.network
        → js.welcome_json.marshal (record { from = from; known_peer = known_peer }) ≡ some b
        → IsSent to (welcome_message ∷ b)
    else_of : {to : NodeInfo} (topic : Topic) {b : Bytes} → IsSent to (kind_of topic ∷ b)

  abbrev pub AllSent : Sent → Type 0
  AllSent sent = All (λ (s : NodeInfo × Bytes). IsSent s.0 s.1) sent

  pub AllSent-if : (c : Bool) (s t : Sent) → AllSent s → AllSent t → AllSent (if c then s else t)
  AllSent-if true s t hs ht = hs
  AllSent-if false s t hs ht = ht

  -- Every hello of a node is sent, whoever it goes to.
  greet_ports-AllSent :
      (itoa : ℕ → Bytes) (b : Bytes) (self : NodeInfo) (count p : ℕ)
      → World self
      → js.hello_json.marshal (record { from = self }) ≡ some b
      → AllSent (greet_ports itoa (hello_message ∷ b) self count p)
  unfolding greet_ports
  greet_ports-AllSent itoa b self zero p w h = tt
  greet_ports-AllSent itoa b self (suc count) p w h =
      let rest = greet_ports-AllSent itoa b self count (suc p) w h in
      AllSent-if (is_same_ip self (new_node_info (itoa p) 0)) _ _ rest (hello_of w h, rest)

  greet-AllSent :
      (b : Bytes) (self : NodeInfo) (peers : List NodeInfo) (ps : P2pService)
      → World self
      → js.hello_json.marshal (record { from = self }) ≡ some b
      → AllSent (greet js (hello_message ∷ b) peers ps)
  unfolding greet
  greet-AllSent b self [] ps w h = tt
  greet-AllSent b self (p ∷ peers) ps w h =
      let rest = greet-AllSent b self peers ps w h in
      AllSent-if (not (knows_peer ps.peers p) && not (is_same_ip ps.info p)) _ _
        (hello_of w h, rest) rest

  pub local_discovery-AllSent :
      (itoa : ℕ → Bytes) (lo hi : ℕ) (ps : P2pService)
      → World ps.info
      → AllSent (local_discovery js itoa lo hi ps).0
  unfolding local_discovery pack_payload
  local_discovery-AllSent itoa lo hi ps w =
      elim (Option-cases (js.hello_json.marshal (record { from = ps.info }))) [
        | inl silent ↦ rw (silent, local_discovery) tt
        | inr (b, packed) ↦
            rw (packed, local_discovery)
              (greet_ports-AllSent itoa b ps.info (suc hi - lo) lo w packed)
      ]

  -- What a node does, where it stays sound and sends what nodes send.
  abbrev pub Keeps : P2pService → P2pService × Sent × Outcome (Unit {0}) → Type 0
  Keeps ps (ps', sent, r) =
      (ps'.info ≡ ps.info) × All (Fellow World ps.info) ps'.peers × AllSent sent

  pub join_peer-Keeps :
      (hello : HelloMsg) (ps : P2pService)
      → World hello.from
      → IsSound World ps
      → Keeps ps (join_peer js hello ps)
  unfolding join_peer pack_payload
  join_peer-Keeps hello ps w h =
      elim (Bool-cases (verify_hello hello && hello.from.network == ps.info.network)) [
        | inr bad ↦ rw (bad, join_peer) (refl, h.1, tt)
        | inl fine ↦
            let same : hello.from.network ≡ ps.info.network = ground arith in
            let info = add_peer-info World hello.from ps in
            let fellows = add_peer-fellows World hello.from ps h (w, same) in
            let m : WelcomeMsg = record {
              from = ps.info;
              known_peer = (add_peer hello.from ps).peers;
            } in
            elim (Option-cases (js.welcome_json.marshal m)) [
              | inl silent ↦ rw (fine, join_peer) (rw silent (info, fellows, tt))
              | inr (b, packed) ↦
                  rw (fine, join_peer)
                    (rw packed (info, fellows, (welcome_of h.0 fellows w same packed, tt)))
            ]
      ]

  pub welcome_peer-Keeps :
      (m : WelcomeMsg) (ps : P2pService)
      → World m.from
      → m.from.network ≡ ps.info.network
      → IsSound World ps
      → Keeps ps (welcome_peer js m ps)
  unfolding welcome_peer pack_payload
  welcome_peer-Keeps m ps w same h = elim (Bool-cases (verify_welcome m)) [
    | inr bad ↦ rw (bad, welcome_peer) (refl, h.1, tt)
    | inl fine ↦
        let info = add_peer-info World m.from ps in
        let fellows = add_peer-fellows World m.from ps h (w, same) in
        elim (Option-cases (js.hello_json.marshal (record { from = ps.info }))) [
          | inl silent ↦ rw (fine, welcome_peer) (rw silent (info, fellows, tt))
          | inr (b, packed) ↦
              rw (fine, welcome_peer)
                (rw packed (
                  info,
                  fellows,
                  greet-AllSent b ps.info m.known_peer (add_peer m.from ps) h.0 packed,
                ))
        ]
  ]

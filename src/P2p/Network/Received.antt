-- ===== src/P2p/Network/Received.antt =====
-- p2p/: what a node does with a message that nodes send, and what it broadcasts.
use simple_blockchain_go.Base.{
  All-append, Bool-cases, Bytes, List, [], ap, arith, inl, inr, length, ltb, ok, refl, some, suc,
  sym, true, ℕ, ◌==◌, ◌∙◌, ◌∷◌, ◌≡◌,
}
use simple_blockchain_go.Common.{max_payload_size}
use simple_blockchain_go.Env.{IsFaithful}
use simple_blockchain_go.P2p.Messages.{
  P2pJson, WelcomeMsg, hello_message, is_same_ip, welcome_message,
}
use simple_blockchain_go.P2p.Network.{Topic, handle_kind, kind_of, on_consensus, on_sync, receive}
use simple_blockchain_go.P2p.Network.Segregation.{
  AllSent, AllSent-if, IsSent, IsSound, Keeps, else_of, hello_of, join_peer-Keeps, welcome_of,
  welcome_peer-Keeps,
}
use simple_blockchain_go.P2p.Service.{
  P2pService, broadcast, handle_inbound, handle_join, handle_welcome, send_to_all, send_to_others,
  send_unless,
}
use simple_blockchain_go.Types.{NodeInfo}

module _ (js : P2pJson) (World : NodeInfo → Type 0) (hello_faithful : IsFaithful js.hello_json)
    (welcome_faithful : IsFaithful js.welcome_json)
    (unique : (a b : NodeInfo) → World a → World b → is_same_ip a b ≡ true → a ≡ b) where
  handle_kind-hello :
      (from : NodeInfo) (b : Bytes) (ps : P2pService)
      → World from
      → js.hello_json.marshal (record { from = from }) ≡ some b
      → IsSound World ps
      → Keeps js World ps (handle_join js b ps)
  unfolding handle_join
  handle_kind-hello from b ps w packed h =
      rw (hello_faithful (record { from = from }) b packed, handle_join)
        (join_peer-Keeps js World (record { from = from }) ps w h)

  handle_kind-welcome :
      (from : NodeInfo) (known_peer : List NodeInfo) (b : Bytes) (ps : P2pService)
      → World from
      → from.network ≡ ps.info.network
      → js.welcome_json.marshal (record { from = from; known_peer = known_peer }) ≡ some b
      → IsSound World ps
      → Keeps js World ps (handle_welcome js b ps)
  unfolding handle_welcome
  handle_kind-welcome from known_peer b ps w same packed h =
      let m : WelcomeMsg = record { from = from; known_peer = known_peer } in
      rw (welcome_faithful m b packed, handle_welcome) (welcome_peer-Keeps js World m ps w same h)

  receive_skipped :
      (kind : ℕ) (b : Bytes) (ps : P2pService)
      → ltb max_payload_size (suc (length b)) ≡ true
      → receive js (kind ∷ b) ps ≡ (ps, [], ok tt)
  unfolding receive handle_inbound
  receive_skipped kind b ps big = rw (big, receive) refl

  receive_else :
      (topic : Topic) (b : Bytes) (ps : P2pService)
      → receive js (kind_of topic ∷ b) ps ≡ (ps, [], ok tt)
  unfolding receive handle_inbound handle_kind
  receive_else on_sync b ps = ground arith
  receive_else on_consensus b ps = ground arith

  -- A message that arrives where it was sent to.
  pub receive-Keeps :
      {to : NodeInfo} {raw : Bytes} (ps : P2pService)
      → IsSent js World to raw
      → is_same_ip to ps.info ≡ true
      → IsSound World ps
      → Keeps js World ps (receive js raw ps)
  unfolding receive handle_inbound
  receive-Keeps ps (hello_of {to} {from} {b} w packed) here h =
      elim (Bool-cases (ltb max_payload_size (suc (length b)))) [
        | inl big ↦ rw (receive_skipped hello_message b ps big) (refl, h.1, tt)
        | inr fits ↦ rw (fits, receive) (handle_kind-hello from b ps w packed h)
      ]
  receive-Keeps ps (welcome_of {to} {from} {known_peer} {b} w fellows there same packed) here h =
      elim (Bool-cases (ltb max_payload_size (suc (length b)))) [
        | inl big ↦ rw (receive_skipped welcome_message b ps big) (refl, h.1, tt)
        | inr fits ↦
            let self : to ≡ ps.info = unique to ps.info there h.0 here in
            rw (fits, receive)
              (handle_kind-welcome from known_peer b ps w
                (sym same ∙ ap (λ (n : NodeInfo). n.network) self) packed h)
      ]
  receive-Keeps ps (else_of topic {b}) here h = rw (receive_else topic b ps) (refl, h.1, tt)

module _ (js : P2pJson) (World : NodeInfo → Type 0) where
  send_to_all-AllSent :
      (topic : Topic) (body : Bytes) (peers : List NodeInfo)
      → AllSent js World (send_to_all (kind_of topic ∷ body) peers)
  unfolding send_to_all
  send_to_all-AllSent topic body [] = tt
  send_to_all-AllSent topic body (p ∷ peers) = (else_of topic, send_to_all-AllSent topic body peers)

  send_unless-AllSent :
      (topic : Topic) (body : Bytes) (p : NodeInfo) (except : List NodeInfo)
      → AllSent js World (send_unless (kind_of topic ∷ body) p except)
  unfolding send_unless
  send_unless-AllSent topic body p [] = tt
  send_unless-AllSent topic body p (exc ∷ except) =
      let rest = send_unless-AllSent topic body p except in
      AllSent-if js World (is_same_ip p exc) _ _ rest (else_of topic, rest)

  send_to_others-AllSent :
      (topic : Topic) (body : Bytes) (peers except : List NodeInfo)
      → AllSent js World (send_to_others (kind_of topic ∷ body) peers except)
  unfolding send_to_others
  send_to_others-AllSent topic body [] except = tt
  send_to_others-AllSent topic body (p ∷ peers) except =
      All-append (λ (s : NodeInfo × Bytes). IsSent js World s.0 s.1) _ _
        (send_unless-AllSent topic body p except) (send_to_others-AllSent topic body peers except)

  pub broadcast-AllSent :
      (topic : Topic) (body : Bytes) (except : List NodeInfo) (ps : P2pService)
      → AllSent js World (broadcast (kind_of topic ∷ body) except ps)
  unfolding broadcast
  broadcast-AllSent topic body except ps =
      AllSent-if js World (length except == 0) _ _ (send_to_all-AllSent topic body ps.peers)
        (send_to_others-AllSent topic body ps.peers except)

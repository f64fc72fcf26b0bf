-- ===== src/P2p/Network/Reached.antt =====
-- p2p/: a network of nodes that started without peers.
use simple_blockchain_go.Base.{
  All, All-append, Bool-cases, Bytes, List, Option, [], inl, inr, map, none, refl, some, suc, true,
  zero, ℕ, ◌∷◌, ◌≡◌,
}
use simple_blockchain_go.Env.{IsFaithful}
use simple_blockchain_go.P2p.Messages.{P2pJson, is_same_ip}
use simple_blockchain_go.P2p.Network.{
  Event, Message, Network, act, arrives, at_node, deliver, dial_fails, discovers, fresh,
  fresh_network, on_fail, run_network, sent_by, step, take_message, tells,
}
use simple_blockchain_go.P2p.Network.Received.{broadcast-AllSent, receive-Keeps}
use simple_blockchain_go.P2p.Network.Segregation.{
  AllSent, Fellow, IsSent, IsSound, local_discovery-AllSent, remove_peer-IsSound,
}
use simple_blockchain_go.P2p.Service.{P2pService, Sent, remove_peer}
use simple_blockchain_go.Types.{NodeInfo}

module _ (js : P2pJson) (World : NodeInfo → Type 0) (hello_faithful : IsFaithful js.hello_json)
    (welcome_faithful : IsFaithful js.welcome_json)
    (unique : (a b : NodeInfo) → World a → World b → is_same_ip a b ≡ true → a ≡ b) where
  -- What a node does, as `Keeps` has it, without the end of its goroutine.
  abbrev Acts : P2pService → P2pService × Sent → Type 0
  Acts ps (ps', sent) =
      (ps'.info ≡ ps.info) × All (Fellow World ps.info) ps'.peers × AllSent js World sent

  abbrev AllFlying : List Message → Type 0
  AllFlying flight = All (λ (m : Message). IsSent js World m.to m.payload) flight

  -- Every node knows fellows only, and every message on its way is one that nodes send.
  abbrev pub IsSegregated : Network → Type 0
  IsSegregated net = All (IsSound World) net.nodes × AllFlying net.flight

  sent_by-AllFlying :
      (self : NodeInfo) (sent : Sent) → AllSent js World sent → AllFlying (sent_by self sent)
  sent_by-AllFlying self [] h = tt
  sent_by-AllFlying self (s ∷ sent) h = (h.0, sent_by-AllFlying self sent h.1)

  acted-IsSound :
      (ps : P2pService) (r : P2pService × Sent) → IsSound World ps → Acts ps r → IsSound World r.0
  acted-IsSound ps r h acts = rw acts.0 (h.0, acts.1)

  at_node-IsSound :
      (who : NodeInfo) (f : P2pService → P2pService × Sent) (nodes : List P2pService)
      → ((ps : P2pService) → is_same_ip who ps.info ≡ true → IsSound World ps → Acts ps (f ps))
      → All (IsSound World) nodes
      → All (IsSound World) (at_node who f nodes).0 × AllFlying (at_node who f nodes).1
  unfolding at_node
  at_node-IsSound who f [] acts h = (tt, tt)
  at_node-IsSound who f (n ∷ nodes) acts h = elim (Bool-cases (is_same_ip who n.info)) [
    | inl here ↦
        let done' = acts n here h.0 in
        rw here ((acted-IsSound n (f n) h.0 done', h.1), sent_by-AllFlying n.info (f n).1 done'.2)
    | inr away ↦
        let (sound, flying) = at_node-IsSound who f nodes acts h.1 in rw away ((h.0, sound), flying)
  ]

  act-IsSegregated :
      (who : NodeInfo) (f : P2pService → P2pService × Sent) (nodes : List P2pService)
      (flight : List Message)
      → ((ps : P2pService) → is_same_ip who ps.info ≡ true → IsSound World ps → Acts ps (f ps))
      → All (IsSound World) nodes
      → AllFlying flight
      → IsSegregated (act who f nodes flight)
  unfolding act
  act-IsSegregated who f nodes flight acts h flying =
      let (sound, sent) = at_node-IsSound who f nodes acts h in
      (sound, All-append (λ (m : Message). IsSent js World m.to m.payload) flight _ flying sent)

  -- A message that was taken, with the others.
  abbrev Taken : Option (Message × List Message) → Type 0
  Taken none = Unit
  Taken (some (m, rest)) = IsSent js World m.to m.payload × AllFlying rest

  take_message-Taken :
      (i : ℕ) (flight : List Message) → AllFlying flight → Taken (take_message i flight)
  unfolding take_message
  take_message-Taken i [] h = tt
  take_message-Taken zero (m ∷ flight) h = h
  take_message-Taken (suc i) (m ∷ flight) h =
      back m h.0 (take_message i flight) (take_message-Taken i flight h.1)
    where
      back :
          (m : Message)
          → IsSent js World m.to m.payload
          → (o : Option (Message × List Message)) → Taken o
          → Taken (elim o [ none ↦ none | some (x, rest) ↦ some (x, m ∷ rest) ])
      back m hm none h = tt
      back m hm (some (x, rest)) h = (h.0, (hm, h.1))

  on_fail-Acts :
      (failed : NodeInfo) (ps : P2pService) → IsSound World ps → Acts ps (on_fail failed ps)
  unfolding on_fail remove_peer
  on_fail-Acts failed ps h = (refl, (remove_peer-IsSound World failed ps h).1, tt)

  step-IsSegregated :
      (itoa : ℕ → Bytes) (ev : Event) (net : Network)
      → IsSegregated net
      → IsSegregated (step js itoa ev net)
  unfolding step
  step-IsSegregated itoa (discovers who lo hi) net h =
      act-IsSegregated who _ net.nodes net.flight
        (λ ps here sound. (refl, sound.1, local_discovery-AllSent js World itoa lo hi ps sound.0))
        h.0 h.1
  step-IsSegregated itoa (tells who topic body except) net h =
      act-IsSegregated who _ net.nodes net.flight
        (λ ps here sound. (refl, sound.1, broadcast-AllSent js World topic body except ps)) h.0 h.1
  step-IsSegregated itoa (arrives i) net h =
      arrived (take_message i net.flight) (take_message-Taken i net.flight h.1)
    where
      arrived :
          (o : Option (Message × List Message))
          → Taken o
          → IsSegregated (elim o [
            | none ↦ net
            | some (m, rest) ↦ act m.to (deliver js m.payload) net.nodes rest
          ])
      arrived none t = h
      arrived (some (m, rest)) t =
          act-IsSegregated m.to (deliver js m.payload) net.nodes rest
            (λ ps here sound.
              receive-Keeps js World hello_faithful welcome_faithful unique ps t.0 here sound)
            h.0 t.1
  step-IsSegregated itoa (dial_fails i) net h =
      failed (take_message i net.flight) (take_message-Taken i net.flight h.1)
    where
      failed :
          (o : Option (Message × List Message))
          → Taken o
          → IsSegregated
              (elim o [ none ↦ net | some (m, rest) ↦ act m.sender (on_fail m.to) net.nodes rest ])
      failed none t = h
      failed (some (m, rest)) t =
          act-IsSegregated m.sender (on_fail m.to) net.nodes rest
            (λ ps here sound. on_fail-Acts m.to ps sound) h.0 t.1

  run_network-IsSegregated :
      (itoa : ℕ → Bytes) (evs : List Event) (net : Network)
      → IsSegregated net
      → IsSegregated (run_network js itoa evs net)
  unfolding run_network
  run_network-IsSegregated itoa [] net h = h
  run_network-IsSegregated itoa (ev ∷ evs) net h =
      run_network-IsSegregated itoa evs (step js itoa ev net) (step-IsSegregated itoa ev net h)

  fresh-IsSound : (infos : List NodeInfo) → All World infos → All (IsSound World) (map fresh infos)
  fresh-IsSound [] h = tt
  fresh-IsSound (i ∷ infos) h = ((h.0, tt), fresh-IsSound infos h.1)

  -- Nodes of a world in which no two have one address start without peers, look for others, broadcast
  -- messages of the sync and of the consensus service, take what arrives in any order, and drop the
  -- peers that cannot be dialled. If the JSON of hellos and of welcomes is read as it was written, then
  -- at any time every peer that a node knows is a node of the world, and of the node's own network.
  pub run_network-IsSound :
      (itoa : ℕ → Bytes) (infos : List NodeInfo) (evs : List Event)
      → All World infos
      → All (IsSound World) (run_network js itoa evs (fresh_network infos)).nodes
  run_network-IsSound itoa infos evs h =
      (run_network-IsSegregated itoa evs (fresh_network infos) (fresh-IsSound infos h, tt)).0

-- ===== src/Nodes/Sync/Target.antt =====
-- nodes/sync/sync_service.go: when `sync` ends, and where.
use native.Mathlib.Nat.{mod-eq_of_lt}
use simple_blockchain_go.Base.{
  Bool-cases, Error, List, Option, Sort, [], arith, false, inl, inr, length, ltb, ltb→lt, none,
  refl, some, suc, true, zero, ℕ, ◌%◌, ◌+◌, ◌<◌, ◌∙◌, ◌∷◌, ◌≡◌, ◌≢◌, ◌≤◌, ◌⊎◌,
}
use simple_blockchain_go.Common.{u64_mod}
use simple_blockchain_go.Env.{Env}
use simple_blockchain_go.Merkle.{MerkleNode}
use simple_blockchain_go.Nodes.Node.{Node}
use simple_blockchain_go.Nodes.Sync.Blocks.{apply_block, stored}
use simple_blockchain_go.Nodes.Sync.Loop.{
  Answer, SyncEnd, end_round, failed_answer, gave_up, got_block, nil_block, request_heights, sync,
  sync_crashed, sync_failed, sync_loop, synced, timed_out, wait_each,
}
use simple_blockchain_go.Nodes.Sync.Moves.{apply_block-chain, increment-next_height}
use simple_blockchain_go.Storage.Bolt.{Bolt}
use simple_blockchain_go.Types.{Block}

-- The rounds ask for consecutive heights, at least one while there are peers.
request_heights_lem :
    (peers current target : ℕ)
    → target + 1 < u64_mod
    → current ≤ target
    → (length (request_heights peers current target) ≤ peers)
      × (current + length (request_heights peers current target) ≤ target + 1)
      × (0 < peers → 0 < length (request_heights peers current target))
unfolding request_heights
request_heights_lem zero current target h le = (omega arith, omega arith, λ p. p)
request_heights_lem (suc peers) current target h le =
    let small : (current + 1) % u64_mod ≡ current + 1 = mod-eq_of_lt (omega arith) in
    elim (Bool-cases (ltb target (current + 1))) [
      | inl last ↦ rw (small, last) (omega arith, omega arith, λ p. omega arith)
      | inr more ↦
          let (few, below, some_left) =
            request_heights_lem peers (current + 1) target h (ground arith) in
          rw (small, more) (omega arith, omega arith, λ p. omega arith)
    ]

module _ (bolt : Bolt) where
  -- The loop has ended, and the predicate holds of how.
  abbrev pub Ends : Option (Node bolt × SyncEnd) → (Node bolt × SyncEnd → Type 0) → Type 0
  Ends none P = ⊥
  Ends (some r) P = P r

  end_round-Ends :
      (P : Node bolt × SyncEnd → Type 0) (target next : ℕ)
      (again : Node bolt → Option (Node bolt × SyncEnd)) (w : Node bolt × SyncEnd)
      → (w.1 ≡ synced → ltb target next ≡ true → P w)
      → (w.1 ≡ synced → ltb target next ≡ false → Ends (again w.0) P)
      → (w.1 ≢ synced → P w)
      → Ends (end_round bolt target next again w) P
  unfolding end_round
  end_round-Ends P target next again (n, synced) last more early =
      ground (arith, last refl, more refl)
  end_round-Ends P target next again (n, gave_up) last more early = early (λ h. cc)
  end_round-Ends P target next again (n, sync_failed x) last more early = early (λ h. cc)
  end_round-Ends P target next again (n, sync_crashed) last more early = early (λ h. cc)

Answer-cases :
    (a : Answer)
    → ((blk : Block) × (a ≡ got_block blk))
      ⊎ ((a ≡ timed_out) ⊎ (((x : Error) × (a ≡ failed_answer x)) ⊎ (a ≡ nil_block)))
Answer-cases (got_block blk) = inl (blk, refl)
Answer-cases timed_out = inr (inl refl)
Answer-cases (failed_answer x) = inr (inr (inl (x, refl)))
Answer-cases nil_block = inr (inr (inr refl))

module _ (bolt : Bolt) (e : Env) (now : ℕ) (sort_nodes : Sort MerkleNode) (answer : ℕ → Answer)
    (target : ℕ) (bounded : target + 1 < u64_mod) where
  next_height :
      (peers current : ℕ)
      → current ≤ target
      → (current + length (request_heights peers current target)) % u64_mod
        ≡ current + length (request_heights peers current target)
  next_height peers current le =
      mod-eq_of_lt (omega (arith, request_heights_lem peers current target bounded le))

  wait_each-height :
      (heights : List ℕ) (n : Node bolt)
      → n.chain.next_height + length heights < u64_mod
      → (wait_each bolt e now sort_nodes answer heights n).1 ≡ synced
      → (wait_each bolt e now sort_nodes answer heights n).0.chain.next_height
        ≡ n.chain.next_height + length heights
  unfolding wait_each
  wait_each-height [] n h s = omega arith
  wait_each-height (k ∷ heights) n h s = elim (Answer-cases (answer k)) [
    | inl (blk, got) ↦
        let n' = (apply_block bolt e now sort_nodes blk n).0 in
        let moved = apply_block-chain bolt e now sort_nodes blk n in
        let up = increment-next_height blk.info.hash n.chain in
        let small : (n.chain.next_height + 1) % u64_mod ≡ n.chain.next_height + 1 =
          mod-eq_of_lt (omega arith) in
        let went : (apply_block bolt e now sort_nodes blk n).1 ≡ stored = ground (arith, got) in
        let at : n'.chain.next_height ≡ n.chain.next_height + 1 = ground (arith, moved went, up) in
        let rest = wait_each-height heights n' (omega arith) in ground (arith, got, went, rest)
    | inr (inl late) ↦ absurd (ground arith)
    | inr (inr (inl (x, bad))) ↦ absurd (ground arith)
    | inr (inr (inr missing)) ↦ absurd (ground arith)
  ]

  abbrev pub AtTarget : Node bolt × SyncEnd → Type 0
  AtTarget r = r.1 ≡ synced → r.0.chain.next_height ≡ target + 1

  ends :
      (fuel : ℕ) (peers : ℕ → ℕ) (round current : ℕ) (n : Node bolt)
      → ((r : ℕ) → 0 < peers r)
      → current ≤ target
      → n.chain.next_height ≡ current
      → target < current + fuel
      → Ends bolt
          (sync_loop bolt e now sort_nodes answer fuel peers round target current n)
          AtTarget
  unfolding sync_loop
  ends zero peers round current n some_peers le at enough = absurd (omega arith)
  ends (suc fuel) peers round current n some_peers le at enough =
      let heights = request_heights (peers round) current target in
      let w = wait_each bolt e now sort_nodes answer heights n in
      let (few, below, some_left) = request_heights_lem (peers round) current target bounded le in
      let next = next_height (peers round) current le in
      let reached = wait_each-height heights n (omega arith) in
      end_round-Ends bolt AtTarget target ((current + length heights) % u64_mod)
        (λ n'.
          sync_loop bolt e now sort_nodes answer fuel peers (round + 1) target
            ((current + length heights) % u64_mod) n')
        w (λ s last t. omega (arith, reached s, ltb→lt _ _ last, next))
        (λ s more.
          ends fuel peers (round + 1) ((current + length heights) % u64_mod) w.0 some_peers
            (ground (arith, next)) (omega (arith, next, reached s))
            (omega (arith, next, some_left (some_peers round))))
        (λ early s. absurd (early s))

  -- With at least one peer in every round, `sync` to a target at or above its next height, and below the
  -- last uint64, goes through at most as many rounds as there are heights to fetch. It then has come to
  -- its end, or stands in a call that panics or never returns: on a block whose execution, push or put
  -- does so, or on a nil block. Where it ends without giving up, an error or such a call, the next height
  -- is the one after the target.
  pub sync-Ends :
      (fuel : ℕ) (peers : ℕ → ℕ) (n : Node bolt)
      → ((r : ℕ) → 0 < peers r)
      → n.chain.next_height ≤ target
      → target < n.chain.next_height + fuel
      → Ends bolt (sync bolt e now sort_nodes answer fuel peers target n) AtTarget
  unfolding sync
  sync-Ends fuel peers n some_peers le enough =
      ends fuel peers 0 n.chain.next_height n some_peers le refl enough

  again-end_round :
      (next : ℕ) (again : Node bolt → Option (Node bolt × SyncEnd)) (n : Node bolt)
      → ltb target next ≡ false
      → end_round bolt target next again (n, synced) ≡ again n
  unfolding end_round
  again-end_round next again n more = rw (more, end_round) refl

  alone :
      (fuel round current : ℕ) (n : Node bolt)
      → current ≤ target
      → sync_loop bolt e now sort_nodes answer fuel (λ r. 0) round target current n ≡ none
  unfolding sync_loop request_heights wait_each
  alone zero round current n le = refl
  alone (suc fuel) round current n le =
      let same : (current + 0) % u64_mod ≡ current = mod-eq_of_lt (omega arith) ∙ omega arith in
      let more : ltb target ((current + 0) % u64_mod) ≡ false = ground arith in
      again-end_round ((current + 0) % u64_mod)
        (λ n'.
          sync_loop bolt e now sort_nodes answer fuel (λ r. 0) (round + 1) target
            ((current + 0) % u64_mod) n')
        n more
      ∙ rw same (alone fuel (round + 1) current n le)

  -- Without any peer `sync` to a target at or above its next height, and below the last uint64, never
  -- ends, whatever the fuel: no round asks for a block.
  pub sync_alone :
      (fuel : ℕ) (n : Node bolt)
      → n.chain.next_height ≤ target
      → sync bolt e now sort_nodes answer fuel (λ r. 0) target n ≡ none
  unfolding sync
  sync_alone fuel n le = alone fuel 0 n.chain.next_height n le

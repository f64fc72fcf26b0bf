-- ===== src/Fullnode/Start.antt =====
-- fullnode/full_node.go, nodes/node.go and genesis/genesis.go: the first start on a new chain.
use simple_blockchain_go.Storage.Service.{get as get_from_storage}
use simple_blockchain_go.Base.{
  Bytes, Outcome, Outcome-cases, Slice, ap, inl, inr, len, length, none, ok, refl, some, ℕ, ◌∙◌,
  ◌≡◌, ◌≤◌,
}
use simple_blockchain_go.Env.{Codec, Env, HasHashSize, IsFaithful}
use simple_blockchain_go.Executers.Faucet.{faucet_init}
use simple_blockchain_go.Fullnode.{assemble_node, new_full_node, run_full_node}
use simple_blockchain_go.Fullnode.Laws.{new_full_node-wallet}
use simple_blockchain_go.Genesis.{first_block, generate}
use simple_blockchain_go.Genesis.Generator.{new_generator}
use simple_blockchain_go.Genesis.Laws.{faucet_init-generate, supply}
use simple_blockchain_go.Memory.Service.{new_memory_service}
use simple_blockchain_go.Nodes.Node.{Node, init_chain, new_node, resume, run_node}
use simple_blockchain_go.P2p.Messages.{P2pJson}
use simple_blockchain_go.Storage.Bolt.{Bolt, IsBolt}
use simple_blockchain_go.Storage.Open.{IsOpener, Opener, new_storage_service}
use simple_blockchain_go.Storage.Service.{accounts, blocks, by_key, latest, read_state}
use simple_blockchain_go.Wallets.{Wallet}
use simple_blockchain_go.Wallets.Files.{Files, IsFiles, KeyPair}

module _ (bolt : Bolt) (e : Env) (now : ℕ) where
  -- `resume` leaves the database and the generator alone.
  resume-db :
      (n : Node bolt)
      → ((resume bolt e now n).0.generator ≡ n.generator) × ((resume bolt e now n).0.db ≡ n.db)
  unfolding resume
  resume-db n =
      elim (Outcome-cases
        (init_chain bolt e now (get_from_storage bolt blocks latest none n.db) n.chain)) [
          | inl (bc, fine) ↦ rw (fine, resume) (refl, refl)
          | inr (inl (x, bad)) ↦ rw (bad, resume) (refl, refl)
          | inr (inr bad) ↦ rw (bad, resume) (refl, refl)
        ]

  run_node-faucet :
      (n : Node bolt) (db : bolt.Db) (generator : Slice)
      → faucet_init bolt e now n.generator n.db ≡ (db, generator, ok tt)
      → ((run_node bolt e now n).0.generator ≡ generator) × ((run_node bolt e now n).0.db ≡ db)
  unfolding run_node
  run_node-faucet n db generator h =
      rw (h, run_node) (rw h (resume-db (record n { db = db; generator = generator })))

module _ (files : Files) (bolt : Bolt) (opener : Opener files bolt) (key_json : Codec KeyPair)
    (e : Env) (js : P2pJson) (itoa : ℕ → Bytes) where
  -- A generator is made for a name and puts the first block of its wallet, whose key has 32 bytes, into a
  -- database that has no account of it. If the name's database is then opened as it was left, `NewFullNode`
  -- for the name succeeds with the generator's wallet, whatever key pair is drawn. When it runs, the node
  -- knows that wallet as the generator of its chain, and its database gives the wallet the whole supply.
  -- The files, the opening and the database are as documented, key pairs, blocks and states are read as
  -- they were written, hashes have 32 bytes, and the encodings fit the database's bound.
  pub run_full_node-generate :
      IsFiles files
      → IsOpener files bolt opener
      → IsBolt bolt
      → IsFaithful key_json
      → IsFaithful e.block_json
      → IsFaithful e.state_json
      → HasHashSize e
      → (generated drawn : Outcome KeyPair) (name sync_port consensus_port rpc_port : Bytes)
        (d d₁ d₂ : files.Disk) (db : bolt.Db) (w : Wallet) (now start : ℕ)
        (prev state enc account_bytes : Bytes)
      → new_generator files bolt opener key_json generated name d ≡ (d₁, ok (w, db))
      → len w.public_key ≡ 32
      → e.block_json.marshal (first_block e now w prev state) ≡ some enc
      → length enc ≤ 2147483646
      → e.state_json.marshal (supply bolt e) ≡ some account_bytes
      → length account_bytes ≤ 2147483646
      → get_from_storage bolt accounts by_key w.public_key db ≡ none
      → new_storage_service files bolt opener name d₁
        ≡ (d₂, ok (generate bolt e now w prev state db).0)
      → let full =
          assemble_node files bolt opener key_json sync_port consensus_port rpc_port
            (generate bolt e now w prev state db).0
            w in
        let node = (run_full_node bolt e js itoa start full).full.node in
        (new_full_node files bolt opener key_json drawn name sync_port consensus_port rpc_port d₁
          ≡ (d₂, ok full))
        × (node.generator ≡ w.public_key)
        × (read_state bolt e (get_from_storage bolt accounts by_key w.public_key node.db)
            ≡ ok (supply bolt e))
  unfolding run_full_node assemble_node
  run_full_node-generate laws opens bolt_laws key_faithful fb fs hashes generated drawn name
        sync_port consensus_port rpc_port d d₁ d₂ db w now start prev state enc account_bytes h
        sized made small account_made account_small absent opened =
      let db₁ = (generate bolt e now w prev state db).0 in
      let (went, inited, known, supplied, again) =
        faucet_init-generate bolt e bolt_laws fb fs hashes now start start w prev state enc
          account_bytes db sized made small account_made account_small absent in
      let first = faucet_init bolt e start none db₁ in
      let faucet : first ≡ (first.0, w.public_key, ok tt) =
        ap (λ g. (first.0, g, first.2)) known
        ∙ ap (λ (r : Outcome (Unit {0})). (first.0, w.public_key, r)) inited in
      let node = new_node bolt db₁ new_memory_service in
      let (same_generator, same_db) =
        run_node-faucet bolt e start node first.0 w.public_key faucet in
      (
        new_full_node-wallet files bolt opener key_json laws opens key_faithful generated drawn name
            sync_port consensus_port rpc_port d d₁ d₂ db db₁ w h opened,
        same_generator,
        rw same_db supplied,
      )

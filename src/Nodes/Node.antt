-- ===== src/Nodes/Node.antt =====
-- nodes/node.go: the start of a node, and what it does when a block is stored.
use simple_blockchain_go.Storage.Service.{get as get_from_storage}
use simple_blockchain_go.Base.{
  Outcome, Slice, [], err, if◌then◌else◌, json, none, ok, panic, some, ℕ, ◌%◌, ◌+◌, ◌==◌, ◌∷◌,
}
use simple_blockchain_go.Blockchain.{Blockchain, increment, init, new_blockchain}
use simple_blockchain_go.Common.{u64_mod}
use simple_blockchain_go.Env.{Env}
use simple_blockchain_go.Executers.Faucet.{faucet_init}
use simple_blockchain_go.Memory.Service.{MemoryService}
use simple_blockchain_go.Storage.Bolt.{Bolt}
use simple_blockchain_go.Storage.Service.{blocks, fetch_accounts, fetch_all_accounts, latest}
use simple_blockchain_go.Types.{Block}

module _ (bolt : Bolt) where
  -- What the services of a node share: the database, the memory service, the position in the chain,
  -- and the generator that the faucet knows.
  pub record Node : Type 0 where
    pub db : bolt.Db
    pub memory : MemoryService
    pub chain : Blockchain
    pub generator : Slice

  -- `NewNode`, over an open database.
  abbrev pub new_node : bolt.Db → MemoryService → Node
  new_node db ms = record { db = db; memory = ms; chain = new_blockchain; generator = none }

module _ (bolt : Bolt) (e : Env) (now : ℕ) where
  -- The call `Increment` that ends `OnBlockStored`.
  unfoldable pub advance : Block → Node bolt → Node bolt
  advance blk n = record n { chain = increment blk.info.hash n.chain }

  -- The generator's account is fetched into the memory.
  unfoldable pub fetch_generator : Block → Node bolt → Node bolt × Outcome (Unit {0})
  fetch_generator blk n =
      let (ms, r) = fetch_accounts bolt e (blk.info.public_key ∷ []) n.db n.memory in
      let n' = record n { memory = ms } in
      elim r [ ok u ↦ (advance blk n', ok tt) | err x ↦ (n', err x) | panic ↦ (n', panic) ]

  -- `OnBlockStored`
  unfoldable pub on_block_stored : Block → Node bolt → Node bolt × Outcome (Unit {0})
  on_block_stored blk n =
      if blk.info.height == 0
      then (let (db, generator, r) = faucet_init bolt e now n.generator n.db in
          let n' = record n { db = db; generator = generator } in
          elim r [ ok u ↦ fetch_generator blk n' | err x ↦ (n', err x) | panic ↦ (n', panic) ])
      else (advance blk n, ok tt)

  -- The part of `Run` that reads the latest block.
  unfoldable pub init_chain : Slice → Blockchain → Outcome Blockchain
  init_chain none bc = ok bc
  init_chain (some raw) bc = elim (e.block_json.unmarshal raw) [
    | none ↦ err json
    | some blk ↦ ok (init ((blk.info.height + 1) % u64_mod) blk.info.hash bc)
  ]

  -- `Run`, after the faucet.
  unfoldable pub resume : Node bolt → Node bolt × Outcome (Unit {0})
  unfolding init_chain
  resume n = elim (init_chain (get_from_storage bolt blocks latest none n.db) n.chain) [
    | ok bc ↦
        let (ms, r) = fetch_all_accounts bolt e n.db n.memory in
        (record n { chain = bc; memory = ms }, r)
    | err x ↦ (n, err x)
    | panic ↦ (n, panic)
  ]

  -- `Run`
  unfoldable pub run_node : Node bolt → Node bolt × Outcome (Unit {0})
  run_node n =
      let (db, generator, r) = faucet_init bolt e now n.generator n.db in
      let n' = record n { db = db; generator = generator } in
      elim r [ ok u ↦ resume n' | err x ↦ (n', err x) | panic ↦ (n', panic) ]

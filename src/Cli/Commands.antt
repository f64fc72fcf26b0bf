-- ===== src/Cli/Commands.antt =====
-- cli/cli.go: what the commands do.
use simple_blockchain_go.Accounts.{AccountState}
use simple_blockchain_go.Base.{
  Bytes, Error, List, Outcome, Outcome-cases, [], ap, arith, content, err, inl, inr, ok, panic,
  refl, ℕ, ◌>>=◌, ◌∷◌, ◌≡◌,
}
use simple_blockchain_go.Cli.{
  Command, ask_airdrop, do_nothing, new_account, send_transfer, show_address, show_balance,
  start_generator, start_node,
}
use simple_blockchain_go.Clients.{airdrop, get_account_info, new_client, transfer}
use simple_blockchain_go.Env.{Codec, Env, IsFaithful}
use simple_blockchain_go.Fullnode.{FullNode, new_full_node}
use simple_blockchain_go.Genesis.{generate}
use simple_blockchain_go.Genesis.Generator.{new_generator}
use simple_blockchain_go.Rpc.Wire.{Net}
use simple_blockchain_go.Storage.Bolt.{Bolt}
use simple_blockchain_go.Storage.Open.{Opener}
use simple_blockchain_go.Wallets.{Wallet}
use simple_blockchain_go.Wallets.Files.{Files, IsFiles, KeyPair, new_wallet}
use simple_blockchain_go.Wallets.Files.Laws.{new_wallet_again}

-- What a command leaves: the files, the lines that it prints, and its end. A generator exits the
-- process where it succeeds, as the other commands return nil.
pub record Ran (files : Files) : Type 0 where
  pub disk : files.Disk
  pub lines : List Bytes
  pub result : Outcome (Unit {0})

-- What the commands meet: the key pair that is drawn, the clock's second, the random bytes of a first
-- block, and the answers of the node at a port.
pub record Outside : Type 0 where
  pub generated : Outcome KeyPair
  pub now : ℕ
  pub prev : Bytes
  pub state : Bytes
  pub serve : Bytes → Bytes → Bytes

module _ (files : Files) (bolt : Bolt) (opener : Opener files bolt) (key_json : Codec KeyPair)
    (e : Env) (net : Net) (itoa : ℕ → Bytes) where
  abbrev stops : files.Disk → Error → Ran files
  stops d x = record { disk = d; lines = []; result = err x }

  abbrev breaks : files.Disk → Ran files
  breaks d = record { disk = d; lines = []; result = panic }

  -- The case `genesis`; what it writes into the database is in `generate`.
  unfoldable pub run_genesis : Outside → Bytes → files.Disk → Ran files
  run_genesis o name d =
      let (d', gen) = new_generator files bolt opener key_json o.generated name d in
      elim gen [
        | ok (w, db) ↦ record {
          disk = d';
          lines = [];
          result = (generate bolt e o.now w o.prev o.state db).1;
        }
        | err x ↦ stops d' x
        | panic ↦ breaks d'
      ]

  -- The cases `new` and `address`.
  unfoldable pub run_new : Outside → Bytes → files.Disk → Ran files
  run_new o name d =
      let (d', w) = new_wallet files key_json o.generated name d in
      record { disk = d'; lines = []; result = w >>= λ w. ok tt }

  unfoldable pub run_address : Outside → Bytes → files.Disk → Ran files
  run_address o name d =
      let (d', w) = new_wallet files key_json o.generated name d in
      elim w [
        | ok w ↦ record {
          disk = d';
          lines = e.base58_encode (content w.public_key) ∷ [];
          result = ok tt;
        }
        | err x ↦ stops d' x
        | panic ↦ breaks d'
      ]

  -- The case `balance`, of an account whose state was read, and the whole.
  unfoldable pub print_balance : files.Disk → Outcome AccountState → Ran files
  print_balance d (ok s) = record { disk = d; lines = itoa s.balance ∷ []; result = ok tt }
  print_balance d (err x) = stops d x
  print_balance d panic = breaks d

  unfoldable pub run_balance : Outside → Bytes → Bytes → files.Disk → Ran files
  unfolding print_balance
  run_balance o name port d =
      let (d', c) = new_client files key_json o.generated name d in
      elim c [
        | ok w ↦ print_balance d' (get_account_info e net (o.serve port) w)
        | err x ↦ stops d' x
        | panic ↦ breaks d'
      ]

  -- The ends of `airdrop` and of `transfer`: the answer is printed also where it is empty.
  unfoldable pub print_answer : files.Disk → Outcome Bytes → Ran files
  print_answer d (ok res) = record { disk = d; lines = res ∷ []; result = ok tt }
  print_answer d (err x) = record { disk = d; lines = [] ∷ []; result = err x }
  print_answer d panic = breaks d

  unfoldable pub run_airdrop : Outside → Bytes → ℕ → Bytes → files.Disk → Ran files
  unfolding print_answer
  run_airdrop o name amount port d =
      let (d', c) = new_client files key_json o.generated name d in
      elim c [
        | ok w ↦ print_answer d' (airdrop e net (o.serve port) o.now amount w)
        | err x ↦ stops d' x
        | panic ↦ breaks d'
      ]

  unfoldable pub run_transfer : Outside → Bytes → ℕ → Bytes → Bytes → files.Disk → Ran files
  unfolding print_answer
  run_transfer o name amount to port d =
      let (d', c) = new_client files key_json o.generated name d in
      elim c [
        | ok w ↦ print_answer d' (transfer e net (o.serve port) o.now amount to w)
        | err x ↦ stops d' x
        | panic ↦ breaks d'
      ]

  -- The case of a full node, which runs on where it could be made.
  unfoldable pub make_node :
      Outside → Bytes → Bytes → Bytes → Bytes → files.Disk → files.Disk × Outcome (FullNode bolt)
  make_node o name sync_port consensus_port rpc_port d =
      new_full_node files bolt opener key_json o.generated name sync_port consensus_port rpc_port d

  -- A command; `ended` is the error with which a full node ends, if it ends.
  unfoldable pub run_command :
      Outside → (FullNode bolt → Outcome (Unit {0})) → Command → files.Disk → Ran files
  run_command o ended (start_generator name) d = run_genesis o name d
  run_command o ended (start_node name sync_port consensus_port rpc_port) d =
      let (d', n) = make_node o name sync_port consensus_port rpc_port d in
      record { disk = d'; lines = []; result = n >>= ended }
  run_command o ended (new_account name) d = run_new o name d
  run_command o ended (show_address name) d = run_address o name d
  run_command o ended (show_balance name port) d = run_balance o name port d
  run_command o ended (ask_airdrop name amount port) d = run_airdrop o name amount port d
  run_command o ended (send_transfer name amount to port) d = run_transfer o name amount to port d
  run_command o ended do_nothing d = record { disk = d; lines = []; result = ok tt }

module _ (files : Files) (bolt : Bolt) (opener : Opener files bolt) (key_json : Codec KeyPair)
    (e : Env) (net : Net) (itoa : ℕ → Bytes) where
  run_address_made :
      (o : Outside) (name : Bytes) (d d' : files.Disk) (w : Wallet)
      → new_wallet files key_json o.generated name d ≡ (d', ok w)
      → run_address files bolt opener key_json e net itoa o name d
        ≡ record { disk = d'; lines = e.base58_encode (content w.public_key) ∷ []; result = ok tt }
  unfolding run_address
  run_address_made o name d d' w h = rw (h, run_address) (rw h refl)

  -- An account that `client new` makes, or finds, is the one whose address `client address` prints from
  -- then on, with no error and without a change of the files, whatever key pair is drawn. The files are
  -- as package os documents them, and the JSON of a key pair is read as it was written.
  pub run_command_address :
      IsFiles files
      → IsFaithful key_json
      → (o again : Outside) (ended : FullNode bolt → Outcome (Unit {0})) (name : Bytes)
        (d : files.Disk)
      → (run_command files bolt opener key_json e net itoa o ended (new_account name) d).result
        ≡ ok tt
      → let made = run_command files bolt opener key_json e net itoa o ended (new_account name) d in
        (w : Wallet) × (new_wallet files key_json o.generated name d ≡ (made.disk, ok w))
        × (run_command files bolt opener key_json e net itoa again ended
              (show_address name)
              made.disk
            ≡ record {
              disk = made.disk;
              lines = e.base58_encode (content w.public_key) ∷ [];
              result = ok tt;
            })
  unfolding run_command run_new run_address
  run_command_address laws faithful o again ended name d h =
      let made = new_wallet files key_json o.generated name d in
      elim (Outcome-cases made.1) [
        | inl (w, fine) ↦
            let known : made ≡ (made.0, ok w) = ap (λ (r : Outcome Wallet). (made.0, r)) fine in
            (
              w,
              known,
              run_address_made again name made.0 made.0 w (
                  new_wallet_again files laws key_json o.generated again.generated name d made.0 w
                    faithful known),
            )
        | inr (inl (x, bad)) ↦ absurd (ground arith)
        | inr (inr bad) ↦ absurd (ground arith)
      ]

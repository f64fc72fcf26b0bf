-- ===== src/Genesis/Generator.antt =====
-- genesis/genesis.go: the generator of the first block, over the files of its name.
use simple_blockchain_go.Base.{Bytes, Outcome, err, file_exists, if◌then◌else◌, ok, panic, ◌>>=◌}
use simple_blockchain_go.Env.{Codec}
use simple_blockchain_go.Storage.Bolt.{Bolt}
use simple_blockchain_go.Storage.Open.{Opener, database_file_name, new_storage_service}
use simple_blockchain_go.Wallets.{Wallet}
use simple_blockchain_go.Wallets.Files.{Files, KeyPair, exist_file, new_wallet}

module _ (files : Files) (bolt : Bolt) (opener : Opener files bolt) (key_json : Codec KeyPair) where
  -- What a generator holds.
  abbrev pub Generator : Type 0
  Generator = Wallet × bolt.Db

  -- `NewGenerator`
  unfoldable pub new_generator :
      Outcome KeyPair → Bytes → files.Disk → files.Disk × Outcome Generator
  new_generator generated name d =
      if exist_file files (database_file_name name) d
      then (d, err file_exists)
      else (let (d₁, s) = new_storage_service files bolt opener name d in
          elim s [
            | err x ↦ (d₁, err x)
            | panic ↦ (d₁, panic)
            | ok db ↦
                let (d₂, w) = new_wallet files key_json generated name d₁ in
                (d₂, w >>= λ w. ok (w, db))
          ])

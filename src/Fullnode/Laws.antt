-- ===== src/Fullnode/Laws.antt =====
-- fullnode/full_node.go and genesis/genesis.go: the first start of a node after its chain was made.
use simple_blockchain_go.Base.{
  Bool-cases, Bytes, Option-cases, Outcome, Outcome-cases, [], ap, arith, inl, inr, length,
  length-append, not, ok, refl, sym, true, ℕ, ◌%◌, ◌+◌, ◌<◌, ◌∙◌, ◌∷◌, ◌≡◌, ◌≢◌, ◌≤◌,
}
use simple_blockchain_go.Env.{Codec, IsFaithful}
use simple_blockchain_go.Fullnode.{assemble_node, new_full_node, sync_time}
use simple_blockchain_go.Genesis.Generator.{new_generator}
use simple_blockchain_go.Storage.Bolt.{Bolt}
use simple_blockchain_go.Storage.Open.{
  IsOpener, Opener, database_file_name, new_storage_db, new_storage_service,
}
use simple_blockchain_go.Wallets.{Wallet}
use simple_blockchain_go.Wallets.Files.{
  Files, IsFiles, KeyPair, exist_file, key_file, new_wallet, read_wallet,
}
use simple_blockchain_go.Wallets.Files.Laws.{new_wallet-read_wallet, new_wallet_there}

-- The wait is longer than nothing and no longer than a second, and ends where a second begins.
pub sync_time_lem :
    (now_mic : ℕ)
    → (0 < sync_time now_mic)
      × (sync_time now_mic ≤ 1000000)
      × ((now_mic + sync_time now_mic) % 1000000 ≡ 0)
unfolding sync_time
sync_time_lem now_mic = (omega arith, omega arith, omega arith)

-- The key file of a name is not its database.
files_apart : (name : Bytes) → key_file name ≢ database_file_name name
unfolding key_file database_file_name
files_apart name h = absurd (
    omega (
      arith,
      ap length h,
      length-append name (b'.' ∷ b'k' ∷ b'e' ∷ b'y' ∷ []),
      length-append name (b'.' ∷ b'd' ∷ b'b' ∷ []),
    ))

module _ (files : Files) (bolt : Bolt) (opener : Opener files bolt) (key_json : Codec KeyPair) where
  new_storage_service-wallet :
      IsOpener files bolt opener
      → (name : Bytes) (d d' : files.Disk) (db : bolt.Db)
      → new_storage_service files bolt opener name d ≡ (d', ok db)
      → (files.not_exist d' (key_file name) ≡ files.not_exist d (key_file name))
        × (files.read_file d' (key_file name) ≡ files.read_file d (key_file name))
  unfolding new_storage_service new_storage_db
  new_storage_service-wallet laws name d d' db h =
      elim (Option-cases (opener.open_file d (database_file_name name))) [
        | inl failed ↦ absurd (ground arith)
        | inr ((d₁, file), opened) ↦
            let same : d₁ ≡ d' = ground arith in
            rw (sym same) (
              laws.keeps_exist d d₁ (database_file_name name) (key_file name) file opened
                  (files_apart name),
              laws.keeps_read d d₁ (database_file_name name) (key_file name) file opened
                  (files_apart name),
            )
      ]

  new_generator-wallet :
      (generated : Outcome KeyPair) (name : Bytes) (d d' : files.Disk) (w : Wallet) (db : bolt.Db)
      → new_generator files bolt opener key_json generated name d ≡ (d', ok (w, db))
      → (d₀ : files.Disk) × (new_wallet files key_json generated name d₀ ≡ (d', ok w))
  unfolding new_generator
  new_generator-wallet generated name d d' w db h =
      let opened = new_storage_service files bolt opener name d in
      let made = new_wallet files key_json generated name opened.0 in
      elim (Bool-cases (exist_file files (database_file_name name) d)) [
        | inl there ↦ absurd (ground arith)
        | inr absent ↦ elim (Outcome-cases opened.1) [
          | inl (db₀, open_ok) ↦ elim (Outcome-cases made.1) [
            | inl (w₀, made_ok) ↦ (opened.0, ground arith)
            | inr (inl (x, bad)) ↦ absurd (ground arith)
            | inr (inr bad) ↦ absurd (ground arith)
          ]
          | inr (inl (x, bad)) ↦ absurd (ground arith)
          | inr (inr bad) ↦ absurd (ground arith)
        ]
      ]

  new_full_node_made :
      (drawn : Outcome KeyPair) (name sync_port consensus_port rpc_port : Bytes)
      (d d₁ d₂ : files.Disk) (db : bolt.Db) (w : Wallet)
      → new_storage_service files bolt opener name d ≡ (d₁, ok db)
      → new_wallet files key_json drawn name d₁ ≡ (d₂, ok w)
      → new_full_node files bolt opener key_json drawn name sync_port consensus_port rpc_port d
        ≡ (d₂, ok (assemble_node files bolt opener key_json sync_port consensus_port rpc_port db w))
  unfolding new_full_node
  new_full_node_made drawn name sync_port consensus_port rpc_port d d₁ d₂ db w opened made =
      rw (opened, new_full_node) (rw opened (rw made refl))

  -- The wallet of a generator is the wallet of the full node that starts for the name after it.
  pub new_full_node-wallet :
      IsFiles files
      → IsOpener files bolt opener
      → IsFaithful key_json
      → (generated drawn : Outcome KeyPair) (name sync_port consensus_port rpc_port : Bytes)
        (d d₁ d₂ : files.Disk) (db db₁ : bolt.Db) (w : Wallet)
      → new_generator files bolt opener key_json generated name d ≡ (d₁, ok (w, db))
      → new_storage_service files bolt opener name d₁ ≡ (d₂, ok db₁)
      → new_full_node files bolt opener key_json drawn name sync_port consensus_port rpc_port d₁ ≡ (
        d₂,
        ok (assemble_node files bolt opener key_json sync_port consensus_port rpc_port db₁ w),
      )
  unfolding read_wallet exist_file
  new_full_node-wallet laws opens faithful generated drawn name sync_port consensus_port rpc_port d
        d₁ d₂ db db₁ w h opened =
      let (d₀, made) = new_generator-wallet generated name d d₁ w db h in
      let (read, there) =
        new_wallet-read_wallet files laws key_json generated name d₀ d₁ w faithful made in
      let (same_exist, same_read) = new_storage_service-wallet opens name d₁ d₂ db₁ opened in
      let still : exist_file files (key_file name) d₂ ≡ true = ap not same_exist ∙ there in
      let again : read_wallet files key_json name d₂ ≡ ok w = rw same_read read in
      new_full_node_made drawn name sync_port consensus_port rpc_port d₁ d₂ d₂ db₁ w opened
        (new_wallet_there files laws key_json drawn name d₂ w again still)

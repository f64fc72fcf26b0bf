-- ===== src/Genesis/Laws.antt =====
-- genesis/genesis.go and executers/faucet.go: the first block and the account that it gives rise to.
use simple_blockchain_go.Storage.Service.{get as get_from_storage, put as put_in_storage}
use simple_blockchain_go.Accounts.{AccountState}
use simple_blockchain_go.Base.{
  Bytes, Slice, ap, arith, content, len, length, none, ok, refl, some, sym, ℕ, ◌++◌, ◌∙◌, ◌≡◌, ◌≢◌,
  ◌≤◌,
}
use simple_blockchain_go.Blocks.{block_index, block_key}
use simple_blockchain_go.Common.{generator_balance}
use simple_blockchain_go.Common.Hex.{length-to_hex, to_hex}
use simple_blockchain_go.Env.{Env, HasHashSize, IsFaithful}
use simple_blockchain_go.Executers.Faucet.{
  account_content, faucet_init, generator_account, init_generator,
}
use simple_blockchain_go.Genesis.{first_block, generate}
use simple_blockchain_go.Nodes.Stored.{put_block_lem}
use simple_blockchain_go.Nodes.Sync.Blocks.{block_content}
use simple_blockchain_go.P2p.Laws.{others}
use simple_blockchain_go.Storage.Bolt.{Bolt, IsBolt}
use simple_blockchain_go.Storage.Db.{get_by_index, get_by_key}
use simple_blockchain_go.Storage.Db.Laws.{put_db_lem}
use simple_blockchain_go.Storage.Service.{
  accounts, accounts_bucket, blocks, blocks_bucket, by_index, by_key, read_state,
}
use simple_blockchain_go.Types.{Account, Block}
use simple_blockchain_go.Wallets.{Wallet}

module _ (bolt : Bolt) (e : Env) where
  -- The blocks are not the accounts.
  buckets_lem : accounts_bucket ≢ blocks_bucket
  buckets_lem h = cc

  get_by_key-accounts :
      (pk : Slice) (db : bolt.Db)
      → len pk ≡ 32
      → get_from_storage bolt accounts by_key pk db ≡ get_by_key bolt accounts_bucket pk db
  unfolding get_from_storage
  get_by_key-accounts none db h = cc
  get_by_key-accounts (some k) db h = refl

  -- A block that is put leaves the accounts as they were.
  put_block-accounts :
      IsBolt bolt
      → (blk : Block) (enc : Bytes) (pk : Slice) (db : bolt.Db)
      → e.block_json.marshal blk ≡ some enc
      → length enc ≤ 2147483646
      → len blk.info.hash ≡ 32
      → len pk ≡ 32
      → get_from_storage bolt accounts by_key pk
          (put_in_storage bolt blocks (some (block_content e blk)) db).0
        ≡ get_from_storage bolt accounts by_key pk db
  unfolding put_in_storage block_content block_key block_index
  put_block-accounts laws blk enc pk db made small sized key =
      let (went, keyed, found, newest, k, i, others, elsewhere) =
        put_db_lem bolt laws blocks_bucket (block_content e blk) enc db made small sized
          (length-to_hex 8 blk.info.height) in
      get_by_key-accounts pk (put_in_storage bolt blocks (some (block_content e blk)) db).0 key
      ∙ elsewhere accounts_bucket pk buckets_lem
      ∙ sym (get_by_key-accounts pk db key)

  put_account_lem :
      IsBolt bolt
      → (a : Account) (enc : Bytes) (db : bolt.Db) → e.state_json.marshal a.state ≡ some enc
      → length enc ≤ 2147483646
      → len a.public_key ≡ 32
      → let (db', r) = put_in_storage bolt accounts (some (account_content bolt e a)) db in
        (r ≡ ok tt)
        × (get_from_storage bolt accounts by_key a.public_key db' ≡ some enc)
        × ((k : Slice) → get_by_key bolt blocks_bucket k db' ≡ get_by_key bolt blocks_bucket k db)
  unfolding put_in_storage account_content
  put_account_lem laws a enc db made small sized =
      let (went, keyed, found, newest, k, i, others, elsewhere) =
        put_db_lem bolt laws accounts_bucket (account_content bolt e a) enc db made small sized
          (length-to_hex 8 a.timestamp) in
      (
        went,
        get_by_key-accounts a.public_key
              (put_in_storage bolt accounts (some (account_content bolt e a)) db).0 sized
            ∙ keyed,
        λ key. elsewhere blocks_bucket key (λ h. buckets_lem (sym h)),
      )

  -- `Init` on a database whose first block can be read.
  faucet_init-found :
      (now : ℕ) (old : Slice) (raw : Bytes) (blk : Block) (db : bolt.Db)
      → get_from_storage bolt blocks by_index (some (to_hex 8 0)) db ≡ some raw
      → e.block_json.unmarshal raw ≡ some blk
      → faucet_init bolt e now old db ≡ init_generator bolt e now blk.info.public_key old db
  unfolding faucet_init to_hex
  faucet_init-found now old raw blk db found read = ground arith

  init_generator-known :
      (now : ℕ) (pk old : Slice) (raw : Bytes) (db : bolt.Db)
      → get_from_storage bolt accounts by_key pk db ≡ some raw
      → init_generator bolt e now pk old db ≡ (db, pk, ok tt)
  unfolding init_generator
  init_generator-known now pk old raw db known = ground arith

  init_generator-new :
      (now : ℕ) (pk old : Slice) (db : bolt.Db)
      → get_from_storage bolt accounts by_key pk db ≡ none
      → let (db', r) =
          put_in_storage bolt accounts
            (some (account_content bolt e (generator_account bolt e pk now)))
            db in
        r ≡ ok tt → init_generator bolt e now pk old db ≡ (db', pk, ok tt)
  unfolding init_generator
  init_generator-new now pk old db absent went = ground arith

  get_by_index-same :
      (bucket : Bytes) (idx : Slice) (db db' : bolt.Db)
      → ((k : Slice) → get_by_key bolt bucket k db' ≡ get_by_key bolt bucket k db)
      → get_by_index bolt bucket idx db' ≡ get_by_index bolt bucket idx db
  unfolding get_by_index get_by_key
  get_by_index-same bucket idx db db' same =
      ap (λ k. bolt.read db' bucket (content k)) (same idx)
      ∙ same (bolt.read db bucket (content idx))

  first_block_lem :
      HasHashSize e
      → (now : ℕ) (w : Wallet) (prev state : Bytes)
      → (len (first_block e now w prev state).info.hash ≡ 32)
        × ((first_block e now w prev state).info.public_key ≡ w.public_key)
        × ((first_block e now w prev state).info.height ≡ 0)
  unfolding first_block
  first_block_lem hashes now w prev state = (hashes (prev ++ state), refl, refl)

  read_state-some :
      (raw : Bytes) (s : AccountState)
      → e.state_json.unmarshal raw ≡ some s
      → read_state bolt e (some raw) ≡ ok s
  unfolding read_state
  read_state-some raw s read = ground arith

  -- The generator account of a chain starts with the whole supply.
  abbrev pub supply : AccountState
  supply = record { nonce = 0; balance = generator_balance }

  -- `Generate` puts its block into a database that has no account of its wallet, whose key has 32 bytes.
  -- `Init` then gives the wallet the whole supply, with the nonce zero, and knows the wallet as the
  -- generator, and at every later start `Init` finds the account and changes nothing. The block and the
  -- state are read back as they were marshalled, both fit the database's bound, and hashes have 32 bytes.
  pub faucet_init-generate :
      IsBolt bolt
      → IsFaithful e.block_json
      → IsFaithful e.state_json
      → HasHashSize e
      → (now start again : ℕ) (w : Wallet) (prev state enc account_bytes : Bytes) (db : bolt.Db)
      → len w.public_key ≡ 32
      → e.block_json.marshal (first_block e now w prev state) ≡ some enc
      → length enc ≤ 2147483646
      → e.state_json.marshal supply ≡ some account_bytes
      → length account_bytes ≤ 2147483646
      → get_from_storage bolt accounts by_key w.public_key db ≡ none
      → let (db₁, r₁) = generate bolt e now w prev state db in
        let (db₂, generator, r₂) = faucet_init bolt e start none db₁ in
        (r₁ ≡ ok tt)
        × (r₂ ≡ ok tt)
        × (generator ≡ w.public_key)
        × (read_state bolt e (get_from_storage bolt accounts by_key w.public_key db₂) ≡ ok supply)
        × (faucet_init bolt e again none db₂ ≡ (db₂, w.public_key, ok tt))
  unfolding generate get_from_storage
  faucet_init-generate laws fb fs hashes now start again w prev state enc account_bytes db sized
        made small account_made account_small absent =
      let blk = first_block e now w prev state in
      let account = generator_account bolt e w.public_key start in
      let (hashed, of_wallet, lowest) = first_block_lem hashes now w prev state in
      let (went, found, newest) = put_block_lem bolt e laws blk enc db made small hashed in
      let db₁ = (put_in_storage bolt blocks (some (block_content e blk)) db).0 in
      let (went₂, known, same) =
        put_account_lem laws account account_bytes db₁ account_made account_small sized in
      let db₂ = (put_in_storage bolt accounts (some (account_content bolt e account)) db₁).0 in
      let still_absent =
        put_block-accounts laws blk enc w.public_key db made small hashed sized ∙ absent in
      let first : faucet_init bolt e start none db₁ ≡ (db₂, w.public_key, ok tt) =
        faucet_init-found start none enc blk db₁ found (fb blk enc made)
        ∙ init_generator-new start w.public_key none db₁ still_absent went₂ in
      let found₂ = get_by_index-same blocks_bucket (some (to_hex 8 0)) db₁ db₂ same ∙ found in
      let second : faucet_init bolt e again none db₂ ≡ (db₂, w.public_key, ok tt) =
        faucet_init-found again none enc blk db₂ found₂ (fb blk enc made)
        ∙ init_generator-known again w.public_key none account_bytes db₂ known in
      rw first (
        went,
        refl,
        refl,
        ap (read_state bolt e) known
            ∙ read_state-some account_bytes supply (fs supply account_bytes account_made),
        second,
      )

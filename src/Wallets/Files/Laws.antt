-- ===== src/Wallets/Files/Laws.antt =====
-- accounts/wallets/wallet.go: a wallet is the same whenever its name is asked for.
use simple_blockchain_go.Base.{
  Bool-cases, Bytes, Option-cases, Outcome, ap, arith, err, inl, inr, ok, panic, refl, some, true,
  ◌≡◌, ◌≢◌, ◌⊎◌,
}
use simple_blockchain_go.Env.{Codec, IsFaithful}
use simple_blockchain_go.Wallets.{Wallet}
use simple_blockchain_go.Wallets.Files.{
  Files, IsFiles, KeyPair, exist_file, key_file, make_wallet, new_wallet, read_wallet,
}

module _ (files : Files) (laws : IsFiles files) (key_json : Codec KeyPair) where
  -- A key pair that is written is read again.
  make_wallet-read_wallet :
      (generated : Outcome KeyPair) (name : Bytes) (d d' : files.Disk) (w : Wallet)
      → IsFaithful key_json
      → make_wallet files key_json generated name d ≡ (d', ok w)
      → (read_wallet files key_json name d' ≡ ok w) × (exist_file files (key_file name) d' ≡ true)
  unfolding make_wallet read_wallet exist_file
  make_wallet-read_wallet (err x) name d d' w faithful h = cc
  make_wallet-read_wallet panic name d d' w faithful h = cc
  make_wallet-read_wallet (ok key) name d d' w faithful h =
      elim (Option-cases (key_json.marshal key)) [
        | inl silent ↦ absurd (ground arith)
        | inr (enc, packed) ↦ elim (Option-cases (files.write_file d (key_file name) enc)) [
          | inl failed ↦ absurd (ground arith)
          | inr (d₁, written) ↦ ground (
            arith,
            laws.exists_written d d₁ (key_file name) enc written,
            laws.read_written d d₁ (key_file name) enc written,
            faithful key enc packed,
          )
        ]
      ]

  pub new_wallet-read_wallet :
      (generated : Outcome KeyPair) (name : Bytes) (d d' : files.Disk) (w : Wallet)
      → IsFaithful key_json
      → new_wallet files key_json generated name d ≡ (d', ok w)
      → (read_wallet files key_json name d' ≡ ok w) × (exist_file files (key_file name) d' ≡ true)
  unfolding new_wallet
  new_wallet-read_wallet generated name d d' w faithful h =
      elim (Bool-cases (exist_file files (key_file name) d)) [
        | inl there ↦ ground arith
        | inr absent ↦ make_wallet-read_wallet generated name d d' w faithful (ground arith)
      ]

  pub new_wallet_there :
      (drawn : Outcome KeyPair) (name : Bytes) (d : files.Disk) (w : Wallet)
      → read_wallet files key_json name d ≡ ok w
      → exist_file files (key_file name) d ≡ true
      → new_wallet files key_json drawn name d ≡ (d, ok w)
  unfolding new_wallet
  new_wallet_there drawn name d w read there = rw (there, new_wallet) (ap (λ r. (d, r)) read)

  -- A wallet that `NewWallet` returns, from its key file or with a new one, is the wallet that
  -- `NewWallet` returns for the name from then on, whatever key pair is drawn, and the disk stays as it
  -- is. The files are as package os documents them, and the JSON of a key pair is read as it was
  -- written.
  pub new_wallet_again :
      (generated drawn : Outcome KeyPair) (name : Bytes) (d d' : files.Disk) (w : Wallet)
      → IsFaithful key_json
      → new_wallet files key_json generated name d ≡ (d', ok w)
      → new_wallet files key_json drawn name d' ≡ (d', ok w)
  new_wallet_again generated drawn name d d' w faithful h =
      let (read, there) = new_wallet-read_wallet generated name d d' w faithful h in
      new_wallet_there drawn name d' w read there

  -- What `NewWallet` does to the disk.
  new_wallet_disk :
      (generated : Outcome KeyPair) (name : Bytes) (d d' : files.Disk) (w : Wallet)
      → new_wallet files key_json generated name d ≡ (d', ok w)
      → (d' ≡ d) ⊎ ((enc : Bytes) × (files.write_file d (key_file name) enc ≡ some d'))
  unfolding new_wallet make_wallet
  new_wallet_disk generated name d d' w h = elim (Bool-cases (exist_file files (key_file name) d)) [
    | inl there ↦ inl (ground arith)
    | inr absent ↦ written generated (ground arith)
  ]
    where
      written :
          (generated : Outcome KeyPair)
          → make_wallet files key_json generated name d ≡ (d', ok w)
          → (d' ≡ d) ⊎ ((enc : Bytes) × (files.write_file d (key_file name) enc ≡ some d'))
      written (err x) h = cc
      written panic h = cc
      written (ok key) h = elim (Option-cases (key_json.marshal key)) [
        | inl silent ↦ absurd (ground arith)
        | inr (enc, packed) ↦ elim (Option-cases (files.write_file d (key_file name) enc)) [
          | inl failed ↦ absurd (ground arith)
          | inr (d₁, put_there) ↦ inr (enc, ground arith)
        ]
      ]

  -- `NewWallet` for one name, where it returns a wallet, leaves alone what it returns for a name of
  -- another key file that is there. The files are as package os documents them.
  pub new_wallet_other :
      (generated drawn : Outcome KeyPair) (name other_name : Bytes) (d d' : files.Disk) (w : Wallet)
      → new_wallet files key_json generated name d ≡ (d', ok w)
      → key_file other_name ≢ key_file name
      → exist_file files (key_file other_name) d ≡ true
      → (new_wallet files key_json drawn other_name d').1
        ≡ (new_wallet files key_json drawn other_name d).1
  unfolding new_wallet read_wallet exist_file
  new_wallet_other generated drawn name other_name d d' w h apart there =
      elim (new_wallet_disk generated name d d' w h) [
        | inl same ↦ rw same refl
        | inr (enc, put_there) ↦ ground (
          arith,
          laws.exists_other d d' (key_file name) enc (key_file other_name) put_there apart,
          laws.read_other d d' (key_file name) enc (key_file other_name) put_there apart,
        )
      ]

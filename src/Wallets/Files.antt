-- ===== src/Wallets/Files.antt =====
-- accounts/wallets/wallet.go, accounts/keys/keypair.go and common/shortcut.go: the key file of a wallet.
pub mod Laws
use simple_blockchain_go.Base.{
  Bool, Bytes, Option, Outcome, Slice, [], err, false, file_io, if◌then◌else◌, json, none, not, ok,
  or_err, panic, some, ◌++◌, ◌>>=◌, ◌∷◌, ◌≡◌, ◌≢◌,
}
use simple_blockchain_go.Env.{Codec}
use simple_blockchain_go.Wallets.{Wallet}

-- What the code uses of package os.
pub record Files : Type 1 where
  pub Disk : Type 0
  pub not_exist : Disk → Bytes → Bool  -- `os.IsNotExist` of the error of `os.Stat`
  pub read_file : Disk → Bytes → Option Bytes
  pub write_file : Disk → Bytes → Bytes → Option Disk

-- What the documentation of package os promises of a write that succeeds.
pub record IsFiles (files : Files) : Type 0 where
  pub exists_written :
      (d d' : files.Disk) (name b : Bytes)
      → files.write_file d name b ≡ some d'
      → files.not_exist d' name ≡ false
  pub read_written :
      (d d' : files.Disk) (name b : Bytes)
      → files.write_file d name b ≡ some d'
      → files.read_file d' name ≡ some b
  pub exists_other :
      (d d' : files.Disk) (name b other_name : Bytes)
      → files.write_file d name b ≡ some d'
      → other_name ≢ name
      → files.not_exist d' other_name ≡ files.not_exist d other_name
  pub read_other :
      (d d' : files.Disk) (name b other_name : Bytes)
      → files.write_file d name b ≡ some d'
      → other_name ≢ name
      → files.read_file d' other_name ≡ files.read_file d other_name

pub record KeyPair : Type 0 where
  pub private_key : Bytes
  pub public_key : Slice

-- `keypairFile`: the name, then ".key".
unfoldable pub key_file : Bytes → Bytes
key_file name = name ++ b'.' ∷ b'k' ∷ b'e' ∷ b'y' ∷ []

-- `fromKeyPair`
unfoldable pub from_key_pair : KeyPair → Wallet
from_key_pair kp = record {
  private_key = kp.private_key;
  public_key = kp.public_key;
  nonce = 0;
  balance = 0;
}

module _ (files : Files) where
  open files use {Disk}

  -- `ExistFile`
  unfoldable pub exist_file : Bytes → Disk → Bool
  exist_file name d = not (files.not_exist d name)

  -- The wallet of a key file that is there.
  unfoldable pub read_wallet : Codec KeyPair → Bytes → Disk → Outcome Wallet
  read_wallet key_json name d = do
    f ← or_err (files.read_file d (key_file name)) file_io
    key ← or_err (key_json.unmarshal f) json
    ok (from_key_pair key)

  -- The wallet of a new key pair, which is written to the key file. `generated` is what `GenerateKey`
  -- returns.
  unfoldable pub make_wallet :
      Codec KeyPair → Outcome KeyPair → Bytes → Disk → Disk × Outcome Wallet
  make_wallet key_json (err x) name d = (d, err x)
  make_wallet key_json panic name d = (d, panic)
  make_wallet key_json (ok key) name d = elim (key_json.marshal key) [
    | none ↦ (d, err json)
    | some enc ↦ elim (files.write_file d (key_file name) enc) [
      | none ↦ (d, err file_io)
      | some d' ↦ (d', ok (from_key_pair key))
    ]
  ]

  -- `NewWallet`
  unfoldable pub new_wallet : Codec KeyPair → Outcome KeyPair → Bytes → Disk → Disk × Outcome Wallet
  unfolding read_wallet make_wallet exist_file
  new_wallet key_json generated name d =
      if exist_file (key_file name) d
      then (d, read_wallet key_json name d)
      else make_wallet key_json generated name d

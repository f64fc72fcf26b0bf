-- ===== src/Storage/Db.antt =====
-- storage/storage_db.go.
pub mod Laws
use simple_blockchain_go.Base.{
  Bytes, Option, Outcome, Slice, [], content, database, err, json, ok, or_err, panic, ◌>>=◌, ◌∷◌,
}
use simple_blockchain_go.Storage.Bolt.{Bolt}

-- The letters of "latest".
abbrev pub latest_key : Bytes
latest_key = b'l' ∷ b'a' ∷ b't' ∷ b'e' ∷ b's' ∷ b't' ∷ []

-- The letters of "latestIdx".
abbrev pub latest_index : Bytes
latest_index = b'l' ∷ b'a' ∷ b't' ∷ b'e' ∷ b's' ∷ b't' ∷ b'I' ∷ b'd' ∷ b'x' ∷ []

-- `DbContent`: what its three methods return.
pub record DbContent : Type 0 where
  pub to_bytes : Option Bytes
  pub key : Slice
  pub index : Slice

module _ (bolt : Bolt) where
  open bolt use {Db, read, write}

  -- The four writes of `Put`, in their order.
  unfoldable pub write_content : Bytes → Bytes → Bytes → Bytes → Db → Outcome Db
  write_content bucket enc key idx db = do
    db₁ ← or_err (write db bucket key enc) database
    db₂ ← or_err (write db₁ bucket idx key) database
    db₃ ← or_err (write db₂ bucket latest_key key) database
    or_err (write db₃ bucket latest_index idx) database

  -- `innerDb.Update`: what a transaction that fails has written is rolled back.
  abbrev pub update : (Db → Outcome Db) → Db → Db × Outcome (Unit {0})
  update f db = elim (f db) [ ok db' ↦ (db', ok tt) | err x ↦ (db, err x) | panic ↦ (db, panic) ]

  -- `Put`
  unfoldable pub put_db : Bytes → DbContent → Db → Db × Outcome (Unit {0})
  put_db bucket c = update (λ db. do
    enc ← or_err c.to_bytes json
    write_content bucket enc (content c.key) (content c.index) db)

  -- `GetByKey`
  unfoldable pub get_by_key : Bytes → Slice → Db → Slice
  get_by_key bucket key db = read db bucket (content key)

  -- `GetByIndex`
  unfoldable pub get_by_index : Bytes → Slice → Db → Slice
  get_by_index bucket index db =
      let key = read db bucket (content index) in read db bucket (content key)

  -- `GetLatestKey`
  unfoldable pub get_latest_key : Bytes → Db → Slice
  get_latest_key bucket db = read db bucket latest_key

  -- `GetLatestIndex`
  unfoldable pub get_latest_index : Bytes → Db → Slice
  get_latest_index bucket db = read db bucket latest_index

  -- `GetLatest`
  unfoldable pub get_latest : Bytes → Db → Slice
  get_latest bucket db = let key = read db bucket latest_key in read db bucket (content key)

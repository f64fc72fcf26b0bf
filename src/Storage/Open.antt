-- ===== src/Storage/Open.antt =====
-- storage/storage_db.go and storage/storage_service.go: the database of a name.
use simple_blockchain_go.Base.{
  Bytes, List, Option, Outcome, [], database, err, if◌then◌else◌, none, ok, panic, some, ◌++◌, ◌∷◌,
  ◌≡◌, ◌≢◌,
}
use simple_blockchain_go.Storage.Bolt.{Bolt}
use simple_blockchain_go.Storage.Service.{accounts_bucket, blocks_bucket}
use simple_blockchain_go.Wallets.Files.{Files, exist_file}

-- What the code uses of bbolt besides reads and writes: `Open`, and `CreateBucket` in a transaction.
-- An open file may lack buckets; it is a database of the service once it has both.
pub record Opener (files : Files) (bolt : Bolt) : Type 1 where
  pub OpenFile : Type 0
  pub open_file : files.Disk → Bytes → Option (files.Disk × OpenFile)
  pub create_bucket : OpenFile → Bytes → Option OpenFile
  pub with_buckets : OpenFile → Option bolt.Db  -- `none` if a bucket of the service is not there

-- What the documentation of bbolt promises of `Open`: it makes or opens the one file.
pub record IsOpener (files : Files) (bolt : Bolt) (opener : Opener files bolt) : Type 0 where
  pub keeps_exist :
      (d d' : files.Disk) (name other_name : Bytes) (file : opener.OpenFile)
      → opener.open_file d name ≡ some (d', file)
      → other_name ≢ name
      → files.not_exist d' other_name ≡ files.not_exist d other_name
  pub keeps_read :
      (d d' : files.Disk) (name other_name : Bytes) (file : opener.OpenFile)
      → opener.open_file d name ≡ some (d', file)
      → other_name ≢ name
      → files.read_file d' other_name ≡ files.read_file d other_name

-- `DatabaseFileName`: the name, then ".db".
unfoldable pub database_file_name : Bytes → Bytes
database_file_name name = name ++ b'.' ∷ b'd' ∷ b'b' ∷ []

module _ (files : Files) (bolt : Bolt) (opener : Opener files bolt) where
  -- `makeBucket`, whose error is dropped where it is called.
  unfoldable pub make_bucket : Bytes → opener.OpenFile → opener.OpenFile
  make_bucket name file = elim (opener.create_bucket file name) [ none ↦ file | some made ↦ made ]

  unfoldable pub make_buckets : List Bytes → opener.OpenFile → opener.OpenFile
  unfolding make_bucket
  make_buckets [] file = file
  make_buckets (b ∷ buckets) file = make_buckets buckets (make_bucket b file)

  -- `NewStorageDb`: the buckets of a database that is there are not made again.
  unfoldable pub new_storage_db :
      Bytes → List Bytes → files.Disk → files.Disk × Outcome opener.OpenFile
  unfolding make_buckets
  new_storage_db name buckets d =
      let there = exist_file files (database_file_name name) d in
      elim (opener.open_file d (database_file_name name)) [
        | none ↦ (d, err database)
        | some (d', file) ↦ (d', ok (if there then file else make_buckets buckets file))
      ]

  -- The database that the service works on: a bucket that is not there is nil where it is used, which
  -- panics.
  unfoldable use_buckets : Outcome opener.OpenFile → Outcome bolt.Db
  use_buckets (ok file) = elim (opener.with_buckets file) [ none ↦ panic | some db ↦ ok db ]
  use_buckets (err x) = err x
  use_buckets panic = panic

  -- `NewStorageService`, with the first use of both buckets by what it leaves.
  unfoldable pub new_storage_service : Bytes → files.Disk → files.Disk × Outcome bolt.Db
  unfolding new_storage_db use_buckets
  new_storage_service name d =
      let (d', file) = new_storage_db name (blocks_bucket ∷ accounts_bucket ∷ []) d in
      (d', use_buckets file)

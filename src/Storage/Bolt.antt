-- ===== src/Storage/Bolt.antt =====
-- go.etcd.io/bbolt, as far as storage/ uses it: buckets of keys and values. A bucket is named by
-- its bytes. A `Db` is a database in which the buckets of the service were made (Storage.Open makes
-- them); the code reads and writes no other bucket.
use simple_blockchain_go.Base.{
  Bytes, List, Option, Slice, [], length, none, some, ◌≡◌, ◌≢◌, ◌≤◌, ◌⊎◌,
}

pub record Bolt : Type 1 where
  pub Db : Type 0
  pub read : Db → Bytes → Bytes → Slice  -- bucket, key; nil if the key is not there
  pub write : Db → Bytes → Bytes → Bytes → Option Db  -- bucket, key, value; `none` is an error
  pub cursor : Db → Bytes → List (Bytes × Bytes)  -- the pairs of a bucket, in order

-- The documented behaviour: a value written is the value read, other keys keep theirs, and a write
-- (to a bucket that was made) fails only for a key that is empty or longer than 32768 bytes, or for a value beyond its limit.
pub record IsBolt (bolt : Bolt) : Type 0 where
  pub read_written :
      (db db' : bolt.Db) (bucket key value : Bytes)
      → bolt.write db bucket key value ≡ some db'
      → bolt.read db' bucket key ≡ some value
  pub read_other :
      (db db' : bolt.Db) (bucket key value b k : Bytes)
      → bolt.write db bucket key value ≡ some db'
      → (b ≢ bucket) ⊎ (k ≢ key)
      → bolt.read db' b k ≡ bolt.read db b k
  pub writes :
      (db : bolt.Db) (bucket key value : Bytes)
      → 1 ≤ length key
      → length key ≤ 32768
      → length value ≤ 2147483646
      → bolt.write db bucket key value ≢ none
  pub read_empty : (db : bolt.Db) (bucket : Bytes) → bolt.read db bucket [] ≡ none

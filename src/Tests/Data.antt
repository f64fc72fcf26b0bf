-- ===== src/Tests/Data.antt =====
-- Test data: an environment, a database, a mempool and the services over them.
use simple_blockchain_go.Accounts.{AccountState}
use simple_blockchain_go.Base.{
  Bytes, Option, Outcome, Slice, Sort, [], ap, arith, bytes_eq, bytes_eq_iff, bytes_eq_self,
  content, err, false, if◌then◌else◌, insertion_sort, length, length-append, length-map,
  length-replicate, length-take, map, none, ok, panic, refl, replicate, some, sym, take, ℕ, ◌%◌,
  ◌&&◌, ◌++◌, ◌∙◌, ◌∷◌, ◌≡◌, ◌≢◌, ◌≤◌, ◌⊎◌,
}
use simple_blockchain_go.Blockchain.{Blockchain}
use simple_blockchain_go.Env.{Codec, Env}
use simple_blockchain_go.Memory.Db.{node_key}
use simple_blockchain_go.Memory.Service.{MemoryService}
use simple_blockchain_go.Merkle.{MerkleNode}
use simple_blockchain_go.Storage.Bolt.{Bolt, IsBolt}
use simple_blockchain_go.Types.{
  AirdropParam, Block, Call, Transaction, TransactionData, TransferParam,
}
use simple_blockchain_go.Wallets.{Wallet}

abbrev pub test_hash : Bytes → Bytes
test_hash b = map (λ x. x % 256) (take 32 (b ++ replicate 32 0))

abbrev pub codec : {A : Type 0} → (A → Bytes) → (Bytes → Option A) → Codec A
codec marshal unmarshal = record { marshal = λ a. some (marshal a); unmarshal = unmarshal }

abbrev read_call : Bytes → Option Call
read_call [] = none
read_call (k ∷ b) = some (record { call = k; params = some b })

abbrev read_airdrop : Bytes → Option AirdropParam
read_airdrop [] = none
read_airdrop (a ∷ b) = some (record { amount = a })

abbrev read_transfer : Bytes → Option TransferParam
read_transfer [] = none
read_transfer (a ∷ b) = some (record { amount = a; to = some b })

abbrev read_state : Bytes → Option AccountState
read_state (n ∷ b ∷ []) = some (record { nonce = n; balance = b })
read_state b = none

abbrev pub env : Env
env = record {
  sum256 = test_hash;
  ed25519_verify = λ k m s. bytes_eq s (k ++ m);
  ed25519_sign = λ k m. k ++ m;
  base58_encode = λ b. b;
  base58_decode = λ b. b;
  tx_data_json = codec (λ (d : TransactionData). content d.payload) (λ b. none);
  tx_json = codec (λ (t : Transaction). content t.hash) (λ b. none);
  call_json = codec (λ (c : Call). c.call ∷ content c.params) read_call;
  airdrop_json = codec (λ (p : AirdropParam). p.amount ∷ []) read_airdrop;
  transfer_json = codec (λ (p : TransferParam). p.amount ∷ content p.to) read_transfer;
  state_json = codec (λ (s : AccountState). s.nonce ∷ s.balance ∷ []) read_state;
  block_json = codec (λ (b : Block). content b.info.hash) (λ b. none);
}

-- A database as a function of bucket and key.
abbrev read_from : (Bytes → Bytes → Slice) → Bytes → Bytes → Slice
read_from db b [] = none
read_from db b (x ∷ k) = db b (x ∷ k)

abbrev written : (Bytes → Bytes → Slice) → Bytes → Bytes → Bytes → Bytes → Bytes → Slice
written db bucket key value b k = if bytes_eq b bucket && bytes_eq k key then some value else db b k

abbrev write_to : (Bytes → Bytes → Slice) → Bytes → Bytes → Bytes → Option (Bytes → Bytes → Slice)
write_to db bucket [] value = none
write_to db bucket (x ∷ key) value = some (written db bucket (x ∷ key) value)

abbrev pub test_bolt : Bolt
test_bolt = record {
  Db = Bytes → Bytes → Slice;
  read = read_from;
  write = write_to;
  cursor = λ db b. [];
}

abbrev pub empty_db : Bytes → Bytes → Slice
empty_db b k = none

pub test_bolt-IsBolt : IsBolt test_bolt
test_bolt-IsBolt = record {
  read_written = read_written;
  read_other = read_other;
  writes = writes;
  read_empty = λ db bucket. refl;
}
  where
    read_written :
        (db db' : Bytes → Bytes → Slice) (bucket key value : Bytes)
        → write_to db bucket key value ≡ some db'
        → read_from db' bucket key ≡ some value
    read_written db db' bucket [] value h = cc
    read_written db db' bucket (x ∷ key) value h =
        let same : written db bucket (x ∷ key) value ≡ db' = cc in
        ap (λ (f : Bytes → Bytes → Slice). f bucket (x ∷ key)) (sym same)
        ∙ rw (bytes_eq_self bucket, bytes_eq_self (x ∷ key))

    read_other :
        (db db' : Bytes → Bytes → Slice) (bucket key value b k : Bytes)
        → write_to db bucket key value ≡ some db'
        → (b ≢ bucket) ⊎ (k ≢ key)
        → read_from db' b k ≡ read_from db b k
    read_other db db' bucket [] value b k h differs = cc
    read_other db db' bucket (x ∷ key) value b [] h differs = refl
    read_other db db' bucket (x ∷ key) value b (y ∷ k) h differs =
        let same : written db bucket (x ∷ key) value ≡ db' = cc in
        ap (λ (f : Bytes → Bytes → Slice). f b (y ∷ k)) (sym same)
        ∙ ground (arith, bytes_eq_iff b bucket, bytes_eq_iff (y ∷ k) (x ∷ key))

    writes :
        (db : Bytes → Bytes → Slice) (bucket key value : Bytes)
        → 1 ≤ length key
        → length key ≤ 32768
        → length value ≤ 2147483646
        → write_to db bucket key value ≢ none
    writes db bucket [] value h k v e = absurd (omega arith)
    writes db bucket (x ∷ key) value h k v e = cc

abbrev pub key_of : ℕ → Bytes
key_of n = replicate 32 n

abbrev pub alice : Bytes
alice = key_of 1

abbrev pub bob : Bytes
bob = key_of 2

-- An airdrop of `amount` that `from` asks for.
abbrev pub airdrop_tx : Bytes → ℕ → ℕ → Transaction
airdrop_tx from n amount =
    let payload = 1 ∷ amount ∷ [] in
    record {
      hash = some (test_hash payload);
      inner_data = record {
        payload = some payload;
        public_key = some from;
        nonce = n;
        signature = some (from ++ payload);
        timestamp = 1;
      };
      status = false;
    }

abbrev pub full_pool : MemoryService
full_pool = record {
  mempool = record { pool = (key_of 9, airdrop_tx alice 0 50) ∷ [] };
  state_mem =
      (key_of 7, record { nonce = 0; balance = 1000 })
      ∷ (bob, record { nonce = 0; balance = 5 })
      ∷ [];
}

abbrev pub chain : Blockchain
chain = record {
  next_height = 1;
  next_epoch = 0;
  next_slot = 1;
  previous_block_hash = some (key_of 5);
}

abbrev pub wallet : Wallet
wallet = record { private_key = alice; public_key = some alice; nonce = 0; balance = 0 }

abbrev pub node_sort : Sort MerkleNode
node_sort less nodes = insertion_sort node_key nodes

abbrev pub value_or {ℓ} : {A : Type ℓ} → A → Outcome A → A
value_or a (ok b) = b
value_or a (err x) = a
value_or a panic = a

abbrev pub empty_block : Block
empty_block = record {
  info = record { height = 0; hash = none; signature = none; public_key = none; timestamp = 0 };
  bundle = record { transactions = [] };
  previous_block_hash = none;
  state_hash = none;
}

pub hash_size_lem : (b : Bytes) → length (test_hash b) ≡ 32
hash_size_lem b =
    length-map (take 32 (b ++ replicate 32 0)) (λ x. x % 256)
    ∙ length-take 32 (b ++ replicate 32 0)
        (omega (arith, length-append b (replicate 32 0), length-replicate {A = ℕ} 32 0))

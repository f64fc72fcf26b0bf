-- ===== src/Tests/Commands.antt =====
-- The theorems on the files, the full node and the command line at concrete inputs.
use simple_blockchain_go.Base.{
  Bytes, List, Option, Outcome, Slice, [], ap, arith, bytes_eq, bytes_eq_iff, bytes_eq_self,
  contains_func, drop, drop-append, if◌then◌else◌, inl, length, none, not, not_nil, ok, refl,
  replicate, some, sym, take, take-append, ◌&&◌, ◌++◌, ◌∙◌, ◌∷◌, ◌≡◌, ◌≢◌,
}
use simple_blockchain_go.Cli.{Parser, index_panics, new_account, node_word, parse_args}
use simple_blockchain_go.Cli.Commands.{Outside, run_command, run_command_address, run_new}
use simple_blockchain_go.Cli.Laws.{parse_args-index_panics}
use simple_blockchain_go.Env.{Codec, IsFaithful}
use simple_blockchain_go.Fullnode.{FullNode, assemble_node, new_full_node}
use simple_blockchain_go.Fullnode.Start.{run_full_node-generate}
use simple_blockchain_go.Genesis.{generate}
use simple_blockchain_go.Genesis.Generator.{new_generator}
use simple_blockchain_go.Nodes.Sync.Blocks.{block_content}
use simple_blockchain_go.Storage.Db.{put_db, write_content}
use simple_blockchain_go.Storage.Open.{
  IsOpener, Opener, database_file_name, make_bucket, new_storage_service,
}
use simple_blockchain_go.Storage.Service.{accounts_bucket, blocks_bucket}
use simple_blockchain_go.Tests.Codecs.{block_codec-IsFaithful}
use simple_blockchain_go.Tests.Data.{
  alice, bob, empty_db, env, hash_size_lem, test_bolt, test_bolt-IsBolt, wallet,
}
use simple_blockchain_go.Tests.Exchange.{
  absent_ok, first_bytes, first_made, first_small, random_bytes, state_codec-IsFaithful,
  supply_bytes, whole_net,
}
use simple_blockchain_go.Tests.Network.{network_json}
use simple_blockchain_go.Tests.Sync.{node_env}
use simple_blockchain_go.Wallets.{Wallet, sign_raw}
use simple_blockchain_go.Wallets.Files.{
  Files, IsFiles, KeyPair, exist_file, from_key_pair, key_file, new_wallet,
}

-- A disk as a function of the name.
abbrev test_write : (Bytes → Slice) → Bytes → Bytes → Option (Bytes → Slice)
test_write d name b = some (λ n. if bytes_eq n name then some b else d n)

abbrev test_files : Files
test_files = record {
  Disk = Bytes → Slice;
  not_exist = λ d name. not (not_nil (d name));
  read_file = λ d name. d name;
  write_file = test_write;
}

abbrev empty_disk : Bytes → Slice
empty_disk name = none

test_write-same :
    (d d' : Bytes → Slice) (name b : Bytes) → test_write d name b ≡ some d' → d' name ≡ some b
test_write-same d d' name b h =
    let same : (λ n. if bytes_eq n name then some b else d n) ≡ d' = cc in
    ap (λ (f : Bytes → Slice). f name) (sym same) ∙ rw (bytes_eq_self name) refl

test_write-other :
    (d d' : Bytes → Slice) (name b another : Bytes)
    → test_write d name b ≡ some d'
    → another ≢ name
    → d' another ≡ d another
test_write-other d d' name b another h apart =
    let same : (λ n. if bytes_eq n name then some b else d n) ≡ d' = cc in
    ap (λ (f : Bytes → Slice). f another) (sym same) ∙ ground (arith, bytes_eq_iff another name)

test_files-IsFiles : IsFiles test_files
test_files-IsFiles = record {
  exists_written = λ d d' name b h. ap (λ s. not (not_nil s)) (test_write-same d d' name b h);
  read_written = test_write-same;
  exists_other = λ d d' name b another h apart.
      ap (λ s. not (not_nil s)) (test_write-other d d' name b another h apart);
  read_other = test_write-other;
}

-- A key pair with a public key, the length of the private key ahead.
abbrev write_keys : Bytes → Slice → Option Bytes
write_keys private none = none
write_keys private (some k) = some (length private ∷ (private ++ k))

abbrev read_keys : Bytes → Option KeyPair
read_keys [] = none
read_keys (n ∷ l) = some (record { private_key = take n l; public_key = some (drop n l) })

abbrev key_codec : Codec KeyPair
key_codec = record {
  marshal = λ kp. write_keys kp.private_key kp.public_key;
  unmarshal = read_keys;
}

faithful_keys :
    (private : Bytes) (k : Slice) (b : Bytes)
    → write_keys private k ≡ some b
    → read_keys b ≡ some (record { private_key = private; public_key = k })
faithful_keys private none b h = cc
faithful_keys private (some k) b h =
    let same : length private ∷ (private ++ k) ≡ b = cc in
    ap read_keys (sym same) ∙ rw (take-append private k, drop-append private k) refl

key_codec-IsFaithful : IsFaithful key_codec
key_codec-IsFaithful kp b h = faithful_keys kp.private_key kp.public_key b h

abbrev alice_keys : Outcome KeyPair
alice_keys = ok (record { private_key = alice; public_key = some alice })

abbrev bob_keys : Outcome KeyPair
bob_keys = ok (record { private_key = bob; public_key = some bob })

abbrev test_name : Bytes
test_name = b'm' ∷ []

-- The database that the generator leaves, for a name whose key file is there.
abbrev made_db : Bytes → Bytes → Slice
made_db = (generate test_bolt node_env 1 wallet random_bytes random_bytes empty_db).0

-- A database, and the names of its buckets.
abbrev TestFile : Type 0
TestFile = (Bytes → Bytes → Slice) × List Bytes

abbrev test_open : (Bytes → Slice) → Bytes → Option ((Bytes → Slice) × TestFile)
test_open d name = some (
  d,
  (if not_nil (d (key_file test_name))
      then (made_db, accounts_bucket ∷ blocks_bucket ∷ [])
      else (empty_db, [])),
)

abbrev test_buckets : TestFile → Option (Bytes → Bytes → Slice)
test_buckets (db, names) =
    if contains_func names (bytes_eq blocks_bucket)
      && contains_func names (bytes_eq accounts_bucket)
    then some db
    else none

abbrev test_opener : Opener test_files test_bolt
test_opener = record {
  OpenFile = TestFile;
  open_file = test_open;
  create_bucket = λ file b. some (file.0, b ∷ file.1);
  with_buckets = test_buckets;
}

test_opener-IsOpener : IsOpener test_files test_bolt test_opener
test_opener-IsOpener = record {
  keeps_exist = λ d d' name another file h apart.
      let same : d ≡ d' = cc in ap (λ (f : Bytes → Slice). not (not_nil (f another))) (sym same);
  keeps_read = λ d d' name another file h apart.
      let same : d ≡ d' = cc in ap (λ (f : Bytes → Slice). f another) (sym same);
}

abbrev made_disk : Bytes → Slice
made_disk = (new_wallet test_files key_codec alice_keys test_name empty_disk).0

generator_made :
    new_generator test_files test_bolt test_opener key_codec alice_keys test_name empty_disk
    ≡ (made_disk, ok (wallet, empty_db))
unfolding new_generator exist_file new_storage_service new_wallet from_key_pair make_bucket bytes_eq
generator_made = refl

reopened :
    new_storage_service test_files test_bolt test_opener test_name made_disk
    ≡ (made_disk, ok made_db)
unfolding new_storage_service generate exist_file new_wallet put_db bytes_eq block_content
    database_file_name sign_raw key_file write_content make_bucket
reopened = refl

run_full_node-generate_example :
    new_full_node test_files test_bolt test_opener key_codec bob_keys test_name
      (3 ∷ [])
      (5 ∷ [])
      (8 ∷ [])
      made_disk
    ≡ (
      made_disk,
      ok (
          assemble_node test_files test_bolt test_opener key_codec
            (3 ∷ [])
            (5 ∷ [])
            (8 ∷ [])
            made_db
            wallet),
    )
run_full_node-generate_example =
    (run_full_node-generate test_files test_bolt test_opener key_codec node_env network_json
      (λ p. replicate 4 p) test_files-IsFiles test_opener-IsOpener test_bolt-IsBolt
      key_codec-IsFaithful block_codec-IsFaithful state_codec-IsFaithful hash_size_lem alice_keys
      bob_keys test_name (3 ∷ []) (5 ∷ []) (8 ∷ []) empty_disk made_disk made_disk empty_db wallet 1
      2 random_bytes random_bytes first_bytes supply_bytes generator_made refl first_made
      first_small refl (omega arith) absent_ok reopened).0

abbrev no_flags : Parser
no_flags letters defaults args = some defaults

parse_args-index_panics_example : parse_args no_flags (test_name ∷ node_word ∷ []) ≡ index_panics
parse_args-index_panics_example =
    (parse_args-index_panics no_flags (test_name ∷ node_word ∷ [])).1
      (test_name, node_word, refl, inl refl)

-- Nothing answers at any port.
abbrev outside : Outcome KeyPair → Outside
outside keys = record {
  generated = keys;
  now = 1;
  prev = random_bytes;
  state = random_bytes;
  serve = λ port sent. [];
}

abbrev runs_on : FullNode test_bolt → Outcome (Unit {0})
runs_on full = ok tt

made_account :
    (run_command test_files test_bolt test_opener key_codec env whole_net
      (λ n. n ∷ [])
      (outside alice_keys)
      runs_on
      (new_account test_name)
      empty_disk).result
    ≡ ok tt
unfolding run_command run_new new_wallet
made_account = refl

run_command_address_example :
    (w : Wallet) × (new_wallet test_files key_codec alice_keys test_name empty_disk ≡ (
      (run_command test_files test_bolt test_opener key_codec env whole_net
          (λ n. n ∷ [])
          (outside alice_keys)
          runs_on
          (new_account test_name)
          empty_disk).disk,
      ok w,
    ))
run_command_address_example =
    let shown =
      run_command_address test_files test_bolt test_opener key_codec env whole_net (λ n. n ∷ [])
        test_files-IsFiles key_codec-IsFaithful (outside alice_keys) (outside bob_keys) runs_on
        test_name empty_disk made_account in
    (shown.0, shown.1)

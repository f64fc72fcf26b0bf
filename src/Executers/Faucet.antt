-- ===== src/Executers/Faucet.antt =====
-- executers/faucet.go: the generator of the chain and its account.
use simple_blockchain_go.Storage.Service.{put as put_in_storage, get as get_from_storage}
use simple_blockchain_go.Base.{Outcome, Slice, err, json, none, ok, panic, replicate, some, ℕ}
use simple_blockchain_go.Common.{generator_balance}
use simple_blockchain_go.Common.Hex.{to_hex}
use simple_blockchain_go.Env.{Env}
use simple_blockchain_go.Storage.Bolt.{Bolt}
use simple_blockchain_go.Storage.Db.{DbContent}
use simple_blockchain_go.Storage.Service.{accounts, blocks, by_index, by_key}
use simple_blockchain_go.Types.{Account}

module _ (bolt : Bolt) (e : Env) where
  open bolt use {Db}

  -- What the database stores of an account: `ToBytes`, `GetKey` and `GetIndex`.
  unfoldable pub account_content : Account → DbContent
  account_content a = record {
    to_bytes = e.state_json.marshal a.state;
    key = a.public_key;
    index = some (to_hex 8 a.timestamp);
  }

  abbrev pub generator_account : Slice → ℕ → Account
  generator_account pk now = record {
    public_key = pk;
    state = record { nonce = 0; balance = generator_balance };
    timestamp = now;
  }

  -- The end of `Init`, for the key that the first block names.
  unfoldable pub init_generator : ℕ → Slice → Slice → Db → Db × Slice × Outcome (Unit {0})
  init_generator now pk old db = elim (get_from_storage bolt accounts by_key pk db) [
    | some raw ↦ (db, pk, ok tt)
    | none ↦
        let (db', r) =
          put_in_storage bolt accounts (some (account_content (generator_account pk now))) db in
        elim r [ ok u ↦ (db', pk, ok tt) | err x ↦ (db', old, err x) | panic ↦ (db', old, panic) ]
  ]

  -- `Faucet.Init`, at the clock's second `now` and with the generator so far: the database, the
  -- generator and the error.
  unfoldable pub faucet_init : ℕ → Slice → Db → Db × Slice × Outcome (Unit {0})
  faucet_init now old db = elim (get_from_storage bolt blocks by_index (some (replicate 8 0)) db) [
    | none ↦ (db, old, ok tt)
    | some raw ↦ elim (e.block_json.unmarshal raw) [
      | none ↦ (db, old, err json)
      | some blk ↦ init_generator now blk.info.public_key old db
    ]
  ]

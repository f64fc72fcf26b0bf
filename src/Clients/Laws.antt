-- ===== src/Clients/Laws.antt =====
-- clients/client.go against nodes/rpc/rpc_server.go, over a network that delivers whole reads.
use simple_blockchain_go.Storage.Service.{get as get_from_storage}
use mathlib.Core.List.{append-nil}
use simple_blockchain_go.Accounts.{AccountState, zero_state}
use simple_blockchain_go.Base.{
  Bytes, Slice, [], ap, arith, drop-append, false, leb, len, length, length-append, ltb, none, ok,
  refl, some, suc, sym, take-append, true, ℕ, ◌++◌, ◌-◌, ◌<◌, ◌^◌, ◌||◌, ◌∙◌, ◌∷◌, ◌≡◌, ◌≤◌,
}
use simple_blockchain_go.Clients.{get_account_info, read_reply, send_call, send_request}
use simple_blockchain_go.Common.{max_payload_size, public_key_size}
use simple_blockchain_go.Common.Hex.{from_hex, from_hex-to_hex, to_hex}
use simple_blockchain_go.Env.{Env, IsFaithful}
use simple_blockchain_go.Memory.Service.{MemoryService}
use simple_blockchain_go.Nodes.RpcServer.{answer_query, dispatch, handle_call, handle_rpc, reply}
use simple_blockchain_go.Nodes.Sync.Messages.{SyncJson}
use simple_blockchain_go.P2p.Service.{P2pService}
use simple_blockchain_go.Rpc.{get_account_state_kind, verify_get_account_state_call}
use simple_blockchain_go.Rpc.Wire.{IsWhole, Net, read_conn, read_length, unsigned_rpc, with_length}
use simple_blockchain_go.Storage.Bolt.{Bolt}
use simple_blockchain_go.Storage.Service.{accounts, by_key, read_state}
use simple_blockchain_go.Types.{Call}
use simple_blockchain_go.Wallets.{Wallet}

get_account_info-send_call :
    (e : Env) (net : Net) (serve : Bytes → Bytes) (w : Wallet) (res : Bytes) (s : AccountState)
    → send_call e net serve (record { call = get_account_state_kind; params = w.public_key })
      ≡ ok res
    → e.state_json.unmarshal res ≡ some s
    → get_account_info e net serve w ≡ ok s
unfolding get_account_info
get_account_info-send_call e net serve w res s got back = ground arith

module _ (net : Net) (whole : IsWhole net) where
  -- A read that finds as many bytes as it wants takes exactly these.
  read_conn-append : (a rest : Bytes) → read_conn net (length a) (a ++ rest) ≡ some (a, rest)
  unfolding read_conn
  read_conn-append [] rest = refl
  read_conn-append (x ∷ a) rest =
      let none_left : suc (length a) - suc (length a) ≡ 0 = omega arith in
      rw
        (
          whole (suc (length a)) (x ∷ (a ++ rest)) (omega (arith, length-append a rest)),
          take-append a rest,
          drop-append a rest,
        )
        (rw (none_left, append-nil a))

  read_conn-to_hex :
      (k : ℕ) (rest : Bytes) → read_conn net 4 (to_hex 4 k ++ rest) ≡ some (to_hex 4 k, rest)
  unfolding to_hex
  read_conn-to_hex k rest = read_conn-append (to_hex 4 k) rest

  read_length-with_length :
      (payload : Bytes)
      → length payload < 2 ^ 31
      → read_length net (with_length payload) ≡ some (length payload, payload)
  unfolding read_length with_length
  read_length-with_length payload h =
      let back : from_hex 4 (to_hex 4 (length payload)) ≡ some (length payload) =
        from_hex-to_hex 4 (length payload) (omega arith) in
      ground (arith, read_conn-to_hex (length payload) payload, back)

  read_conn-all : (a : Bytes) → read_conn net (length a) a ≡ some (a, [])
  read_conn-all a =
      ap (λ b. read_conn net (length a) b) (sym (append-nil a)) ∙ read_conn-append a []

  read_reply-with_length :
      (payload : Bytes)
      → length payload < 2 ^ 31
      → read_reply net (with_length payload) ≡ ok payload
  unfolding read_reply
  read_reply-with_length payload h =
      let short : leb (2 ^ 31) (length payload) ≡ false = ground arith in
      ground (arith, read_length-with_length payload h, read_conn-all payload, short)

  module _ (e : Env) (js : SyncJson) (bolt : Bolt) where
    handle_rpc-dispatch :
        (payload : Bytes) (ps : P2pService) (db : bolt.Db) (ms : MemoryService)
        → 1 ≤ length payload
        → length payload ≤ max_payload_size
        → handle_rpc e js bolt net (with_length payload) ps db ms
          ≡ reply e js bolt (dispatch e js bolt payload ps db ms)
    unfolding handle_rpc
    handle_rpc-dispatch payload ps db ms low high =
        let fits : (ltb max_payload_size (length payload) || ltb (length payload) 1) ≡ false =
          ground arith in
        ground (arith, read_length-with_length payload (omega arith), read_conn-all payload, fits)

    dispatch-query :
        (c : Call) (raw : Bytes) (ps : P2pService) (db : bolt.Db) (ms : MemoryService)
        → e.call_json.unmarshal raw ≡ some c
        → verify_get_account_state_call e c ≡ true
        → dispatch e js bolt (unsigned_rpc ∷ raw) ps db ms
          ≡ (ms, [], answer_query e js bolt (get_from_storage bolt accounts by_key c.params db))
    unfolding dispatch handle_call
    dispatch-query c raw ps db ms read good = ground arith

    answer_query_lem :
        IsFaithful e.state_json
        → (found : Slice) (zero_bytes : Bytes) (s : AccountState)
        → e.state_json.marshal zero_state ≡ some zero_bytes
        → length zero_bytes < 2 ^ 31
        → len found < 2 ^ 31
        → read_state bolt e found ≡ ok s
        → (res : Bytes) × (answer_query e js bolt found ≡ ok (some res))
          × (e.state_json.unmarshal res ≡ some s)
          × (length res < 2 ^ 31)
    unfolding answer_query read_state
    answer_query_lem faithful none zero_bytes s made short small h =
        (zero_bytes, ground arith, faithful zero_state zero_bytes made ∙ ground arith, short)
    answer_query_lem faithful (some raw) zero_bytes s made short small h =
        (raw, refl, ground arith, small)

    send_call-query :
        (w : Wallet) (enc res : Bytes) (ps : P2pService) (db : bolt.Db) (ms : MemoryService)
        → IsFaithful e.call_json
        → e.call_json.marshal (record { call = get_account_state_kind; params = w.public_key })
          ≡ some enc
        → length enc < max_payload_size
        → len w.public_key ≡ public_key_size
        → answer_query e js bolt (get_from_storage bolt accounts by_key w.public_key db)
          ≡ ok (some res)
        → length res < 2 ^ 31
        → send_call e net
            (λ sent. (handle_rpc e js bolt net sent ps db ms).written)
            (record { call = get_account_state_kind; params = w.public_key })
          ≡ ok res
    unfolding send_call send_request reply with_length
    send_call-query w enc res ps db ms faithful made fits sized answered small =
        let c : Call = record { call = get_account_state_kind; params = w.public_key } in
        let good : verify_get_account_state_call e c ≡ true =
          unfold verify_get_account_state_call in ground arith in
        let query = dispatch-query c enc ps db ms (faithful c enc made) good in
        let served =
          handle_rpc-dispatch (unsigned_rpc ∷ enc) ps db ms (omega arith) (omega arith) in
        rw (made, served, query, answered) (read_reply-with_length res small)

    -- Over a network that delivers whole reads, a client that asks for the state of its account, of a key
    -- of 32 bytes, gets the state that the node's database holds, or the zero state if it holds none. The
    -- call, with its first byte, fits the server's bound, and the answer's length an int32. Calls and states
    -- are read back as they were marshalled, the stored state without an error.
    pub get_account_info-handle_rpc :
        IsFaithful e.call_json
        → IsFaithful e.state_json
        → (w : Wallet) (enc zero_bytes : Bytes) (s : AccountState) (ps : P2pService) (db : bolt.Db)
          (ms : MemoryService)
        → len w.public_key ≡ public_key_size
        → e.call_json.marshal (record { call = get_account_state_kind; params = w.public_key })
          ≡ some enc
        → length enc < max_payload_size
        → e.state_json.marshal zero_state ≡ some zero_bytes
        → length zero_bytes < 2 ^ 31
        → len (get_from_storage bolt accounts by_key w.public_key db) < 2 ^ 31
        → read_state bolt e (get_from_storage bolt accounts by_key w.public_key db) ≡ ok s
        → get_account_info e net (λ sent. (handle_rpc e js bolt net sent ps db ms).written) w ≡ ok s
    unfolding get_account_info
    get_account_info-handle_rpc fc fs w enc zero_bytes s ps db ms sized made fits zero_made short
          small reads =
        let (res, answered, back, brief) =
          answer_query_lem fs (get_from_storage bolt accounts by_key w.public_key db) zero_bytes s
            zero_made short small reads in
        let got = send_call-query w enc res ps db ms fc made fits sized answered brief in
        get_account_info-send_call e net (λ sent. (handle_rpc e js bolt net sent ps db ms).written)
          w res s got back

-- ===== src/Storage/Service/Laws.antt =====
-- storage/storage_service.go: what PushAccounts writes, FetchAccounts reads.
use mathlib.Core.Path.{subst}
use simple_blockchain_go.Accounts.{AccountState}
use simple_blockchain_go.Base.{
  All, Bool-cases, Bytes, List, Option-cases, Outcome-cases, Slice, [], ap, arith, bytes_eq,
  bytes_eq_iff, content, inl, inr, none, ok, refl, some, sym, ◌∷◌, ◌≡◌,
}
use simple_blockchain_go.Env.{Env, IsFaithful}
use simple_blockchain_go.Memory.Service.{MemoryService, Reply, get_account_state, handle_state}
use simple_blockchain_go.Storage.Bolt.{Bolt, IsBolt}
use simple_blockchain_go.Storage.Service.{
  accounts_bucket, push_accounts, push_each, push_one, read_state,
}

module _ (bolt : Bolt) (e : Env) (laws : IsBolt bolt) (faithful : IsFaithful e.state_json)
    (ms : MemoryService) where
  -- The database holds the state that the memory has for the key.
  abbrev pub IsKept : bolt.Db → Slice → Type 0
  IsKept db k =
      (s : AccountState) × ((get_account_state e k ms).1 ≡ some (s, none))
      × (read_state bolt e (bolt.read db accounts_bucket (content k)) ≡ ok s)

  -- What a turn of PushAccounts that succeeds has done.
  push_one-done :
      (pk : Slice) (reply : Reply) (db db' : bolt.Db)
      → push_one bolt e pk reply db ≡ ok db'
      → (s : AccountState) × (enc : Bytes) × (reply ≡ some (s, none))
        × (e.state_json.marshal s ≡ some enc)
        × (bolt.write db accounts_bucket (content pk) enc ≡ some db')
  unfolding push_one
  push_one-done pk none db db' h = cc
  push_one-done pk (some (s, some x)) db db' h = cc
  push_one-done pk (some (s, none)) db db' h = elim (Option-cases (e.state_json.marshal s)) [
    | inl bad ↦ absurd (ground arith)
    | inr (enc, made) ↦ (s, enc, refl, made, ground arith)
  ]

  read_state-written :
      (s : AccountState) (enc : Bytes) (found : Slice)
      → e.state_json.marshal s ≡ some enc
      → found ≡ some enc
      → read_state bolt e found ≡ ok s
  unfolding read_state
  read_state-written s enc found made there = ground (arith, faithful s enc made)

  push_one-IsKept :
      (pk : Slice) (db db' : bolt.Db)
      → push_one bolt e pk (get_account_state e pk ms).1 db ≡ ok db'
      → IsKept db' pk
  push_one-IsKept pk db db' h =
      let (s, enc, known, made, wrote) = push_one-done pk (get_account_state e pk ms).1 db db' h in
      (
        s,
        known,
        read_state-written s enc (bolt.read db' accounts_bucket (content pk)) made
            (laws.read_written db db' accounts_bucket (content pk) enc wrote),
      )

  -- A nil key has no state.
  get_account_state-none : (get_account_state e none ms).1 ≡ none
  unfolding get_account_state handle_state
  get_account_state-none = refl

  same_key :
      (k pk : Slice) (s t : AccountState)
      → (get_account_state e k ms).1 ≡ some (s, none)
      → (get_account_state e pk ms).1 ≡ some (t, none)
      → content k ≡ content pk
      → k ≡ pk
  same_key none pk s t hk hp same = absurd (ground (arith, get_account_state-none))
  same_key (some k) none s t hk hp same = absurd (ground (arith, get_account_state-none))
  same_key (some k) (some pk) s t hk hp same = ap some same

  push_one-keeps :
      (k pk : Slice) (db db' : bolt.Db)
      → push_one bolt e pk (get_account_state e pk ms).1 db ≡ ok db'
      → IsKept db k
      → IsKept db' k
  push_one-keeps k pk db db' h kept =
      let (s, enc, known, made, wrote) = push_one-done pk (get_account_state e pk ms).1 db db' h in
      elim (Bool-cases (bytes_eq (content k) (content pk))) [
        | inl same ↦
            subst (λ j. IsKept db' j)
              (sym (
                same_key k pk kept.0 s kept.1 known
                  ((bytes_eq_iff (content k) (content pk)).0 same)))
              (push_one-IsKept pk db db' h)
        | inr apart ↦ (
          kept.0,
          kept.1,
          rw
              (laws.read_other db db' accounts_bucket (content pk) enc accounts_bucket (content k)
                wrote (inr (λ same. ground (arith, bytes_eq_iff (content k) (content pk)))))
              kept.2,
        )
      ]

  push_each-parts :
      (pk : Slice) (keys : List Slice) (db db' : bolt.Db)
      → push_each bolt e (pk ∷ keys) ms db ≡ ok db'
      → (db₁ : bolt.Db) × (push_one bolt e pk (get_account_state e pk ms).1 db ≡ ok db₁)
        × (push_each bolt e keys ms db₁ ≡ ok db')
  unfolding push_each
  push_each-parts pk keys db db' h =
      elim (Outcome-cases (push_one bolt e pk (get_account_state e pk ms).1 db)) [
        | inl (db₁, one) ↦ (db₁, one, ground arith)
        | inr bad ↦ absurd (ground arith)
      ]

  push_each-keeps :
      (k : Slice) (keys : List Slice) (db db' : bolt.Db)
      → push_each bolt e keys ms db ≡ ok db'
      → IsKept db k
      → IsKept db' k
  unfolding push_each
  push_each-keeps k [] db db' h kept = let same : db ≡ db' = cc in subst (λ d. IsKept d k) same kept
  push_each-keeps k (pk ∷ keys) db db' h kept =
      let (db₁, one, rest) = push_each-parts pk keys db db' h in
      push_each-keeps k keys db₁ db' rest (push_one-keeps k pk db db₁ one kept)

  push_each-IsKept :
      (keys : List Slice) (db db' : bolt.Db)
      → push_each bolt e keys ms db ≡ ok db'
      → All (IsKept db') keys
  push_each-IsKept [] db db' h = tt
  push_each-IsKept (pk ∷ keys) db db' h =
      let (db₁, one, rest) = push_each-parts pk keys db db' h in
      (
        push_each-keeps pk keys db₁ db' rest (push_one-IsKept pk db db₁ one),
        push_each-IsKept keys db₁ db' rest,
      )

  -- After a PushAccounts that returns no error, the memory has a state for each key that was pushed, and
  -- the state that FetchAccounts reads from the database for the key is that state, where a state is read
  -- back as it was marshalled.
  pub push_accounts-IsKept :
      (keys : List Slice) (db db' : bolt.Db)
      → push_accounts bolt e keys ms db ≡ (db', ok tt)
      → All (IsKept db') keys
  unfolding push_accounts
  push_accounts-IsKept keys db db' h = push_each-IsKept keys db db' (ground arith)

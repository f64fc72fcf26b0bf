-- ===== src/Executers/Executer/Replay.antt =====
-- executers/executer.go: transfers that fail, alone and after another one of the same sender.
use simple_blockchain_go.Accounts.{AccountState, check_nonce}
use simple_blockchain_go.Accounts.Laws.{IsBounded}
use simple_blockchain_go.Base.{
  Bytes, List, Outcome, Slice, [], ap, arith, bytes_eq_iff, bytes_eq_self, err, false, inr, insert,
  insert-present, lookup, lookup-insert, nonce_invalid, not, not_enough_balance, ok, panic, refl,
  some, true, ℕ, ◌%◌, ◌+◌, ◌-◌, ◌<◌, ◌∙◌, ◌∷◌, ◌≡◌, ◌≢◌, ◌≤◌,
}
use simple_blockchain_go.Common.{generator_balance, u64_mod}
use simple_blockchain_go.Env.{Env}
use simple_blockchain_go.Executers.Executer.{Turn, add_key, execute_now, finish_turn, note_keys}
use simple_blockchain_go.Executers.Executer.Laws.{execute_now-cons}
use simple_blockchain_go.Executers.Executer.Mint.{
  IsTransfer, execute_now_nil, execute_tx-kept, execute_tx_failed, finish_turn_reverts,
  finish_turn_waits, ran, transfer_impl_bad_nonce, transfer_impl_poor, transfer_impl_sender,
}
use simple_blockchain_go.Executers.Impl.{States}
use simple_blockchain_go.Executers.Impl.Laws.{
  check_nonce_lem, total, total-insert, transfer_impl_lem,
}
use simple_blockchain_go.Memory.Service.{MemoryService}
use simple_blockchain_go.P2p.Laws.{others}
use simple_blockchain_go.Storage.Bolt.{Bolt}
use simple_blockchain_go.Storage.Service.{accounts_bucket, read_state}
use simple_blockchain_go.Types.{Transaction}

-- Two accounts put into the states, the second one as it was there.
put_back :
    (a c : Bytes) (m : States) (old s u : AccountState)
    → lookup a m ≡ some old
    → lookup c m ≡ some u
    → c ≢ a
    → (lookup a (insert c u (insert a s m)) ≡ some s)
      × (total (insert c u (insert a s m)) + old.balance ≡ total m + s.balance)
put_back a c m old s u ha hc apart =
    let M = insert a s m in
    let hc' : lookup c M ≡ some u = ground (arith, lookup-insert a c s m, bytes_eq_iff c a) in
    rw (insert-present c u M hc')
      (ground (arith, lookup-insert a a s m, bytes_eq_self a), total-insert a old s m ha)

module _ (bolt : Bolt) (e : Env) (generator : Slice) (db : bolt.Db) where
  -- A block whose first transaction is a transfer with another nonce than the sender's. The sender has
  -- a state in memory, the two keys differ, and the database's states of both accounts are read without
  -- an error. The execution then never returns: it waits for the replies to the revert, while the memory
  -- service waits to deliver the one that the transfer did not read.
  pub execute_now_wrong_nonce :
      (tx : Transaction) (txs : List Transaction) (a b : Bytes) (nonce amount : ℕ)
      (keys : List Slice) (ms : MemoryService) (s s' t' : AccountState)
      → IsTransfer bolt e generator db tx a b nonce amount
      → lookup (e.base58_encode a) ms.state_mem ≡ some s
      → b ≢ a
      → s.nonce ≢ nonce
      → read_state bolt e (bolt.read db accounts_bucket a) ≡ ok s'
      → read_state bolt e (bolt.read db accounts_bucket b) ≡ ok t'
      → (execute_now bolt e generator db (tx ∷ txs) keys ms).2 ≡ panic
  unfolding execute_now
  execute_now_wrong_nonce tx txs a b nonce amount keys ms s s' t' is there apart wrong ra rb =
      let A = e.base58_encode a in
      let m = ms.state_mem in
      let refuses = transfer_impl_bad_nonce A nonce (e.base58_encode b) amount m s there wrong in
      let ms₁ = (ran bolt e generator db a nonce b amount ms).0 in
      let unread : not (check_nonce s nonce).0 ≡ true = ground (arith, check_nonce_lem s nonce) in
      let turn =
        execute_tx_failed bolt e generator db tx a b nonce amount keys ms s nonce_invalid is there
          (ap (λ (r : States × Outcome (Unit {0})). r.1) refuses)
        ∙ ap
            (λ u.
              finish_turn bolt e db tx u
                (note_keys bolt e (some a) (some b) keys (ms₁, err nonce_invalid)))
            unread
        ∙ finish_turn_waits bolt e generator db tx a b keys ms₁ nonce_invalid s' t' apart ra rb in
      ground (arith, ap (λ (t : Turn bolt e). t.result) turn)

  -- A block of a transfer that succeeds and of a second one of the same sender, with the next nonce, of
  -- more than the sender has left, so that it is reverted. The sender `a`, the receiver `b` and the
  -- second receiver `c` have states in memory, under three different names, those of `a` and `c` are in
  -- the database as they are in memory, and the first two are within the generator's balance. The
  -- execution succeeds, reports `a` and `b` as executed, and leaves the sender with the state it started
  -- from, and a sum of all balances that is larger by
  -- the amount.
  pub execute_now_replay :
      (tx₁ tx₂ : Transaction) (a b c : Bytes) (nonce nonce' amount amount' : ℕ) (ms : MemoryService)
      (s t u : AccountState)
      → IsTransfer bolt e generator db tx₁ a b nonce amount
      → IsTransfer bolt e generator db tx₂ a c nonce' amount'
      → lookup (e.base58_encode a) ms.state_mem ≡ some s
      → lookup (e.base58_encode b) ms.state_mem ≡ some t
      → lookup (e.base58_encode c) ms.state_mem ≡ some u
      → read_state bolt e (bolt.read db accounts_bucket a) ≡ ok s
      → read_state bolt e (bolt.read db accounts_bucket c) ≡ ok u
      → e.base58_encode b ≢ e.base58_encode a
      → e.base58_encode c ≢ e.base58_encode a
      → e.base58_encode c ≢ e.base58_encode b
      → IsBounded s
      → IsBounded t
      → s.nonce ≡ nonce
      → amount ≤ s.balance
      → t.balance + amount ≤ generator_balance
      → (nonce + 1) % u64_mod ≡ nonce'
      → s.balance < amount + amount'
      → let run = execute_now bolt e generator db (tx₁ ∷ tx₂ ∷ []) [] ms in
        (run.2 ≡ ok (add_key (add_key [] (some a)) (some b)))
        × (lookup (e.base58_encode a) run.0.state_mem ≡ some s)
        × (total run.0.state_mem ≡ total ms.state_mem + amount)
  execute_now_replay tx₁ tx₂ a b c nonce nonce' amount amount' ms s t u is₁ is₂ ha hb hc ra rc ba ca
        cb bs bt right enough room next poor =
      let A = e.base58_encode a in
      let B = e.base58_encode b in
      let C = e.base58_encode c in
      let m = ms.state_mem in
      let (works, sums, others) = transfer_impl_lem A nonce B amount m s t ha hb bs bt in
      let went = works.1 (right, enough, inr room) in
      let paid = transfer_impl_sender A nonce B amount m s t ha hb ba went in
      let ms₁ = (ran bolt e generator db a nonce b amount ms).0 in
      let keys = add_key (add_key [] (some a)) (some b) in
      let old : AccountState = record {
        nonce = (nonce + 1) % u64_mod;
        balance = s.balance - amount;
      } in
      let turn₁ = execute_tx-kept bolt e generator db tx₁ a b nonce amount [] ms is₁ went in
      let hc₁ = others C ca cb ∙ hc in
      let (fails_so, left, right_c, kept_sum₂) =
        transfer_impl_poor A nonce' C amount' ms₁.state_mem old u paid hc₁ ca next (omega arith) in
      let ms₂ = (ran bolt e generator db a nonce' c amount' ms₁).0 in
      let read : not (check_nonce old nonce').0 ≡ false =
        ground (arith, check_nonce_lem old nonce') in
      let turn₂ =
        execute_tx_failed bolt e generator db tx₂ a c nonce' amount' keys ms₁ old not_enough_balance
          is₂ paid fails_so
        ∙ ap
            (λ r.
              finish_turn bolt e db tx₂ r
                (note_keys bolt e (some a) (some c) keys (ms₂, err not_enough_balance)))
            read in
      let (fine, listed, back) =
        finish_turn_reverts bolt e generator db tx₂ a c keys ms₂ not_enough_balance s u
          (λ same. ca (ap e.base58_encode same)) ra rc in
      let first = execute_now-cons bolt e generator db tx₁ (tx₂ ∷ []) [] ms _ turn₁ refl in
      let second = execute_now-cons bolt e generator db tx₂ [] keys ms₁ _ turn₂ fine in
      let place = put_back A C ms₂.state_mem _ s u left right_c ca in
      let kept_sum = sums went in
      rw first (
        rw second (
          rw (execute_now_nil bolt e generator db _ _)
            (ap ok listed, rw back place.0, rw back (omega arith))))

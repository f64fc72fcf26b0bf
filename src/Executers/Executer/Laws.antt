-- ===== src/Executers/Executer/Laws.antt =====
-- executers/executer.go: what an execution leaves in the transactions.
use mathlib.Core.Path.{subst}
use simple_blockchain_go.Base.{
  Bool, List, Option-cases, Outcome, Slice, [], ap, arith, inl, inr, none, ok, refl, some, sym,
  true, ◌∙◌, ◌∷◌, ◌≡◌, ◌≢◌,
}
use simple_blockchain_go.Env.{Env}
use simple_blockchain_go.Executers.Executer.{
  Executed, Turn, execute_call, execute_now, execute_tx, finish_turn, leaves_reply, runnable,
}
use simple_blockchain_go.Memory.Service.{MemoryService}
use simple_blockchain_go.Storage.Bolt.{Bolt}
use simple_blockchain_go.Types.{Call, Transaction}

module _ (bolt : Bolt) (e : Env) (generator : Slice) (db : bolt.Db) where
  -- A turn of the loop that ends well sets the status of a transaction that runs to true, also where
  -- its call failed and was reverted, and leaves a transaction that does not run as it was.
  pub execute_tx-status :
      (t : Transaction) (keys : List Slice) (ms : MemoryService)
      → let turn = execute_tx bolt e generator db t keys ms in
        (turn.result ≡ ok tt)
        → (runnable bolt e t ≢ none → turn.tx ≡ record t { status = true })
          × (runnable bolt e t ≡ none → (turn.tx ≡ t) × (turn.memory ≡ ms) × (turn.executed ≡ keys))
  unfolding execute_tx
  execute_tx-status t keys ms h = ground arith

  -- The status of a transaction has no part in its execution.
  finish_turn_again :
      (t : Transaction) (unread : Bool) (x : Executed bolt e)
      → (finish_turn bolt e db t unread x).result ≡ ok tt
      → finish_turn bolt e db (record t { status = true }) unread x
        ≡ finish_turn bolt e db t unread x
  unfolding finish_turn
  finish_turn_again t unread x h = ground arith

  execute_tx_run :
      (t : Transaction) (keys : List Slice) (ms : MemoryService) {c : Call}
      → runnable bolt e t ≡ some c
      → execute_tx bolt e generator db t keys ms
        ≡ finish_turn bolt e db t
            (leaves_reply bolt e generator c t.inner_data ms)
            (execute_call bolt e generator c t.inner_data keys ms)
  unfolding execute_tx
  execute_tx_run t keys ms h = rw (h, execute_tx)

  runnable_status :
      (t : Transaction) → runnable bolt e (record t { status = true }) ≡ runnable bolt e t
  unfolding runnable
  runnable_status t = refl

  execute_tx_again :
      (t : Transaction) (keys : List Slice) (ms : MemoryService)
      → (execute_tx bolt e generator db t keys ms).result ≡ ok tt
      → execute_tx bolt e generator db (execute_tx bolt e generator db t keys ms).tx keys ms
        ≡ execute_tx bolt e generator db t keys ms
  execute_tx_again t keys ms h =
      let (after_run, after_skip) = execute_tx-status t keys ms h in
      elim (Option-cases (runnable bolt e t)) [
        | inl skip ↦ ap (λ u. execute_tx bolt e generator db u keys ms) (after_skip skip).0
        | inr (c, run) ↦
            ap (λ u. execute_tx bolt e generator db u keys ms) (after_run (λ absent. cc))
            ∙ execute_tx_run (record t { status = true }) keys ms (runnable_status t ∙ run)
            ∙ finish_turn_again t (leaves_reply bolt e generator c t.inner_data ms)
                (execute_call bolt e generator c t.inner_data keys ms)
                (ap (λ (u : Turn bolt e). u.result) (sym (execute_tx_run t keys ms run)) ∙ h)
            ∙ sym (execute_tx_run t keys ms run)
      ]

  abbrev Ran : Type 0
  Ran = MemoryService × List Transaction × Outcome (List Slice)

  abbrev with_tx : Transaction → Ran → Ran
  with_tx t rest = (rest.0, t ∷ rest.1, rest.2)

  pub execute_now-cons :
      (t : Transaction) (txs : List Transaction) (keys : List Slice) (ms : MemoryService)
      (turn : Turn bolt e)
      → execute_tx bolt e generator db t keys ms ≡ turn
      → turn.result ≡ ok tt
      → execute_now bolt e generator db (t ∷ txs) keys ms
        ≡ with_tx turn.tx (execute_now bolt e generator db txs turn.executed turn.memory)
  unfolding execute_now
  execute_now-cons t txs keys ms turn h r =
      subst
        (λ (turn : Turn bolt e).
          turn.result ≡ ok tt
          → execute_now bolt e generator db (t ∷ txs) keys ms
            ≡ with_tx turn.tx (execute_now bolt e generator db txs turn.executed turn.memory))
        h (λ r'. rw (r', execute_now)) r

  -- An execution that ends well goes on past each of its turns.
  execute_now-result :
      (t : Transaction) (txs : List Transaction) (keys : List Slice) (ms : MemoryService)
      {keys' : List Slice}
      → (execute_now bolt e generator db (t ∷ txs) keys ms).2 ≡ ok keys'
      → (execute_tx bolt e generator db t keys ms).result ≡ ok tt
  unfolding execute_now
  execute_now-result t txs keys ms h = ground arith

  -- After an execution that ends without an error, a second execution of the transactions that the
  -- first one leaves, from the same memory, ends as the first one did.
  pub execute_now_again :
      (txs : List Transaction) (keys : List Slice) (ms : MemoryService) {keys' : List Slice}
      → (execute_now bolt e generator db txs keys ms).2 ≡ ok keys'
      → execute_now bolt e generator db (execute_now bolt e generator db txs keys ms).1 keys ms
        ≡ execute_now bolt e generator db txs keys ms
  execute_now_again [] keys ms h = unfold execute_now in refl
  execute_now_again (t ∷ txs) keys ms h =
      let turn = execute_tx bolt e generator db t keys ms in
      let went = execute_now-result t txs keys ms h in
      let first = execute_now-cons t txs keys ms turn refl went in
      let rest = execute_now bolt e generator db txs turn.executed turn.memory in
      let again = execute_tx_again t keys ms went in
      rw first (
        execute_now-cons turn.tx rest.1 keys ms turn again went
        ∙ ap (with_tx turn.tx) (
            execute_now_again txs turn.executed turn.memory
              (ap (λ (r : Ran). r.2) (sym first) ∙ h)))

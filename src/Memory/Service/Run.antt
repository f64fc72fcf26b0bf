-- ===== src/Memory/Service/Run.antt =====
-- memory/memory_service.go: the goroutine `run`, which takes the requests off two channels.
use simple_blockchain_go.Accounts.{AccountState}
use simple_blockchain_go.Base.{
  List, Map, Option-cases, [], ap, arith, inl, inr, refl, sym, ◌∙◌, ◌∷◌, ◌≡◌,
}
use simple_blockchain_go.Env.{Env}
use simple_blockchain_go.Memory.Mempool.{Mempool}
use simple_blockchain_go.Memory.Service.{
  MemoryService, MempoolRequest, Reply, StateMemRequest, handle_append, handle_remove, handle_state,
  handle_tx,
}

module _ (e : Env) where
  -- The loop of `run` over requests on the pool alone, and over requests on the states alone.
  unfoldable pub run_txs : List MempoolRequest → MemoryService → MemoryService
  run_txs [] ms = ms
  run_txs (req ∷ txs) ms = run_txs txs (handle_tx e req ms)

  unfoldable pub run_states : List StateMemRequest → MemoryService → MemoryService × List Reply
  run_states [] ms = (ms, [])
  run_states (req ∷ states) ms =
      let (ms₁, answer) = handle_state e req ms in
      let (ms₂, replies) = run_states states ms₁ in (ms₂, answer ∷ replies)

  -- `run` until both channels are empty: what they hold, the service before and after, and the
  -- replies. The `select` takes the first request of either channel.
  pub data Run
      : List MempoolRequest
        → List StateMemRequest
        → MemoryService
        → MemoryService
        → List Reply
        → Type 0 where
    idle : {ms : MemoryService} → Run [] [] ms ms []
    takes_tx :
        {req : MempoolRequest} {txs : List MempoolRequest} {states : List StateMemRequest}
        {ms ms' : MemoryService} {replies : List Reply}
        → Run txs states (handle_tx e req ms) ms' replies
        → Run (req ∷ txs) states ms ms' replies
    takes_state :
        {req : StateMemRequest} {txs : List MempoolRequest} {states : List StateMemRequest}
        {ms ms' : MemoryService} {replies : List Reply}
        → Run txs states (handle_state e req ms).0 ms' replies
        → Run txs (req ∷ states) ms ms' ((handle_state e req ms).1 ∷ replies)

  -- A request on the pool reads and changes the pool alone.
  handle_tx-states :
      (r : MempoolRequest) (m : Map AccountState) (ms : MemoryService)
      → handle_tx e r (record ms { state_mem = m }) ≡ record (handle_tx e r ms) { state_mem = m }
  unfolding handle_tx handle_append handle_remove
  handle_tx-states r m ms = elim (Option-cases r.tx) [
    | inl no_tx ↦ elim (Option-cases r.keys) [
      | inl no_keys ↦ ground arith
      | inr keys ↦ ground arith
    ]
    | inr tx ↦ elim (Option-cases r.keys) [ inl no_keys ↦ ground arith | inr keys ↦ ground arith ]
  ]

  handle_tx-mem :
      (r : MempoolRequest) (ms : MemoryService) → (handle_tx e r ms).state_mem ≡ ms.state_mem
  handle_tx-mem r ms = ap (λ (s : MemoryService). s.state_mem) (handle_tx-states r ms.state_mem ms)

  handle_state-pool :
      (q : StateMemRequest) (mp : Mempool) (ms : MemoryService)
      → handle_state e q (record ms { mempool = mp })
        ≡ (record (handle_state e q ms).0 { mempool = mp }, (handle_state e q ms).1)
  unfolding handle_state
  handle_state-pool q mp ms = ground arith

  -- A request on the states and one on the pool, in either order.
  handle_state-handle_tx :
      (q : StateMemRequest) (r : MempoolRequest) (ms : MemoryService)
      → (handle_state e q (handle_tx e r ms)
          ≡ (handle_tx e r (handle_state e q ms).0, (handle_state e q ms).1))
  handle_state-handle_tx q r ms =
      let after = handle_tx e r ms in
      let changed = (handle_state e q ms).0 in
      let pooled : after ≡ record ms { mempool = after.mempool } =
        ap (λ m. record { mempool = after.mempool; state_mem = m }) (handle_tx-mem r ms) in
      let kept : changed ≡ record ms { state_mem = changed.state_mem } =
        ap (λ (p : MemoryService × Reply). p.0) (handle_state-pool q ms.mempool ms) in
      ap (handle_state e q) pooled
      ∙ handle_state-pool q after.mempool ms
      ∙ ap (λ s. (s, (handle_state e q ms).1))
          (sym (ap (handle_tx e r) kept ∙ handle_tx-states r changed.state_mem ms))

  run_txs-state :
      (txs : List MempoolRequest) (q : StateMemRequest) (ms : MemoryService)
      → handle_state e q (run_txs txs ms)
        ≡ (run_txs txs (handle_state e q ms).0, (handle_state e q ms).1)
  unfolding run_txs
  run_txs-state [] q ms = refl
  run_txs-state (r ∷ txs) q ms =
      run_txs-state txs q (handle_tx e r ms)
      ∙ ap (λ (p : MemoryService × Reply). (run_txs txs p.0, p.1)) (handle_state-handle_tx q r ms)

  -- In whatever order `run` takes the requests off its two channels, the service ends as if it had
  -- taken all requests on the pool first, and the requests on the states get the replies that they
  -- would get then.
  pub Run-same :
      {txs : List MempoolRequest} {states : List StateMemRequest} {ms ms' : MemoryService}
      {replies : List Reply}
      → Run txs states ms ms' replies
      → run_states states (run_txs txs ms) ≡ (ms', replies)
  unfolding run_txs run_states
  Run-same idle = refl
  Run-same (takes_tx r) = Run-same r
  Run-same (takes_state {req} {txs} {states} {ms} r) =
      rw (run_txs-state txs req ms) (
        ap (λ (p : MemoryService × List Reply). (p.0, (handle_state e req ms).1 ∷ p.1))
          (Run-same r))

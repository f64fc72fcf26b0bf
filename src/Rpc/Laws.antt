-- ===== src/Rpc/Laws.antt =====
-- What a call that passes Verify of rpc/call.go carries.
use simple_blockchain_go.Base.{arith, content, len, some, true, ◌<◌, ◌≡◌, ◌⊎◌}
use simple_blockchain_go.Common.{generator_balance, public_key_size}
use simple_blockchain_go.Env.{Env}
use simple_blockchain_go.Rpc.{airdrop_kind, get_account_state_kind, transfer_kind, verify_call}
use simple_blockchain_go.Types.{AirdropParam, Call, TransferParam}

module _ (e : Env) where
  -- A verified call is a query for a 32-byte key, an airdrop or a transfer: both with an amount
  -- strictly between zero and the generator's balance, the transfer with a 32-byte receiver.
  pub verify_call_lem :
      (c : Call)
      → verify_call e c ≡ true
      → ((c.call ≡ get_account_state_kind) × (len c.params ≡ public_key_size))
        ⊎ (((c.call ≡ airdrop_kind)
              × ((p : AirdropParam) × (e.airdrop_json.unmarshal (content c.params) ≡ some p)
                  × (0 < p.amount)
                  × (p.amount < generator_balance)))
            ⊎ ((c.call ≡ transfer_kind)
                × ((p : TransferParam) × (e.transfer_json.unmarshal (content c.params) ≡ some p)
                    × (0 < p.amount)
                    × (p.amount < generator_balance)
                    × (len p.to ≡ public_key_size))))
  unfolding verify_call
  verify_call_lem c h = ground arith

-- ===== src/Rpc.antt =====
-- rpc/: the calls that a client sends, and their checks.
pub mod Laws
pub mod Wire
use simple_blockchain_go.Base.{
  Bool, Option, content, false, if◌then◌else◌, len, ltb, none, some, ℕ, ◌&&◌, ◌==◌,
}
use simple_blockchain_go.Common.{generator_balance, public_key_size}
use simple_blockchain_go.Env.{Env}
use simple_blockchain_go.Types.{AirdropParam, Call, TransferParam}

abbrev pub airdrop_kind : ℕ
airdrop_kind = 1

abbrev pub transfer_kind : ℕ
transfer_kind = 2

abbrev pub get_account_state_kind : ℕ
get_account_state_kind = 3

module _ (e : Env) where
  unfoldable pub verify_get_account_state_call : Call → Bool
  verify_get_account_state_call c =
      c.call == get_account_state_kind && len c.params == public_key_size

  unfoldable pub verify_transfer_param : Option TransferParam → Bool
  verify_transfer_param none = false
  verify_transfer_param (some p) =
      ltb 0 p.amount && ltb p.amount generator_balance && len p.to == public_key_size

  unfoldable pub verify_transfer_call : Call → Bool
  unfolding verify_transfer_param
  verify_transfer_call c =
      c.call == transfer_kind
      && verify_transfer_param (e.transfer_json.unmarshal (content c.params))

  unfoldable pub verify_airdrop_param : Option AirdropParam → Bool
  verify_airdrop_param none = false
  verify_airdrop_param (some p) = ltb 0 p.amount && ltb p.amount generator_balance

  unfoldable pub verify_airdrop_call : Call → Bool
  unfolding verify_airdrop_param
  verify_airdrop_call c =
      c.call == airdrop_kind && verify_airdrop_param (e.airdrop_json.unmarshal (content c.params))

  -- `Call.Verify`
  unfoldable pub verify_call : Call → Bool
  unfolding verify_get_account_state_call verify_airdrop_call verify_transfer_call
  verify_call c =
      if c.call == get_account_state_kind
      then verify_get_account_state_call c
      else if c.call == airdrop_kind
      then verify_airdrop_call c
      else if c.call == transfer_kind
      then verify_transfer_call c
      else false

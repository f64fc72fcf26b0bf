-- ===== src/Consensus/Steps.antt =====
-- consensus/: the validators that a node knows, over the steps that the handlers share.
use simple_blockchain_go.Base.{
  ==_iff, All, All-append, All-delete_first, Bool, Bool-cases, Bytes, Outcome, Slice, [], arith,
  bytes_eq, contains_func, content, err, false, if◌then◌else◌, inl, inr, len, length, ok, panic,
  true, ◌==◌, ◌∷◌, ◌≡◌,
}
use simple_blockchain_go.Common.{public_key_size}
use simple_blockchain_go.Consensus.Keys.{IsApartKeys, append-IsApartKeys, delete-IsApartKeys}
use simple_blockchain_go.Consensus.Service.{
  ConsensusService, add_to_bad_peer, add_to_next_validators, remove_from_next_validators, reset,
}
use simple_blockchain_go.Consensus.Voting.{
  Ended, broadcast_payload, done, fails, finalize, ignore_error, panics, then_run, waits,
}

-- The validators have keys of 32 bytes, each once.
unfoldable pub IsValidators : ConsensusService → Type 0
unfolding IsApartKeys
IsValidators cs =
    All (λ k. length k ≡ public_key_size) cs.next_validators × IsApartKeys cs.next_validators

module _ (pk : Slice) (cs : ConsensusService) (h : IsValidators cs) where
  pub add-IsValidators : IsValidators (add_to_next_validators pk cs)
  unfolding add_to_next_validators IsValidators
  add-IsValidators = elim (Bool-cases (len pk == public_key_size)) [
    | inl sized ↦ elim (Bool-cases (contains_func cs.next_validators (bytes_eq (content pk)))) [
      | inl known ↦ rw (sized, known) h
      | inr new ↦
          rw (sized, new)
            (
              All-append (λ k. length k ≡ public_key_size) cs.next_validators (content pk ∷ []) h.0
                  ((==_iff (len pk) public_key_size).0 sized, tt),
              append-IsApartKeys cs.next_validators (content pk) new h.1,
            )
    ]
    | inr missized ↦ rw missized h
  ]

  pub remove-IsValidators : IsValidators (remove_from_next_validators pk cs)
  unfolding remove_from_next_validators IsValidators
  remove-IsValidators = elim (Bool-cases (len pk == public_key_size)) [
    | inl sized ↦ rw sized (
      All-delete_first (λ k. length k ≡ public_key_size) cs.next_validators (bytes_eq (content pk))
          h.0,
      delete-IsApartKeys cs.next_validators (bytes_eq (content pk)) h.1,
    )
    | inr missized ↦ rw missized h
  ]

pub add_to_bad_peer-IsValidators :
    (pk : Slice) (cs : ConsensusService) → IsValidators cs → IsValidators (add_to_bad_peer pk cs)
unfolding add_to_bad_peer IsValidators
add_to_bad_peer-IsValidators pk cs h = elim (Bool-cases (len pk == public_key_size)) [
  | inl sized ↦ elim (Bool-cases (contains_func cs.bad_peers (bytes_eq (content pk)))) [
    | inl known ↦ rw (sized, known) h
    | inr new ↦ rw (sized, new) h
  ]
  | inr missized ↦ rw missized h
]

pub if-IsValidators :
    (b : Bool) (r s : Ended)
    → IsValidators r.0
    → IsValidators s.0
    → IsValidators (if b then r else s).0
if-IsValidators true r s h k = h
if-IsValidators false r s h k = k

pub then_run-IsValidators :
    (r : Ended) (f : ConsensusService → Ended)
    → IsValidators r.0
    → ((c : ConsensusService) → IsValidators c → IsValidators (f c).0)
    → IsValidators (then_run r f).0
unfolding then_run
then_run-IsValidators (cs, effects, done) f h k = k cs h
then_run-IsValidators (cs, effects, fails x) f h k = h
then_run-IsValidators (cs, effects, panics) f h k = h
then_run-IsValidators (cs, effects, waits) f h k = h

pub ignore_error-IsValidators : (r : Ended) → IsValidators r.0 → IsValidators (ignore_error r).0
unfolding ignore_error
ignore_error-IsValidators (cs, effects, done) h = h
ignore_error-IsValidators (cs, effects, fails x) h = h
ignore_error-IsValidators (cs, effects, panics) h = h
ignore_error-IsValidators (cs, effects, waits) h = h

pub broadcast_payload-IsValidators :
    (p : Outcome Bytes) (cs : ConsensusService)
    → IsValidators cs
    → IsValidators (broadcast_payload p cs).0
unfolding broadcast_payload
broadcast_payload-IsValidators (ok payload) cs h = h
broadcast_payload-IsValidators (err x) cs h = h
broadcast_payload-IsValidators panic cs h = h

pub reset-IsValidators : (cs : ConsensusService) → IsValidators (reset cs)
unfolding reset IsValidators
reset-IsValidators cs = (tt, tt)

pub finalize-IsValidators :
    (good : Bool) (cs : ConsensusService) → IsValidators cs → IsValidators (finalize good cs).0
unfolding finalize
finalize-IsValidators good cs h = ground (arith, reset-IsValidators cs)

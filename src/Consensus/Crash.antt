-- ===== src/Consensus/Crash.antt =====
-- consensus/consensus_msgs.go: the messages that stop the node.
use simple_blockchain_go.Base.{
  ap, arith, content, false, len, ltb, ok, panic, true, ◌&&◌, ◌==◌, ◌≡◌, ◌≢◌,
}
use simple_blockchain_go.Common.{public_key_size}
use simple_blockchain_go.Consensus.Messages.{
  Signed, consensus_msg_sig_content, verify_consensus_signature, verify_signed,
}
use simple_blockchain_go.Env.{Env, verify_signature}
use simple_blockchain_go.P2p.Messages.{verify_node}

module _ (e : Env) where
  -- The checks that all messages share end in a verdict, unless the message comes from a well-formed
  -- address and its key has not 32 bytes: there they panic, inside the verification of the signature.
  pub verify_signed_lem :
      (s : Signed)
      → (verify_node s.from ≡ false → verify_signed e s ≡ ok false)
        × (verify_node s.from ≡ true
            → len s.from_public_key ≡ public_key_size
            → verify_signed e s
              ≡ ok (
                  e.ed25519_verify
                    (content s.from_public_key)
                    consensus_msg_sig_content
                    (content s.signature)
                  && ltb 0 (len s.signature)))
        × (verify_node s.from ≡ true
            → len s.from_public_key ≢ public_key_size
            → verify_signed e s ≡ panic)
  unfolding verify_signed verify_consensus_signature verify_signature
  verify_signed_lem s = (λ h. rw h, λ h k. sized h k, λ h k. missized h k)
    where
      sized :
          verify_node s.from ≡ true
          → len s.from_public_key ≡ public_key_size
          → verify_signed e s
            ≡ ok (
                e.ed25519_verify
                  (content s.from_public_key)
                  consensus_msg_sig_content
                  (content s.signature)
                && ltb 0 (len s.signature))
      sized h k =
          let t : (len s.from_public_key == public_key_size) ≡ true = ground arith in
          rw (h, t) (ap ok (ground arith))

      missized :
          verify_node s.from ≡ true
          → len s.from_public_key ≢ public_key_size
          → verify_signed e s ≡ panic
      missized h k =
          let t : (len s.from_public_key == public_key_size) ≡ false = ground arith in rw (h, t)

-- ===== src/P2p/Messages.antt =====
-- p2p/node_info.go and p2p/messages.go.
use simple_blockchain_go.Base.{
  Bool, Bytes, List, Outcome, [], all, bytes_eq, false, if◌then◌else◌, json, length, ok, or_err,
  take, ℕ, ◌&&◌, ◌++◌, ◌==◌, ◌>>=◌, ◌∷◌,
}
use simple_blockchain_go.Env.{Codec}
use simple_blockchain_go.Types.{NodeInfo}

abbrev pub sync_node : ℕ
sync_node = 1

abbrev pub consensus_node : ℕ
consensus_node = 2

abbrev pub hello_message : ℕ
hello_message = 1

abbrev pub welcome_message : ℕ
welcome_message = 2

abbrev pub sync_message : ℕ
sync_message = 3

abbrev pub consensus_message : ℕ
consensus_message = 4

-- The letters of "localhost:".
abbrev pub localhost : Bytes
localhost = b'l' ∷ b'o' ∷ b'c' ∷ b'a' ∷ b'l' ∷ b'h' ∷ b'o' ∷ b's' ∷ b't' ∷ b':' ∷ []

-- `NewNodeInfo`
unfoldable pub new_node_info : Bytes → ℕ → NodeInfo
new_node_info port network = record { ip4 = localhost ++ port; network = network }

-- `IsSameIp`
abbrev pub is_same_ip : NodeInfo → NodeInfo → Bool
is_same_ip a b = bytes_eq a.ip4 b.ip4

-- `NodeInfo.Verify`
unfoldable pub verify_node : NodeInfo → Bool
verify_node ni = length ni.ip4 == 14 && bytes_eq (take 10 ni.ip4) localhost

pub record HelloMsg : Type 0 where
  pub from : NodeInfo

pub record WelcomeMsg : Type 0 where
  pub from : NodeInfo
  pub known_peer : List NodeInfo

-- `HelloMsg.Verify`
unfoldable pub verify_hello : HelloMsg → Bool
unfolding verify_node
verify_hello hm = verify_node hm.from

-- `WelcomeMsg.Verify`
unfoldable pub verify_welcome : WelcomeMsg → Bool
unfolding verify_node
verify_welcome wm = if verify_node wm.from then all wm.known_peer verify_node else false

-- `PackPayload`: the kinds, then the JSON.
unfoldable pub pack_payload : {A : Type 0} → Codec A → A → List ℕ → Outcome Bytes
pack_payload c a msg_kinds = do b ← or_err (c.marshal a) json; ok (msg_kinds ++ b)

pub record P2pJson : Type 0 where
  pub hello_json : Codec HelloMsg
  pub welcome_json : Codec WelcomeMsg

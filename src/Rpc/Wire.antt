-- ===== src/Rpc/Wire.antt =====
-- The connections of nodes/rpc/rpc_server.go and clients/client.go: a length of four bytes, then as
-- many bytes. One `Read` takes as many of the bytes sent as the network delivers at once.
use simple_blockchain_go.Base.{
  Bytes, Option, [], drop, length, none, replicate, some, suc, take, zero, ℕ, ◌++◌, ◌-◌, ◌∷◌, ◌≡◌,
  ◌≤◌,
}
use simple_blockchain_go.Common.Hex.{from_hex, to_hex}

pub record Net : Type 0 where
  pub arrives : ℕ → Bytes → ℕ  -- of the size of the buffer and the bytes sent: how many one Read takes

-- A read is never cut short: the case that both ends count on.
abbrev pub IsWhole : Net → Type 0
IsWhole net = (n : ℕ) (sent : Bytes) → n ≤ length sent → net.arrives n sent ≡ n

abbrev pub unsigned_rpc : ℕ
unsigned_rpc = 0

abbrev pub signed_rpc : ℕ
signed_rpc = 1

-- `conn.Read` into a new buffer of `n` bytes: the buffer and the bytes still unread. What a short
-- read does not fill stays zero; at the end of the stream there is an error.
unfoldable pub read_conn : Net → ℕ → Bytes → Option (Bytes × Bytes)
read_conn net zero sent = some ([], sent)
read_conn net (suc n) [] = none
read_conn net (suc n) (b ∷ sent) =
    let k = net.arrives (suc n) (b ∷ sent) in
    some (take k (b ∷ sent) ++ replicate (suc n - k) 0, drop k (b ∷ sent))

-- The length before the bytes; `int32 (len)` wraps around.
unfoldable pub with_length : Bytes → Bytes
with_length payload = to_hex 4 (length payload) ++ payload

-- `FromHex[int32]`, as the bit pattern.
unfoldable pub read_length : Net → Bytes → Option (ℕ × Bytes)
read_length net sent = elim (read_conn net 4 sent) [
  | none ↦ none
  | some (buff, rest) ↦ elim (from_hex 4 buff) [ none ↦ none | some n ↦ some (n, rest) ]
]

-- ===== src/Tests/Codecs.antt =====
-- Codecs that read back what they write, for the blocks and the messages of the tests.
use simple_blockchain_go.Base.{
  Bytes, List, Option, Option-cases, Slice, [], ap, arith, drop, drop-append, inl, inr, length,
  none, refl, some, sym, take, take-append, ℕ, ◌++◌, ◌∙◌, ◌∷◌, ◌≡◌,
}
use simple_blockchain_go.Env.{Codec, IsFaithful}
use simple_blockchain_go.Nodes.Sync.Messages.{BlockRequestMsg, BlockResponseMsg}
use simple_blockchain_go.Types.{Block, Call, NodeInfo, Transaction}

-- Two byte strings in one, the length of the first ahead.
abbrev pair : Bytes → Bytes → Bytes
pair a b = length a ∷ (a ++ b)

-- A block without transactions; others are not written.
abbrev write_fields :
    ℕ → ℕ → Slice → Slice → Slice → List Transaction → Slice → Slice → Option Bytes
write_fields height time (some h) (some g) (some k) [] (some p) (some s) =
    some (height ∷ time ∷ pair h (pair g (pair k (pair p s))))
write_fields height time h sig k txs p s = none

abbrev write_block : Block → Option Bytes
write_block b =
    write_fields b.info.height b.info.timestamp b.info.hash b.info.signature b.info.public_key
      b.bundle.transactions b.previous_block_hash b.state_hash

abbrev signed_block : ℕ → ℕ → Bytes → Bytes → Bytes → Bytes → Bytes → Block
signed_block height time h g k p s = record {
  info = record {
    height = height;
    hash = some h;
    signature = some g;
    public_key = some k;
    timestamp = time;
  };
  bundle = record { transactions = [] };
  previous_block_hash = some p;
  state_hash = some s;
}

-- A block with an empty signature.
abbrev pub block_of : ℕ → ℕ → Bytes → Bytes → Bytes → Bytes → Block
block_of height time h k p s = signed_block height time h [] k p s

abbrev read_last : ℕ → ℕ → Bytes → Bytes → Bytes → Bytes → Option Block
read_last height time h g k [] = none
read_last height time h g k (n ∷ l) = some (signed_block height time h g k (take n l) (drop n l))

abbrev read_key : ℕ → ℕ → Bytes → Bytes → Bytes → Option Block
read_key height time h g [] = none
read_key height time h g (n ∷ l) = read_last height time h g (take n l) (drop n l)

abbrev read_signature : ℕ → ℕ → Bytes → Bytes → Option Block
read_signature height time h [] = none
read_signature height time h (n ∷ l) = read_key height time h (take n l) (drop n l)

abbrev read_block : Bytes → Option Block
read_block (height ∷ time ∷ n ∷ l) = read_signature height time (take n l) (drop n l)
read_block _ = none

read-write :
    (height time : ℕ) (h g k p s : Bytes)
    → read_block (height ∷ time ∷ pair h (pair g (pair k (pair p s))))
      ≡ some (signed_block height time h g k p s)
read-write height time h g k p s =
    rw
      (
        take-append h (pair g (pair k (pair p s))),
        drop-append h (pair g (pair k (pair p s))),
        take-append g (pair k (pair p s)),
        drop-append g (pair k (pair p s)),
        take-append k (pair p s),
        drop-append k (pair p s),
        take-append p s,
        drop-append p s,
      )
      refl

faithful_fields :
    (height time : ℕ) (h sig k : Slice) (txs : List Transaction) (p s : Slice) (b : Bytes)
    → write_fields height time h sig k txs p s ≡ some b
    → read_block b
      ≡ some (record {
        info = record {
          height = height;
          hash = h;
          signature = sig;
          public_key = k;
          timestamp = time;
        };
        bundle = record { transactions = txs };
        previous_block_hash = p;
        state_hash = s;
      })
faithful_fields height time (some h) (some g) (some k) [] (some p) (some s) b e =
    let same : height ∷ time ∷ pair h (pair g (pair k (pair p s))) ≡ b = cc in
    ap read_block (sym same) ∙ read-write height time h g k p s
faithful_fields height time none sig k txs p s b e = cc
faithful_fields height time (some h) none k txs p s b e = cc
faithful_fields height time (some h) (some g) none txs p s b e = cc
faithful_fields height time (some h) (some g) (some k) (t ∷ txs) p s b e = cc
faithful_fields height time (some h) (some g) (some k) [] none s b e = cc
faithful_fields height time (some h) (some g) (some k) [] (some p) none b e = cc

abbrev pub block_codec : Codec Block
block_codec = record { marshal = write_block; unmarshal = read_block }

pub block_codec-IsFaithful : IsFaithful block_codec
block_codec-IsFaithful a b e =
    faithful_fields a.info.height a.info.timestamp a.info.hash a.info.signature a.info.public_key
      a.bundle.transactions a.previous_block_hash a.state_hash b e

abbrev write_request : BlockRequestMsg → Option Bytes
write_request m = some (m.height ∷ m.from.network ∷ m.from.ip4)

abbrev read_request : Bytes → Option BlockRequestMsg
read_request (h ∷ n ∷ ip) = some (record { from = record { ip4 = ip; network = n }; height = h })
read_request _ = none

abbrev pub request_codec : Codec BlockRequestMsg
request_codec = record { marshal = write_request; unmarshal = read_request }

pub request_codec-IsFaithful : IsFaithful request_codec
request_codec-IsFaithful a b e =
    let same : a.height ∷ a.from.network ∷ a.from.ip4 ≡ b = cc in ap read_request (sym same)

abbrev write_response : BlockResponseMsg → Option Bytes
write_response m = elim (write_block m.block) [
  | none ↦ none
  | some enc ↦ some (m.from.network ∷ pair m.from.ip4 enc)
]

abbrev response_of : NodeInfo → Option Block → Option BlockResponseMsg
response_of from none = none
response_of from (some blk) = some (record { from = from; block = blk })

abbrev read_response : Bytes → Option BlockResponseMsg
read_response (n ∷ k ∷ l) =
    response_of (record { ip4 = take k l; network = n }) (read_block (drop k l))
read_response _ = none

abbrev pub response_codec : Codec BlockResponseMsg
response_codec = record { marshal = write_response; unmarshal = read_response }

read_response-pair :
    (a : BlockResponseMsg) (enc : Bytes)
    → read_block enc ≡ some a.block
    → read_response (a.from.network ∷ pair a.from.ip4 enc) ≡ some a
read_response-pair a enc e = rw (take-append a.from.ip4 enc, drop-append a.from.ip4 enc, e) refl

pub response_codec-IsFaithful : IsFaithful response_codec
response_codec-IsFaithful a b e = elim (Option-cases (write_block a.block)) [
  | inl bad ↦ absurd (ground arith)
  | inr (enc, made) ↦
      let same : b ≡ a.from.network ∷ pair a.from.ip4 enc = ground arith in
      ap read_response same ∙ read_response-pair a enc (block_codec-IsFaithful a.block enc made)
]

abbrev write_call : Call → Option Bytes
write_call c = elim c.params [ none ↦ none | some p ↦ some (c.call ∷ p) ]

abbrev read_call : Bytes → Option Call
read_call [] = none
read_call (k ∷ b) = some (record { call = k; params = some b })

abbrev pub call_codec : Codec Call
call_codec = record { marshal = write_call; unmarshal = read_call }

faithful_call :
    (k : ℕ) (params : Slice) (b : Bytes)
    → write_call (record { call = k; params = params }) ≡ some b
    → read_call b ≡ some (record { call = k; params = params })
faithful_call k none b e = cc
faithful_call k (some p) b e = let same : k ∷ p ≡ b = cc in ap read_call (sym same)

pub call_codec-IsFaithful : IsFaithful call_codec
call_codec-IsFaithful a b e = faithful_call a.call a.params b e

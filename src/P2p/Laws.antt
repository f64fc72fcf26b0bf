-- ===== src/P2p/Laws.antt =====
-- p2p/: what holds of the peers, who receives a broadcast, and where the service panics.
use simple_blockchain_go.Base.{
  Bool, Bool-cases, Bytes, List, Option-cases, [], ap, arith, bytes_eq, bytes_eq_comm, bytes_eq_iff,
  bytes_eq_self, contains_func, contains_func-append, delete_first, false, get_elem?, if◌then◌else◌,
  inl, inr, length, none, ok, panic, refl, some, suc, true, zero, ℕ, ◌++◌, ◌<◌, ◌||◌, ◌∷◌, ◌≡◌, ◌≤◌,
}
use simple_blockchain_go.P2p.Messages.{HelloMsg, P2pJson, WelcomeMsg, is_same_ip}
use simple_blockchain_go.P2p.Service.{
  P2pService, Sent, add_peer, broadcast, handle_join, handle_welcome, join_peer, knows_peer,
  peer_by_index, remove_peer, send_to_all, send_to_others, send_unless, welcome_peer,
}
use simple_blockchain_go.Types.{NodeInfo}

-- No two of the peers have one address.
unfoldable pub IsApart : List NodeInfo → Type 0
IsApart [] = Unit
IsApart (x ∷ xs) = (knows_peer xs x ≡ false) × IsApart xs

-- No peer has the node's own address, and no two peers have one address.
abbrev pub IsPeers : P2pService → Type 0
IsPeers ps = (knows_peer ps.peers ps.info ≡ false) × IsApart ps.peers

pub same_ip_comm : (a b : NodeInfo) → is_same_ip a b ≡ is_same_ip b a
same_ip_comm a b = bytes_eq_comm a.ip4 b.ip4

pub same_ip_lem : (a b c : NodeInfo) → is_same_ip a b ≡ true → is_same_ip a c ≡ is_same_ip b c
same_ip_lem a b c h = ap (λ i. bytes_eq i c.ip4) ((bytes_eq_iff a.ip4 b.ip4).0 h)

pub knows_peer-append :
    (xs : List NodeInfo) (a b : NodeInfo)
    → knows_peer (xs ++ a ∷ []) b ≡ (knows_peer xs b || is_same_ip b a)
knows_peer-append [] a b = ground arith
knows_peer-append (x ∷ xs) a b = ground (arith, knows_peer-append xs a b)

append-IsApart :
    (xs : List NodeInfo) (a : NodeInfo)
    → knows_peer xs a ≡ false
    → IsApart xs
    → IsApart (xs ++ a ∷ [])
unfolding IsApart
append-IsApart [] a new h = (refl, tt)
append-IsApart (x ∷ xs) a new h = (
  ground (arith, knows_peer-append xs a x, same_ip_comm x a, h.0),
  append-IsApart xs a (ground arith) h.1,
)

knows_peer-delete :
    (xs : List NodeInfo) (f : NodeInfo → Bool) (b : NodeInfo)
    → knows_peer xs b ≡ false
    → knows_peer (delete_first xs f) b ≡ false
knows_peer-delete [] f b h = refl
knows_peer-delete (x ∷ xs) f b h = ground (arith, knows_peer-delete xs f b)

delete-IsApart :
    (xs : List NodeInfo) (f : NodeInfo → Bool) → IsApart xs → IsApart (delete_first xs f)
unfolding IsApart
delete-IsApart [] f h = tt
delete-IsApart (x ∷ xs) f h = ground (arith, delete-IsApart xs f h.1, knows_peer-delete xs f x h.0)

delete-knows_peer :
    (xs : List NodeInfo) (peer : NodeInfo)
    → IsApart xs
    → knows_peer (delete_first xs (λ p. is_same_ip peer p)) peer ≡ false
unfolding IsApart
delete-knows_peer [] peer h = refl
delete-knows_peer (x ∷ xs) peer h = elim (Bool-cases (is_same_ip peer x)) [
  | inl same ↦ rw same (knows_peer_same xs x peer same h.0)
  | inr differs ↦ ground (arith, delete-knows_peer xs peer h.1)
]
  where
    knows_peer_same :
        (xs : List NodeInfo) (x peer : NodeInfo)
        → is_same_ip peer x ≡ true
        → knows_peer xs x ≡ false
        → knows_peer xs peer ≡ false
    knows_peer_same [] x peer same h = refl
    knows_peer_same (y ∷ xs) x peer same h =
        ground (arith, knows_peer_same xs x peer same, same_ip_lem peer x y same)

-- `addPeer` and `removePeer` keep the peers apart from one another and from the node itself. A peer
-- with another address than the node's is known after it is added, and no peer with its address is
-- known after it is removed.
pub add_remove_peer_lem :
    (peer : NodeInfo) (ps : P2pService)
    → IsPeers ps
    → IsPeers (add_peer peer ps)
      × IsPeers (remove_peer peer ps)
      × (knows_peer (remove_peer peer ps).peers peer ≡ false)
      × (is_same_ip ps.info peer ≡ false → knows_peer (add_peer peer ps).peers peer ≡ true)
unfolding add_peer remove_peer
add_remove_peer_lem peer ps h = (
  ground (arith, append-IsApart ps.peers peer, knows_peer-append ps.peers peer ps.info),
  (
    knows_peer-delete ps.peers (λ p. is_same_ip peer p) ps.info h.0,
    delete-IsApart ps.peers (λ p. is_same_ip peer p) h.1,
  ),
  delete-knows_peer ps.peers peer h.1,
  λ other. ground (arith, knows_peer-append ps.peers peer peer, bytes_eq_self peer.ip4),
)

module _ (js : P2pJson) where
  -- Whatever bytes a hello or a welcome message holds, its handler keeps the peers apart from one
  -- another and from the node itself.
  pub handlers-IsPeers :
      (raw : Bytes) (ps : P2pService)
      → IsPeers ps
      → IsPeers (handle_join js raw ps).0 × IsPeers (handle_welcome js raw ps).0
  unfolding handle_join handle_welcome join_peer welcome_peer
  handlers-IsPeers raw ps h = (join_kept, welcome_kept)
    where
      kept : (peer : NodeInfo) → IsPeers (add_peer peer ps)
      kept peer = (add_remove_peer_lem peer ps h).0

      join_peer_kept : (hello : HelloMsg) → IsPeers (join_peer js hello ps).0
      join_peer_kept hello = ground (arith, kept hello.from)

      welcome_peer_kept : (w : WelcomeMsg) → IsPeers (welcome_peer js w ps).0
      welcome_peer_kept w = ground (arith, kept w.from)

      join_kept : IsPeers (handle_join js raw ps).0
      join_kept = elim (Option-cases (js.hello_json.unmarshal raw)) [
        | inl unread ↦ rw (unread, handle_join) h
        | inr (hello, read) ↦ rw (read, handle_join) (join_peer_kept hello)
      ]

      welcome_kept : IsPeers (handle_welcome js raw ps).0
      welcome_kept = elim (Option-cases (js.welcome_json.unmarshal raw)) [
        | inl unread ↦ rw (unread, handle_welcome) h
        | inr (w, read) ↦ rw (read, handle_welcome) (welcome_peer_kept w)
      ]

-- The peers that have another address than `exc`.
unfoldable pub others : NodeInfo → List NodeInfo → List NodeInfo
others exc [] = []
others exc (p ∷ peers) = let rest = others exc peers in if is_same_ip p exc then rest else p ∷ rest

send_to_others_one :
    (payload : Bytes) (exc : NodeInfo) (peers : List NodeInfo)
    → send_to_others payload peers (exc ∷ []) ≡ send_to_all payload (others exc peers)
unfolding send_to_others send_unless send_to_all others
send_to_others_one payload exc [] = refl
send_to_others_one payload exc (p ∷ peers) = ground (arith, send_to_others_one payload exc peers)

-- The message goes to the peer.
abbrev pub reaches : NodeInfo → Sent → Bool
reaches p sent = contains_func sent (λ s. is_same_ip p s.0)

send_to_others_two :
    (payload : Bytes) (a b : NodeInfo) (peers : List NodeInfo) (p : NodeInfo)
    → is_same_ip a b ≡ false
    → knows_peer peers p ≡ true
    → reaches p (send_to_others payload peers (a ∷ b ∷ [])) ≡ true
unfolding send_to_others send_unless
send_to_others_two payload a b [] p apart h = cc
send_to_others_two payload a b (x ∷ peers) p apart h = ground (
  arith,
  send_to_others_two payload a b peers p apart,
  contains_func-append (send_unless payload x (a ∷ b ∷ []))
      (send_to_others payload peers (a ∷ b ∷ [])) (λ s. is_same_ip p s.0),
  same_ip_lem x a b,
)

-- `Broadcast` without exceptions sends to every peer once, and with one exception to the peers of
-- another address. With two exceptions of different addresses it sends to every peer, the two
-- exceptions included.
pub broadcast_lem :
    (payload : Bytes) (ps : P2pService)
    → (broadcast payload [] ps ≡ send_to_all payload ps.peers)
      × ((exc : NodeInfo)
          → broadcast payload (exc ∷ []) ps ≡ send_to_all payload (others exc ps.peers))
      × ((a b p : NodeInfo)
          → is_same_ip a b ≡ false
          → knows_peer ps.peers p ≡ true
          → reaches p (broadcast payload (a ∷ b ∷ []) ps) ≡ true)
unfolding broadcast
broadcast_lem payload ps = (
  refl,
  λ exc. send_to_others_one payload exc ps.peers,
  λ a b p apart h. send_to_others_two payload a b ps.peers p apart h,
)

get_elem?-none : {A : Type 0} (xs : List A) (i : ℕ) → length xs ≤ i → get_elem? xs i ≡ none
get_elem?-none [] i h = refl
get_elem?-none (x ∷ xs) zero h = absurd (omega arith)
get_elem?-none (x ∷ xs) (suc i) h = get_elem?-none xs i (omega arith)

get_elem?-some :
    {A : Type 0} (xs : List A) (i : ℕ) → i < length xs → (x : A) × (get_elem? xs i ≡ some x)
get_elem?-some [] i h = absurd (omega arith)
get_elem?-some (x ∷ xs) zero h = (x, refl)
get_elem?-some (x ∷ xs) (suc i) h = get_elem?-some xs i (omega arith)

-- `PeerByIndex` returns a peer for an index below the number of peers, and nil above it. For the
-- index that equals the number of peers it panics, unless there are no peers.
pub peer_by_index_lem :
    (idx : ℕ) (ps : P2pService)
    → (idx < length ps.peers → (p : NodeInfo) × (peer_by_index idx ps ≡ ok (some p)))
      × (length ps.peers < idx → peer_by_index idx ps ≡ ok none)
      × (idx ≡ length ps.peers → 0 < length ps.peers → peer_by_index idx ps ≡ panic)
      × (length ps.peers ≡ 0 → peer_by_index idx ps ≡ ok none)
unfolding peer_by_index
peer_by_index_lem idx ps = (
  λ h. let (p, e) = get_elem?-some ps.peers idx h in (p, ground arith),
  λ h. ground arith,
  λ e h. ground (arith, get_elem?-none ps.peers idx),
  λ e. ground arith,
)

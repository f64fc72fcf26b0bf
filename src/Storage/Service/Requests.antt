-- ===== src/Storage/Service/Requests.antt =====
-- storage/storage_service.go: the requests on the channel and the loop `run` that answers them.
use simple_blockchain_go.Storage.Service.{put as put_in_storage, get as get_from_storage}
use simple_blockchain_go.Base.{
  Bool-cases, Bytes, List, Option, Outcome, Slice, [], ap, arith, bytes_eq_iff, content, equal,
  if◌then◌else◌, inl, inr, len, length, map, none, not_nil_of_len, ok, refl, some, sym, ℕ, ◌++◌,
  ◌==◌, ◌∙◌, ◌∷◌, ◌≡◌, ◌≤◌,
}
use simple_blockchain_go.Storage.Bolt.{Bolt, IsBolt}
use simple_blockchain_go.Storage.Db.{DbContent, get_by_key, put_db}
use simple_blockchain_go.Storage.Db.Laws.{put_db_lem}
use simple_blockchain_go.Storage.Service.{
  BucketKind, ReferenceKind, bucket_of, by_key, get_kind, put_kind,
}

-- The result channel of a request is never nil: both senders make one.
pub record StorageRequest : Type 0 where
  pub request_kind : ℕ
  pub bucket_kind : BucketKind
  pub content : Option DbContent
  pub reference_kind : ReferenceKind
  pub reference : Slice

-- `common.Result` of a byte slice.
abbrev pub Answer : Type 0
Answer = Slice × Outcome (Unit {0})

-- `Get`; the content that a Get leaves out is nil.
unfoldable pub get_request : BucketKind → ReferenceKind → Slice → StorageRequest
get_request bucket ref_kind ref = record {
  request_kind = get_kind;
  bucket_kind = bucket;
  content = none;
  reference_kind = ref_kind;
  reference = ref;
}

-- `Put`; the reference that a Put leaves out is not read.
unfoldable pub put_request : BucketKind → DbContent → StorageRequest
put_request bucket c = record {
  request_kind = put_kind;
  bucket_kind = bucket;
  content = some c;
  reference_kind = by_key;
  reference = none;
}

module _ (bolt : Bolt) where
  open bolt use {Db}

  -- One turn of the loop of `run`. A request of neither kind gets no answer.
  unfoldable pub answer_request : StorageRequest → Db → Db × Option Answer
  answer_request req db =
      if req.request_kind == put_kind
      then (let (db', r) = put_in_storage bolt req.bucket_kind req.content db in
          (db', some (none, r)))
      else if req.request_kind == get_kind
      then (
        db,
        some (get_from_storage bolt req.bucket_kind req.reference_kind req.reference db, ok tt),
      )
      else (db, none)

  -- `run`, over the requests in the order in which they were sent.
  unfoldable pub run_requests : List StorageRequest → Db → Db × List (Option Answer)
  run_requests [] db = (db, [])
  run_requests (req ∷ reqs) db =
      let (db₁, answer) = answer_request req db in
      let (db₂, answers) = run_requests reqs db₁ in (db₂, answer ∷ answers)

-- What a Put stores.
pub record IsStorable (c : DbContent) : Type 0 where
  pub enc : Bytes
  pub encodes : c.to_bytes ≡ some enc
  pub fits : length enc ≤ 2147483646
  pub key_size : len c.key ≡ 32
  pub index_size : len c.index ≡ 8

abbrev pub AllStorable : List DbContent → Type 0
AllStorable [] = Unit
AllStorable (c ∷ cs) = IsStorable c × AllStorable cs

-- What a map holds under a key after the contents, where it held `old` before them.
unfoldable pub recorded : Slice → List DbContent → Slice → Slice
recorded k [] old = old
recorded k (c ∷ cs) old = recorded k cs (if equal k c.key then c.to_bytes else old)

module _ (bolt : Bolt) (laws : IsBolt bolt) where
  put_request-get_by_key :
      (bucket : BucketKind) (c : DbContent) (k : Slice) (db : bolt.Db)
      → IsStorable c
      → len k ≡ 32
      → let (db', answer) = answer_request bolt (put_request bucket c) db in
        (answer ≡ some (none, ok tt))
        × (get_by_key bolt (bucket_of bucket) k db'
            ≡ (if equal k c.key then c.to_bytes else get_by_key bolt (bucket_of bucket) k db))
  unfolding answer_request put_request put_in_storage get_by_key
  put_request-get_by_key bucket c k db h hk =
      let (went, here, at_index, at_latest, at_latest_key, at_latest_index, away, elsewhere) =
        put_db_lem bolt laws (bucket_of bucket) c h.enc db h.encodes h.fits h.key_size
          h.index_size in
      let same = bytes_eq_iff (content k) (content c.key) in
      (
        rw went refl,
        elim (Bool-cases (equal k c.key)) [
          | inl met ↦ rw met (
              ap (λ b. bolt.read (put_db bolt (bucket_of bucket) c db).0 (bucket_of bucket) b)
                (same.0 met)
              ∙ here
              ∙ sym h.encodes)
          | inr differs ↦ rw differs (away k hk differs)
        ],
      )

  get_request-get_by_key :
      (bucket : BucketKind) (k : Slice) (db : bolt.Db)
      → len k ≡ 32
      → answer_request bolt (get_request bucket by_key k) db
        ≡ (db, some (get_by_key bolt (bucket_of bucket) k db, ok tt))
  unfolding answer_request get_request get_from_storage
  get_request-get_by_key bucket k db hk = ground (arith, not_nil_of_len k (omega arith))

  -- A queue of Puts of contents that encode, under keys of 32 bytes and indexes of 8, answers each with
  -- no error. A Get by a key of 32 bytes that follows them answers with the encoding of the last of the
  -- contents that has the key, and with what the database held before if none has it.
  pub run_requests-recorded :
      (bucket : BucketKind) (cs : List DbContent) (k : Slice) (db : bolt.Db)
      → AllStorable cs
      → len k ≡ 32
      → (run_requests bolt (map (put_request bucket) cs ++ get_request bucket by_key k ∷ []) db).1
        ≡ map (λ c. some (none, ok tt)) cs
          ++ some (recorded k cs (get_by_key bolt (bucket_of bucket) k db), ok tt) ∷ []
  unfolding run_requests recorded
  run_requests-recorded bucket [] k db h hk = rw (get_request-get_by_key bucket k db hk) refl
  run_requests-recorded bucket (c ∷ cs) k db h hk =
      let (answered, held) = put_request-get_by_key bucket c k db h.0 hk in
      let db' = (answer_request bolt (put_request bucket c) db).0 in
      rw answered (rw (run_requests-recorded bucket cs k db' h.1 hk) (rw held refl))

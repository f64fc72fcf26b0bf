-- ===== src/Storage/Db/Laws.antt =====
-- storage/storage_db.go: what a stored content can be found by.
use simple_blockchain_go.Base.{
  Bytes, Option-cases, Slice, ap, arith, bytes_eq_iff, content, equal, false, inl, inr, len, length,
  ok, refl, some, ◌∙◌, ◌≡◌, ◌≢◌, ◌≤◌,
}
use simple_blockchain_go.Storage.Bolt.{Bolt, IsBolt}
use simple_blockchain_go.Storage.Db.{
  DbContent, get_by_index, get_by_key, get_latest, get_latest_index, get_latest_key, latest_index,
  latest_key, put_db, write_content,
}

module _ (bolt : Bolt) (laws : IsBolt bolt) where
  -- Keys of different lengths are different.
  by_length : (a b : Bytes) → length a ≢ length b → a ≢ b
  by_length a b h e = h (ap length e)

  written :
      (db : bolt.Db) (bucket key value : Bytes)
      → 1 ≤ length key
      → length key ≤ 32
      → length value ≤ 2147483646
      → (db' : bolt.Db) × (bolt.write db bucket key value ≡ some db')
  written db bucket key value low high small =
      elim (Option-cases (bolt.write db bucket key value)) [
        | inl fails ↦ absurd (laws.writes db bucket key value low (omega arith) small fails)
        | inr done ↦ done
      ]

  keeps :
      (db db' : bolt.Db) (bucket key value k : Bytes)
      → bolt.write db bucket key value ≡ some db'
      → length k ≢ length key
      → bolt.read db' bucket k ≡ bolt.read db bucket k
  keeps db db' bucket key value k w h =
      laws.read_other db db' bucket key value bucket k w (inr (by_length k key h))

  -- The database after the four writes, and what it reads.
  record Written (bucket enc key idx : Bytes) (db db' : bolt.Db) : Type 0 where
    done : write_content bolt bucket enc key idx db ≡ ok db'
    at_key : bolt.read db' bucket key ≡ some enc
    at_index : bolt.read db' bucket idx ≡ some key
    at_latest_key : bolt.read db' bucket latest_key ≡ some key
    at_latest_index : bolt.read db' bucket latest_index ≡ some idx
    others : (k : Bytes) → length k ≡ 32 → k ≢ key → bolt.read db' bucket k ≡ bolt.read db bucket k
    elsewhere : (b k : Bytes) → b ≢ bucket → bolt.read db' b k ≡ bolt.read db b k

  write_content_lem :
      (bucket enc key idx : Bytes) (db : bolt.Db)
      → length enc ≤ 2147483646
      → length key ≡ 32
      → length idx ≡ 8
      → (db' : bolt.Db) × Written bucket enc key idx db db'
  unfolding write_content
  write_content_lem bucket enc key idx db small hk hi =
      let (d₁, w₁) = written db bucket key enc (omega arith) (omega arith) small in
      let (d₂, w₂) = written d₁ bucket idx key (omega arith) (omega arith) (omega arith) in
      let (d₃, w₃) = written d₂ bucket latest_key key (omega arith) (omega arith) (omega arith) in
      let (d₄, w₄) = written d₃ bucket latest_index idx (omega arith) (omega arith) (omega arith) in
      let k₂ = λ (k : Bytes) (h : length k ≢ length idx). keeps d₁ d₂ bucket idx key k w₂ h in
      let k₃ = λ (k : Bytes) (h : length k ≢ 6). keeps d₂ d₃ bucket latest_key key k w₃ h in
      let k₄ = λ (k : Bytes) (h : length k ≢ 9). keeps d₃ d₄ bucket latest_index idx k w₄ h in
      (
        d₄,
        record {
          done = rw (w₁, w₂, w₃, w₄);
          at_key =
              k₄ key (omega arith)
              ∙ k₃ key (omega arith)
              ∙ k₂ key (omega arith)
              ∙ laws.read_written db d₁ bucket key enc w₁;
          at_index =
              k₄ idx (omega arith)
              ∙ k₃ idx (omega arith)
              ∙ laws.read_written d₁ d₂ bucket idx key w₂;
          at_latest_key =
              k₄ latest_key (omega arith) ∙ laws.read_written d₂ d₃ bucket latest_key key w₃;
          at_latest_index = laws.read_written d₃ d₄ bucket latest_index idx w₄;
          others = λ k h ne.
              k₄ k (omega arith)
              ∙ k₃ k (omega arith)
              ∙ k₂ k (omega arith)
              ∙ laws.read_other db d₁ bucket key enc bucket k w₁ (inr ne);
          elsewhere = λ b k ne.
              laws.read_other d₃ d₄ bucket latest_index idx b k w₄ (inl ne)
              ∙ laws.read_other d₂ d₃ bucket latest_key key b k w₃ (inl ne)
              ∙ laws.read_other d₁ d₂ bucket idx key b k w₂ (inl ne)
              ∙ laws.read_other db d₁ bucket key enc b k w₁ (inl ne);
        },
      )

  put_db-done :
      (bucket : Bytes) (c : DbContent) (enc : Bytes) (db db' : bolt.Db)
      → c.to_bytes ≡ some enc
      → write_content bolt bucket enc (content c.key) (content c.index) db ≡ ok db'
      → put_db bolt bucket c db ≡ (db', ok tt)
  unfolding put_db
  put_db-done bucket c enc db db' e w = ground arith

  -- A Put of a content that encodes, under a 32-byte key and an 8-byte index, succeeds. Afterwards the
  -- bucket gives the encoding by key, by index and as the latest, and the key and the index as the
  -- latest ones; any other 32-byte key and any key of another bucket read as before.
  pub put_db_lem :
      (bucket : Bytes) (c : DbContent) (enc : Bytes) (db : bolt.Db)
      → c.to_bytes ≡ some enc
      → length enc ≤ 2147483646
      → len c.key ≡ 32
      → len c.index ≡ 8
      → let (db', r) = put_db bolt bucket c db in
        (r ≡ ok tt)
        × (get_by_key bolt bucket c.key db' ≡ some enc)
        × (get_by_index bolt bucket c.index db' ≡ some enc)
        × (get_latest bolt bucket db' ≡ some enc)
        × (get_latest_key bolt bucket db' ≡ some (content c.key))
        × (get_latest_index bolt bucket db' ≡ some (content c.index))
        × ((k : Slice)
            → len k ≡ 32
            → equal k c.key ≡ false
            → get_by_key bolt bucket k db' ≡ get_by_key bolt bucket k db)
        × ((b : Bytes) (k : Slice) → b ≢ bucket → get_by_key bolt b k db' ≡ get_by_key bolt b k db)
  unfolding get_by_key get_by_index get_latest get_latest_key get_latest_index
  put_db_lem bucket c enc db e small hk hi =
      let (db', w) =
        write_content_lem bucket enc (content c.key) (content c.index) db small hk hi in
      rw (put_db-done bucket c enc db db' e w.done) (
        refl,
        w.at_key,
        rw (w.at_index, get_by_index) w.at_key,
        rw (w.at_latest_key, get_latest) w.at_key,
        w.at_latest_key,
        w.at_latest_index,
        λ k h ne.
            w.others (content k) h
              (λ same. ground (arith, bytes_eq_iff (content k) (content c.key))),
        λ b k ne. w.elsewhere b (content k) ne,
      )

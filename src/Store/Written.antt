-- ===== src/Store/Written.antt =====
-- `put_chunk` of crates/s4logs-core/src/store.rs in a bucket: what it leaves at the keys of the chunk.
use s4_logs.Prelude.{
  ℕ, Option, none, some, [], ◌∷◌, ◌++◌, ◌≡◌, ◌≢◌, refl, sym, ap, ◌∙◌, ◌⊎◌, inl, inr, All, length,
  ◌≤◌, arith,
}
use s4_logs.Prelude.Text.{Bytes, bytes, strip_prefix, strip_prefix-append}
use s4_logs.Prelude.Result.{Result, ok, err, map_err}
use s4_logs.Crates.{Crates, FrameIndex}
use s4_logs.TsIndex.{max_frames}
use s4_logs.TsIndex.RoundTrip.{IsEntry, decode-encode}
use s4_logs.TsIndex.Wire.{LittleEndian}
use s4_logs.Chunk.{EncodedChunk}
use s4_logs.Layout.{
  ChunkLocation, norm_prefix, data_key, index_key, ts_index_key, data_seg, index_seg, tail,
  ts_sidecar_suffix,
}
use s4_logs.Sink.{StoreError, SinkError, PutReceipt, encode_sidecars}
use s4_logs.Store.{
  S3, ObjectStore, put_object_inner, put_bytes, put_data_bytes, get_bytes, load_indexes,
  put_sidecars, put_chunk, and_put, receipt, Put, get_error, put_times, acknowledged,
}

-- A bucket reads back what was written last, and a PUT touches no other key.
pub record IsBucket {D : Type 0} (s3 : S3 D) : Type 0 where
  pub put_reads :
      (key body : Bytes) (sc : Option Bytes) (d d' : D) (etag : Option Bytes)
      → s3.put_object key body sc d ≡ (d', ok etag)
      → s3.get_object key d' ≡ ok body
  pub put_other :
      (key other body : Bytes) (sc : Option Bytes) (d : D)
      → other ≢ key
      → s3.get_object other (s3.put_object key body sc d).0 ≡ s3.get_object other d

abbrev pub stamped : EncodedChunk → Option Bytes → FrameIndex
stamped chunk etag = record chunk.frame_index {
  source_etag = etag;
  source_compressed_size = some (length chunk.body);
}

-- The chunk's stamped index is read back from what s4-codec writes, and its sidecar has another name
-- than that of the times.
pub record IsIndexed {D : Type 0} (s3 : S3 D) (c : Crates) (chunk : EncodedChunk) : Type 0 where
  pub index_reads :
      (etag : Option Bytes)
      → s3.decode_index (c.encode_index (stamped chunk etag)) ≡ ok (stamped chunk etag)
  pub other_suffix : c.sidecar_suffix ≢ ts_sidecar_suffix

cancel : (p x y : Bytes) → p ++ x ≡ p ++ y → x ≡ y
cancel p x y h =
    let same : some x ≡ some y =
      sym (strip_prefix-append p x) ∙ (ap (strip_prefix p) h ∙ strip_prefix-append p y) in
    cc

abbrev first : Bytes → ℕ
first [] = 0
first (b ∷ bs) = b

module _ (prefix : Bytes) (loc : ChunkLocation) where
  index-data : (suffix : Bytes) → index_key suffix loc prefix ≢ data_key loc prefix
  unfolding index_key data_key
  index-data suffix h =
      let rest =
        cancel (norm_prefix prefix) (index_seg ++ (b'/' ∷ (tail loc ++ suffix)))
          (data_seg ++ (b'/' ∷ tail loc)) h in
      absurd (omega (arith, ap first rest))

  ts_index-data : ts_index_key loc prefix ≢ data_key loc prefix
  unfolding ts_index_key data_key
  ts_index-data h =
      let rest =
        cancel (norm_prefix prefix) (index_seg ++ (b'/' ∷ (tail loc ++ ts_sidecar_suffix)))
          (data_seg ++ (b'/' ∷ tail loc)) h in
      absurd (omega (arith, ap first rest))

  ts_index-index :
      (suffix : Bytes)
      → suffix ≢ ts_sidecar_suffix
      → ts_index_key loc prefix ≢ index_key suffix loc prefix
  unfolding ts_index_key index_key
  ts_index-index suffix n h =
      let whole =
        cancel (norm_prefix prefix) (index_seg ++ (b'/' ∷ (tail loc ++ ts_sidecar_suffix)))
          (index_seg ++ (b'/' ∷ (tail loc ++ suffix))) h in
      let behind =
        cancel (index_seg ++ b'/' ∷ []) (tail loc ++ ts_sidecar_suffix) (tail loc ++ suffix)
          whole in
      n (sym (cancel (tail loc) ts_sidecar_suffix suffix behind))

map_err-ok : {E F A : Type 0} (f : E → F) (r : Result E A) (a : A) → map_err f r ≡ ok a → r ≡ ok a
map_err-ok f (ok b) a h = cc
map_err-ok f (err e) a h = cc

module _ {D : Type 0} (s3 : S3 D) (st : ObjectStore) (law : IsBucket s3) where
  put_inner_reads :
      (key body : Bytes) (sc : Option Bytes) (d d' : D) (etag : Option Bytes)
      → put_object_inner s3 st key body sc d ≡ (d', ok etag)
      → get_bytes s3 st key d' ≡ ok body
  unfolding put_object_inner get_bytes
  put_inner_reads key body sc d d' etag h =
      let done : (s3.put_object key body sc d).1 ≡ ok etag =
        map_err-ok (StoreError.aws (bytes "PutObject") key) (s3.put_object key body sc d).1 etag
          (ap (λ (z : D × Result StoreError (Option Bytes)). z.1) h) in
      let left : (s3.put_object key body sc d).0 ≡ d' =
        ap (λ (z : D × Result StoreError (Option Bytes)). z.0) h in
      ap (map_err (get_error s3 st (bytes "GetObject") (bytes "GetObject(body)") key))
        (law.put_reads key body sc d d' etag (λ i. (left i, done i)))

  put_inner_other :
      (key other body : Bytes) (sc : Option Bytes) (d : D)
      → other ≢ key
      → get_bytes s3 st other (put_object_inner s3 st key body sc d).0 ≡ get_bytes s3 st other d
  unfolding put_object_inner get_bytes
  put_inner_other key other body sc d n =
      ap (map_err (get_error s3 st (bytes "GetObject") (bytes "GetObject(body)") other))
        (law.put_other key other body sc d n)

  kept_by :
      (key other body : Bytes) (sc : Option Bytes) (d d' : D) (etag : Option Bytes)
      → other ≢ key
      → put_object_inner s3 st key body sc d ≡ (d', ok etag)
      → get_bytes s3 st other d' ≡ get_bytes s3 st other d
  kept_by key other body sc d d' etag n h =
      ap (λ (z : D × Result StoreError (Option Bytes)). get_bytes s3 st other z.0) (sym h)
      ∙ put_inner_other key other body sc d n

  module _ (c : Crates) (wire : LittleEndian) where
    and_put-ok :
        (more : D → Option Bytes → Put s3 st c wire) (x : D × Result StoreError (Option Bytes))
        (d : D) (r : PutReceipt)
        → and_put s3 st c wire more x ≡ (d, ok r)
        → (d1 : D) × (etag : Option Bytes) × (x ≡ (d1, ok etag)) × (more d1 etag ≡ (d, ok r))
    and_put-ok more (d1, ok etag) d r h = (d1, etag, refl, h)
    and_put-ok more (d1, err e) d r h =
        let never : err (SinkError.store e) ≡ ok r = ap (λ (z : Put s3 st c wire). z.1) h in cc

    -- What the three PUTs of a chunk leave, if all succeed.
    abbrev IsPut : ChunkLocation → EncodedChunk → D → PutReceipt → Type 0
    IsPut loc chunk d r =
        (etag : Option Bytes) × (r ≡ receipt s3 st c wire loc chunk etag)
        × (get_bytes s3 st (data_key loc st.prefix) d ≡ ok chunk.body)
        × (get_bytes s3 st (index_key c.sidecar_suffix loc st.prefix) d
            ≡ ok (encode_sidecars c wire chunk etag).0)
        × (get_bytes s3 st (ts_index_key loc st.prefix) d
            ≡ ok (encode_sidecars c wire chunk etag).1)

    put_chunk_lem :
        (loc : ChunkLocation) (chunk : EncodedChunk) (d d' : D) (r : PutReceipt)
        → IsIndexed s3 c chunk
        → put_chunk s3 st c wire loc chunk d ≡ (d', ok r)
        → IsPut loc chunk d' r
    unfolding put_chunk put_sidecars put_bytes put_data_bytes
    put_chunk_lem loc chunk d d' r codec h =
        let body_key = data_key loc st.prefix in
        let idx = index_key c.sidecar_suffix loc st.prefix in
        let times = ts_index_key loc st.prefix in
        let (d1, etag, e1, h1) =
          and_put-ok (put_sidecars s3 st c wire loc chunk)
            (put_object_inner s3 st body_key chunk.body st.storage_class d) d' r h in
        let (i, t) = encode_sidecars c wire chunk etag in
        let (d2, etag2, e2, h2) =
          and_put-ok (put_times s3 st c wire loc chunk etag t)
            (put_object_inner s3 st idx i none d1) d' r h1 in
        let (d3, etag3, e3, h3) =
          and_put-ok (acknowledged s3 st c wire loc chunk etag)
            (put_object_inner s3 st times t none d2) d' r h2 in
        let end : d3 ≡ d' = ap (λ (z : Put s3 st c wire). z.0) h3 in
        let got : ok (receipt s3 st c wire loc chunk etag) ≡ ok r =
          ap (λ (z : Put s3 st c wire). z.1) h3 in
        let kept : (key : Bytes) → key ≢ times → get_bytes s3 st key d' ≡ get_bytes s3 st key d2 =
          λ key n. ap (get_bytes s3 st key) (sym end) ∙ kept_by times key t none d2 d3 etag3 n e3 in
        (
          etag,
          cc,
          kept body_key (λ q. ts_index-data st.prefix loc (sym q))
              ∙ (kept_by idx body_key i none d1 d2 etag2
                    (λ q. index-data st.prefix loc c.sidecar_suffix (sym q)) e2
                  ∙ put_inner_reads body_key chunk.body st.storage_class d d1 etag e1),
          kept idx (λ q. ts_index-index st.prefix loc c.sidecar_suffix codec.other_suffix (sym q))
              ∙ put_inner_reads idx i none d1 d2 etag2 e2,
          ap (get_bytes s3 st times) (sym end) ∙ put_inner_reads times t none d2 d3 etag3 e3,
        )

    -- If `put_chunk` succeeds, the receipt's data key reads as the chunk's body, and
    -- `load_indexes` gives the chunk's frame index stamped with the receipt's ETag and the body's
    -- length, and its time index; a bucket reads back what was written last and a PUT touches no
    -- other key, the stamped index is read back from what s4-codec writes, its suffix is not that
    -- of the times, and the time entries are ordered `i64` ranges, no more than the cap.
    pub put_chunk_reads :
        (loc : ChunkLocation) (chunk : EncodedChunk) (d d' : D) (r : PutReceipt)
        → IsIndexed s3 c chunk
        → All IsEntry chunk.ts_index.entries
        → length chunk.ts_index.entries ≤ max_frames
        → put_chunk s3 st c wire loc chunk d ≡ (d', ok r)
        → (get_bytes s3 st r.data_key d' ≡ ok chunk.body)
          × (load_indexes s3 st c wire loc d' ≡ ok (stamped chunk r.etag, chunk.ts_index))
    unfolding load_indexes encode_sidecars
    put_chunk_reads loc chunk d d' r codec entries few h =
        let (etag, e, body, idx, times) = put_chunk_lem loc chunk d d' r codec h in
        (
          ap (λ (z : PutReceipt). get_bytes s3 st z.data_key d') e ∙ body,
          rw (idx, codec.index_reads etag, times, decode-encode wire chunk.ts_index entries few)
              (ap (λ (z : PutReceipt). ok (stamped chunk z.etag, chunk.ts_index)) (sym e)),
        )

    -- What a state has is kept by a PUT and by what follows it.
    and_put_keeps :
        (key : Bytes) (v : Result StoreError Bytes) (more : D → Option Bytes → Put s3 st c wire)
        (x : D × Result StoreError (Option Bytes))
        → get_bytes s3 st key x.0 ≡ v
        → ((d : D) (e : Option Bytes)
            → get_bytes s3 st key d ≡ v
            → get_bytes s3 st key (more d e).0 ≡ v)
        → get_bytes s3 st key (and_put s3 st c wire more x).0 ≡ v
    and_put_keeps key v more (d, ok e) h k = k d e h
    and_put_keeps key v more (d, err e) h k = h

    sidecars_keep :
        (loc : ChunkLocation) (chunk : EncodedChunk) (d : D) (etag : Option Bytes)
        (v : Result StoreError Bytes)
        → get_bytes s3 st (data_key loc st.prefix) d ≡ v
        → get_bytes s3 st (data_key loc st.prefix) (put_sidecars s3 st c wire loc chunk d etag).0
          ≡ v
    unfolding put_sidecars put_bytes
    sidecars_keep loc chunk d etag v h =
        let body_key = data_key loc st.prefix in
        let idx = index_key c.sidecar_suffix loc st.prefix in
        let times = ts_index_key loc st.prefix in
        let (i, t) = encode_sidecars c wire chunk etag in
        and_put_keeps body_key v (put_times s3 st c wire loc chunk etag t)
          (put_object_inner s3 st idx i none d)
          (put_inner_other idx body_key i none d
              (λ q. index-data st.prefix loc c.sidecar_suffix (sym q))
            ∙ h)
          (λ d1 e1 h1.
            and_put_keeps body_key v (acknowledged s3 st c wire loc chunk etag)
              (put_object_inner s3 st times t none d1)
              (put_inner_other times body_key t none d1 (λ q. ts_index-data st.prefix loc (sym q))
                ∙ h1)
              (λ d2 e2 h2. h2))

    abbrev Same : Bytes → D → D → Type 0
    Same key d' d = get_bytes s3 st key d' ≡ get_bytes s3 st key d

    -- The chunk's body is there, or its sidecars are as they were.
    abbrev pub IsOrdered : ChunkLocation → EncodedChunk → D → D → Type 0
    IsOrdered loc chunk d d' =
        (get_bytes s3 st (data_key loc st.prefix) d' ≡ ok chunk.body)
        ⊎ (Same (index_key c.sidecar_suffix loc st.prefix) d' d
            × Same (ts_index_key loc st.prefix) d' d)

    put_by-IsOrdered :
        (loc : ChunkLocation) (chunk : EncodedChunk) (d : D)
        (x : D × Result StoreError (Option Bytes))
        → put_object_inner s3 st (data_key loc st.prefix) chunk.body st.storage_class d ≡ x
        → IsOrdered loc chunk d (and_put s3 st c wire (put_sidecars s3 st c wire loc chunk) x).0
    put_by-IsOrdered loc chunk d (d1, ok etag) e = inl (
        sidecars_keep loc chunk d1 etag (ok chunk.body)
          (put_inner_reads (data_key loc st.prefix) chunk.body st.storage_class d d1 etag e))
    put_by-IsOrdered loc chunk d (d1, err q) e =
        let kept : (key : Bytes) → key ≢ data_key loc st.prefix → Same key d1 d = λ key n.
          ap (λ (z : D × Result StoreError (Option Bytes)). get_bytes s3 st key z.0) (sym e)
          ∙ put_inner_other (data_key loc st.prefix) key chunk.body st.storage_class d n in
        inr (
          kept (index_key c.sidecar_suffix loc st.prefix)
              (index-data st.prefix loc c.sidecar_suffix),
          kept (ts_index_key loc st.prefix) (ts_index-data st.prefix loc),
        )

    -- Whatever `put_chunk` answers, it leaves the chunk's body at its data key, or both sidecars'
    -- keys read as before; a bucket reads back what was written last and a PUT touches no other
    -- key.
    pub put_chunk-IsOrdered :
        (loc : ChunkLocation) (chunk : EncodedChunk) (d : D)
        → IsOrdered loc chunk d (put_chunk s3 st c wire loc chunk d).0
    unfolding put_chunk put_data_bytes
    put_chunk-IsOrdered loc chunk d =
        put_by-IsOrdered loc chunk d
          (put_object_inner s3 st (data_key loc st.prefix) chunk.body st.storage_class d) refl

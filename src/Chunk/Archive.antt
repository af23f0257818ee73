-- ===== src/Chunk/Archive.antt =====
-- What a data object holds: all the records pushed, in order, as one zstd stream, and sidecars that
-- describe it; and that the writer returns one.
use s4_logs.Prelude.{
  ℕ, suc, ◌+◌, ◌^◌, ◌<◌, ◌≡◌, ◌↔◌, refl, sym, ap, ◌∙◌, true, Option, none, some, List, [], ◌∷◌, All,
  length, length-append, map, arith, List-cases, inl, inr, Bool-cases, leb, if◌then◌else◌,
}
use s4_logs.Prelude.Int.{ℤ}
use s4_logs.Prelude.I64.{i64_min, i64_max}
use s4_logs.Prelude.Text.{Bytes}
use s4_logs.Prelude.Result.{ok}
use s4_logs.Record.{LogRecord}
use s4_logs.Crates.{Crates, IsLawful}
use s4_logs.Jsonl.{jsonl, append_jsonl}
use s4_logs.Chunk.{
  ChunkConfig, ChunkWriter, EncodedChunk, new, compress_frame, encode, encoded, push, pend,
  cut_frame, close_frame,
}
use s4_logs.Chunk.Frames.{
  Frame, earliest, latest, range, all_recs, body_of, plain_size, tile, HasTime, jsonl-append,
  IsFrame,
}
use s4_logs.Chunk.Steps.{new-IsWriting, pended}
use s4_logs.Chunk.Encoded.{
  push_all, pushed_chunk, push_all-IsWriting, encode-none, sealed, encode_closes,
}

pub length-tile : (o p : ℕ) (fs : List Frame) → length (tile o p fs) ≡ length fs
length-tile o p [] = refl
length-tile o p (f ∷ fs) = ap suc (length-tile (o + length f.plain) (p + length f.packed) fs)

pub length-range : (fs : List Frame) → length (map range fs) ≡ length fs
length-range [] = refl
length-range (f ∷ fs) = ap suc (length-range fs)

module _ (c : Crates) where
  pub plain_size-jsonl :
      (level : ℤ) (fs : List Frame)
      → All (IsFrame c level) fs
      → plain_size fs ≡ length (jsonl c (all_recs fs))
  plain_size-jsonl level [] h = refl
  plain_size-jsonl level (f ∷ fs) h = omega (
    arith,
    ap (λ (t : Bytes). length t) h.0.plain_lines,
    ap (λ (t : Bytes). length t) (jsonl-append c f.recs (all_recs fs)),
    length-append (jsonl c f.recs) (jsonl c (all_recs fs)),
    plain_size-jsonl level fs h.1,
  )

  pub decode-body_of :
      (level : ℤ) (fs : List Frame)
      → IsLawful c
      → All (IsFrame c level) fs
      → c.zstd_decode (body_of fs) ≡ (jsonl c (all_recs fs), true)
  unfolding compress_frame
  decode-body_of level [] law h = law.decode_none
  decode-body_of level (f ∷ fs) law h =
      rw
        (
          law.decode_frame level (length f.plain) f.plain f.packed (body_of fs) h.0.packs,
          decode-body_of level fs law h.1,
          h.0.plain_lines,
          jsonl-append c f.recs (all_recs fs),
        )
        refl

  module _ (cfg : ChunkConfig) (rs : List LogRecord) (w : ChunkWriter) (chunk : EncodedChunk) where
    -- If all records were pushed into a new writer without an error and `encode` returns a chunk,
    -- the chunk's body decodes, as one zstd stream, to the JSON lines of those records in order,
    -- given lawful crates, `i64` timestamps and lines of less than 2^64 bytes.
    pub decode-encode_chunk :
        IsLawful c
        → length (jsonl c rs) < 2 ^ 64
        → All HasTime rs
        → push_all c rs (new cfg) ≡ (w, ok tt)
        → encode c w ≡ ok (some chunk)
        → c.zstd_decode chunk.body ≡ (jsonl c rs, true)
    decode-encode_chunk law fits times pushed e =
        let (fs, made, recs) = pushed_chunk c cfg rs w chunk fits times pushed e in
        rw (made.body, decode-body_of made.level fs law made.frames, recs) refl

    -- If all records were pushed into a new writer without an error and `encode` returns a chunk,
    -- with `i64` timestamps and lines of less than 2^64 bytes, the chunk's counters are right: the
    -- number of records, the size of their lines, the smallest and the largest timestamp, the CRC
    -- and the size of the body; and its two indexes have equally many entries.
    pub encode_counts :
        length (jsonl c rs) < 2 ^ 64
        → All HasTime rs
        → push_all c rs (new cfg) ≡ (w, ok tt)
        → encode c w ≡ ok (some chunk)
        → (chunk.record_count ≡ length rs)
          × (chunk.uncompressed_bytes ≡ length (jsonl c rs))
          × (chunk.min_timestamp ≡ earliest i64_max rs)
          × (chunk.max_timestamp ≡ latest i64_min rs)
          × (chunk.crc32c ≡ c.crc32c chunk.body)
          × (chunk.frame_index.total_padded_size ≡ length chunk.body)
          × (length chunk.frame_index.entries ≡ length chunk.ts_index.entries)
    encode_counts fits times pushed e =
        let (fs, made, recs) = pushed_chunk c cfg rs w chunk fits times pushed e in
        (
          made.count ∙ ap (λ (t : List LogRecord). length t) recs,
          made.plain
              ∙ (plain_size-jsonl made.level fs made.frames ∙ ap (λ t. length (jsonl c t)) recs),
          made.min_time ∙ ap (earliest i64_max) recs,
          made.max_time ∙ ap (latest i64_min) recs,
          made.checksum ∙ ap c.crc32c (sym made.body),
          made.size ∙ ap (λ (t : Bytes). length t) (sym made.body),
          rw (made.entries, made.ranges) (length-tile 0 0 fs ∙ sym (length-range fs)),
        )

  module _
      (packs : (level : ℤ) (plain : Bytes)
        → (packed : Bytes) × (compress_frame c plain level ≡ some packed)) where
    cut_total : (w : ChunkWriter) → (w' : ChunkWriter) × (cut_frame c w ≡ (w', ok tt))
    unfolding cut_frame
    cut_total w = elim (List-cases w.pending) [
      | inl idle ↦ (w, rw idle refl)
      | inr (b, bs, busy) ↦
          let (packed, e) = packs w.cfg.zstd_level w.pending in
          (close_frame w packed, ground (arith, e))
    ]

    push_line :
        (r : LogRecord) (w : ChunkWriter)
        → (c.to_writer r).1 ≡ true
        → push c r w ≡ (
            if leb w.cfg.frame_target_bytes (length (pended c w r).pending)
            then cut_frame c (pended c w r)
            else (pended c w r, ok tt))
    unfolding push append_jsonl pend
    push_line r w line = rw line refl

    pub push_total :
        (r : LogRecord) (w : ChunkWriter)
        → (c.to_writer r).1 ≡ true
        → (w' : ChunkWriter) × (push c r w ≡ (w', ok tt))
    push_total r w line =
        elim (Bool-cases (leb w.cfg.frame_target_bytes (length (pended c w r).pending))) [
          | inl full ↦
              let (w', e) = cut_total (pended c w r) in (w', push_line r w line ∙ (rw full e))
          | inr room ↦ (pended c w r, push_line r w line ∙ (rw room refl))
        ]

    push_all_total :
        (rs : List LogRecord) (w : ChunkWriter)
        → All (λ r. (c.to_writer r).1 ≡ true) rs
        → (w' : ChunkWriter) × (push_all c rs w ≡ (w', ok tt))
    unfolding push_all
    push_all_total [] w lines = (w, refl)
    push_all_total (r ∷ rs) w lines =
        let (v, first) = push_total r w lines.0 in
        let (w', others) = push_all_total rs v lines.1 in (w', rw first others)

    pub encode_total : (w : ChunkWriter) → (out : Option EncodedChunk) × (encode c w ≡ ok out)
    unfolding encode
    encode_total w = elim (List-cases w.pending) [
      | inl idle ↦ (sealed c w, rw idle refl)
      | inr (b, bs, busy) ↦
          let (packed, e) = packs w.cfg.zstd_level w.pending in
          (sealed c (close_frame w packed), ground (arith, e, encode_closes c w packed))
    ]

    emptied :
        (cfg : ChunkConfig) (w : ChunkWriter) (out : Option EncodedChunk)
        → push_all c [] (new cfg) ≡ (w, ok tt)
        → encode c w ≡ ok out
        → out ≡ none
    emptied cfg w out pushed e =
        let same : new cfg ≡ w = unfold push_all in cc in
        let e' : encode c (new cfg) ≡ ok none = unfold encode new encoded in refl in cc

    -- If every record can be serialized and zstd never fails, with `i64` timestamps and lines of
    -- less than 2^64 bytes, pushing the records and encoding succeed, and there is no chunk
    -- exactly if there are no records.
    pub writer_total :
        (cfg : ChunkConfig) (rs : List LogRecord)
        → All (λ r. (c.to_writer r).1 ≡ true) rs
        → length (jsonl c rs) < 2 ^ 64
        → All HasTime rs
        → (w : ChunkWriter) × (out : Option EncodedChunk) × (push_all c rs (new cfg) ≡ (w, ok tt))
          × (encode c w ≡ ok out)
          × ((out ≡ none) ↔ (rs ≡ []))
    writer_total cfg rs lines fits times =
        let (w, pushed) = push_all_total rs (new cfg) lines in
        let (out, e) = encode_total w in
        let (fs, late, h, recs, size) =
          push_all-IsWriting c rs (new cfg) w [] [] (omega arith) times (new-IsWriting c cfg)
            pushed in
        (
          w,
          out,
          pushed,
          e,
          (
            (λ nothing.
                sym recs ∙ encode-none c w fs late (omega (arith, size)) h (e ∙ ap ok nothing)),
            (λ nothing. emptied cfg w out (rw nothing at pushed) e),
          ),
        )

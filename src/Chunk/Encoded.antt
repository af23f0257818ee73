-- ===== src/Chunk/Encoded.antt =====
-- What `encode` returns for a writer into which some records were pushed.
use s4_logs.Prelude.{
  ℕ, ◌+◌, ◌^◌, ◌<◌, ◌≡◌, ◌≢◌, refl, sym, ap, ◌∙◌, subst, Option, none, some, List, [], ◌∷◌, ◌++◌,
  append-nil, append_assoc, All, length, length-append, map, arith, Option-cases, List-cases, inl,
  inr, ◌⊎◌,
}
use s4_logs.Prelude.Int.{ℤ}
use s4_logs.Prelude.I64.{i64_min, i64_max}
use s4_logs.Prelude.Text.{Bytes}
use s4_logs.Prelude.Result.{Result, ok, err}
use s4_logs.Record.{LogRecord}
use s4_logs.Crates.{Crates, FrameIndexEntry}
use s4_logs.Jsonl.{line_of, jsonl, newline}
use s4_logs.TsIndex.{TsEntry}
use s4_logs.Chunk.{
  ChunkConfig, ChunkWriter, ChunkError, EncodedChunk, new, close_frame, compress_frame, encoded,
  encode_to, encode, push,
}
use s4_logs.Chunk.Frames.{
  Frame, earliest, latest, range, all_recs, body_of, plain_size, tile, HasTime, IsFrame,
  all_recs-snoc, plain_size-snoc,
}
use s4_logs.Chunk.Steps.{IsWriting, new-IsWriting, close-IsWriting, frame_of, push-IsWriting, total}

module _ (c : Crates) where
  -- The caller's loop, `for rec in recs { writer.push(rec)?; }`.
  abbrev pub push_rest :
      List LogRecord
      → (ChunkWriter → ChunkWriter × Result ChunkError Unit)
      → ChunkWriter × Result ChunkError Unit
      → ChunkWriter × Result ChunkError Unit
  push_rest rs more (w, ok _) = more w
  push_rest rs more (w, err e) = (w, err e)

  unfoldable pub push_all : List LogRecord → ChunkWriter → ChunkWriter × Result ChunkError Unit
  push_all [] w = (w, ok tt)
  push_all (r ∷ rs) w = push_rest rs (push_all rs) (push c r w)

  push_all_cons :
      (r : LogRecord) (rs : List LogRecord) (w w' : ChunkWriter)
      → push_all (r ∷ rs) w ≡ (w', ok tt)
      → (v : ChunkWriter) × (push c r w ≡ (v, ok tt)) × (push_all rs v ≡ (w', ok tt))
  unfolding push_all
  push_all_cons r rs w w' e = go (push c r w) refl e
    where
      go :
          (p : ChunkWriter × Result ChunkError Unit)
          → push c r w ≡ p
          → push_rest rs (push_all rs) p ≡ (w', ok tt)
          → (v : ChunkWriter) × (push c r w ≡ (v, ok tt)) × (push_all rs v ≡ (w', ok tt))
      go (v, ok tt) q e' = (v, q, e')
      go (v, err x) q e' = cc

  total-nil : (fs : List Frame) → total c fs [] ≡ plain_size fs
  total-nil fs = omega arith

  pub push_all-IsWriting :
      (rs : List LogRecord) (w w' : ChunkWriter) (fs : List Frame) (late : List LogRecord)
      → total c fs late + length (jsonl c rs) < 2 ^ 64
      → All HasTime rs
      → IsWriting c w fs late
      → push_all rs w ≡ (w', ok tt)
      → (fs' : List Frame) × (late' : List LogRecord) × IsWriting c w' fs' late'
        × (all_recs fs' ++ late' ≡ (all_recs fs ++ late) ++ rs)
        × (total c fs' late' ≡ total c fs late + length (jsonl c rs))
  push_all-IsWriting [] w w' fs late fits times h e =
      let same : w ≡ w' = unfold push_all in cc in
      (
        fs,
        late,
        subst (λ v. IsWriting c v fs late) same h,
        sym (append-nil (all_recs fs ++ late)),
        omega arith,
      )
  push_all-IsWriting (r ∷ rs) w w' fs late fits times h e =
      let (v, first, others) = push_all_cons r rs w w' e in
      let longer : length (jsonl c (r ∷ rs)) ≡ length (line_of c r) + length (jsonl c rs) =
        length-append (line_of c r) (jsonl c rs) in
      let (fs1, late1, h1, recs1, total1, done) =
        push-IsWriting c w v fs late r (omega (arith, longer)) times.0 h first in
      let (fs2, late2, h2, recs2, total2) =
        push_all-IsWriting rs v w' fs1 late1 (omega (arith, longer, total1)) times.1 h1 others in
      (
        fs2,
        late2,
        h2,
        recs2 ∙ (ap (λ t. t ++ rs) recs1 ∙ append_assoc (all_recs fs ++ late) (r ∷ []) rs),
        omega (arith, total1, total2, longer),
      )

  -- The chunk is made of these frames, one after the other.
  pub record IsMadeOf (chunk : EncodedChunk) (fs : List Frame) : Type 0 where
    pub body : chunk.body ≡ body_of fs
    pub entries : chunk.frame_index.entries ≡ tile 0 0 fs
    pub ranges : chunk.ts_index.entries ≡ map range fs
    pub size : chunk.frame_index.total_padded_size ≡ length (body_of fs)
    pub count : chunk.record_count ≡ length (all_recs fs)
    pub plain : chunk.uncompressed_bytes ≡ plain_size fs
    pub min_time : chunk.min_timestamp ≡ earliest i64_max (all_recs fs)
    pub max_time : chunk.max_timestamp ≡ latest i64_min (all_recs fs)
    pub checksum : chunk.crc32c ≡ c.crc32c (body_of fs)
    pub level : ℤ
    pub frames : All (IsFrame c level) fs

  abbrev pub sealed : ChunkWriter → Option EncodedChunk
  sealed w = encoded c w.entries w.ts_entries w.body w.original_off w.record_count w.min_ts w.max_ts

  encoded_fields :
      (es : List FrameIndexEntry) (ts : List TsEntry) (body : Bytes) (off count : ℕ) (lo hi : ℤ)
      (chunk : EncodedChunk)
      → encoded c es ts body off count lo hi ≡ some chunk
      → (chunk.body ≡ body)
        × (chunk.frame_index.entries ≡ es)
        × (chunk.ts_index.entries ≡ ts)
        × (chunk.frame_index.total_padded_size ≡ length body)
        × (chunk.record_count ≡ count)
        × (chunk.uncompressed_bytes ≡ off)
        × (chunk.min_timestamp ≡ lo)
        × (chunk.max_timestamp ≡ hi)
        × (chunk.crc32c ≡ c.crc32c body)
  unfolding encoded
  encoded_fields [] ts body off count lo hi chunk e = cc
  encoded_fields (x ∷ es) ts body off count lo hi chunk e = ground arith

  sealed-IsMadeOf :
      (w : ChunkWriter) (fs : List Frame) (chunk : EncodedChunk)
      → IsWriting c w fs []
      → sealed w ≡ some chunk
      → IsMadeOf chunk fs
  sealed-IsMadeOf w fs chunk h e =
      let (body, entries, ranges, size, count, plain, lo, hi, sum) =
        encoded_fields w.entries w.ts_entries w.body w.original_off w.record_count w.min_ts w.max_ts
          chunk e in
      record {
        body = body ∙ h.body;
        entries = entries ∙ h.entries;
        ranges = ranges ∙ h.ranges;
        size = size ∙ ap (λ (t : Bytes). length t) h.body;
        count = count ∙ h.count;
        plain = plain ∙ h.offset;
        min_time = lo ∙ h.min_time;
        max_time = hi ∙ h.max_time;
        checksum = sum ∙ ap c.crc32c h.body;
        level = w.cfg.zstd_level;
        frames = h.frames;
      }

  jsonl_nil : (rs : List LogRecord) → jsonl c rs ≡ [] → rs ≡ []
  jsonl_nil [] e = refl
  jsonl_nil (r ∷ rs) e = absurd (
      omega (
        arith,
        ap (λ (t : Bytes). length t) e,
        length-append (line_of c r) (jsonl c rs),
        length-append (c.to_writer r).0 (newline ∷ []),
      ))

  pub encode_closes :
      (w : ChunkWriter) (packed : Bytes)
      → encode_to c w (some packed) ≡ ok (sealed (close_frame w packed))
  unfolding encode_to close_frame
  encode_closes w packed = refl

  -- `encode` seals the writer as it is, or as it would be with the pending lines closed.
  encode_ok :
      (w : ChunkWriter) (out : Option EncodedChunk)
      → encode c w ≡ ok out
      → ((w.pending ≡ []) × (sealed w ≡ out))
        ⊎ ((packed : Bytes) × (w.pending ≢ [])
            × (compress_frame c w.pending w.cfg.zstd_level ≡ some packed)
            × (sealed (close_frame w packed) ≡ out))
  unfolding encode
  encode_ok w out e = elim (List-cases w.pending) [
    | inl idle ↦ inl (idle, ground arith)
    | inr (b, bs, busy) ↦ elim (Option-cases (compress_frame c w.pending w.cfg.zstd_level)) [
      | inl fails ↦ absurd (unfold encode_to in ground arith)
      | inr (packed, packs) ↦
          inr (packed, ground arith, packs, ground (arith, encode_closes w packed))
    ]
  ]

  -- A chunk that `encode` returns is made of frames that hold, in order, the records that the
  -- writer holds.
  pub encode-IsMadeOf :
      (w : ChunkWriter) (fs : List Frame) (late : List LogRecord) (chunk : EncodedChunk)
      → total c fs late < 2 ^ 64
      → IsWriting c w fs late
      → encode c w ≡ ok (some chunk)
      → (fs' : List Frame) × IsMadeOf chunk fs'
        × (all_recs fs' ≡ all_recs fs ++ late)
        × (plain_size fs' ≡ total c fs late)
  encode-IsMadeOf w fs late chunk fits h e = elim (encode_ok w (some chunk) e) [
    | inl (idle, seals) ↦
        let none_late : late ≡ [] = jsonl_nil late (sym h.pending ∙ idle) in
        let h' : IsWriting c w fs [] = subst (IsWriting c w fs) none_late h in
        (
          fs,
          sealed-IsMadeOf w fs chunk h' seals,
          rw none_late (sym (append-nil (all_recs fs))),
          rw none_late (omega arith),
        )
    | inr (packed, busy, packs, seals) ↦
        let f : Frame = frame_of c late packed in
        let some_late : late ≢ [] = λ e'. busy (h.pending ∙ ap (jsonl c) e') in
        (
          fs ++ f ∷ [],
          sealed-IsMadeOf (close_frame w packed) (fs ++ f ∷ []) chunk
              (close-IsWriting c w fs late packed some_late fits packs h) seals,
          all_recs-snoc fs f,
          plain_size-snoc fs f,
        )
  ]

  encoded-none :
      (es : List FrameIndexEntry) (ts : List TsEntry) (body : Bytes) (off count : ℕ) (lo hi : ℤ)
      → encoded c es ts body off count lo hi ≡ none
      → es ≡ []
  unfolding encoded
  encoded-none [] ts body off count lo hi e = refl
  encoded-none (x ∷ es) ts body off count lo hi e = cc

  tile_nil : (fs : List Frame) → tile 0 0 fs ≡ [] → fs ≡ []
  tile_nil [] e = refl
  tile_nil (f ∷ fs) e = cc

  sealed-none :
      (w : ChunkWriter) (fs : List Frame) → IsWriting c w fs [] → sealed w ≡ none → fs ≡ []
  sealed-none w fs h e = tile_nil fs (
      sym h.entries
      ∙ encoded-none w.entries w.ts_entries w.body w.original_off w.record_count w.min_ts w.max_ts
          e)

  snoc_nil : (fs : List Frame) (f : Frame) → fs ++ f ∷ [] ≢ []
  snoc_nil [] f e = cc
  snoc_nil (g ∷ fs) f e = cc

  -- Without a chunk the writer holds no record.
  pub encode-none :
      (w : ChunkWriter) (fs : List Frame) (late : List LogRecord)
      → total c fs late < 2 ^ 64
      → IsWriting c w fs late
      → encode c w ≡ ok none
      → all_recs fs ++ late ≡ []
  encode-none w fs late fits h e = elim (encode_ok w none e) [
    | inl (idle, seals) ↦
        let none_late : late ≡ [] = jsonl_nil late (sym h.pending ∙ idle) in
        let h' : IsWriting c w fs [] = subst (IsWriting c w fs) none_late h in
        rw (none_late, sealed-none w fs h' seals) refl
    | inr (packed, busy, packs, seals) ↦
        let some_late : late ≢ [] = λ e'. busy (h.pending ∙ ap (jsonl c) e') in
        absurd (
          snoc_nil fs (frame_of c late packed) (
            sealed-none (close_frame w packed) (fs ++ frame_of c late packed ∷ [])
              (close-IsWriting c w fs late packed some_late fits packs h) seals))
  ]

  module _ (cfg : ChunkConfig) (rs : List LogRecord) (w : ChunkWriter) where
    -- What `encode` returns after every record of `rs` was pushed into a new writer is made of
    -- frames that hold `rs` in order, if the lines of `rs` take less than 2^64 bytes.
    pub pushed_chunk :
        (chunk : EncodedChunk)
        → length (jsonl c rs) < 2 ^ 64
        → All HasTime rs
        → push_all rs (new cfg) ≡ (w, ok tt)
        → encode c w ≡ ok (some chunk)
        → (fs : List Frame) × IsMadeOf chunk fs × (all_recs fs ≡ rs)
    pushed_chunk chunk fits times pushed e =
        let (fs, late, h, recs, size) =
          push_all-IsWriting rs (new cfg) w [] [] (omega arith) times (new-IsWriting c cfg)
            pushed in
        let (fs', made, recs', size') = encode-IsMadeOf w fs late chunk (omega (arith, size)) h e in
        (fs', made, recs' ∙ recs)

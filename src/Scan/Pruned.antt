-- ===== src/Scan/Pruned.antt =====
-- The scan of a chunk by its sidecars, against the records that were written.
use s4_logs.Prelude.{
  ℕ, ◌^◌, ◌≤◌, ◌<◌, ◌≡◌, refl, sym, ap, ◌∙◌, subst, Bool, Option, some, List, [], ◌∷◌, ◌++◌, All,
  length, map, arith,
}
use s4_logs.Prelude.Text.{Bytes}
use s4_logs.Prelude.Result.{Result, ok}
use s4_logs.Record.{LogRecord}
use s4_logs.Crates.{Crates, IsLawful}
use s4_logs.Jsonl.{jsonl}
use s4_logs.Chunk.{EncodedChunk, ChunkConfig, ChunkWriter, new, encode}
use s4_logs.Chunk.Frames.{Frame, range, plain_size, HasTime, tile}
use s4_logs.Chunk.Encoded.{push_all, pushed_chunk}
use s4_logs.Chunk.Archive.{plain_size-jsonl, length-tile, length-range}
use s4_logs.Sink.{StoreError}
use s4_logs.Read.{TimeRange, select, frames_overlapping, max_decompressed_bytes, FrameSpan}
use s4_logs.Scan.Frames.{hits, IsWritten, IsObject, fetch_frames, eqb_refl}
use s4_logs.Scan.{Batch, fetch_spans}

pub plain_within : (n : ℕ) (fs : List Frame) → plain_size fs ≤ n → All (λ f. length f.plain ≤ n) fs
plain_within n [] h = tt
plain_within n (f ∷ fs) h = (omega arith, plain_within n fs (omega arith))

module _ (c : Crates) (cfg : ChunkConfig) (rs : List LogRecord) (w : ChunkWriter)
    (chunk : EncodedChunk) (get_range : ℕ → ℕ → Result StoreError Bytes) where
  -- If records were pushed and encoded into a chunk and a Range GET gives the bytes of its body,
  -- fetching only the frames that the indexes select for a time range collects exactly the records
  -- that match the range and the pattern, in order, with no new parse error; given lawful crates,
  -- serializable records with `i64` timestamps, lines within the decompression ceiling, a body
  -- below 2^64 bytes.
  pub scan_complete :
      (t : TimeRange) (pattern : Option (Bytes → Bool)) (b : Batch)
      → IsLawful c
      → length (jsonl c rs) ≤ max_decompressed_bytes
      → length chunk.body < 2 ^ 64
      → All HasTime rs
      → All (IsWritten c) rs
      → push_all c rs (new cfg) ≡ (w, ok tt)
      → encode c w ≡ ok (some chunk)
      → IsObject chunk.body get_range
      → (spans : List FrameSpan) × (b' : Batch) × (frames_overlapping c chunk.frame_index
            chunk.ts_index t
          ≡ ok spans)
        × (fetch_spans c get_range t pattern b spans ≡ ok b')
        × (b'.recs ≡ b.recs ++ hits t pattern rs)
        × (b'.stats.parse_errors ≡ b.stats.parse_errors)
  unfolding frames_overlapping
  scan_complete t pattern b law ceiling fits times lines pushed e reads =
      let (fs, made, recs) = pushed_chunk c cfg rs w chunk (omega arith) times pushed e in
      let small : plain_size fs ≤ max_decompressed_bytes =
        omega (
          arith,
          plain_size-jsonl c made.level fs made.frames,
          ap (λ z. length (jsonl c z)) recs,
        ) in
      let (b', fetched, (found, errors)) =
        fetch_frames c law t pattern chunk.body get_range made.level fs b 0 0 [] reads fits
          made.body made.frames (subst (All (IsWritten c)) (sym recs) lines)
          (plain_within max_decompressed_bytes fs small) in
      (
        select c t 0 (tile 0 0 fs) (map range fs),
        b',
        rw (made.entries, made.ranges)
            (rw (length-tile 0 0 fs, length-range fs) (rw (eqb_refl (length fs)) refl)),
        fetched,
        found ∙ ap (λ z. b.recs ++ hits t pattern z) recs,
        errors,
      )

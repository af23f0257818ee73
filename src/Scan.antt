-- ===== src/Scan.antt =====
-- crates/s4logs-cli/src/scan.rs: the records of one chunk's frames that match a time range and a
-- pattern. A regular expression is the test that it makes; a Range GET is a parameter.
pub mod Frames
pub mod Pruned
pub mod Tests
use s4_logs.Prelude.{
  ℕ, ◌+◌, ◌-◌, ◌%◌, ◌^◌, Bool, true, ◌&&◌, Option, some, none, List, [], ◌∷◌, ◌++◌, length,
  if◌then◌else◌, ◌==◌,
}
use s4_logs.Prelude.Int.{ltb_ℤ, leb_ℤ}
use s4_logs.Prelude.Text.{Bytes}
use s4_logs.Prelude.Result.{Result, ok, err, map_err, ◌>>=◌}
use s4_logs.Record.{LogRecord, RecordError}
use s4_logs.Crates.{Crates}
use s4_logs.Jsonl.{record_lines}
use s4_logs.Chunk.{add_u64}
use s4_logs.Sink.{StoreError}
use s4_logs.Read.{TimeRange, ReadError, FrameSpan, decompress_frames}

pub record ScanStats : Type 0 where
  pub chunks_listed : ℕ
  pub chunks_scanned : ℕ
  pub frames_fetched : ℕ
  pub fallback_full_objects : ℕ
  pub parse_errors : ℕ
  pub records_emitted : ℕ

-- `ScanStats::absorb`
unfoldable pub absorb : ScanStats → ScanStats → ScanStats
absorb s o = record {
  chunks_listed = add_u64 s.chunks_listed o.chunks_listed;
  chunks_scanned = add_u64 s.chunks_scanned o.chunks_scanned;
  frames_fetched = add_u64 s.frames_fetched o.frames_fetched;
  fallback_full_objects = add_u64 s.fallback_full_objects o.fallback_full_objects;
  parse_errors = add_u64 s.parse_errors o.parse_errors;
  records_emitted = add_u64 s.records_emitted o.records_emitted;
}

-- `pattern.is_none_or(..)`
abbrev pub is_none_or : Option (Bytes → Bool) → Bytes → Bool
is_none_or none message = true
is_none_or (some is_match) message = is_match message

unfoldable pub record_matches : LogRecord → TimeRange → Option (Bytes → Bool) → Bool
record_matches rec range pattern =
    leb_ℤ range.from_ms rec.timestamp
    && (ltb_ℤ rec.timestamp range.to_ms_exclusive && is_none_or pattern rec.message)

pub data FetchError : Type 0 where
  get : StoreError → FetchError
  wrong_length : (frame_idx got want : ℕ) → FetchError
  decoding : (frame_idx : ℕ) → ReadError → FetchError

-- The records collected so far, and the counters.
pub record Batch : Type 0 where
  pub stats : ScanStats
  pub recs : List LogRecord

module _ (range : TimeRange) (pattern : Option (Bytes → Bool)) where
  unfoldable pub emit_item : Batch → Result RecordError LogRecord → Batch
  emit_item b (ok rec) =
      if record_matches rec range pattern
      then record b {
        stats = record b.stats { records_emitted = add_u64 b.stats.records_emitted 1 };
        recs = b.recs ++ (rec ∷ []);
      }
      else b
  emit_item b (err e) = record b {
    stats = record b.stats { parse_errors = add_u64 b.stats.parse_errors 1 };
  }

  -- The loop of `emit_records`.
  unfoldable pub emit_items : Batch → List (Result RecordError LogRecord) → Batch
  unfolding emit_item
  emit_items b [] = b
  emit_items b (item ∷ items) = emit_items (emit_item b item) items

module _ (c : Crates) (get_range : ℕ → ℕ → Result StoreError Bytes) (range : TimeRange)
    (pattern : Option (Bytes → Bool)) where
  unfoldable pub emit_records : Batch → Bytes → Batch
  emit_records b jsonl = emit_items range pattern b (record_lines c jsonl)

  -- `byte_end_exclusive - byte_start` on u64
  abbrev pub want : FrameSpan → ℕ
  want span = (span.byte_end_exclusive + 2 ^ 64 - span.byte_start) % 2 ^ 64

  abbrev pub checked_length : FrameSpan → Bytes → Result FetchError Bytes
  checked_length span bytes =
      if length bytes == want span
      then ok bytes
      else err (wrong_length span.frame_idx (length bytes) (want span))

  -- One round of the loop over a unit's frames.
  unfoldable pub fetch_span : Batch → FrameSpan → Result FetchError Batch
  fetch_span b span = do
    found ← map_err get (get_range span.byte_start span.byte_end_exclusive)
    bytes ← checked_length span found
    jsonl ← map_err (decoding span.frame_idx) (decompress_frames c bytes span.original_size)
    ok (
        emit_records
          (record b {
            stats = record b.stats { frames_fetched = add_u64 b.stats.frames_fetched 1 };
          })
          jsonl)

  unfoldable pub fetch_spans : Batch → List FrameSpan → Result FetchError Batch
  fetch_spans b [] = ok b
  fetch_spans b (span ∷ spans) = do b' ← fetch_span b span; fetch_spans b' spans

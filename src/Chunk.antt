-- ===== src/Chunk.antt =====
-- crates/s4logs-core/src/chunk.rs: records in, zstd frames and the entries of both sidecars out. A
-- method that changes the writer returns it beside the result, since what was done before an error
-- stays done.
pub mod Frames
pub mod Steps
pub mod Encoded
pub mod Archive
pub mod Held
pub mod Tests
use s4_logs.Prelude.{
  ℕ, zero, suc, ◌+◌, ◌*◌, ◌%◌, ◌^◌, Bool, true, false, ◌&&◌, Option, some, none, List, [], ◌∷◌,
  ◌++◌, length, if◌then◌else◌, leb, ◌==◌,
}
use s4_logs.Prelude.Int.{ℤ, pos, min_ℤ, max_ℤ}
use s4_logs.Prelude.I64.{i64_min, i64_max}
use s4_logs.Prelude.Text.{Bytes}
use s4_logs.Prelude.Result.{Result, ok, err, ◌>>=◌, map_err}
use s4_logs.Record.{LogRecord, RecordError}
use s4_logs.Crates.{Crates, FrameIndexEntry, FrameIndex}
use s4_logs.Jsonl.{append_jsonl}
use s4_logs.TsIndex.{TsEntry, TsIndex}

pub record ChunkConfig : Type 0 where
  pub frame_target_bytes : ℕ
  pub zstd_level : ℤ

-- `ChunkConfig::default`
abbrev pub default_config : ChunkConfig
default_config = record { frame_target_bytes = 4 * 2 ^ 20; zstd_level = pos 3 }

pub record EncodedChunk : Type 0 where
  pub body : Bytes
  pub frame_index : FrameIndex
  pub ts_index : TsIndex
  pub record_count : ℕ
  pub uncompressed_bytes : ℕ
  pub min_timestamp : ℤ
  pub max_timestamp : ℤ
  pub crc32c : ℕ

pub data ChunkError : Type 0 where
  record_failed : RecordError → ChunkError
  io : ChunkError

pub record ChunkWriter : Type 0 where
  pub cfg : ChunkConfig
  pub pending : Bytes
  pub pending_min_ts : ℤ
  pub pending_max_ts : ℤ
  pub pending_records : ℕ
  pub body : Bytes
  pub entries : List FrameIndexEntry
  pub ts_entries : List TsEntry
  pub original_off : ℕ
  pub record_count : ℕ
  pub min_ts : ℤ
  pub max_ts : ℤ

-- `+` on u64
unfoldable pub add_u64 : ℕ → ℕ → ℕ
add_u64 a b = (a + b) % 2 ^ 64

-- `ChunkWriter::new`
unfoldable pub new : ChunkConfig → ChunkWriter
new cfg = record {
  cfg = cfg;
  pending = [];
  pending_min_ts = i64_max;
  pending_max_ts = i64_min;
  pending_records = 0;
  body = [];
  entries = [];
  ts_entries = [];
  original_off = 0;
  record_count = 0;
  min_ts = i64_max;
  max_ts = i64_min;
}

unfoldable pub is_empty : ChunkWriter → Bool
is_empty w = (w.record_count == 0) && (w.pending_records == 0)

unfoldable pub uncompressed_len : ChunkWriter → ℕ
unfolding add_u64
uncompressed_len w = add_u64 w.original_off (length w.pending)

unfoldable pub record_count : ChunkWriter → ℕ
unfolding add_u64
record_count w = add_u64 w.record_count w.pending_records

-- The writer once the pending lines are the frame `compressed`.
unfoldable pub close_frame : ChunkWriter → Bytes → ChunkWriter
unfolding add_u64
close_frame w compressed = record w {
  pending = [];
  pending_min_ts = i64_max;
  pending_max_ts = i64_min;
  pending_records = 0;
  body = w.body ++ compressed;
  entries =
      w.entries
      ++ (record {
        original_offset = w.original_off;
        original_size = length w.pending;
        compressed_offset = length w.body;
        compressed_size = length compressed;
      }
          ∷ []);
  ts_entries =
      w.ts_entries ++ (record { min_ts = w.pending_min_ts; max_ts = w.pending_max_ts } ∷ []);
  original_off = add_u64 w.original_off (length w.pending);
  record_count = add_u64 w.record_count w.pending_records;
  min_ts = min_ℤ w.min_ts w.pending_min_ts;
  max_ts = max_ℤ w.max_ts w.pending_max_ts;
}

module _ (c : Crates) where
  -- `compress_frame`, with the content checksum and the pledged size.
  unfoldable pub compress_frame : Bytes → ℤ → Option Bytes
  compress_frame input level = c.zstd_encode level true (length input) input

  cut_to : ChunkWriter → Option Bytes → ChunkWriter × Result ChunkError Unit
  cut_to w none = (w, err io)
  cut_to w (some compressed) = (close_frame w compressed, ok tt)

  unfoldable pub cut_frame : ChunkWriter → ChunkWriter × Result ChunkError Unit
  unfolding cut_to
  cut_frame w = elim w.pending [
    | [] ↦ (w, ok tt)
    | _ ∷ _ ↦ cut_to w (compress_frame w.pending w.cfg.zstd_level)
  ]

  -- The writer with one more record pending, whose line has been appended.
  unfoldable pub pend : LogRecord → Bytes → ChunkWriter → ChunkWriter
  unfolding add_u64
  pend rec pending w = record w {
    pending = pending;
    pending_min_ts = min_ℤ w.pending_min_ts rec.timestamp;
    pending_max_ts = max_ℤ w.pending_max_ts rec.timestamp;
    pending_records = add_u64 w.pending_records 1;
  }

  push_to :
      LogRecord
      → ChunkWriter
      → Bytes × Result RecordError Unit
      → ChunkWriter × Result ChunkError Unit
  push_to rec w (pending, err e) = (record w { pending = pending }, err (record_failed e))
  push_to rec w (pending, ok _) =
      let w' = pend rec pending w in
      if leb w'.cfg.frame_target_bytes (length w'.pending) then cut_frame w' else (w', ok tt)

  unfoldable pub push : LogRecord → ChunkWriter → ChunkWriter × Result ChunkError Unit
  unfolding push_to
  push rec w = push_to rec w (append_jsonl c rec w.pending)

  -- The end of `encode`, from its local copies of the writer's fields.
  pub encoded : List FrameIndexEntry → List TsEntry → Bytes → ℕ → ℕ → ℤ → ℤ → Option EncodedChunk
  encoded [] ts_entries body original_off record_count min_ts max_ts = none
  encoded (e ∷ es) ts_entries body original_off record_count min_ts max_ts = some (record {
    body = body;
    frame_index = record {
      total_padded_size = length body;
      entries = e ∷ es;
      source_etag = none;
      source_compressed_size = none;
      sse_v3 = none;
    };
    ts_index = record { entries = ts_entries };
    record_count = record_count;
    uncompressed_bytes = original_off;
    min_timestamp = min_ts;
    max_timestamp = max_ts;
    crc32c = c.crc32c body;
  })

  -- `encode` with the pending lines compressed, if they could be.
  pub encode_to : ChunkWriter → Option Bytes → Result ChunkError (Option EncodedChunk)
  unfolding encoded add_u64
  encode_to w none = err io
  encode_to w (some compressed) = ok (
      encoded
        (w.entries
          ++ (record {
            original_offset = w.original_off;
            original_size = length w.pending;
            compressed_offset = length w.body;
            compressed_size = length compressed;
          }
              ∷ []))
        (w.ts_entries ++ (record { min_ts = w.pending_min_ts; max_ts = w.pending_max_ts } ∷ []))
        (w.body ++ compressed) (add_u64 w.original_off (length w.pending))
        (add_u64 w.record_count w.pending_records) (min_ℤ w.min_ts w.pending_min_ts)
        (max_ℤ w.max_ts w.pending_max_ts))

  -- It works on copies: the writer stays as it is.
  unfoldable pub encode : ChunkWriter → Result ChunkError (Option EncodedChunk)
  unfolding encode_to encoded
  encode w = elim w.pending [
    | [] ↦
        ok (encoded w.entries w.ts_entries w.body w.original_off w.record_count w.min_ts w.max_ts)
    | _ ∷ _ ↦ encode_to w (compress_frame w.pending w.cfg.zstd_level)
  ]

  -- `finish` consumes the writer.
  unfoldable pub finish : ChunkWriter → Result ChunkError (Option EncodedChunk)
  unfolding encode
  finish w = encode w

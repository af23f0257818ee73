-- ===== src/Crates.antt =====
-- The third-party code that s4logs-core calls, as a parameter: serde_json on a log record, zstd,
-- crc32c, and the S4IX index of s4-codec, whose struct the source builds field by field.
pub mod Sample
use s4_logs.Prelude.{ℕ, ◌+◌, ◌≡◌, ◌≢◌, Bool, true, Option, some, none, List, [], ◌++◌, All}
use s4_logs.Prelude.Int.{ℤ}
use s4_logs.Prelude.Text.{Bytes, IsFree}
use s4_logs.Record.{LogRecord}

pub record FrameIndexEntry : Type 0 where
  pub original_offset : ℕ
  pub original_size : ℕ
  pub compressed_offset : ℕ
  pub compressed_size : ℕ

pub record FrameIndex : Type 0 where
  pub total_padded_size : ℕ
  pub entries : List FrameIndexEntry
  pub source_etag : Option Bytes
  pub source_compressed_size : Option ℕ
  pub sse_v3 : Option (Unit {0})

pub record Crates : Type 0 where
  -- What `serde_json::to_writer` wrote, and whether it returned `Ok`.
  pub to_writer : LogRecord → Bytes × Bool
  -- `serde_json::from_slice`
  pub from_slice : Bytes → Option LogRecord
  -- One zstd frame at a level, with the content checksum or not, of a pledged size; `none` is an
  -- I/O error.
  pub zstd_encode : ℤ → Bool → ℕ → Bytes → Option Bytes
  -- The bytes that a zstd decoder gives before it ends, and whether it ended without an error.
  pub zstd_decode : Bytes → Bytes × Bool
  pub crc32c : Bytes → ℕ
  -- `FrameIndexEntry::compressed_end`, `encode_index`
  pub compressed_end : FrameIndexEntry → ℕ
  pub encode_index : FrameIndex → Bytes
  pub sidecar_suffix : Bytes

-- What the code relies on. A line of compact JSON has no newline and is not empty, and is read back;
-- a decoder reads the frames of its input one after the other; a frame ends where its size says.
pub record IsLawful (c : Crates) : Type 0 where
  pub line_free : (r : LogRecord) → IsFree b'\n' (c.to_writer r).0
  pub line_some : (r : LogRecord) → (c.to_writer r).0 ≢ []
  pub line_parses :
      (r : LogRecord) → (c.to_writer r).1 ≡ true → c.from_slice (c.to_writer r).0 ≡ some r
  pub decode_none : c.zstd_decode [] ≡ ([], true)
  pub decode_frame :
      (level : ℤ) (n : ℕ) (plain frame rest : Bytes)
      → c.zstd_encode level true n plain ≡ some frame
      → c.zstd_decode (frame ++ rest) ≡ (plain ++ (c.zstd_decode rest).0, (c.zstd_decode rest).1)
  pub end_of_entry :
      (e : FrameIndexEntry) → c.compressed_end e ≡ e.compressed_offset + e.compressed_size

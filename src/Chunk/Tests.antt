-- ===== src/Chunk/Tests.antt =====
-- Runs of the writer.
use s4_logs.Prelude.{
  ◌^◌, ◌<◌, ◌≡◌, ◌↔◌, refl, true, Option, some, none, List, [], ◌∷◌, length, All, arith,
}
use s4_logs.Prelude.Int.{ℤ, pos}
use s4_logs.Prelude.I64.{i64_min, i64_max}
use s4_logs.Prelude.Text.{Bytes, bytes}
use s4_logs.Prelude.Result.{ok}
use s4_logs.Record.{LogRecord}
use s4_logs.Crates.Sample.{tally, signed, is_bare, sample_crates, sample_crates-IsLawful, at_time}
use s4_logs.Jsonl.{jsonl, append_jsonl}
use s4_logs.Chunk.{
  ChunkConfig, ChunkWriter, EncodedChunk, add_u64, new, close_frame, compress_frame, cut_frame,
  pend, push, encode,
}
use s4_logs.Chunk.Frames.{HasTime, earliest, latest}
use s4_logs.Chunk.Encoded.{push_all}
use s4_logs.Chunk.Archive.{decode-encode_chunk, encode_counts, writer_total}

-- A frame is cut as soon as five bytes are pending.
abbrev pub small : ChunkConfig
small = record { frame_target_bytes = 5; zstd_level = pos 3 }

abbrev pub three : List LogRecord
three = at_time (pos 2) ∷ at_time (pos 0) ∷ at_time (pos 1) ∷ []

pub three-HasTime : All HasTime three
three-HasTime = ground arith

abbrev pub written : ChunkWriter
written = (push_all sample_crates three (new small)).0

abbrev pub object : EncodedChunk
object = record {
  body = bytes "+ii\n+\n+i\n";
  frame_index = record {
    total_padded_size = 9;
    entries =
        record {
          original_offset = 0;
          original_size = 6;
          compressed_offset = 0;
          compressed_size = 6;
        }
        ∷ record {
          original_offset = 6;
          original_size = 3;
          compressed_offset = 6;
          compressed_size = 3;
        }
        ∷ [];
    source_etag = none;
    source_compressed_size = none;
    sse_v3 = none;
  };
  ts_index = record {
    entries =
        record { min_ts = pos 0; max_ts = pos 2 } ∷ record { min_ts = pos 1; max_ts = pos 1 } ∷ [];
  };
  record_count = 3;
  uncompressed_bytes = 9;
  min_timestamp = pos 0;
  max_timestamp = pos 2;
  crc32c = 9;
}

pub small_lines : length (jsonl sample_crates three) < 2 ^ 64
unfolding signed tally
small_lines = omega arith

pub push_all-three : push_all sample_crates three (new small) ≡ (written, ok tt)
unfolding push_all push pend add_u64 cut_frame compress_frame close_frame new append_jsonl tally
    signed is_bare
push_all-three = refl

pub encode_three : encode sample_crates written ≡ ok (some object)
unfolding push_all push pend add_u64 cut_frame compress_frame close_frame new encode append_jsonl
    tally signed is_bare
encode_three = refl

decode-encode_chunk_example :
    sample_crates.zstd_decode object.body ≡ (jsonl sample_crates three, true)
decode-encode_chunk_example =
    decode-encode_chunk sample_crates small three written object sample_crates-IsLawful small_lines
      three-HasTime push_all-three encode_three

encode_counts_example :
    (object.record_count ≡ length three)
    × (object.uncompressed_bytes ≡ length (jsonl sample_crates three))
    × (object.min_timestamp ≡ earliest i64_max three)
    × (object.max_timestamp ≡ latest i64_min three)
    × (object.crc32c ≡ sample_crates.crc32c object.body)
    × (object.frame_index.total_padded_size ≡ length object.body)
    × (length object.frame_index.entries ≡ length object.ts_index.entries)
encode_counts_example =
    encode_counts sample_crates small three written object small_lines three-HasTime push_all-three
      encode_three

packs :
    (level : ℤ) (plain : Bytes)
    → (packed : Bytes) × (compress_frame sample_crates plain level ≡ some packed)
unfolding compress_frame
packs level plain = (plain, refl)

writer_total_example :
    (w : ChunkWriter) × (out : Option EncodedChunk) × (push_all sample_crates three (new small)
      ≡ (w, ok tt))
    × (encode sample_crates w ≡ ok out)
    × ((out ≡ none) ↔ (three ≡ []))
unfolding is_bare
writer_total_example =
    writer_total sample_crates packs small three (refl, (refl, (refl, tt))) small_lines
      three-HasTime

-- ===== src/Scan/Tests.antt =====
-- A scan of a small object at inputs.
use s4_logs.Prelude.{
  ◌-◌, ◌≤◌, ◌≡◌, ◌↔◌, refl, true, List, [], ◌++◌, none, length, take, drop, All, arith,
}
use s4_logs.Prelude.Int.{pos}
use s4_logs.Prelude.Text.{bytes}
use s4_logs.Prelude.Result.{ok}
use s4_logs.Crates.Sample.{signed, tally, is_bare, sample_crates, sample_crates-IsLawful}
use s4_logs.Jsonl.{jsonl}
use s4_logs.Chunk.Tests.{small, three, three-HasTime, written, object, push_all-three, encode_three}
use s4_logs.Read.{
  TimeRange, FrameSpan, frames_overlapping, max_decompressed_bytes, decompress_frames,
}
use s4_logs.Read.Capped.{decompress_frames_iff}
use s4_logs.Scan.{Batch, fetch_spans}
use s4_logs.Scan.Frames.{hits, IsWritten, IsObject}
use s4_logs.Scan.Pruned.{scan_complete}

abbrev pub early : TimeRange
early = record { from_ms = pos 0; to_ms_exclusive = pos 1 }

abbrev pub empty : Batch
empty = record {
  stats = record {
    chunks_listed = 0;
    chunks_scanned = 0;
    frames_fetched = 0;
    fallback_full_objects = 0;
    parse_errors = 0;
    records_emitted = 0;
  };
  recs = [];
}

pub short : length (jsonl sample_crates three) ≤ max_decompressed_bytes
unfolding signed tally
short = omega arith

pub three-IsWritten : All (IsWritten sample_crates) three
unfolding is_bare
three-IsWritten = (refl, (refl, (refl, tt)))

whole : IsObject object.body (λ s e. ok (take (e - s) (drop s object.body)))
whole s e lo hi = refl

scan_complete_example :
    (spans : List FrameSpan) × (b' : Batch) × (frames_overlapping sample_crates object.frame_index
        object.ts_index early
      ≡ ok spans)
    × (fetch_spans sample_crates
          (λ s e. ok (take (e - s) (drop s object.body)))
          early
          none
          empty
          spans
        ≡ ok b')
    × (b'.recs ≡ empty.recs ++ hits early none three)
    × (b'.stats.parse_errors ≡ empty.stats.parse_errors)
scan_complete_example =
    scan_complete sample_crates small three written object
      (λ s e. ok (take (e - s) (drop s object.body))) early none empty sample_crates-IsLawful short
      (omega arith) three-HasTime three-IsWritten push_all-three encode_three whole

decompress_frames_iff_example :
    (decompress_frames sample_crates (bytes "+i") 2 ≡ ok (bytes "+i")) ↔ (
      (2 ≤ max_decompressed_bytes)
      × (sample_crates.zstd_decode (bytes "+i") ≡ (bytes "+i", true))
      × (length (bytes "+i") ≡ 2))
decompress_frames_iff_example = decompress_frames_iff sample_crates (bytes "+i") 2 (bytes "+i")

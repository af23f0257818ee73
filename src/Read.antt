-- ===== src/Read.antt =====
-- crates/s4logs-core/src/read.rs: which frames a time range needs, and their bytes decompressed under
-- a cap.
pub mod Capped
pub mod Coalesced
mod Tests
use s4_logs.Prelude.{
  ℕ, zero, suc, ◌+◌, ◌-◌, ◌*◌, ◌^◌, Bool, true, false, ◌&&◌, Option, some, none, List, [], ◌∷◌,
  length, min, if◌then◌else◌, ltb, leb, ◌==◌,
}
use s4_logs.Prelude.Int.{ℤ, ltb_ℤ, leb_ℤ}
use s4_logs.Prelude.Text.{Bytes}
use s4_logs.Prelude.Result.{Result, ok, err}
use s4_logs.Crates.{Crates, FrameIndexEntry, FrameIndex}
use s4_logs.TsIndex.{TsEntry, TsIndex}
use s4_logs.Chunk.{add_u64}

pub record TimeRange : Type 0 where
  pub from_ms : ℤ
  pub to_ms_exclusive : ℤ

unfoldable pub overlaps : TimeRange → ℤ → ℤ → Bool
overlaps range min_ts max_ts = ltb_ℤ min_ts range.to_ms_exclusive && leb_ℤ range.from_ms max_ts

pub data ReadError : Type 0 where
  index_mismatch : (frames ts_frames : ℕ) → ReadError
  bomb : (cap : ℕ) → ReadError
  size_mismatch : (expected got : ℕ) → ReadError
  io : ReadError

pub record FrameSpan : Type 0 where
  pub frame_idx : ℕ
  pub byte_start : ℕ
  pub byte_end_exclusive : ℕ
  pub original_size : ℕ

module _ (c : Crates) where
  abbrev pub span_of : ℕ → FrameIndexEntry → FrameSpan
  span_of i fe = record {
    frame_idx = i;
    byte_start = fe.compressed_offset;
    byte_end_exclusive = c.compressed_end fe;
    original_size = fe.original_size;
  }

  -- `zip`, `enumerate` from a number on, `filter` and `map`.
  unfoldable pub select : TimeRange → ℕ → List FrameIndexEntry → List TsEntry → List FrameSpan
  select range i [] ts = []
  select range i (fe ∷ fes) [] = []
  select range i (fe ∷ fes) (t ∷ ts) =
      let rest = select range (suc i) fes ts in
      if overlaps range t.min_ts t.max_ts then span_of i fe ∷ rest else rest

  unfoldable pub frames_overlapping :
      FrameIndex → TsIndex → TimeRange → Result ReadError (List FrameSpan)
  frames_overlapping frame_index ts_index range =
      if length frame_index.entries == length ts_index.entries
      then ok (select range 0 frame_index.entries ts_index.entries)
      else err (index_mismatch (length frame_index.entries) (length ts_index.entries))

abbrev pub bomb_slack_bytes : ℕ
bomb_slack_bytes = 1024

-- `64 << 30`
abbrev pub max_decompressed_bytes : ℕ
max_decompressed_bytes = 64 * 2 ^ 30

-- What `read_to_end` gave is cut at the cap, where it stops without looking for an error.
unfoldable pub capped : ℕ → ℕ → Bytes × Bool → Result ReadError Bytes
capped cap expected_original (out, done) =
    if leb cap (length out)
    then err (bomb cap)
    else if done
    then (if length out == expected_original
        then ok out
        else err (size_mismatch expected_original (length out)))
    else err io

module _ (c : Crates) where
  unfoldable pub decompress_frames : Bytes → ℕ → Result ReadError Bytes
  unfolding capped
  decompress_frames input expected_original =
      if ltb max_decompressed_bytes expected_original
      then err (bomb max_decompressed_bytes)
      else capped (min (expected_original + bomb_slack_bytes) (2 ^ 64 - 1)) expected_original
          (c.zstd_decode input)

-- A byte range to fetch, and how many bytes its frames decompress to.
pub record Fetch : Type 0 where
  pub start : ℕ
  pub end : ℕ
  pub total : ℕ

abbrev pub fetch_of : FrameSpan → Fetch
fetch_of s = record { start = s.byte_start; end = s.byte_end_exclusive; total = s.original_size }

-- The loop of `coalesce_spans` with the last range put out so far.
unfoldable pub extend : ℕ → Fetch → List FrameSpan → List Fetch
extend max_gap_bytes last [] = last ∷ []
extend max_gap_bytes last (s ∷ ss) =
    if leb (s.byte_start - last.end) max_gap_bytes
    then extend max_gap_bytes
        (record last { end = s.byte_end_exclusive; total = add_u64 last.total s.original_size }) ss
    else last ∷ extend max_gap_bytes (fetch_of s) ss

unfoldable pub coalesce_spans : List FrameSpan → ℕ → List Fetch
coalesce_spans [] max_gap_bytes = []
coalesce_spans (s ∷ ss) max_gap_bytes = extend max_gap_bytes (fetch_of s) ss

-- ===== src/Sources.antt =====
-- `ChunkSource` of crates/s4logs-cli/src/scan.rs: a chunk's matching records, batch by batch. The store
-- is read through Reader. What an error leaves in the counters is not kept, since a scan that meets
-- one ends without them.
pub mod Batches
pub mod Chunks
mod Tests
use s4_logs.Prelude.{
  ℕ, ◌+◌, ◌-◌, ◌*◌, ◌^◌, Bool, true, false, Option, none, some, List, [], ◌∷◌, ◌++◌, map, length,
  get_elem?, min, if◌then◌else◌, ◌==◌, ltb,
}
use s4_logs.Prelude.Text.{Bytes}
use s4_logs.Prelude.Order.{sort_by}
use s4_logs.Prelude.Result.{Result, ok, err, ◌>>=◌, map_err}
use s4_logs.Record.{LogRecord}
use s4_logs.Crates.{Crates, FrameIndex}
use s4_logs.Jsonl.{newline, from_jsonl}
use s4_logs.TsIndex.{TsIndex, TsEntry}
use s4_logs.Chunk.{add_u64}
use s4_logs.Layout.{ChunkLocation, data_key}
use s4_logs.Sink.{StoreError}
use s4_logs.Read.{TimeRange, ReadError, index_mismatch, FrameSpan, frames_overlapping}
use s4_logs.Scan.{ScanStats, Batch, FetchError, emit_item, fetch_spans}
use s4_logs.Cluster.{Timed, cluster_spans}
use s4_logs.Merge.{BatchSource, rec_le}

-- What a scan calls of `ObjectStore`.
pub record Reader : Type 0 where
  pub key_prefix : Bytes
  pub list_keys : Bytes → Result StoreError (List Bytes)
  pub list_chunks : Bytes → Bytes → Result StoreError (List ChunkLocation)
  pub load_indexes : ChunkLocation → Result StoreError (FrameIndex × TsIndex)
  pub get_bytes : Bytes → Result StoreError Bytes
  pub get_range : Bytes → ℕ → ℕ → Result StoreError Bytes

-- An index of a sidecar's entry out of range panics in the source.
pub data ScanError : Type 0 where
  fetching : FetchError → ScanError
  full_get : StoreError → ScanError
  bad_zstd : ScanError
  over_cap : ScanError
  listing : StoreError → ScanError
  sidecars : StoreError → ScanError
  pruning : ReadError → ScanError
  no_entry : ℕ → ScanError

-- `2 << 30`
abbrev pub fallback_decode_cap_bytes : ℕ
fallback_decode_cap_bytes = 2 * 2 ^ 30

pub data FetchUnit : Type 0 where
  frames : List FrameSpan → FetchUnit
  whole_object : FetchUnit

pub record ChunkSource : Type 0 where
  pub data_key : Bytes
  pub units : List FetchUnit
  pub stats : ScanStats

-- The lines that `read_until` gives: a line, and whether a newline ends it.
abbrev pub longer_line : ℕ → List (Bytes × Bool) → List (Bytes × Bool)
longer_line b [] = ((b ∷ []), false) ∷ []
longer_line b ((l, ended) ∷ ls) = (b ∷ l, ended) ∷ ls

unfoldable pub raw_lines : Bytes → List (Bytes × Bool)
raw_lines [] = []
raw_lines (b ∷ bs) =
    let rest = raw_lines bs in if b == newline then ([], true) ∷ rest else longer_line b rest

-- `strip_suffix(b"\r")`
abbrev pub without_cr : Bytes → Bytes
without_cr [] = []
without_cr (b ∷ []) = if b == b'\r' then [] else b ∷ []
without_cr (b ∷ (b' ∷ bs)) = b ∷ without_cr (b' ∷ bs)

abbrev pub line_size : Bytes → Bool → ℕ
line_size l ended = if ended then length l + 1 else length l

-- The spans of the frames that overlap, with the times of their entries.
abbrev pub timed : TsEntry → FrameSpan → Timed
timed e s = record { span = s; min_ts = e.min_ts; max_ts = e.max_ts }

abbrev pub and_timed :
    FrameSpan → Option TsEntry → Result ScanError (List Timed) → Result ScanError (List Timed)
and_timed s none rest = err (no_entry s.frame_idx)
and_timed s (some e) (err x) = err x
and_timed s (some e) (ok ts) = ok (timed e s ∷ ts)

unfoldable pub with_ts : List TsEntry → List FrameSpan → Result ScanError (List Timed)
with_ts entries [] = ok []
with_ts entries (s ∷ spans) = and_timed s (get_elem? entries s.frame_idx) (with_ts entries spans)

module _ (c : Crates) (rd : Reader) (range : TimeRange) (pattern : Option (Bytes → Bool)) where
  abbrev pub emit_line : Batch → Bytes → Batch
  emit_line b [] = b
  emit_line b (x ∷ xs) = emit_item range pattern b (from_jsonl c (x ∷ xs))

  -- The loop of `stream_full_object` over what the decoder gave, and whether it ended well: else it
  -- fails in the line that it is in.
  unfoldable pub stream_lines : Bool → Batch → ℕ → List (Bytes × Bool) → Result ScanError Batch
  stream_lines true b total [] = ok b
  stream_lines false b total [] = err bad_zstd
  stream_lines false b total ((l, false) ∷ ls) = err bad_zstd
  stream_lines done b total ((l, ended) ∷ ls) =
      let total' = min (total + line_size l ended) (2 ^ 64 - 1) in
      let rest = stream_lines done (emit_line b (without_cr l)) total' ls in
      if ltb fallback_decode_cap_bytes total' then err over_cap else rest

  unfoldable pub stream_full_object : Batch → Bytes → Result ScanError Batch
  unfolding stream_lines raw_lines
  stream_full_object b body =
      let (out, done) = c.zstd_decode body in stream_lines done b 0 (raw_lines out)

  -- One unit of a source.
  unfoldable pub load_unit : Bytes → ScanStats → FetchUnit → Result ScanError Batch
  unfolding stream_full_object
  load_unit key stats (frames spans) =
      map_err fetching
        (fetch_spans c (rd.get_range key) range pattern (record { stats = stats; recs = [] }) spans)
  load_unit key stats whole_object = do
    body ← map_err full_get (rd.get_bytes key)
    stream_full_object
        (record {
          stats = record stats { fallback_full_objects = add_u64 stats.fallback_full_objects 1 };
          recs = [];
        })
        body

  abbrev pub Pulled : Type 0
  Pulled = ChunkSource × Result ScanError (Option (List LogRecord))

  abbrev pub loaded : ChunkSource → Result ScanError Batch → Pulled
  loaded s (ok b) = (record s { stats = b.stats }, ok (some (sort_by rec_le b.recs)))
  loaded s (err e) = (s, err e)

  unfoldable pub pull_unit : ChunkSource → List FetchUnit → Pulled
  unfolding load_unit
  pull_unit s [] = (s, ok none)
  pull_unit s (u ∷ us) = loaded (record s { units = us }) (load_unit s.data_key s.stats u)

  unfoldable pub chunk_batches : BatchSource ChunkSource ScanError
  unfolding pull_unit
  chunk_batches = record { next_batch = λ s. pull_unit s s.units }

  -- The units of a chunk: its clusters of frames, or the whole object if a sidecar is missing or
  -- corrupt.
  abbrev pub frame_units : Result ScanError (List Timed) → Result ScanError (List FetchUnit)
  frame_units (ok ts) = ok (map frames (cluster_spans ts))
  frame_units (err e) = err e

  abbrev pub pruned_units :
      TsIndex → Result ReadError (List FrameSpan) → Result ScanError (List FetchUnit)
  pruned_units ts_index (ok spans) = frame_units (with_ts ts_index.entries spans)
  pruned_units ts_index (err (index_mismatch n m)) = ok (whole_object ∷ [])
  pruned_units ts_index (err ReadError.io) = err (pruning ReadError.io)
  pruned_units ts_index (err (ReadError.bomb cap)) = err (pruning (ReadError.bomb cap))
  pruned_units ts_index (err (ReadError.size_mismatch n m)) =
      err (pruning (ReadError.size_mismatch n m))

  abbrev pub units_by : Result StoreError (FrameIndex × TsIndex) → Result ScanError (List FetchUnit)
  units_by (ok (frame_index, ts_index)) =
      pruned_units ts_index (frames_overlapping c frame_index ts_index range)
  units_by (err (StoreError.aws op key e)) = err (sidecars (StoreError.aws op key e))
  units_by (err (StoreError.not_found key)) = ok (whole_object ∷ [])
  units_by (err (StoreError.index e)) = ok (whole_object ∷ [])
  units_by (err (StoreError.ts_index e)) = ok (whole_object ∷ [])

  unfoldable pub units_of : ChunkLocation → Result ScanError (List FetchUnit)
  units_of loc = units_by (rd.load_indexes loc)

  abbrev pub no_stats : ScanStats
  no_stats = record {
    chunks_listed = 0;
    chunks_scanned = 0;
    frames_fetched = 0;
    fallback_full_objects = 0;
    parse_errors = 0;
    records_emitted = 0;
  }

  abbrev pub source_of : ChunkLocation → List FetchUnit → ChunkSource
  source_of loc units = record {
    data_key = data_key loc rd.key_prefix;
    units = units;
    stats = no_stats;
  }

  -- A chunk none of whose frames overlaps has no source.
  abbrev pub add_source : ChunkLocation → List FetchUnit → List ChunkSource → List ChunkSource
  add_source loc [] ss = ss
  add_source loc (u ∷ us) ss = source_of loc (u ∷ us) ∷ ss

  -- The loop of `build_group_sources`.
  unfoldable pub chunk_sources : List ChunkLocation → Result ScanError (List ChunkSource)
  unfolding units_of
  chunk_sources [] = ok []
  chunk_sources (loc ∷ locs) = do
    units ← units_of loc
    rest ← chunk_sources locs
    ok (add_source loc units rest)

-- ===== src/Stream.antt =====
-- The scan of crates/s4logs-cli/src/scan.rs over several log groups: listing, sources, merge. The
-- regular expression is the test that it makes; chrono's dates are a parameter.
pub mod Units
pub mod Complete
pub mod Parts
pub mod Open
pub mod Emitted
pub mod Groups
mod Tests
use s4_logs.Prelude.{
  ℕ, zero, suc, ◌+◌, ◌-◌, ◌/◌, Bool, true, false, Option, none, some, List, [], ◌∷◌, ◌++◌, map,
  length, get_elem?, filter, if◌then◌else◌, leb, ltb,
}
use s4_logs.Prelude.Int.{ℤ, pos, negsuc, ◌+ℤ◌, ◌-ℤ◌, leb_ℤ, pos_part}
use s4_logs.Prelude.I64.{saturating_mul}
use s4_logs.Prelude.Text.{Bytes, bytes, eqb}
use s4_logs.Prelude.Order.{lex, leb_bytes, sort_by}
use s4_logs.Prelude.Result.{Result, ok, err, ◌>>=◌, map_err}
use s4_logs.Record.{LogRecord}
use s4_logs.Crates.{Crates}
use s4_logs.Chunk.{add_u64}
use s4_logs.Window.{day_ms}
use s4_logs.Layout.{ChunkLocation, data_group_prefix}
use s4_logs.Sink.{StoreError}
use s4_logs.Read.{TimeRange}
use s4_logs.Scan.{ScanStats, absorb}
use s4_logs.Store.{parsed_keys}
use s4_logs.Merge.{
  BatchSource, Head, MergeError, no_source, out_of_fuel, failed, Lane, KWayMerge, new_merge,
  next_indexed,
}
use s4_logs.Sources.{
  Reader, ScanError, listing, ChunkSource, chunk_batches, chunk_sources, no_stats,
}

abbrev pub max_per_dt_lists : ℕ
max_per_dt_lists = 32

-- `div_euclid` by a positive number
abbrev pub div_euclid : ℤ → ℕ → ℤ
div_euclid (pos n) k = pos (n / k)
div_euclid (negsuc n) k = negsuc (n / k)

abbrev pub days_from : ℕ → ℤ → List ℤ
days_from zero day = []
days_from (suc n) day = day ∷ days_from n (day +ℤ pos 1)

unfoldable pub dates_in_range : (ℤ → Bytes) → ℤ → ℤ → List Bytes
dates_in_range date_from_ts_ms from_ms to_ms_exclusive =
    let first = div_euclid from_ms day_ms in
    let last = div_euclid (to_ms_exclusive -ℤ pos 1) day_ms in
    if leb_ℤ to_ms_exclusive from_ms
    then []
    else map (λ day. date_from_ts_ms (saturating_mul day (pos day_ms)))
        (days_from (pos_part (last -ℤ first +ℤ pos 1)) first)

abbrev pub has_date : List Bytes → Bytes → Bool
has_date [] date = false
has_date (d ∷ ds) date = let rest = has_date ds date in if eqb d date then true else rest

abbrev pub loc_le : ChunkLocation → ChunkLocation → Bool
loc_le a b = lex leb_bytes leb_bytes (a.date, a.name) (b.date, b.name)

-- The chunks that a listing found, and the number of keys listed.
abbrev pub Listed : Type 0
Listed = List ChunkLocation × ℕ

module _ (rd : Reader) (date_from_ts_ms : ℤ → Bytes) where
  -- One LIST for each date.
  unfoldable pub list_dates : Bytes → List Bytes → Result ScanError Listed
  list_dates group_prefix [] = ok ([], 0)
  list_dates group_prefix (date ∷ dates) = do
    keys ← map_err listing (rd.list_keys (group_prefix ++ (bytes "dt=" ++ (date ++ (b'/' ∷ [])))))
    rest ← list_dates group_prefix dates
    ok (parsed_keys rd.key_prefix keys ++ rest.0, add_u64 (length keys) rest.1)

  abbrev pub list_by_dates : Bytes → Bytes → List Bytes → Bool → Result ScanError Listed
  list_by_dates account log_group dates true =
      list_dates (data_group_prefix rd.key_prefix account log_group) dates
  list_by_dates account log_group dates false = do
    chunks ← map_err listing (rd.list_chunks account log_group)
    ok (filter (λ l. has_date dates l.date) chunks, length chunks)

  unfoldable pub list_range_chunks : Bytes → Bytes → TimeRange → Result ScanError Listed
  unfolding list_dates dates_in_range
  list_range_chunks account log_group range = do
    let dates = dates_in_range date_from_ts_ms range.from_ms range.to_ms_exclusive
    found ← list_by_dates account log_group dates (leb (length dates) max_per_dt_lists)
    ok (sort_by loc_le found.0, found.1)

-- The sources of several groups with the index of each one's group, and the counts.
pub record Opened : Type 0 where
  pub sources : List ChunkSource
  pub source_groups : List ℕ
  pub listed : ℕ
  pub scanned : ℕ

pub record ScanStream : Type 0 where
  pub merge : KWayMerge ChunkSource
  pub source_groups : List ℕ
  pub group_names : List Bytes
  pub listed : ℕ
  pub scanned : ℕ

module _ (c : Crates) (rd : Reader) (date_from_ts_ms : ℤ → Bytes) (account : Bytes)
    (range : TimeRange) (pattern : Option (Bytes → Bool)) where
  unfoldable pub build_group_sources : Bytes → Result ScanError (List ChunkSource × ℕ × ℕ)
  unfolding list_range_chunks chunk_sources
  build_group_sources log_group = do
    found ← list_range_chunks rd date_from_ts_ms account log_group range
    sources ← chunk_sources c rd range pattern found.0
    ok (sources, found.1, length found.0)

  -- The loop over the groups from index `gi` on.
  unfoldable pub open_groups : ℕ → List Bytes → Result ScanError Opened
  unfolding build_group_sources
  open_groups gi [] = ok (record { sources = []; source_groups = []; listed = 0; scanned = 0 })
  open_groups gi (log_group ∷ log_groups) = do
    group ← build_group_sources log_group
    rest ← open_groups (gi + 1) log_groups
    ok (record {
      sources = group.0 ++ rest.sources;
      source_groups = map (λ s. gi) group.0 ++ rest.source_groups;
      listed = add_u64 group.1 rest.listed;
      scanned = add_u64 group.2 rest.scanned;
    })

  unfoldable pub open_scan_multi : List Bytes → Result ScanError ScanStream
  unfolding open_groups
  open_scan_multi log_groups = do
    opened ← open_groups 0 log_groups
    ok (record {
      merge = new_merge opened.sources;
      source_groups = opened.source_groups;
      group_names = log_groups;
      listed = opened.listed;
      scanned = opened.scanned;
    })

  -- `group_names[source_groups[src]]`
  abbrev pub group_of : ScanStream → ℕ → Option Bytes
  group_of s src = elim (get_elem? s.source_groups src) [
    | none ↦ none
    | some gi ↦ get_elem? s.group_names gi
  ]

  abbrev pub named :
      ScanStream
      → KWayMerge ChunkSource × Result (MergeError ScanError) (Option Head)
      → ScanStream × Result (MergeError ScanError) (Option (LogRecord × Bytes))
  named s (m, ok none) = (record s { merge = m }, ok none)
  named s (m, ok (some (rec, src))) = (
    record s { merge = m },
    elim (group_of s src) [ none ↦ err (no_source src) | some name ↦ ok (some (rec, name)) ],
  )
  named s (m, err e) = (record s { merge = m }, err e)

  unfoldable pub next_with_group :
      ℕ → ScanStream → ScanStream × Result (MergeError ScanError) (Option (LogRecord × Bytes))
  next_with_group fuel s = named s (next_indexed (chunk_batches c rd range pattern) fuel s.merge)

  abbrev pub absorb_lanes : ScanStats → List (Lane ChunkSource) → ScanStats
  absorb_lanes s [] = s
  absorb_lanes s (l ∷ ls) = absorb_lanes (absorb s l.source.stats) ls

  unfoldable pub stats : ScanStream → ScanStats
  stats s =
      absorb_lanes
        (record (no_stats c rd range pattern) {
          chunks_listed = s.listed;
          chunks_scanned = s.scanned;
        })
        s.merge.lanes

  -- The loop of `scan_log_groups`, for `n` records at most: what `emit` was called with, and the end.
  abbrev pub Emitted : Type 0
  Emitted = List (LogRecord × Bytes) × Result (MergeError ScanError) ScanStats

  abbrev pub and_emit :
      (ScanStream → Emitted)
      → ScanStream × Result (MergeError ScanError) (Option (LogRecord × Bytes))
      → Emitted
  and_emit more (s, ok none) = ([], ok (stats s))
  and_emit more (s, ok (some r)) = let (rs, end) = more s in (r ∷ rs, end)
  and_emit more (s, err e) = ([], err e)

  unfoldable pub emit_all : ℕ → ℕ → ScanStream → Emitted
  unfolding next_with_group
  emit_all fuel zero s = ([], err out_of_fuel)
  emit_all fuel (suc n) s = and_emit (emit_all fuel n) (next_with_group fuel s)

  abbrev pub emit_opened : ℕ → ℕ → Result ScanError ScanStream → Emitted
  emit_opened fuel n (ok s) = emit_all fuel n s
  emit_opened fuel n (err e) = ([], err (failed e))

  unfoldable pub scan_log_groups : ℕ → ℕ → List Bytes → Emitted
  unfolding emit_all open_scan_multi
  scan_log_groups fuel n log_groups = emit_opened fuel n (open_scan_multi log_groups)

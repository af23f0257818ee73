-- ===== src/Stream/Groups.antt =====
-- `scan_log_groups` of crates/s4logs-cli/src/scan.rs, from the listing to the records it emits.
use s4_logs.Prelude.{
  ℕ, ◌+◌, ◌<◌, ◌≡◌, sym, subst, ◌∙◌, Bool, Option, some, List, All, All-map, length, map, get_elem?,
  arith,
}
use s4_logs.Prelude.Int.{ℤ}
use s4_logs.Prelude.Order.{IsSorted}
use s4_logs.Prelude.Text.{Bytes}
use s4_logs.Prelude.Result.{ok}
use s4_logs.Record.{LogRecord}
use s4_logs.Crates.{Crates, IsLawful}
use s4_logs.Read.{TimeRange}
use s4_logs.Scan.{ScanStats}
use s4_logs.Buffer.Bags.{weight}
use s4_logs.Merge.{rec_le, concat, new_merge}
use s4_logs.Sources.{Reader}
use s4_logs.Stream.{ScanStream, open_scan_multi, Emitted, scan_log_groups}
use s4_logs.Stream.Complete.{Given-IsMerged}
use s4_logs.Stream.Parts.{weight-grouped}
use s4_logs.Stream.Emitted.{records-IsSorted, emit_lem, names_lem}
use s4_logs.Stream.Open.{flat, AreListed, tagged, open_lem, Yield-length}

module _ (c : Crates) (law : IsLawful c) (rd : Reader) (date_from_ts_ms : ℤ → Bytes)
    (account : Bytes) (t : TimeRange) (pattern : Option (Bytes → Bool)) (fuel : ℕ) where
  -- What a scan emits: each record in order of time, with its group's name.
  abbrev pub IsScanned :
      List Bytes
      → List (List (List LogRecord))
      → Emitted c rd date_from_ts_ms account t pattern
      → Type 0
  IsScanned names groups out =
      (rs : List (LogRecord × Bytes)) × (st : ScanStats) × (out ≡ (rs, ok st))
      × IsSorted rec_le (map (λ r. r.0) rs)
      × ((f : LogRecord × Bytes → ℕ)
          → weight f rs
            ≡ weight f (tagged c law rd date_from_ts_ms account t pattern fuel names groups))

  -- For log groups whose listed chunks were each written from records and can be read with their
  -- sidecars, a scan ends without an error and emits, in ascending order of timestamp and stream,
  -- records with the name of a group, to which every weighing of such pairs gives the weight that
  -- it gives the written records of each group that match the range and the pattern, with that
  -- group's name; crates are lawful, records can be serialized and have `i64` timestamps, each
  -- chunk's lines are within the decompression ceiling, its body is below 2^64 bytes and its
  -- frames are fewer than the fuel, and all records are fewer than the rounds.
  pub scan_log_groups_complete :
      (n : ℕ) (names : List Bytes) (groups : List (List (List LogRecord)))
      → AreListed c law rd date_from_ts_ms account t pattern fuel names groups
      → length (concat (flat groups)) < n
      → IsScanned names groups (scan_log_groups c rd date_from_ts_ms account t pattern fuel n names)
  unfolding scan_log_groups open_scan_multi
  scan_log_groups_complete n names groups listed few =
      let (o, bss, opened, (y, sorted, all), len, below, parted) =
        open_lem c law rd date_from_ts_ms account t pattern fuel 0 names groups listed in
      let (m, hs, ran, ordered, same, low, held) =
        Given-IsMerged c law rd t pattern fuel n o.sources (flat groups) (bss, y, sorted, all)
          few in
      let s : ScanStream = record {
        merge = new_merge o.sources;
        source_groups = o.source_groups;
        group_names = names;
        listed = o.listed;
        scanned = o.scanned;
      } in
      let (rs, st, out, recs, weigh) =
        emit_lem c rd date_from_ts_ms account t pattern fuel n s m hs ran (
          names_lem c rd date_from_ts_ms account t pattern fuel s (length o.sources) len
            (All-map (λ g. g < 0 + length names) (λ g. g < length names) o.source_groups
              (λ g less. omega (arith, less)) below)
            hs low) in
      let long : length o.sources ≡ length (map concat bss) =
        Yield-length c law rd date_from_ts_ms account t pattern fuel o.sources bss y in
      (
        rs,
        st,
        rw (opened) out,
        subst (IsSorted rec_le) (sym recs) (records-IsSorted hs ordered),
        λ f.
            weigh f
            ∙ (weight-grouped f names o.source_groups hs (map concat bss) (len ∙ long)
                  (subst (λ (z : ℕ). All (λ h. h.1 < z) hs) long low) held
                ∙ parted f names
                    (λ j name e. subst (λ (z : ℕ). get_elem? names z ≡ some name) (omega arith) e)),
      )

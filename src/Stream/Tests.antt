-- ===== src/Stream/Tests.antt =====
-- A scan of two groups, each with a chunk of the same three records.
use s4_logs.Prelude.{
  ℕ, ◌-◌, ◌<◌, ◌≡◌, refl, none, List, [], ◌∷◌, ◌++◌, map, length, take, drop, arith,
}
use s4_logs.Prelude.Order.{IsSorted, sort_by}
use s4_logs.Prelude.Int.{◌+ℤ◌, ◌-ℤ◌}
use s4_logs.Prelude.Text.{Bytes, bytes, split, strip_suffix}
use s4_logs.Prelude.Utf8.{is_utf8}
use s4_logs.Chunk.{add_u64}
use s4_logs.Prelude.Result.{ok}
use s4_logs.Record.{LogRecord}
use s4_logs.Crates.Sample.{sample_crates, sample_crates-IsLawful}
use s4_logs.Chunk.Tests.{small, three, three-HasTime, written, object, push_all-three, encode_three}
use s4_logs.Layout.{
  ChunkLocation, data_suffix, parse_data_key, data_group_prefix, norm_prefix, trim_matches,
  parse_parts, group_part, sanitize_log_group, unsanitize_log_group, unescape,
}
use s4_logs.Scan.{ScanStats}
use s4_logs.Scan.Frames.{hits}
use s4_logs.Scan.Tests.{early, short, three-IsWritten}
use s4_logs.Buffer.Bags.{weight}
use s4_logs.Merge.{rec_le, concat}
use s4_logs.Sources.{Reader}
use s4_logs.Stream.{list_range_chunks, list_dates, dates_in_range, scan_log_groups}
use s4_logs.Stream.Units.{IsReadable}
use s4_logs.Stream.Open.{AreListed, flat}
use s4_logs.Stream.Groups.{scan_log_groups_complete}

abbrev reader : Reader
reader = record {
  key_prefix = [];
  list_keys = λ prefix. ok ((prefix ++ (bytes "n" ++ data_suffix)) ∷ []);
  list_chunks = λ account log_group. ok [];
  load_indexes = λ loc. ok (object.frame_index, object.ts_index);
  get_bytes = λ key. ok object.body;
  get_range = λ key s e. ok (take (e - s) (drop s object.body));
}

abbrev loc : Bytes → ChunkLocation
loc log_group = record {
  account = bytes "1";
  log_group = log_group;
  date = bytes "d";
  name = bytes "n";
}

three-IsReadable : (g : Bytes) → IsReadable sample_crates reader 9 (loc g) three
three-IsReadable g = record {
  cfg = small;
  writer = written;
  chunk = object;
  index = object.frame_index;
  pushes = push_all-three;
  encodes = encode_three;
  loads = refl;
  entries = refl;
  reads = λ s e lo hi. refl;
  ceiling = short;
  fits = omega arith;
  times = three-HasTime;
  lines = three-IsWritten;
  few = omega arith;
}

abbrev names : List Bytes
names = bytes "g" ∷ bytes "h" ∷ []

abbrev groups : List (List (List LogRecord))
groups = (three ∷ []) ∷ (three ∷ []) ∷ []

listed_one :
    (list_range_chunks reader (λ ts. bytes "d") (bytes "1") (bytes "g") early
      ≡ ok (loc (bytes "g") ∷ [], 1))
    × (list_range_chunks reader (λ ts. bytes "d") (bytes "1") (bytes "h") early
        ≡ ok (loc (bytes "h") ∷ [], 1))
unfolding list_range_chunks list_dates dates_in_range sort_by parse_data_key data_group_prefix ◌+ℤ◌
    ◌-ℤ◌ norm_prefix add_u64 trim_matches parse_parts split group_part sanitize_log_group
    strip_suffix unsanitize_log_group unescape is_utf8
listed_one = (refl, refl)

groups-AreListed :
    AreListed sample_crates sample_crates-IsLawful reader
      (λ ts. bytes "d")
      (bytes "1")
      early
      none
      9
      names
      groups
groups-AreListed = (
  (loc (bytes "g") ∷ [], 1, listed_one.0, (three-IsReadable (bytes "g"), tt)),
  ((loc (bytes "h") ∷ [], 1, listed_one.1, (three-IsReadable (bytes "h"), tt)), tt),
)

six_few : length (concat (flat groups)) < 9
six_few = omega arith

scan_log_groups_complete_example :
    (rs : List (LogRecord × Bytes)) × (st : ScanStats) × (scan_log_groups sample_crates reader
        (λ ts. bytes "d")
        (bytes "1")
        early
        none
        9
        9
        (bytes "g" ∷ bytes "h" ∷ [])
      ≡ (rs, ok st))
    × IsSorted rec_le (map (λ r. r.0) rs)
    × ((f : LogRecord × Bytes → ℕ)
        → weight f rs
          ≡ weight f (
              map (λ r. (r, bytes "g")) (hits early none (three ++ []))
              ++ (map (λ r. (r, bytes "h")) (hits early none (three ++ [])) ++ [])))
scan_log_groups_complete_example =
    scan_log_groups_complete sample_crates sample_crates-IsLawful reader (λ ts. bytes "d")
      (bytes "1") early none 9 9 names groups groups-AreListed six_few

-- ===== src/Wal.antt =====
-- crates/s4logs-gateway/src/wal.rs: the segments of the write-ahead log. An open file is the path that
-- it was created at. Metrics and log lines are left out.
pub mod Torn
mod Tests
use s4_logs.Prelude.{
  ℕ, zero, suc, ◌<◌, Bool, true, false, ◌&&◌, Option, none, some, List, [], ◌∷◌, ◌++◌, take,
  if◌then◌else◌, ltb, ◌==◌,
}
use s4_logs.Prelude.Text.{Bytes, bytes, strip_suffix, split}
use s4_logs.Prelude.Order.{leb_bytes}
use s4_logs.Prelude.Result.{Result, ok, err}
use s4_logs.Jsonl.{newline}
use s4_logs.Layout.{sanitize_log_group}
use s4_logs.Host.{Host, WalEntry}

abbrev pub wal_suffix : Bytes
wal_suffix = bytes ".wal"

pub data IoError : Type 0 where
  io_error : IoError

pub record WalSegment : Type 0 where
  pub path : Bytes
  pub dirty : Bool

pub record SegmentEntries : Type 0 where
  pub path : Bytes
  pub entries : List WalEntry

abbrev pub insert_name : Bytes → List Bytes → List Bytes
insert_name x [] = x ∷ []
insert_name x (y ∷ ys) =
    let rest = insert_name x ys in if leb_bytes x y then x ∷ y ∷ ys else y ∷ rest

-- `files.sort()`
unfoldable pub sort_names : List Bytes → List Bytes
sort_names [] = []
sort_names (x ∷ xs) = insert_name x (sort_names xs)

abbrev pub is_segment : Bytes × Bool → Bool
is_segment (name, is_file) =
    is_file && elim (strip_suffix wal_suffix name) [ none ↦ false | some _ ↦ true ]

-- `filter` on the names of the directory.
abbrev pub segment_names : List (Bytes × Bool) → List Bytes
segment_names [] = []
segment_names (e ∷ es) = if is_segment e then e.0 ∷ segment_names es else segment_names es

module _ {D : Type 0} (h : Host D) where
  -- `uuid8` of buffer.rs
  unfoldable pub uuid8 : D → D × Bytes
  uuid8 d = let (d', full) = h.new_v4 d in (d', take 8 full)

  -- `fsync_dir` of the parent; an error is only counted.
  unfoldable pub sync_parent_dir : Bytes → D → D
  sync_parent_dir path d = elim (h.parent path) [ none ↦ d | some dir ↦ (h.sync_dir dir d).0 ]

  abbrev pub created : Bytes → D × Bool → D × Result IoError WalSegment
  created path (d, true) = (sync_parent_dir path d, ok (record { path = path; dirty = false }))
  created path (d, false) = (d, err io_error)

  abbrev pub segment_name : Bytes → Bytes → Bytes → Bytes
  segment_name log_group date suffix =
      sanitize_log_group log_group ++ (b'.' ∷ date ++ (b'.' ∷ suffix ++ wal_suffix))

  abbrev pub create_in : Bytes → Bytes → Bytes → D × Bool → D × Result IoError WalSegment
  create_in dir log_group date (d, false) = (d, err io_error)
  create_in dir log_group date (d, true) =
      let (d', suffix) = uuid8 d in
      let path = h.join dir (segment_name log_group date suffix) in
      created path (h.create_new path d')

  -- `WalSegment::create`
  unfoldable pub create : Bytes → Bytes → Bytes → D → D × Result IoError WalSegment
  unfolding uuid8 sync_parent_dir
  create dir log_group date d = create_in dir log_group date (h.create_dir_all dir d)

  abbrev pub appended : WalSegment → D × Bool → D × WalSegment × Result IoError Unit
  appended seg (d, true) = (d, record seg { dirty = true }, ok tt)
  appended seg (d, false) = (d, seg, err io_error)

  -- `WalSegment::append`
  unfoldable pub append : WalEntry → WalSegment → D → D × WalSegment × Result IoError Unit
  append entry seg d = elim (h.to_vec entry) [
    | none ↦ (d, seg, err io_error)
    | some line ↦ appended seg (h.write_all seg.path (line ++ newline ∷ []) d)
  ]

  abbrev pub synced : WalSegment → D × Bool → D × WalSegment × Result IoError Unit
  synced seg (d, true) = (d, record seg { dirty = false }, ok tt)
  synced seg (d, false) = (d, seg, err io_error)

  -- `WalSegment::sync`
  unfoldable pub sync : WalSegment → D → D × WalSegment × Result IoError Unit
  sync seg d = if seg.dirty then synced seg (h.sync_data seg.path d) else (d, seg, ok tt)

  abbrev pub deleted : Bytes → D × Bool → D
  deleted path (d, true) = sync_parent_dir path d
  deleted path (d, false) = d

  -- `WalSegment::delete`
  unfoldable pub delete : WalSegment → D → D
  unfolding sync_parent_dir
  delete seg d = deleted seg.path (h.remove_file seg.path d)

  -- The lines that parse; an empty line is passed over, and so is one that does not parse.
  abbrev pub keep_entry : Option WalEntry → List WalEntry → List WalEntry
  keep_entry none es = es
  keep_entry (some e) es = e ∷ es

  abbrev pub entry_lines : List Bytes → List WalEntry
  entry_lines [] = []
  entry_lines ([] ∷ ls) = entry_lines ls
  entry_lines ((b ∷ bs) ∷ ls) = keep_entry (h.from_slice (b ∷ bs)) (entry_lines ls)

  -- The inner loop of `scan_dir`, over the bytes of one segment.
  unfoldable pub entries_of : Bytes → List WalEntry
  entries_of content = entry_lines (split newline content)

  abbrev pub keep_segment :
      Bytes
      → Option Bytes
      → Result IoError (List SegmentEntries)
      → Result IoError (List SegmentEntries)
  keep_segment path none rest = err io_error
  keep_segment path (some content) (err e) = err e
  keep_segment path (some content) (ok rest) =
      ok (record { path = path; entries = entries_of content } ∷ rest)

  -- The outer loop.
  unfoldable pub scan_files : Bytes → List Bytes → D → Result IoError (List SegmentEntries)
  unfolding entries_of
  scan_files dir [] d = ok []
  scan_files dir (name ∷ names) d =
      keep_segment (h.join dir name) (h.read (h.join dir name) d) (scan_files dir names d)

  unfoldable pub scan_dir : Bytes → D → Result IoError (List SegmentEntries)
  unfolding scan_files
  scan_dir dir d = elim (h.exists dir d) [
    | false ↦ ok []
    | true ↦ elim (h.read_dir dir d) [
      | none ↦ err io_error
      | some found ↦ scan_files dir (sort_names (segment_names found)) d
    ]
  ]

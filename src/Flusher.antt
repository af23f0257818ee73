-- ===== src/Flusher.antt =====
-- crates/s4logs-gateway/src/buffer.rs: flushing, and the manager's methods. The chunks for which the
-- sink gave a receipt are listed in the state beside their places. Metrics and log lines are left out.
pub mod ReadBack
pub mod Merge
pub mod Flushed
pub mod Lossless
pub mod Methods
pub mod Replay
pub mod Tests
use s4_logs.Prelude.{
  ℕ, ◌+◌, ◌-◌, Bool, true, false, ◌&&◌, Option, none, some, List, [], ◌∷◌, ◌++◌, min, if◌then◌else◌,
  ltb, leb,
}
use s4_logs.Prelude.Int.{ℤ, min_ℤ}
use s4_logs.Prelude.Text.{Bytes}
use s4_logs.Prelude.Decimal.{show_ℤ}
use s4_logs.Prelude.Result.{Result, ok, err}
use s4_logs.Record.{LogRecord, RecordError}
use s4_logs.Layout.{ChunkLocation}
use s4_logs.Jsonl.{record_lines}
use s4_logs.Read.{ReadError, decompress_frames}
use s4_logs.Chunk.{ChunkError, ChunkWriter, EncodedChunk, add_u64, push, encode}
use s4_logs.Crates.{Crates}
use s4_logs.Sink.{SinkError, PutReceipt}
use s4_logs.Host.{Host, WalEntry}
use s4_logs.Wal.{IoError, WalSegment, SegmentEntries, uuid8, delete, scan_dir}
use s4_logs.Buffer.{
  BufferError, chunk_failed, sink_failed, wal_failed, over_capacity, BufferConfig, BufKey, Buf,
  Entry, lookup, insert, take_matching, buffered_total, remove_largest, InputLogEvent, record_for,
  incoming, Pool, push_one, sync_wal, accept,
}

pub record Manager (D : Type 0) : Type 0 where
  pub world : D
  pub buffers : List Entry
  pub last_flush_ok : Bool
  pub puts : List (ChunkLocation × EncodedChunk)

-- `BufferManager::new`
abbrev pub new_manager : {D : Type 0} → D → Manager D
new_manager d = record { world = d; buffers = []; last_flush_ok = true; puts = [] }

-- `flatten` of an iterator of results
abbrev pub flatten : List (Result RecordError LogRecord) → List LogRecord
flatten [] = []
flatten (ok r ∷ rs) = r ∷ flatten rs
flatten (err e ∷ rs) = flatten rs

abbrev pub lines_in : Crates → Result ReadError Bytes → Option (List LogRecord)
lines_in c (ok plain) = some (flatten (record_lines c plain))
lines_in c (err e) = none

-- The records of a chunk, as `reinsert` reads them.
unfoldable pub chunk_records : Crates → EncodedChunk → Option (List LogRecord)
chunk_records c made = lines_in c (decompress_frames c made.body made.uncompressed_bytes)

-- `for rec in records { let _ = writer.push(&rec); }`
unfoldable pub push_quietly : Crates → List LogRecord → ChunkWriter → ChunkWriter
push_quietly c [] w = w
push_quietly c (r ∷ rs) w = push_quietly c rs (push c r w).0

abbrev pub into_live : Crates → Option (List LogRecord) → Buf → Buf
into_live c none dst = dst
into_live c (some recs) dst = record dst { writer = push_quietly c recs dst.writer }

-- The age and the name's timestamp go back to those of the older buffer.
abbrev pub aged : Buf → Buf → Buf
aged buf dst = record dst {
  opened_at = min dst.opened_at buf.opened_at;
  first_event_ts_ms = min_ℤ dst.first_event_ts_ms buf.first_event_ts_ms;
}

abbrev pub merged_records : Crates → Option EncodedChunk → Option (List LogRecord)
merged_records c none = none
merged_records c (some made) = chunk_records c made

-- The three arms, by the entry and by the segment of what comes back.
abbrev pub reinsert_at :
    Crates
    → BufKey
    → Buf
    → Option EncodedChunk
    → List Entry
    → Option Buf
    → Option WalSegment
    → List Entry
reinsert_at c k buf made es none wal = insert k buf es
reinsert_at c k buf made es (some dst) (some seg) = es
reinsert_at c k buf made es (some dst) none =
    insert k (into_live c (merged_records c made) (aged buf dst)) es

unfoldable pub reinsert : Crates → BufKey → Buf → Option EncodedChunk → List Entry → List Entry
reinsert c k buf made es = reinsert_at c k buf made es (lookup k es) buf.wal

module _ {D : Type 0} (h : Host D) (cfg : BufferConfig) where
  abbrev pub Done : Type 0
  Done = Manager D × Result BufferError Unit

  -- `self.sink.ready().await` is asked only if the flag is set.
  unfoldable pub ready : Manager D → Bool
  ready m = m.last_flush_ok && h.sink_ready m.world

  abbrev pub retire_by : D → Option WalSegment → D
  retire_by d none = d
  retire_by d (some seg) = delete h seg d

  unfoldable pub retire : Buf → D → D
  retire buf d = retire_by d buf.wal

  abbrev pub chunk_place : BufKey → Buf → Bytes → ChunkLocation
  chunk_place (log_group, date) buf suffix = record {
    account = cfg.account;
    log_group = log_group;
    date = date;
    name = show_ℤ buf.first_event_ts_ms ++ (b'-' ∷ suffix);
  }

  -- What follows the sink's answer.
  unfoldable pub answered :
      BufKey
      → Buf
      → EncodedChunk
      → ChunkLocation
      → Manager D
      → D × Result SinkError PutReceipt
      → Done
  unfolding retire reinsert
  answered k buf made loc m (d, ok receipt) =
      (record m { world = retire buf d; puts = m.puts ++ (loc, made) ∷ [] }, ok tt)
  answered k buf made loc m (d, err e) = (
    record m { world = d; buffers = reinsert h.crates k buf (some made) m.buffers },
    err (sink_failed e),
  )

  abbrev pub put_with : BufKey → Buf → EncodedChunk → Manager D → D × Bytes → Done
  put_with k buf made m (d, suffix) =
      let loc = chunk_place k buf suffix in answered k buf made loc m (h.put_chunk loc made d)

  unfoldable pub flush_to :
      BufKey → Buf → Manager D → Result ChunkError (Option EncodedChunk) → Done
  unfolding retire reinsert answered uuid8
  flush_to k buf m (err e) =
      (record m { buffers = reinsert h.crates k buf none m.buffers }, err (chunk_failed e))
  flush_to k buf m (ok none) = (record m { world = retire buf m.world }, ok tt)
  flush_to k buf m (ok (some made)) = put_with k buf made m (uuid8 h m.world)

  unfoldable pub flush_one : Entry → Manager D → Done
  unfolding flush_to
  flush_one (k, buf) m = flush_to k buf m (encode h.crates buf.writer)

  -- `first_err.get_or_insert(err)`
  abbrev pub first_err : Result BufferError Unit → Result BufferError Unit → Result BufferError Unit
  first_err (err e) later = err e
  first_err (ok _) later = later

  abbrev pub flagged : Done → Done
  flagged (m, ok _) = (record m { last_flush_ok = true }, ok tt)
  flagged (m, err e) = (record m { last_flush_ok = false }, err e)

  abbrev pub flush_rest : (Manager D → Done) → Done → Done
  flush_rest more (m, r) = let (m', r') = more m in (m', first_err r r')

  unfoldable pub flush_taken : List Entry → Manager D → Done
  unfolding flush_one
  flush_taken [] m = (m, ok tt)
  flush_taken (e ∷ es) m = flush_rest (flush_taken es) (flagged (flush_one e m))

  abbrev pub is_over : ℕ → Manager D → Bool
  is_over wanted m = ltb cfg.max_buffered_bytes (add_u64 (buffered_total m.buffers) wanted)

  abbrev pub still_over : ℕ → Manager D → Done
  still_over wanted m = if is_over wanted m then (m, err over_capacity) else (m, ok tt)

  abbrev pub make_room : Manager D → Option Entry × List Entry → Manager D
  make_room m (none, es) = record m { buffers = es }
  make_room m (some e, es) = (flush_taken (e ∷ []) (record m { buffers = es })).0

  unfoldable pub reserve : ℕ → Manager D → Done
  unfolding flush_taken
  reserve wanted m =
      if leb (add_u64 (buffered_total m.buffers) wanted) cfg.max_buffered_bytes
      then (m, ok tt)
      else still_over wanted (make_room m (remove_largest m.buffers))

  -- The flush of what is due; its error is only logged.
  abbrev pub flush_due : Manager D → D × List Entry × Result BufferError (List Entry) → Done
  flush_due m (d, es, err e) = (record m { world = d; buffers = es }, err e)
  flush_due m (d, es, ok due) = ((flush_taken due (record m { world = d; buffers = es })).0, ok tt)

  abbrev pub batch : Bytes → List InputLogEvent → List LogRecord
  batch stream [] = []
  batch stream (ev ∷ evs) = record_for stream ev ∷ batch stream evs

  abbrev pub push_reserved : Bytes → List LogRecord → Done → Done
  push_reserved log_group recs (m, err e) = (m, err e)
  push_reserved log_group recs (m, ok _) =
      flush_due m (accept h cfg log_group recs m.world m.buffers)

  unfoldable pub push_events : Bytes → Bytes → List InputLogEvent → Manager D → Done
  unfolding reserve flush_taken
  push_events log_group stream events m =
      push_reserved log_group (batch stream events) (reserve (incoming stream events) m)

  unfoldable pub is_expired : D → Buf → Bool
  is_expired d buf = leb cfg.flush_interval (h.now d - buf.opened_at)

  abbrev pub flush_matching : (Buf → Bool) → Manager D → Done
  flush_matching pred m =
      let (due, es) = take_matching pred m.buffers in flush_taken due (record m { buffers = es })

  unfoldable pub sweep_expired : Manager D → Manager D
  unfolding flush_taken is_expired
  sweep_expired m = (flush_matching (is_expired m.world) m).0

  unfoldable pub flush_all : Manager D → Done
  unfolding flush_taken
  flush_all m = flush_matching (λ b. true) m

-- ===== src/Flusher/Replay.antt =====
-- `replay_wal` of crates/s4logs-gateway/src/buffer.rs, at startup.
use s4_logs.Prelude.{Option, none, some, List, [], ◌∷◌, ◌++◌, ℕ, leb}
use s4_logs.Prelude.Text.{Bytes}
use s4_logs.Prelude.Result.{Result, ok, err}
use s4_logs.Record.{LogRecord}
use s4_logs.Chunk.{add_u64, uncompressed_len}
use s4_logs.Host.{Host, WalEntry}
use s4_logs.Wal.{IoError, SegmentEntries, scan_dir}
use s4_logs.Buffer.{
  BufferError, wal_failed, BufferConfig, Entry, Pool, push_one, sync_wal, take_matching,
}
use s4_logs.Flusher.{Manager, flush_taken}

abbrev pub replayed_record : WalEntry → LogRecord
replayed_record e = record {
  timestamp = e.timestamp;
  stream = e.stream;
  message = e.message;
  ingestion_time = e.ingestion_time;
  event_id = none;
}

-- The entries of all segments, in order.
abbrev pub all_entries : List SegmentEntries → List WalEntry
all_entries [] = []
all_entries (s ∷ ss) = s.entries ++ all_entries ss

-- `replayed`, counted one by one.
abbrev pub count_entries : List WalEntry → ℕ
count_entries [] = 0
count_entries (e ∷ es) = add_u64 (count_entries es) 1

module _ {D : Type 0} (h : Host D) (cfg : BufferConfig) where
  abbrev pub and_push : (D → List Entry → Pool h cfg) → Pool h cfg → Pool h cfg
  and_push more (d, es, ok _) = more d es
  and_push more (d, es, err e) = (d, es, err e)

  -- The loops over the segments and their entries.
  unfoldable pub push_entries : List WalEntry → D → List Entry → Pool h cfg
  push_entries [] d es = (d, es, ok tt)
  push_entries (e ∷ rest) d es =
      and_push (push_entries rest) (push_one h cfg e.log_group (replayed_record e) d es)

  -- The old files go; an error is only logged.
  unfoldable pub remove_files : List SegmentEntries → D → D
  remove_files [] d = d
  remove_files (s ∷ ss) d = remove_files ss (h.remove_file s.path d).0

  abbrev pub Replayed : Type 0
  Replayed = Manager D × Result BufferError ℕ

  abbrev pub counted : ℕ → Manager D × Result BufferError Unit → Replayed
  counted n (m, ok _) = (m, ok n)
  counted n (m, err e) = (m, err e)

  abbrev pub after_push : Manager D → List SegmentEntries → Pool h cfg → Replayed
  after_push m segs (d, es, err e) = (record m { world = d; buffers = es }, err e)
  after_push m segs (d, es, ok _) =
      let (due, left) = take_matching (λ b. leb cfg.flush_bytes (uncompressed_len b.writer)) es in
      counted (count_entries (all_entries segs))
        (flush_taken h cfg due (record m { world = remove_files segs d; buffers = left }))

  abbrev pub replay_found : Manager D → Result IoError (List SegmentEntries) → Replayed
  replay_found m (err e) = (m, err (wal_failed e))
  replay_found m (ok []) = (m, ok 0)
  replay_found m (ok (s ∷ ss)) = after_push m (s ∷ ss) (
      and_push (λ d es. sync_wal h cfg es d)
        (push_entries (all_entries (s ∷ ss)) m.world m.buffers))

  abbrev pub replay_in : Manager D → Option Bytes → Replayed
  replay_in m none = (m, ok 0)
  replay_in m (some dir) = replay_found m (scan_dir h dir m.world)

  unfoldable pub replay_wal : Manager D → Replayed
  unfolding push_entries remove_files
  replay_wal m = replay_in m cfg.wal_dir

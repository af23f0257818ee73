-- ===== src/Buffer.antt =====
-- crates/s4logs-gateway/src/buffer.rs: the buffers of the gateway, up to the flush. The map of buffers
-- is the list of its entries in iteration order; a new key goes to the end. A function that takes
-- `&mut buffers` returns the world and the buffers beside its result, since what was done before an
-- error stays done.
pub mod Bags
pub mod Held
pub mod Push
pub mod Taken
pub mod Bound
use s4_logs.Prelude.{
  ℕ, zero, suc, ◌+◌, ◌*◌, ◌^◌, Bool, true, false, ◌&&◌, Option, none, some, List, [], ◌∷◌, ◌++◌,
  length, if◌then◌else◌, ltb, leb,
}
use s4_logs.Prelude.Int.{ℤ}
use s4_logs.Prelude.Text.{Bytes, bytes, eqb}
use s4_logs.Prelude.Result.{Result, ok, err, map_err}
use s4_logs.Record.{LogRecord}
use s4_logs.Chunk.{
  ChunkConfig, ChunkError, ChunkWriter, default_config, add_u64, new, push, uncompressed_len,
}
use s4_logs.Sink.{SinkError}
use s4_logs.Host.{Host, WalEntry}
use s4_logs.Wal.{IoError, WalSegment, create, append, sync}

pub data BufferError : Type 0 where
  chunk_failed : ChunkError → BufferError
  sink_failed : SinkError → BufferError
  wal_failed : IoError → BufferError
  over_capacity : BufferError

pub record BufferConfig : Type 0 where
  pub account : Bytes
  pub flush_bytes : ℕ
  pub flush_interval : ℕ
  pub chunk : ChunkConfig
  pub wal_dir : Option Bytes
  pub max_buffered_bytes : ℕ

-- `BufferConfig::default`
abbrev pub default_buffers : BufferConfig
default_buffers = record {
  account = bytes "000000000000";
  flush_bytes = 8 * 2 ^ 20;
  flush_interval = 60_000;
  chunk = default_config;
  wal_dir = none;
  max_buffered_bytes = 256 * 2 ^ 20;
}

abbrev pub BufKey : Type 0
BufKey = Bytes × Bytes

pub record Buf : Type 0 where
  pub writer : ChunkWriter
  pub first_event_ts_ms : ℤ
  pub opened_at : ℕ
  pub wal : Option WalSegment

abbrev pub Entry : Type 0
Entry = BufKey × Buf

abbrev pub is_key : BufKey → BufKey → Bool
is_key (g, t) (g', t') = eqb g g' && eqb t t'

-- `HashMap::get`
abbrev pub lookup : BufKey → List Entry → Option Buf
lookup k [] = none
lookup k ((k', b) ∷ es) = let rest = lookup k es in if is_key k k' then some b else rest

-- `HashMap::insert`
abbrev pub insert : BufKey → Buf → List Entry → List Entry
insert k b [] = (k, b) ∷ []
insert k b ((k', b') ∷ es) =
    let rest = insert k b es in if is_key k k' then (k', b) ∷ es else (k', b') ∷ rest

abbrev pub put_back : Entry → Option (Entry × List Entry) → Option (Entry × List Entry)
put_back e none = none
put_back e (some (found, es)) = some (found, e ∷ es)

-- `HashMap::remove_entry`
abbrev pub remove_entry : BufKey → List Entry → Option (Entry × List Entry)
remove_entry k [] = none
remove_entry k ((k', b) ∷ es) =
    let rest = put_back (k', b) (remove_entry k es) in
    if is_key k k' then some ((k', b), es) else rest

unfoldable pub buffered_total : List Entry → ℕ
buffered_total [] = 0
buffered_total ((k, b) ∷ es) = add_u64 (uncompressed_len b.writer) (buffered_total es)

-- The keys of the buffers that `pred` holds of.
abbrev pub matching_keys : (Buf → Bool) → List Entry → List BufKey
matching_keys pred [] = []
matching_keys pred ((k, b) ∷ es) =
    let rest = matching_keys pred es in if pred b then k ∷ rest else rest

-- `keys.filter_map(|k| buffers.remove_entry(&k))`: what was removed, and what is left.
abbrev pub and_more : Entry → List Entry × List Entry → List Entry × List Entry
and_more e (taken, left) = (e ∷ taken, left)

abbrev pub remove_next :
    List Entry
    → (List Entry → List Entry × List Entry)
    → Option (Entry × List Entry)
    → List Entry × List Entry
remove_next es more none = more es
remove_next es more (some (e, left)) = and_more e (more left)

unfoldable pub remove_entries : List BufKey → List Entry → List Entry × List Entry
remove_entries [] es = ([], es)
remove_entries (k ∷ ks) es = remove_next es (remove_entries ks) (remove_entry k es)

unfoldable pub take_matching : (Buf → Bool) → List Entry → List Entry × List Entry
unfolding remove_entries
take_matching pred es = remove_entries (matching_keys pred es) es

-- `max_by_key(uncompressed_len)`: the last of the largest.
abbrev pub larger : Entry → Entry → Entry
larger (k, b) (k', b') =
    if leb (uncompressed_len b.writer) (uncompressed_len b'.writer) then (k', b') else (k, b)

abbrev pub largest_of : Entry → List Entry → Entry
largest_of best [] = best
largest_of best (e ∷ es) = largest_of (larger best e) es

unfoldable pub largest : List Entry → Option BufKey
largest [] = none
largest (e ∷ es) = some (largest_of e es).0

abbrev pub removed : List Entry → Option (Entry × List Entry) → Option Entry × List Entry
removed es none = (none, es)
removed es (some (e, left)) = (some e, left)

-- `key.and_then(|k| buffers.remove_entry(&k))` with the largest key.
unfoldable pub remove_largest : List Entry → Option Entry × List Entry
unfolding largest
remove_largest es = elim (largest es) [
  | none ↦ (none, es)
  | some k ↦ removed es (remove_entry k es)
]

-- What the client sends.
pub record InputLogEvent : Type 0 where
  pub timestamp : ℤ
  pub message : Bytes

abbrev pub record_for : Bytes → InputLogEvent → LogRecord
record_for stream ev = record {
  timestamp = ev.timestamp;
  stream = stream;
  message = ev.message;
  ingestion_time = none;
  event_id = none;
}

-- The estimate of a batch's lines.
unfoldable pub incoming : Bytes → List InputLogEvent → ℕ
incoming stream [] = 0
incoming stream (ev ∷ evs) =
    add_u64 (add_u64 (add_u64 (length ev.message) (length stream)) 64) (incoming stream evs)

module _ (cfg : BufferConfig) where
  abbrev pub shed_next :
      (List Entry → List Entry → List Entry × List Entry)
      → List Entry
      → Option Entry × List Entry
      → List Entry × List Entry
  shed_next more due (none, es) = (due, es)
  shed_next more due (some e, es) = more (due ++ e ∷ []) es

  -- The `while` loop that takes the largest buffers until the rest is under the cap.
  unfoldable pub shed : ℕ → List Entry → List Entry → List Entry × List Entry
  shed zero due es = (due, es)
  shed (suc fuel) due es = elim (ltb cfg.max_buffered_bytes (buffered_total es)) [
    | false ↦ (due, es)
    | true ↦ shed_next (shed fuel) due (remove_largest es)
  ]

  abbrev pub shed_from : List Entry × List Entry → List Entry × List Entry
  shed_from (due, es) = shed (length es) due es

  -- The end of the critical section of `push_events`: which buffers are due, and those left.
  unfoldable pub take_due : List Entry → List Entry × List Entry
  unfolding take_matching shed
  take_due es = shed_from (take_matching (λ b. leb cfg.flush_bytes (uncompressed_len b.writer)) es)

module _ {D : Type 0} (h : Host D) (cfg : BufferConfig) where
  abbrev pub opened :
      LogRecord → D × Result IoError (Option WalSegment) → D × Result BufferError Buf
  opened rec (d, err e) = (d, err (wal_failed e))
  opened rec (d, ok wal) = (
    d,
    ok (record {
      writer = new cfg.chunk;
      first_event_ts_ms = rec.timestamp;
      opened_at = h.now d;
      wal = wal;
    }),
  )

  abbrev pub some_segment : D × Result IoError WalSegment → D × Result IoError (Option WalSegment)
  some_segment (d, ok seg) = (d, ok (some seg))
  some_segment (d, err e) = (d, err e)

  abbrev pub segment_in : Bytes → Bytes → D → Option Bytes → D × Result IoError (Option WalSegment)
  segment_in log_group date d none = (d, ok none)
  segment_in log_group date d (some dir) = some_segment (create h dir log_group date d)

  -- The arm for a vacant entry.
  unfoldable pub open_buf : Bytes → Bytes → LogRecord → D → D × Result BufferError Buf
  open_buf log_group date rec d = opened rec (segment_in log_group date d cfg.wal_dir)

  abbrev pub wal_entry : Bytes → LogRecord → WalEntry
  wal_entry log_group rec = record {
    log_group = log_group;
    timestamp = rec.timestamp;
    stream = rec.stream;
    message = rec.message;
    ingestion_time = rec.ingestion_time;
  }

  abbrev pub into_writer : LogRecord → Buf → D → D × Buf × Result BufferError Unit
  into_writer rec b d =
      let (w, r) = push h.crates rec b.writer in
      (d, record b { writer = w }, map_err chunk_failed r)

  abbrev pub logged :
      LogRecord → Buf → D × WalSegment × Result IoError Unit → D × Buf × Result BufferError Unit
  logged rec b (d, seg, err e) = (d, record b { wal = some seg }, err (wal_failed e))
  logged rec b (d, seg, ok _) = into_writer rec (record b { wal = some seg }) d

  abbrev pub append_by :
      Bytes → LogRecord → Buf → D → Option WalSegment → D × Buf × Result BufferError Unit
  append_by log_group rec b d none = into_writer rec b d
  append_by log_group rec b d (some seg) = logged rec b (append h (wal_entry log_group rec) seg d)

  -- The line of the log, then the record.
  unfoldable pub append_one : Bytes → LogRecord → Buf → D → D × Buf × Result BufferError Unit
  append_one log_group rec b d = append_by log_group rec b d b.wal

  abbrev pub Pool : Type 0
  Pool = D × List Entry × Result BufferError Unit

  abbrev pub in_entry : BufKey → List Entry → D × Buf × Result BufferError Unit → Pool
  in_entry k es (d, b, r) = (d, insert k b es, r)

  abbrev pub in_new : BufKey → Bytes → LogRecord → List Entry → D × Result BufferError Buf → Pool
  in_new k log_group rec es (d, err e) = (d, es, err e)
  in_new k log_group rec es (d, ok b) = in_entry k es (append_one log_group rec b d)

  abbrev pub push_at : BufKey → Bytes → LogRecord → D → List Entry → Option Buf → Pool
  push_at k log_group rec d es none = in_new k log_group rec es (open_buf log_group k.1 rec d)
  push_at k log_group rec d es (some b) = in_entry k es (append_one log_group rec b d)

  unfoldable pub push_one : Bytes → LogRecord → D → List Entry → Pool
  unfolding open_buf append_one
  push_one log_group rec d es =
      let date = h.date_from_ts_ms rec.timestamp in
      push_at (log_group, date) log_group rec d es (lookup (log_group, date) es)

  abbrev pub and_then : (D → List Entry → Pool) → Pool → Pool
  and_then more (d, es, ok _) = more d es
  and_then more (d, es, err e) = (d, es, err e)

  -- The loop over the events of a batch.
  unfoldable pub push_batch : Bytes → List LogRecord → D → List Entry → Pool
  push_batch log_group [] d es = (d, es, ok tt)
  push_batch log_group (r ∷ rs) d es =
      and_then (push_batch log_group rs) (push_one log_group r d es)

  abbrev pub sync_next :
      BufKey → Buf → List Entry → (D → Pool) → D × WalSegment × Result IoError Unit → Pool
  sync_next k b es more (d, seg, err e) =
      (d, (k, record b { wal = some seg }) ∷ es, err (wal_failed e))
  sync_next k b es more (d, seg, ok _) =
      let (d', es', r) = more d in (d', (k, record b { wal = some seg }) ∷ es', r)

  abbrev pub sync_none : BufKey → Buf → Pool → Pool
  sync_none k b (d, es, r) = (d, (k, b) ∷ es, r)

  abbrev pub sync_by : BufKey → Buf → List Entry → (D → Pool) → D → Option WalSegment → Pool
  sync_by k b es more d none = sync_none k b (more d)
  sync_by k b es more d (some seg) = sync_next k b es more (sync h seg d)

  unfoldable pub sync_wal : List Entry → D → Pool
  sync_wal [] d = (d, [], ok tt)
  sync_wal ((k, b) ∷ es) d = sync_by k b es (λ d'. sync_wal es d') d b.wal

  -- The critical section of `push_events`: nothing is due after an error.
  abbrev pub Accepted : Type 0
  Accepted = D × List Entry × Result BufferError (List Entry)

  abbrev pub due_now : List Entry × List Entry → D → Accepted
  due_now (due, es) d = (d, es, ok due)

  abbrev pub accepted : Pool → Accepted
  accepted (d, es, err e) = (d, es, err e)
  accepted (d, es, ok _) = due_now (take_due cfg es) d

  unfoldable pub accept : Bytes → List LogRecord → D → List Entry → Accepted
  unfolding push_batch push_one sync_wal
  accept log_group rs d es =
      accepted (and_then (λ d' es'. sync_wal es' d') (push_batch log_group rs d es))

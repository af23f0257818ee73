-- ===== src/Job.antt =====
-- crates/s4logs-drain/src/job.rs: how the records of one window become objects and entries of its
-- manifest. The sink is a parameter; the calls of `put_chunk` that it answered with a receipt are
-- listed in the writer's state. The progress events are left out: they change no state.
pub mod Books
pub mod Filled
pub mod Tests
use s4_logs.Prelude.{
  ℕ, zero, suc, ◌+◌, ◌-◌, ◌*◌, ◌%◌, ◌^◌, Bool, true, false, Option, some, none, List, [], ◌∷◌, ◌++◌,
  length, if◌then◌else◌, leb, ◌==◌,
}
use s4_logs.Prelude.Int.{ℤ, pos}
use s4_logs.Prelude.Text.{Bytes, bytes}
use s4_logs.Prelude.Decimal.{show_ℕ, show_ℤ}
use s4_logs.Prelude.Result.{Result, ok, err}
use s4_logs.Record.{LogRecord}
use s4_logs.Crates.{Crates}
use s4_logs.Layout.{ChunkLocation}
use s4_logs.Window.{Window, hour_ms}
use s4_logs.Chunk.{
  ChunkConfig, ChunkError, ChunkWriter, EncodedChunk, default_config, add_u64, new, push, finish,
  uncompressed_len,
}
use s4_logs.Sink.{SinkError, PutReceipt}
use s4_logs.Manifest.{ManifestObject}
use s4_logs.Drain.{DrainError, chunk, sink}

pub record DrainOptions : Type 0 where
  pub account : Bytes
  pub log_group : Bytes
  pub from_ms : Option ℤ
  pub to_ms : Option ℤ
  pub now_cutoff_ms : ℤ
  pub window_ms : ℤ
  pub chunk_target_bytes : ℕ
  pub chunk : ChunkConfig
  pub concurrency : ℕ
  pub dry_run : Bool
  pub shard_streams : ℕ

-- `DrainOptions::new`
abbrev pub default_options : Bytes → Bytes → DrainOptions
default_options account log_group = record {
  account = account;
  log_group = log_group;
  from_ms = none;
  to_ms = none;
  now_cutoff_ms = pos (15 * 60_000);
  window_ms = pos hour_ms;
  chunk_target_bytes = 256 * 2 ^ 20;
  chunk = default_config;
  concurrency = 2;
  dry_run = false;
  shard_streams = 1;
}

-- `{:0width$}` of a number
abbrev pub zeros : ℕ → Bytes
zeros zero = []
zeros (suc n) = b'0' ∷ zeros n

unfoldable pub padded : ℕ → ℕ → Bytes
padded width n = zeros (width - length (show_ℕ n)) ++ show_ℕ n

pub data ObjectNaming : Type 0 where
  base : ObjectNaming
  reconcile : (attempt : ℕ) → ObjectNaming

unfoldable pub name : ObjectNaming → ℤ → ℕ → Bytes
name base window_start_ms seq = show_ℤ window_start_ms ++ (b'-' ∷ padded 6 seq)
name (reconcile attempt) window_start_ms seq =
    show_ℤ window_start_ms ++ (b'-' ∷ b'r' ∷ (padded 2 attempt ++ padded 4 seq))

pub record WindowWriter : Type 0 where
  pub window_start_ms : ℤ
  pub date : Bytes
  pub naming : ObjectNaming
  pub writer : ChunkWriter
  pub seq : ℕ
  pub objects : List ManifestObject
  pub records : ℕ
  pub raw_bytes : ℕ
  pub compressed_bytes : ℕ
  pub objects_written : ℕ
  pub puts : List (ChunkLocation × EncodedChunk)

-- What the code calls outside: the third-party crates, chrono's date of a time, and the sink.
pub record Outside : Type 0 where
  pub crates : Crates
  pub date_from_ts_ms : ℤ → Bytes
  pub put_chunk : ChunkLocation → EncodedChunk → Result SinkError PutReceipt

module _ (o : Outside) (opts : DrainOptions) where
  -- `WindowWriter::new`
  unfoldable pub open_window : Window → ObjectNaming → WindowWriter
  open_window w naming = record {
    window_start_ms = w.start_ms;
    date = o.date_from_ts_ms w.start_ms;
    naming = naming;
    writer = new opts.chunk;
    seq = 0;
    objects = [];
    records = 0;
    raw_bytes = 0;
    compressed_bytes = 0;
    objects_written = 0;
    puts = [];
  }

  unfoldable pub bytes_so_far : WindowWriter → ℕ
  bytes_so_far ww = add_u64 ww.raw_bytes (uncompressed_len ww.writer)

  -- `flush` counts the chunk first.
  unfoldable pub count_chunk : EncodedChunk → WindowWriter → WindowWriter
  count_chunk made ww = record ww {
    records = add_u64 ww.records made.record_count;
    raw_bytes = add_u64 ww.raw_bytes made.uncompressed_bytes;
    compressed_bytes = add_u64 ww.compressed_bytes (length made.body);
  }

  abbrev pub location : WindowWriter → ChunkLocation
  location ww = record {
    account = opts.account;
    log_group = opts.log_group;
    date = ww.date;
    name = name ww.naming ww.window_start_ms ww.seq;
  }

  abbrev pub entry_of : EncodedChunk → PutReceipt → ManifestObject
  entry_of made receipt = record {
    data_key = receipt.data_key;
    etag = receipt.etag;
    crc32c = receipt.crc32c;
    body_len = receipt.body_len;
    raw_bytes = some made.uncompressed_bytes;
    storage_class = receipt.storage_class;
    record_count = made.record_count;
    min_ts = made.min_timestamp;
    max_ts = made.max_timestamp;
  }

  -- `self.seq += 1` on u32
  abbrev pub next_seq : WindowWriter → WindowWriter
  next_seq ww = record ww { seq = (ww.seq + 1) % 2 ^ 32 }

  -- The writer once the sink has answered.
  unfoldable pub stored :
      EncodedChunk
      → WindowWriter
      → Result SinkError PutReceipt
      → WindowWriter × Result DrainError Unit
  stored made ww (err e) = (ww, err (sink e))
  stored made ww (ok receipt) = (
    next_seq (record ww {
      objects = ww.objects ++ (entry_of made receipt ∷ []);
      objects_written = add_u64 ww.objects_written 1;
      puts = ww.puts ++ ((location ww, made) ∷ []);
    }),
    ok tt,
  )

  unfoldable pub flushed :
      WindowWriter → Result ChunkError (Option EncodedChunk) → WindowWriter × Result DrainError Unit
  unfolding count_chunk stored
  flushed ww (err e) = (ww, err (chunk e))
  flushed ww (ok none) = (ww, ok tt)
  flushed ww (ok (some made)) =
      let ww' = count_chunk made ww in
      if opts.dry_run
      then (next_seq ww', ok tt)
      else stored made ww' (o.put_chunk (location ww') made)

  unfoldable pub flush : WindowWriter → ChunkWriter → WindowWriter × Result DrainError Unit
  unfolding flushed
  flush ww writer = flushed ww (finish o.crates writer)

  -- `push` once the chunk writer has taken the record, or has not.
  unfoldable pub pushed :
      WindowWriter → ChunkWriter × Result ChunkError Unit → WindowWriter × Result DrainError Unit
  unfolding flush
  pushed ww (writer, err e) = (record ww { writer = writer }, err (chunk e))
  pushed ww (writer, ok _) =
      if leb opts.chunk_target_bytes (uncompressed_len writer)
      then flush (record ww { writer = new opts.chunk }) writer
      else (record ww { writer = writer }, ok tt)

  unfoldable pub push_record : LogRecord → WindowWriter → WindowWriter × Result DrainError Unit
  unfolding pushed
  push_record rec ww = pushed ww (push o.crates rec ww.writer)

  unfoldable pub finish_window : WindowWriter → WindowWriter × Result DrainError Unit
  unfolding flush
  finish_window ww = flush (record ww { writer = new opts.chunk }) ww.writer

  -- The caller's loop over events, and `finish` at its end.
  abbrev pub fill_rest :
      (WindowWriter → WindowWriter × Result DrainError Unit)
      → WindowWriter × Result DrainError Unit
      → WindowWriter × Result DrainError Unit
  fill_rest more (ww, ok _) = more ww
  fill_rest more (ww, err e) = (ww, err e)

  unfoldable pub fill : List LogRecord → WindowWriter → WindowWriter × Result DrainError Unit
  fill [] ww = finish_window ww
  fill (r ∷ rs) ww = fill_rest (fill rs) (push_record r ww)

-- ===== src/Process.antt =====
-- `DrainJob::process_window` of crates/s4logs-drain/src/job.rs, and the report that its outcomes are
-- added to. The pages of events, the manifest store and the clock are parameters; the manifests that
-- were put are listed in the result.
pub mod Proven
pub mod Tests
use s4_logs.Prelude.{
  ℕ, zero, suc, ◌+◌, ◌-◌, ◌%◌, ◌^◌, Bool, true, false, ◌||◌, Option, some, none, List, [], ◌∷◌,
  ◌++◌, length, if◌then◌else◌, leb, ◌==◌,
}
use s4_logs.Prelude.Int.{ℤ, ltb_ℤ, leb_ℤ}
use s4_logs.Prelude.Text.{Bytes}
use s4_logs.Prelude.Result.{Result, ok, err}
use s4_logs.Record.{LogRecord}
use s4_logs.Layout.{manifest_key}
use s4_logs.Window.{Window}
use s4_logs.Chunk.{add_u64}
use s4_logs.Cw.{CwError, CwEvent}
use s4_logs.Manifest.{
  Manifest, ManifestObject, ManifestError, ManifestJson, manifest_version, to_json_bytes,
  manifest_covers_window,
}
use s4_logs.Drain.{DrainError, cw, manifest}
use s4_logs.Job.{DrainOptions, Outside, WindowWriter, base, open_window, push_record, finish_window}

pub record WindowOutcome : Type 0 where
  pub skipped : Bool
  pub records : ℕ
  pub dropped : ℕ
  pub raw_bytes : ℕ
  pub compressed_bytes : ℕ
  pub objects_written : ℕ

-- `WindowOutcome::default`
abbrev pub no_outcome : WindowOutcome
no_outcome = record {
  skipped = false;
  records = 0;
  dropped = 0;
  raw_bytes = 0;
  compressed_bytes = 0;
  objects_written = 0;
}

pub record DrainReport : Type 0 where
  pub log_group : Bytes
  pub dry_run : Bool
  pub windows_total : ℕ
  pub windows_processed : ℕ
  pub windows_skipped : ℕ
  pub windows_empty : ℕ
  pub records : ℕ
  pub events_outside_window : ℕ
  pub raw_bytes : ℕ
  pub compressed_bytes : ℕ
  pub objects_written : ℕ

-- `DrainReport::absorb`
unfoldable pub absorb : DrainReport → WindowOutcome → DrainReport
absorb r o =
    if o.skipped then record r { windows_skipped = add_u64 r.windows_skipped 1 } else record r {
      windows_processed = add_u64 r.windows_processed 1;
      windows_empty = if o.records == 0 then add_u64 r.windows_empty 1 else r.windows_empty;
      records = add_u64 r.records o.records;
      events_outside_window = add_u64 r.events_outside_window o.dropped;
      raw_bytes = add_u64 r.raw_bytes o.raw_bytes;
      compressed_bytes = add_u64 r.compressed_bytes o.compressed_bytes;
      objects_written = add_u64 r.objects_written o.objects_written;
    }

-- The store of manifests, their JSON, the clock and the version stamp.
pub record Archive : Type 0 where
  pub json : ManifestJson
  pub get : Bytes → Result ManifestError (Option Bytes)
  pub put : Bytes → Bytes → Result ManifestError (Unit {0})
  pub now_ms : ℤ
  pub drain_version : Bytes

abbrev pub record_of : CwEvent → LogRecord
record_of ev = record {
  timestamp = ev.timestamp;
  stream = ev.log_stream_name;
  message = ev.message;
  ingestion_time = ev.ingestion_time;
  event_id = ev.event_id;
}

-- The manifests that were put, with their keys, beside the result.
pub record Run : Type 0 where
  pub manifests : List (Bytes × Bytes)
  pub result : Result DrainError WindowOutcome

module _ (o : Outside) (a : Archive) (opts : DrainOptions) (key_prefix : Bytes) (w : Window) where
  abbrev pub Feed : Type 0
  Feed = WindowWriter × ℕ

  unfoldable pub is_outside : CwEvent → Bool
  is_outside ev = ltb_ℤ ev.timestamp w.start_ms || leb_ℤ w.end_ms ev.timestamp

  abbrev pub push_next :
      ℕ
      → (Feed → Feed × Result DrainError Unit)
      → WindowWriter × Result DrainError Unit
      → Feed × Result DrainError Unit
  push_next dropped more (ww, ok _) = more (ww, dropped)
  push_next dropped more (ww, err e) = ((ww, dropped), err e)

  -- The loop over a page's events: those outside the window are counted, the others pushed.
  unfoldable pub take_events : List CwEvent → Feed → Feed × Result DrainError Unit
  take_events [] feed = (feed, ok tt)
  take_events (ev ∷ evs) (ww, dropped) =
      if is_outside ev
      then take_events evs (ww, add_u64 dropped 1)
      else push_next dropped (take_events evs) (push_record o opts (record_of ev) ww)

  abbrev pub page_next :
      (Feed → Feed × Result DrainError Unit)
      → Feed × Result DrainError Unit
      → Feed × Result DrainError Unit
  page_next more (feed, ok _) = more feed
  page_next more (feed, err e) = (feed, err e)

  -- The loop over the pages.
  unfoldable pub take_pages :
      List (Result CwError (List CwEvent)) → Feed → Feed × Result DrainError Unit
  take_pages [] feed = (feed, ok tt)
  take_pages (err e ∷ pages) feed = (feed, err (cw e))
  take_pages (ok events ∷ pages) feed = page_next (take_pages pages) (take_events events feed)

  abbrev pub sum_counts : List ManifestObject → ℕ
  sum_counts [] = 0
  sum_counts (m ∷ ms) = add_u64 m.record_count (sum_counts ms)

  unfoldable pub manifest_of : WindowWriter → Manifest
  manifest_of ww = record {
    version = manifest_version;
    account = opts.account;
    log_group = opts.log_group;
    window_start_ms = w.start_ms;
    window_end_ms = w.end_ms;
    objects = ww.objects;
    record_count = sum_counts ww.objects;
    completed_at_ms = a.now_ms;
    drain_version = a.drain_version;
    reconciled_at_ms = none;
    reconciled_added = none;
  }

  abbrev pub mkey : Bytes
  mkey = manifest_key key_prefix opts.account opts.log_group w.start_ms w.end_ms

  abbrev pub outcome_of : WindowWriter → ℕ → WindowOutcome
  outcome_of ww dropped = record {
    skipped = false;
    records = ww.records;
    dropped = dropped;
    raw_bytes = ww.raw_bytes;
    compressed_bytes = ww.compressed_bytes;
    objects_written = ww.objects_written;
  }

  abbrev pub put_done : WindowOutcome → Bytes → Result ManifestError Unit → Run
  put_done out body (ok _) = record { manifests = (mkey, body) ∷ []; result = ok out }
  put_done out body (err e) = record { manifests = []; result = err (manifest e) }

  abbrev pub put_manifest : WindowOutcome → Result ManifestError Bytes → Run
  put_manifest out (ok body) = put_done out body (a.put mkey body)
  put_manifest out (err e) = record { manifests = []; result = err (manifest e) }

  abbrev pub close_window : ℕ → WindowWriter × Result DrainError Unit → Run
  close_window dropped (ww, err e) = record { manifests = []; result = err e }
  close_window dropped (ww, ok _) =
      if opts.dry_run
      then record { manifests = []; result = ok (outcome_of ww dropped) }
      else put_manifest (outcome_of ww dropped) (to_json_bytes a.json (manifest_of ww))

  abbrev pub after_pages : Feed × Result DrainError Unit → Run
  after_pages (feed, err e) = record { manifests = []; result = err e }
  after_pages ((ww, dropped), ok _) = close_window dropped (finish_window o opts ww)

  unfoldable pub is_covered : Option Bytes → Bool
  is_covered none = false
  is_covered (some body) =
      manifest_covers_window a.json body opts.account opts.log_group w.start_ms w.end_ms

  abbrev pub drain_unless :
      List (Result CwError (List CwEvent)) → Result ManifestError (Option Bytes) → Run
  drain_unless pages (err e) = record { manifests = []; result = err (manifest e) }
  drain_unless pages (ok found) =
      if is_covered found
      then record { manifests = []; result = ok (record no_outcome { skipped = true }) }
      else after_pages (take_pages pages (open_window o opts w base, 0))

  unfoldable pub process_window : List (Result CwError (List CwEvent)) → Run
  unfolding take_pages take_events is_outside manifest_of is_covered
  process_window pages = drain_unless pages (a.get mkey)

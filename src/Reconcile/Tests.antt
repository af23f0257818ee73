-- ===== src/Reconcile/Tests.antt =====
-- A late event found in a window whose manifest lists nothing, and the same window once more.
use s4_logs.Prelude.{
  ℕ, ◌≡◌, ◌^◌, ◌<◌, ◌≤◌, refl, true, List, [], ◌∷◌, Option, none, some, All, arith, length,
}
use s4_logs.Prelude.Int.{pos}
use s4_logs.Prelude.Text.{Bytes, bytes, split, strip_suffix}
use s4_logs.Prelude.Decimal.{parse_i64}
use s4_logs.Prelude.Result.{Result, ok}
use s4_logs.Record.{LogRecord}
use s4_logs.Crates.Sample.{sample_crates, sample_crates-IsLawful, tally, signed, is_bare, at_time}
use s4_logs.Crates.Sample as Sample
use s4_logs.Jsonl.{jsonl, append_jsonl, record_lines, collect, next, cut_line, from_jsonl}
use s4_logs.Read.{decompress_frames, capped}
use s4_logs.Chunk.{
  add_u64, push, pend, cut_frame, compress_frame, close_frame, new, encode, finish,
  uncompressed_len,
}
use s4_logs.Cw.{CwError, CwEvent}
use s4_logs.Manifest.{Manifest, ManifestObject, to_json_bytes}
use s4_logs.Job.{open_window, finish_window, push_record, pushed, flush, flushed, count_chunk}
use s4_logs.Job as Job
use s4_logs.Job.Tests.{outside, options, first_hour}
use s4_logs.Process.{Archive, is_outside}
use s4_logs.Reconcile.{
  ChunkReadError, WindowReconcileOutcome, reconciled, read_archive, decode_object, reconcile_window,
  next_attempt, attempt_of, sweep_pages, sweep_events, repaired, identity_of, contains,
}
use s4_logs.Reconcile.Late.{marked, IsFresh, IsIn, late_of}
use s4_logs.Reconcile.Swept.{events_of, is_out}
use s4_logs.Reconcile.Complete.{IsRepaired, reconcile_complete}
use s4_logs.Reconcile.Again.{IsClean, reconcile_again}

abbrev late_event : CwEvent
late_event = record {
  timestamp = pos 1;
  message = [];
  log_stream_name = [];
  ingestion_time = none;
  event_id = none;
}

abbrev pages : List (Result CwError (List CwEvent))
pages = ok (late_event ∷ []) ∷ []

abbrev archive : Archive
archive = record {
  json = record { to_vec = λ m. some []; from_slice = λ b. none };
  get = λ key. ok none;
  put = λ key body. ok tt;
  now_ms = pos 9;
  drain_version = [];
}

abbrev get_object : Bytes → Result ChunkReadError (Option Bytes)
get_object key = ok (some (bytes "+i\n"))

abbrev empty_hour : Manifest
empty_hour = record {
  version = 1;
  account = options.account;
  log_group = options.log_group;
  window_start_ms = first_hour.start_ms;
  window_end_ms = first_hour.end_ms;
  objects = [];
  record_count = 0;
  completed_at_ms = pos 9;
  drain_version = [];
  reconciled_at_ms = none;
  reconciled_added = none;
}

abbrev added : ManifestObject
added = record {
  data_key = bytes "data/0-r010000.jsonl.zst";
  etag = none;
  crc32c = 3;
  body_len = 3;
  raw_bytes = some 3;
  storage_class = none;
  record_count = 1;
  min_ts = pos 1;
  max_ts = pos 1;
}

abbrev mended_hour : Manifest
mended_hour = record empty_hour { objects = added ∷ []; record_count = 1 }

attempts : next_attempt mended_hour ≡ 2
unfolding next_attempt attempt_of split strip_suffix parse_i64
attempts = refl

abbrev outcome : WindowReconcileOutcome
outcome = record {
  window = first_hour;
  action = reconciled;
  cw_events = 1;
  already_archived = 0;
  appended = 1;
  objects_written = 1;
}

mends :
    (reconcile_window outside archive get_object options [] first_hour pages empty_hour []).result
    ≡ ok outcome
unfolding reconcile_window sweep_pages sweep_events repaired read_archive next_attempt is_outside
    open_window finish_window push_record pushed flush flushed count_chunk Job.stored push pend
    add_u64 cut_frame compress_frame close_frame new encode finish uncompressed_len append_jsonl
    tally signed is_bare to_json_bytes
mends = refl

small_late :
    length (
      jsonl sample_crates
        (late_of (is_out outside archive get_object options [] first_hour) [] (events_of pages)))
    < 2 ^ 64
unfolding late_of is_outside signed tally
small_late = omega arith

reconcile_complete_example :
    (late : List LogRecord) × IsRepaired outside archive get_object options [] first_hour empty_hour
      [] late
      (reconcile_window outside archive get_object options [] first_hour pages empty_hour [])
      outcome
    × All
        (IsIn (is_out outside archive get_object options [] first_hour) (marked [] late))
        (events_of pages)
    × IsFresh [] late
unfolding read_archive
reconcile_complete_example =
    reconcile_complete outside archive get_object options [] first_hour sample_crates-IsLawful refl
      pages empty_hour [] [] outcome small_late (omega arith, tt) refl mends

abbrev archived_ids : List ℕ
archived_ids = identity_of (at_time (pos 1)) ∷ []

reads_back : read_archive sample_crates get_object mended_hour.objects [] ≡ ok archived_ids
unfolding read_archive decode_object decompress_frames capped record_lines collect next cut_line
    from_jsonl Sample.read
reads_back = refl

includes :
    (x : ℕ)
    → contains x (
        marked []
          (late_of (is_out outside archive get_object options [] first_hour) [] (events_of pages)))
      ≡ true
    → contains x archived_ids ≡ true
unfolding late_of is_outside
includes x h = h

few_attempts : next_attempt mended_hour ≤ 99
few_attempts = omega (arith, attempts)

reconcile_again_example :
    IsClean outside archive get_object options [] first_hour 1
      (reconcile_window outside archive get_object options [] first_hour pages mended_hour [])
unfolding is_outside
reconcile_again_example =
    reconcile_again outside archive get_object options [] first_hour pages mended_hour [] []
      archived_ids (tt, tt) few_attempts reads_back includes

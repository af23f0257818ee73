-- ===== src/Job/Tests.antt =====
-- A window of three records, put as three objects.
use s4_logs.Prelude.{◌≡◌, refl, none, some, length}
use s4_logs.Prelude.Int.{pos}
use s4_logs.Prelude.Text.{bytes}
use s4_logs.Prelude.Result.{ok}
use s4_logs.Crates.Sample.{tally, signed, is_bare, sample_crates, sample_crates-IsLawful}
use s4_logs.Jsonl.{jsonl, append_jsonl}
use s4_logs.Window.{Window, hour_ms}
use s4_logs.Chunk.{
  add_u64, close_frame, compress_frame, cut_frame, pend, push, encode, new, finish,
  uncompressed_len,
}
use s4_logs.Chunk.Tests.{small, three, three-HasTime, small_lines}
use s4_logs.Job.{
  DrainOptions, Outside, WindowWriter, base, default_options, open_window, fill, finish_window,
  push_record, pushed, flush, flushed, count_chunk,
}
use s4_logs.Job as Job
use s4_logs.Job.Books.{decoded, sum_records}
use s4_logs.Job.Filled.{fill_complete}

abbrev pub outside : Outside
outside = record {
  crates = sample_crates;
  date_from_ts_ms = λ t. bytes "1970-01-01";
  put_chunk = λ loc made. ok (record {
    data_key = bytes "key";
    index_key = bytes "index";
    ts_index_key = bytes "times";
    etag = none;
    crc32c = made.crc32c;
    body_len = length made.body;
    storage_class = none;
  });
}

abbrev pub options : DrainOptions
options = record (default_options (bytes "1") (bytes "/app")) {
  from_ms = some (pos 0);
  to_ms = some (pos hour_ms);
  chunk_target_bytes = 5;
  chunk = small;
}

abbrev pub first_hour : Window
first_hour = record { start_ms = pos 0; end_ms = pos hour_ms }

abbrev filled : WindowWriter
filled = (fill outside options three (open_window outside options first_hour base)).0

fill-three :
    fill outside options three (open_window outside options first_hour base) ≡ (filled, ok tt)
unfolding fill finish_window push_record pushed flush flushed count_chunk open_window Job.stored
    push pend add_u64 cut_frame compress_frame close_frame new encode finish uncompressed_len
    append_jsonl tally signed is_bare
fill-three = refl

fill_complete_example :
    (decoded sample_crates filled.puts ≡ jsonl sample_crates three)
    × (filled.records ≡ length three)
    × (filled.raw_bytes ≡ length (jsonl sample_crates three))
    × (sum_records filled.objects ≡ length three)
    × (length filled.objects ≡ length filled.puts)
fill_complete_example =
    fill_complete outside sample_crates-IsLawful options refl first_hour base three filled
      small_lines three-HasTime fill-three

-- ===== src/DrainRun/Tests.antt =====
-- A run over one hour.
use s4_logs.Prelude.{◌+◌, ◌≡◌, refl, ap, ◌∙◌, List, [], ◌∷◌, none, some, arith}
use s4_logs.Prelude.Int.{pos, ◌≤ℤ◌}
use s4_logs.Prelude.I64.{saturating_add, add_i64, mul_i64, div_i64, sub_i64}
use s4_logs.Prelude.Text.{bytes}
use s4_logs.Prelude.Result.{Result, ok}
use s4_logs.Window.{Window, hour_ms, align_down, next_boundary, windows, windows_loop, validate}
use s4_logs.Window.Cover.{Contains}
use s4_logs.Job.Tests.{outside, options, first_hour}
use s4_logs.Drain.{DrainError}
use s4_logs.Job.{DrainOptions}
use s4_logs.Process.{DrainReport, Run, absorb, process_window}
use s4_logs.Process.Tests.{archive, json_reads, pages, out, drained}
use s4_logs.Shard.{partition_streams, deal}
use s4_logs.DrainRun.{
  CwSource, GroupRun, resolve_range, compute_shards, run_windows, run, absorb_next, start_report,
  drain_groups, sort_results, group_options, no_report,
}
use s4_logs.DrainRun.Proven.{IsArchived, run_proves}

abbrev source : CwSource
source = record {
  describe_log_group =
      λ g. ok (record { retention_days = none; stored_bytes = none; creation_time_ms = pos 0 });
  list_log_streams = λ g p. ok [];
  event_pages = λ g w shards. pages;
}

abbrev in_turn : List Window → List Window
in_turn ws = ws

abbrev report : DrainReport
report = absorb (start_report outside archive source options [] (first_hour ∷ [])) out

range : resolve_range outside archive source options [] ≡ ok (pos 0, pos hour_ms)
unfolding resolve_range
range = refl

one_window :
    run outside archive source options [] (hour_ms + 1) in_turn
    ≡ absorb_next outside archive source options []
        (run_windows outside archive source options [] none [])
        (start_report outside archive source options [] (first_hour ∷ []))
        (process_window outside archive options [] first_hour pages)
unfolding run resolve_range compute_shards run_windows windows windows_loop align_down next_boundary
    validate saturating_add add_i64 mul_i64 div_i64 sub_i64
one_window = refl

ends : (run outside archive source options [] (hour_ms + 1) in_turn).result ≡ some (ok report)
unfolding run_windows
ends =
    ap (λ (z : GroupRun). z.result) one_window
    ∙ ap
        (λ (z : Run).
          (absorb_next outside archive source options []
            (run_windows outside archive source options [] none [])
            (start_report outside archive source options [] (first_hour ∷ [])) z).result)
        drained

whole_hour : next_boundary (align_down (pos 5) hour_ms) hour_ms ≤ℤ pos hour_ms
unfolding align_down next_boundary saturating_add add_i64 mul_i64 div_i64 sub_i64
whole_hour = omega arith

run_proves_example :
    (w : Window) × Contains 5 w
    × IsArchived outside archive options []
        (run outside archive source options [] (hour_ms + 1) in_turn).manifests
        w
run_proves_example =
    run_proves outside archive options [] json_reads refl source (hour_ms + 1) 0 hour_ms hour_ms 5
      in_turn report (λ w ws h. h) range refl (omega arith) (omega arith) (omega arith)
      (omega arith) ends (omega arith) (omega arith) whole_hour

-- Five streams in two shards, and a limit that makes three of them.
dealt :
    partition_streams (bytes "a" ∷ bytes "b" ∷ bytes "c" ∷ bytes "d" ∷ bytes "e" ∷ []) 2 100
    ≡ (bytes "a" ∷ bytes "c" ∷ bytes "e" ∷ []) ∷ (bytes "b" ∷ bytes "d" ∷ []) ∷ []
unfolding partition_streams deal
dealt = refl

dealt_more :
    partition_streams (bytes "a" ∷ bytes "b" ∷ bytes "c" ∷ bytes "d" ∷ bytes "e" ∷ []) 2 2
    ≡ (bytes "a" ∷ bytes "d" ∷ []) ∷ (bytes "b" ∷ bytes "e" ∷ []) ∷ (bytes "c" ∷ []) ∷ []
unfolding partition_streams deal
dealt_more = refl

abbrev job : DrainOptions → Result DrainError DrainReport
job opts = ok (record no_report { log_group = opts.log_group; records = 2 })

groups :
    (drain_groups job
      (λ gs. gs)
      options
      ((bytes "b", record { retention_days = none; stored_bytes = none; creation_time_ms = pos 1 })
        ∷ (
          bytes "a",
          record { retention_days = none; stored_bytes = none; creation_time_ms = pos 2 },
        )
        ∷ []))
    ≡ record {
      log_group = bytes "a";
      result = ok (record no_report { log_group = bytes "a"; records = 2 });
    }
      ∷ record {
        log_group = bytes "b";
        result = ok (record no_report { log_group = bytes "b"; records = 2 });
      }
      ∷ []
unfolding drain_groups sort_results group_options
groups = refl

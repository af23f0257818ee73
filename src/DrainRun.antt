-- ===== src/DrainRun.antt =====
-- crates/s4logs-drain/src/job.rs: the run over one group's windows, and the runs over several groups.
-- CloudWatch is a parameter, and so are the pages of a window in the order in which they arrive and
-- the order in which the windows come to an end. Log lines are left out.
pub mod Proven
mod Tests
use s4_logs.Prelude.{
  ℕ, suc, ◌+◌, Bool, true, false, ◌&&◌, ◌||◌, Option, none, some, List, [], ◌∷◌, ◌++◌, length, map,
  if◌then◌else◌, ltb, leb, ◌==◌,
}
use s4_logs.Prelude.Int.{ℤ}
use s4_logs.Prelude.I64.{saturating_sub}
use s4_logs.Prelude.Text.{Bytes, bytes}
use s4_logs.Prelude.Decimal.{show_ℕ}
use s4_logs.Prelude.Result.{Result, ok, err, ◌>>=◌}
use s4_logs.Window.{Window, WindowError, Outcome, windows}
use s4_logs.Chunk.{add_u64}
use s4_logs.Cw.{CwError, CwEvent}
use s4_logs.Drain.{DrainError, cw, window, bad_options}
use s4_logs.Job.{DrainOptions, Outside}
use s4_logs.Process.{Archive, Run, DrainReport, WindowOutcome, absorb, process_window}
use s4_logs.Shard.{partition_streams, max_streams_per_filter}
use s4_logs.Prelude.Order.{leb_bytes}

pub record LogGroupInfo : Type 0 where
  pub retention_days : Option ℤ
  pub stored_bytes : Option ℤ
  pub creation_time_ms : ℤ

pub record CwSource : Type 0 where
  pub describe_log_group : Bytes → Result CwError LogGroupInfo
  pub list_log_streams : Bytes → Option Bytes → Result CwError (List Bytes)
  pub event_pages :
      Bytes → Window → Option (List (List Bytes)) → List (Result CwError (List CwEvent))

abbrev pub or_cw : {A : Type 0} → Result CwError A → Result DrainError A
or_cw (ok x) = ok x
or_cw (err e) = err (cw e)

abbrev pub no_report : DrainReport
no_report = record {
  log_group = [];
  dry_run = false;
  windows_total = 0;
  windows_processed = 0;
  windows_skipped = 0;
  windows_empty = 0;
  records = 0;
  events_outside_window = 0;
  raw_bytes = 0;
  compressed_bytes = 0;
  objects_written = 0;
}

-- The manifests that were put, and the result; a run that did not end has none.
pub record GroupRun : Type 0 where
  pub manifests : List (Bytes × Bytes)
  pub result : Option (Result DrainError DrainReport)

module _ (o : Outside) (a : Archive) (cws : CwSource) (opts : DrainOptions)
    (key_prefix : Bytes) where
  abbrev pub from_of : Option ℤ → Result DrainError ℤ
  from_of (some f) = ok f
  from_of none = do info ← or_cw (cws.describe_log_group opts.log_group); ok info.creation_time_ms

  abbrev pub to_of : Option ℤ → ℤ
  to_of (some t) = t
  to_of none = saturating_sub a.now_ms opts.now_cutoff_ms

  unfoldable pub resolve_range : Result DrainError (ℤ × ℤ)
  resolve_range =
      if opts.chunk_target_bytes == 0
      then err (bad_options (bytes "chunk_target_bytes must be > 0"))
      else do from ← from_of opts.from_ms; ok (from, to_of opts.to_ms)

  abbrev pub at_least_two : List (List Bytes) → Option (List (List Bytes))
  at_least_two shards = if ltb (length shards) 2 then none else some shards

  unfoldable pub compute_shards : Result DrainError (Option (List (List Bytes)))
  compute_shards = if leb opts.shard_streams 1 then ok none else do
    names ← or_cw (cws.list_log_streams opts.log_group none)
    ok (at_least_two (partition_streams names opts.shard_streams max_streams_per_filter))

  abbrev pub absorb_by :
      (DrainReport → GroupRun)
      → DrainReport
      → List (Bytes × Bytes)
      → Result DrainError WindowOutcome
      → GroupRun
  absorb_by more report manifests (err e) = record { manifests = manifests; result = some (err e) }
  absorb_by more report manifests (ok out) =
      let rest = more (absorb report out) in
      record { manifests = manifests ++ rest.manifests; result = rest.result }

  abbrev pub absorb_next : (DrainReport → GroupRun) → DrainReport → Run → GroupRun
  absorb_next more report run = absorb_by more report run.manifests run.result

  -- The loop over the windows' results, up to the first error.
  unfoldable pub run_windows : Option (List (List Bytes)) → List Window → DrainReport → GroupRun
  run_windows shards [] report = record { manifests = []; result = some (ok report) }
  run_windows shards (w ∷ ws) report =
      absorb_next (run_windows shards ws) report
        (process_window o a opts key_prefix w (cws.event_pages opts.log_group w shards))

  abbrev pub start_report : List Window → DrainReport
  start_report ws = record no_report {
    log_group = opts.log_group;
    dry_run = opts.dry_run;
    windows_total = length ws;
  }

  -- `arrive` is the order in which the windows end.
  abbrev pub run_over :
      (List Window → List Window) → Option (List (List Bytes)) → Outcome (List Window) → GroupRun
  run_over arrive shards Outcome.diverged = record { manifests = []; result = none }
  run_over arrive shards (Outcome.err e) = record { manifests = []; result = some (err (window e)) }
  run_over arrive shards (Outcome.ok ws) = run_windows shards (arrive ws) (start_report ws)

  abbrev pub run_in :
      ℕ
      → (List Window → List Window)
      → ℤ × ℤ
      → Result DrainError (Option (List (List Bytes)))
      → GroupRun
  run_in fuel arrive (from, to) (err e) = record { manifests = []; result = some (err e) }
  run_in fuel arrive (from, to) (ok shards) =
      run_over arrive shards (windows fuel from to opts.window_ms)

  abbrev pub run_from : ℕ → (List Window → List Window) → Result DrainError (ℤ × ℤ) → GroupRun
  run_from fuel arrive (err e) = record { manifests = []; result = some (err e) }
  run_from fuel arrive (ok range) = run_in fuel arrive range compute_shards

  -- `DrainJob::run`
  unfoldable pub run : ℕ → (List Window → List Window) → GroupRun
  unfolding run_windows resolve_range compute_shards
  run fuel arrive = run_from fuel arrive resolve_range

pub record GroupDrainResult : Type 0 where
  pub log_group : Bytes
  pub result : Result DrainError DrainReport

abbrev pub is_failed : GroupDrainResult → Bool
is_failed g = elim g.result [ ok _ ↦ false | err _ ↦ true ]

-- `MultiDrainReport::any_failed`, `failures` and `succeeded`
unfoldable pub any_failed : List GroupDrainResult → Bool
any_failed [] = false
any_failed (g ∷ gs) = is_failed g || any_failed gs

abbrev pub failures : List GroupDrainResult → List (Bytes × DrainError)
failures [] = []
failures (g ∷ gs) = elim g.result [ ok _ ↦ failures gs | err e ↦ (g.log_group, e) ∷ failures gs ]

abbrev pub succeeded : List GroupDrainResult → List DrainReport
succeeded [] = []
succeeded (g ∷ gs) = elim g.result [ ok r ↦ r ∷ succeeded gs | err e ↦ succeeded gs ]

abbrev pub all_dry : List DrainReport → Bool
all_dry [] = true
all_dry (r ∷ rs) = r.dry_run && all_dry rs

unfoldable pub add_reports : DrainReport → List DrainReport → DrainReport
add_reports agg [] = agg
add_reports agg (r ∷ rs) =
    add_reports
      (record agg {
        windows_total = add_u64 agg.windows_total r.windows_total;
        windows_processed = add_u64 agg.windows_processed r.windows_processed;
        windows_skipped = add_u64 agg.windows_skipped r.windows_skipped;
        windows_empty = add_u64 agg.windows_empty r.windows_empty;
        records = add_u64 agg.records r.records;
        events_outside_window = add_u64 agg.events_outside_window r.events_outside_window;
        raw_bytes = add_u64 agg.raw_bytes r.raw_bytes;
        compressed_bytes = add_u64 agg.compressed_bytes r.compressed_bytes;
        objects_written = add_u64 agg.objects_written r.objects_written;
      })
      rs

unfoldable pub aggregate : List GroupDrainResult → DrainReport
unfolding add_reports
aggregate groups =
    let good = succeeded groups in
    add_reports
      (record no_report {
        log_group = show_ℕ (length good) ++ (b'/' ∷ show_ℕ (length groups) ++ bytes " log groups");
        dry_run = all_dry good && ltb 0 (length good);
      })
      good

-- `results.sort_by(log_group)`
abbrev pub insert_result : GroupDrainResult → List GroupDrainResult → List GroupDrainResult
insert_result x [] = x ∷ []
insert_result x (y ∷ ys) =
    let rest = insert_result x ys in
    if leb_bytes x.log_group y.log_group then x ∷ y ∷ ys else y ∷ rest

unfoldable pub sort_results : List GroupDrainResult → List GroupDrainResult
sort_results [] = []
sort_results (x ∷ xs) = insert_result x (sort_results xs)

-- The options of one group's job in `drain_groups`.
abbrev pub or_creation : Option ℤ → LogGroupInfo → Option ℤ
or_creation (some t) info = some t
or_creation none info = some info.creation_time_ms

unfoldable pub group_options : DrainOptions → Bytes × LogGroupInfo → DrainOptions
group_options base (name, info) = record base {
  log_group = name;
  from_ms = or_creation base.from_ms info;
}

-- `drain_groups`: `job` runs one group, and `arrive` is the order in which the groups end.
unfoldable pub drain_groups :
    (DrainOptions → Result DrainError DrainReport)
    → (List GroupDrainResult → List GroupDrainResult)
    → DrainOptions
    → List (Bytes × LogGroupInfo)
    → List GroupDrainResult
unfolding sort_results group_options
drain_groups job arrive base groups =
    sort_results
      (arrive (map (λ g. record { log_group = g.0; result = job (group_options base g) }) groups))

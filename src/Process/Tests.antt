-- ===== src/Process/Tests.antt =====
-- A window whose only event lies outside it, drained into an empty archive, and one that fails.
use s4_logs.Prelude.{
  ◌≡◌, refl, ap, Bool, true, false, ◌&&◌, ◌==◌, if◌then◌else◌, List, [], ◌∷◌, Option, none, some,
  arith,
}
use s4_logs.Prelude.Int.{pos, eqb_ℤ}
use s4_logs.Prelude.Text.{Bytes, bytes, eqb, eq_of_eqb}
use s4_logs.Prelude.Result.{Result, ok, err}
use s4_logs.Layout.{manifest_key}
use s4_logs.Chunk.{add_u64, encode, new, finish}
use s4_logs.Cw.{CwError, CwEvent, group_not_found}
use s4_logs.Manifest.{ManifestObject, Manifest, ManifestJson, to_json_bytes, manifest_covers_window}
use s4_logs.Drain.{cw}
use s4_logs.Job.{open_window, finish_window, flush, flushed}
use s4_logs.Job.Tests.{outside, options, first_hour}
use s4_logs.Process.{
  Archive, Run, WindowOutcome, no_outcome, process_window, take_pages, take_events, is_outside,
  manifest_of, is_covered,
}
use s4_logs.Process.Proven.{process_proves, process_rerun, process_fails}

-- The event is two hours late.
abbrev pub pages : List (Result CwError (List CwEvent))
pages =
    ok (
      record {
        timestamp = pos 7200000;
        message = [];
        log_stream_name = [];
        ingestion_time = none;
        event_id = none;
      }
      ∷ [])
    ∷ []

abbrev broken : List (Result CwError (List CwEvent))
broken = err (group_not_found (bytes "/app")) ∷ []

abbrev pub key : Bytes
key = manifest_key [] options.account options.log_group first_hour.start_ms first_hour.end_ms

abbrev pub empty_hour : Manifest
empty_hour = record {
  version = 1;
  account = options.account;
  log_group = options.log_group;
  window_start_ms = first_hour.start_ms;
  window_end_ms = first_hour.end_ms;
  objects = [];
  record_count = 0;
  completed_at_ms = pos 9;
  drain_version = [];
  reconciled_at_ms = none;
  reconciled_added = none;
}

abbrev pub is_absent : {A : Type 0} → Option A → Bool
is_absent none = true
is_absent (some x) = false

abbrev pub is_nil : List ManifestObject → Bool
is_nil [] = true
is_nil (m ∷ ms) = false

pub is_empty_hour : Manifest → Bool
is_empty_hour m =
    (m.version == 1)
    && (eqb m.account options.account
        && (eqb m.log_group options.log_group
            && (eqb_ℤ m.window_start_ms first_hour.start_ms
                && (eqb_ℤ m.window_end_ms first_hour.end_ms
                    && (is_nil m.objects
                        && ((m.record_count == 0)
                            && (eqb_ℤ m.completed_at_ms (pos 9)
                                && (eqb m.drain_version []
                                    && (is_absent m.reconciled_at_ms
                                        && is_absent m.reconciled_added)))))))))

is_empty_hour_lem : (m : Manifest) → is_empty_hour m ≡ true → empty_hour ≡ m
unfolding is_empty_hour
is_empty_hour_lem m h = ground (
  arith,
  eq_of_eqb m.account options.account (ground arith),
  eq_of_eqb m.log_group options.log_group (ground arith),
  eq_of_eqb m.drain_version [] (ground arith),
)

-- Only that manifest can be written, as `m`.
abbrev pub json : ManifestJson
json = record {
  to_vec = λ m. if is_empty_hour m then some (bytes "m") else none;
  from_slice = λ b. some empty_hour;
}

pub json_reads :
    (m : Manifest) (body : Bytes) → json.to_vec m ≡ some body → json.from_slice body ≡ some m
json_reads m body h = ap some (is_empty_hour_lem m (ground arith))

abbrev pub archive : Archive
archive = record {
  json = json;
  get = λ k. ok none;
  put = λ k body. ok tt;
  now_ms = pos 9;
  drain_version = [];
}

abbrev pub out : WindowOutcome
out = record no_outcome { dropped = 1 }

pub drained :
    process_window outside archive options [] first_hour pages
    ≡ record { manifests = (key, bytes "m") ∷ []; result = ok out }
unfolding process_window take_pages take_events is_outside is_covered manifest_of to_json_bytes
    is_empty_hour finish_window flush flushed open_window encode finish new add_u64
drained = refl

process_proves_example :
    (body : Bytes) × ((process_window outside archive options [] first_hour pages).manifests
      ≡ (key, body) ∷ [])
    × (manifest_covers_window json body options.account options.log_group first_hour.start_ms
          first_hour.end_ms
        ≡ true)
process_proves_example =
    process_proves outside archive options [] first_hour json_reads pages out refl
      (ap (λ (r : Run). r.result) drained) refl

process_rerun_example :
    process_window outside
      (record archive { get = λ k. ok (some (bytes "m")) })
      options
      []
      first_hour
      broken
    ≡ record { manifests = []; result = ok (record no_outcome { skipped = true }) }
process_rerun_example =
    process_rerun outside archive options [] first_hour json_reads pages broken (bytes "m")
      (λ k. ok (some (bytes "m"))) (ap (λ (r : Run). r.manifests) drained) refl

failed :
    process_window outside archive options [] first_hour broken
    ≡ record { manifests = []; result = err (cw (group_not_found (bytes "/app"))) }
unfolding process_window take_pages is_covered
failed = refl

process_fails_example : (process_window outside archive options [] first_hour broken).manifests ≡ []
process_fails_example =
    process_fails outside archive options [] first_hour json_reads broken
      (cw (group_not_found (bytes "/app"))) (ap (λ (r : Run). r.result) failed)

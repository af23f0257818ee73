-- ===== src/Reconcile.antt =====
-- crates/s4logs-drain/src/reconcile.rs: late events are added to windows that have a manifest. The
-- reader of objects, the pages, the manifest store and the clock are parameters; a hash set is the
-- list of what was inserted. The texts of errors and the progress events are left out.
pub mod Late
pub mod Swept
pub mod Complete
pub mod Again
mod Tests
use s4_logs.Prelude.{
  ℕ, zero, suc, ◌+◌, ◌*◌, ◌^◌, ◌%◌, Bool, true, false, ◌&&◌, ◌||◌, not, Option, none, some, List,
  [], ◌∷◌, ◌++◌, length, take, max, if◌then◌else◌, ltb, leb, ◌==◌,
}
use s4_logs.Prelude.Int.{ℤ, leb_ℤ}
use s4_logs.Prelude.Text.{Bytes, bytes, split, strip_prefix, strip_suffix}
use s4_logs.Prelude.Decimal.{parse_i64}
use s4_logs.Prelude.Result.{Result, ok, err, ◌>>=◌}
use s4_logs.Record.{LogRecord, RecordError}
use s4_logs.Crates.{Crates}
use s4_logs.Jsonl.{record_lines}
use s4_logs.Layout.{ChunkLocation, data_suffix}
use s4_logs.Read.{ReadError, decompress_frames, max_decompressed_bytes}
use s4_logs.Window.{Window}
use s4_logs.Chunk.{EncodedChunk, add_u64}
use s4_logs.Cw.{CwError, CwEvent}
use s4_logs.Manifest.{
  Manifest, ManifestObject, ManifestError, from_json_bytes, to_json_bytes, file_part,
}
use s4_logs.Drain.{DrainError, cw, manifest}
use s4_logs.Job.{
  DrainOptions, Outside, WindowWriter, ObjectNaming, reconcile, open_window, push_record,
  finish_window,
}
use s4_logs.Process.{Archive, Run, WindowOutcome, record_of, is_outside, mkey, process_window}
use s4_logs.Identity.{record_identity, fallback_identity}

pub record ChunkReadError : Type 0 where
  pub key : Bytes
  pub message : Bytes

pub data ReconcileError : Type 0 where
  drain_failed : DrainError → ReconcileError
  read_failed : ChunkReadError → ReconcileError
  missing_object : (key : Bytes) → ReconcileError
  corrupt : (key : Bytes) → ReconcileError
  too_many_attempts : (window_start_ms : ℤ) (limit : ℕ) → ReconcileError

pub data WindowAction : Type 0 where
  drained reconciled : WindowAction

pub record WindowReconcileOutcome : Type 0 where
  pub window : Window
  pub action : WindowAction
  pub cw_events : ℕ
  pub already_archived : ℕ
  pub appended : ℕ
  pub objects_written : ℕ

pub record ReconcileReport : Type 0 where
  pub log_group : Bytes
  pub dry_run : Bool
  pub windows_total : ℕ
  pub windows_drained : ℕ
  pub windows_reconciled : ℕ
  pub windows_repaired : ℕ
  pub cw_events : ℕ
  pub already_archived : ℕ
  pub appended : ℕ
  pub objects_written : ℕ
  pub windows : List WindowReconcileOutcome

-- `outcomes.sort_by_key(start_ms)`, which is stable.
abbrev pub insert_outcome :
    WindowReconcileOutcome → List WindowReconcileOutcome → List WindowReconcileOutcome
insert_outcome x [] = x ∷ []
insert_outcome x (y ∷ ys) =
    let rest = insert_outcome x ys in
    if leb_ℤ x.window.start_ms y.window.start_ms then x ∷ y ∷ ys else y ∷ rest

unfoldable pub sort_outcomes : List WindowReconcileOutcome → List WindowReconcileOutcome
sort_outcomes [] = []
sort_outcomes (x ∷ xs) = insert_outcome x (sort_outcomes xs)

abbrev pub count_action : WindowReconcileOutcome → WindowAction → ReconcileReport → ReconcileReport
count_action o drained r = record r { windows_drained = add_u64 r.windows_drained 1 }
count_action o reconciled r = record r {
  windows_reconciled = add_u64 r.windows_reconciled 1;
  windows_repaired = if ltb 0 o.appended then add_u64 r.windows_repaired 1 else r.windows_repaired;
}

-- The loop of `run` over the outcomes.
unfoldable pub sum_outcomes : List WindowReconcileOutcome → ReconcileReport → ReconcileReport
sum_outcomes [] r = r
sum_outcomes (o ∷ os) r =
    let r' = count_action o o.action r in
    sum_outcomes os (record r' {
      cw_events = add_u64 r'.cw_events o.cw_events;
      already_archived = add_u64 r'.already_archived o.already_archived;
      appended = add_u64 r'.appended o.appended;
      objects_written = add_u64 r'.objects_written o.objects_written;
    })

-- The report of `run`, from the outcomes in the order in which the windows came to an end.
unfoldable pub report_of :
    DrainOptions → List Window → List WindowReconcileOutcome → ReconcileReport
unfolding sort_outcomes sum_outcomes
report_of opts wins done =
    let outcomes = sort_outcomes done in
    record (sum_outcomes outcomes (record {
      log_group = opts.log_group;
      dry_run = opts.dry_run;
      windows_total = length wins;
      windows_drained = 0;
      windows_reconciled = 0;
      windows_repaired = 0;
      cw_events = 0;
      already_archived = 0;
      appended = 0;
      objects_written = 0;
      windows = [];
    })) { windows = outcomes }

-- `HashSet::contains`
abbrev pub contains : ℕ → List ℕ → Bool
contains x [] = false
contains x (y ∷ ys) = (x == y) || contains x ys

abbrev pub identity_of : LogRecord → ℕ
identity_of r = record_identity r.event_id r.timestamp r.stream r.message

-- `str::rsplit_once` at the last `sep`, by the parts between separators.
abbrev pub behind_last : List Bytes → Option Bytes
behind_last [] = none
behind_last (p ∷ []) = none
behind_last (p ∷ q ∷ ps) = file_part (q ∷ ps)

abbrev pub number : Option ℤ → ℕ
number (some (ℤ.pos n)) = n
number _ = 0

abbrev pub stem_of : Option Bytes → Option Bytes
stem_of none = none
stem_of (some base) = strip_suffix data_suffix base

abbrev pub suffix_of : Option Bytes → Option Bytes
suffix_of none = none
suffix_of (some stem) = behind_last (split b'-' stem)

abbrev pub digits_of : Option Bytes → Option Bytes
digits_of none = none
digits_of (some suffix) = strip_prefix (bytes "r") suffix

abbrev pub attempt_in : Option Bytes → ℕ
attempt_in none = 0
attempt_in (some digits) = if length digits == 6 then number (parse_i64 (take 2 digits)) else 0

-- The attempt that a key names, or 0.
unfoldable pub attempt_of : Bytes → ℕ
attempt_of key = attempt_in (digits_of (suffix_of (stem_of (file_part (split b'/' key)))))

abbrev pub max_attempt : List ManifestObject → ℕ
max_attempt [] = 0
max_attempt (obj ∷ objs) = max (attempt_of obj.data_key) (max_attempt objs)

unfoldable pub next_attempt : Manifest → ℕ
next_attempt m = max_attempt m.objects + 1

-- What a decoder that is read up to the cap and one byte more gives.
abbrev pub legacy_capped : Bytes → Bytes × Bool → Result ReconcileError Bytes
legacy_capped key (out, done) =
    if ltb max_decompressed_bytes (length out)
    then err (corrupt key)
    else if done
    then ok out
    else err (corrupt key)

abbrev pub or_corrupt : Bytes → Result ReadError Bytes → Result ReconcileError Bytes
or_corrupt key (ok out) = ok out
or_corrupt key (err e) = err (corrupt key)

unfoldable pub decode_object : Crates → ManifestObject → Bytes → Result ReconcileError Bytes
decode_object c obj body = elim obj.raw_bytes [
  | some raw ↦ or_corrupt obj.data_key (decompress_frames c body raw)
  | none ↦ legacy_capped obj.data_key (c.zstd_decode body)
]

-- The chunks that were put for a window that had a manifest, and the manifests, beside the result.
pub record Repair : Type 0 where
  pub puts : List (ChunkLocation × EncodedChunk)
  pub manifests : List (Bytes × Bytes)
  pub result : Result ReconcileError WindowReconcileOutcome

-- The state of the loop over the events.
pub record Sweep : Type 0 where
  pub seen : List ℕ
  pub cw_events : ℕ
  pub already : ℕ
  pub appended : ℕ
  pub ww : WindowWriter

abbrev pub is_known : List ℕ → CwEvent → Bool
is_known seen ev =
    contains (identity_of (record_of ev)) seen
    || (elim ev.event_id [ none ↦ false | some _ ↦ true ]
        && contains (fallback_identity ev.timestamp ev.log_stream_name ev.message) seen)

module _ (c : Crates) (get_object : Bytes → Result ChunkReadError (Option Bytes)) where
  -- The identities of an object's records, into the set.
  abbrev pub insert_records :
      Bytes → List (Result RecordError LogRecord) → List ℕ → Result ReconcileError (List ℕ)
  insert_records key [] seen = ok seen
  insert_records key (err e ∷ rs) seen = err (corrupt key)
  insert_records key (ok r ∷ rs) seen = insert_records key rs (identity_of r ∷ seen)

  abbrev pub fetched :
      ManifestObject → Result ChunkReadError (Option Bytes) → Result ReconcileError Bytes
  fetched obj (err e) = err (read_failed e)
  fetched obj (ok none) = err (missing_object obj.data_key)
  fetched obj (ok (some body)) = ok body

  abbrev pub read_object : ManifestObject → List ℕ → Result ReconcileError (List ℕ)
  read_object obj seen = do
    body ← fetched obj (get_object obj.data_key)
    raw ← decode_object c obj body
    insert_records obj.data_key (record_lines c raw) seen

  -- The identities of everything that is archived for the window.
  unfoldable pub read_archive : List ManifestObject → List ℕ → Result ReconcileError (List ℕ)
  read_archive [] seen = ok seen
  read_archive (obj ∷ objs) seen = do seen' ← read_object obj seen; read_archive objs seen'

module _ (o : Outside) (a : Archive) (get_object : Bytes → Result ChunkReadError (Option Bytes))
    (opts : DrainOptions) (key_prefix : Bytes) (w : Window) where
  abbrev pub Swept : Type 0
  Swept = Sweep × Result ReconcileError Unit

  abbrev pub append_next : Sweep → (Sweep → Swept) → WindowWriter × Result DrainError Unit → Swept
  append_next s more (ww, ok _) = more (record s { ww = ww })
  append_next s more (ww, err e) = (record s { ww = ww }, err (drain_failed e))

  abbrev pub count_known : Sweep → Sweep
  count_known s = record s { cw_events = add_u64 s.cw_events 1; already = add_u64 s.already 1 }

  abbrev pub count_late : CwEvent → Sweep → Sweep
  count_late ev s = record s {
    seen = identity_of (record_of ev) ∷ s.seen;
    cw_events = add_u64 s.cw_events 1;
    appended = add_u64 s.appended 1;
  }

  -- The loop over a page's events.
  unfoldable pub sweep_events : List CwEvent → Sweep → Swept
  sweep_events [] s = (s, ok tt)
  sweep_events (ev ∷ evs) s = elim (is_outside o a opts key_prefix w ev) [
    | true ↦ sweep_events evs s
    | false ↦ elim (is_known s.seen ev) [
      | true ↦ sweep_events evs (count_known s)
      | false ↦
          append_next (count_late ev s) (sweep_events evs) (push_record o opts (record_of ev) s.ww)
    ]
  ]

  abbrev pub page_next : (Sweep → Swept) → Swept → Swept
  page_next more (s, ok _) = more s
  page_next more (s, err e) = (s, err e)

  -- The loop over the pages.
  unfoldable pub sweep_pages : List (Result CwError (List CwEvent)) → Sweep → Swept
  sweep_pages [] s = (s, ok tt)
  sweep_pages (err e ∷ pages) s = (s, err (drain_failed (cw e)))
  sweep_pages (ok events ∷ pages) s = page_next (sweep_pages pages) (sweep_events events s)

  abbrev pub or_zero : Option ℕ → ℕ
  or_zero none = 0
  or_zero (some n) = n

  unfoldable pub repaired : Manifest → ℕ → WindowWriter → Manifest
  repaired m appended ww = record m {
    record_count = add_u64 m.record_count appended;
    reconciled_added = some (add_u64 (or_zero m.reconciled_added) appended);
    reconciled_at_ms = some a.now_ms;
    objects = m.objects ++ ww.objects;
  }

  abbrev pub reconcile_outcome : Sweep → WindowReconcileOutcome
  reconcile_outcome s = record {
    window = w;
    action = reconciled;
    cw_events = s.cw_events;
    already_archived = s.already;
    appended = s.appended;
    objects_written = s.ww.objects_written;
  }

  abbrev pub repair_failed : WindowWriter → ReconcileError → Repair
  repair_failed ww e = record { puts = ww.puts; manifests = []; result = err e }

  abbrev pub put_updated : Sweep → Bytes → Bytes → Result ManifestError Unit → Repair
  put_updated s key body (err e) = repair_failed s.ww (drain_failed (manifest e))
  put_updated s key body (ok _) = record {
    puts = s.ww.puts;
    manifests = (key, body) ∷ [];
    result = ok (reconcile_outcome s);
  }

  abbrev pub update_manifest : Sweep → Bytes → Result ManifestError Bytes → Repair
  update_manifest s key (err e) = repair_failed s.ww (drain_failed (manifest e))
  update_manifest s key (ok body) = put_updated s key body (a.put key body)

  abbrev pub close_repair :
      Manifest → Bytes → Sweep → WindowWriter × Result DrainError Unit → Repair
  close_repair m key s (ww, err e) = repair_failed ww (drain_failed e)
  close_repair m key s (ww, ok _) =
      let s' : Sweep = record s { ww = ww } in
      if ltb 0 s.appended && not opts.dry_run
      then update_manifest s' key (to_json_bytes a.json (repaired m s.appended ww))
      else record { puts = ww.puts; manifests = []; result = ok (reconcile_outcome s') }

  abbrev pub after_sweep : Manifest → Bytes → Swept → Repair
  after_sweep m key (s, err e) = repair_failed s.ww e
  after_sweep m key (s, ok _) = close_repair m key s (finish_window o opts s.ww)

  abbrev pub start_sweep : ℕ → List ℕ → Sweep
  start_sweep attempt seen = record {
    seen = seen;
    cw_events = 0;
    already = 0;
    appended = 0;
    ww = open_window o opts w (reconcile attempt);
  }

  abbrev pub sweep_unless :
      List (Result CwError (List CwEvent))
      → Manifest
      → Bytes
      → Result ReconcileError (List ℕ)
      → Repair
  sweep_unless pages m key (err e) = record { puts = []; manifests = []; result = err e }
  sweep_unless pages m key (ok seen) =
      if ltb 99 (next_attempt m)
      then record { puts = []; manifests = []; result = err (too_many_attempts w.start_ms 99) }
      else after_sweep m key (sweep_pages pages (start_sweep (next_attempt m) seen))

  unfoldable pub reconcile_window : List (Result CwError (List CwEvent)) → Manifest → Bytes → Repair
  unfolding sweep_pages sweep_events repaired
  reconcile_window pages m key =
      sweep_unless pages m key (read_archive o.crates get_object m.objects [])

  abbrev pub drained_outcome :
      Result DrainError WindowOutcome → Result ReconcileError WindowReconcileOutcome
  drained_outcome (err e) = err (drain_failed e)
  drained_outcome (ok out) = ok (record {
    window = w;
    action = drained;
    cw_events = out.records;
    already_archived = 0;
    appended = out.records;
    objects_written = out.objects_written;
  })

  -- A window that is drained lists its manifests only.
  abbrev pub drained_repair : Run → Repair
  drained_repair run = record {
    puts = [];
    manifests = run.manifests;
    result = drained_outcome run.result;
  }

  abbrev pub with_manifest :
      List (Result CwError (List CwEvent)) → Result ManifestError Manifest → Repair
  with_manifest pages (err e) = record {
    puts = [];
    manifests = [];
    result = err (drain_failed (manifest e));
  }
  with_manifest pages (ok m) = reconcile_window pages m (mkey o a opts key_prefix w)

  abbrev pub with_existing :
      List (Result CwError (List CwEvent)) → Result ManifestError (Option Bytes) → Repair
  with_existing pages (err e) = record {
    puts = [];
    manifests = [];
    result = err (drain_failed (manifest e));
  }
  with_existing pages (ok none) = drained_repair (process_window o a opts key_prefix w pages)
  with_existing pages (ok (some body)) = with_manifest pages (from_json_bytes a.json body)

  -- `ReconcileJob::process_window`
  unfoldable pub process_or_reconcile : List (Result CwError (List CwEvent)) → Repair
  unfolding reconcile_window
  process_or_reconcile pages = with_existing pages (a.get (mkey o a opts key_prefix w))

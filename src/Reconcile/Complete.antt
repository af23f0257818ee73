-- ===== src/Reconcile/Complete.antt =====
-- What a repair adds to the archive, and what a second one finds.
use s4_logs.Prelude.{
  ℕ, ◌^◌, ◌<◌, ◌≡◌, refl, sym, ap, ◌∙◌, subst, Bool, true, false, ◌&&◌, not, Option, some, List, [],
  ◌∷◌, ◌++◌, append-nil, length, All, arith, Bool-cases, inl, inr, if◌then◌else◌, ltb, ◌⊎◌,
}
use s4_logs.Prelude.I64.{IsI64}
use s4_logs.Prelude.Text.{Bytes}
use s4_logs.Prelude.Result.{Result, ok, err}
use s4_logs.Record.{LogRecord}
use s4_logs.Crates.{IsLawful}
use s4_logs.Jsonl.{jsonl}
use s4_logs.Window.{Window}
use s4_logs.Chunk.{add_u64}
use s4_logs.Chunk.Frames.{HasTime, length-le-jsonl}
use s4_logs.Cw.{CwError, CwEvent}
use s4_logs.Drain.{DrainError}
use s4_logs.Manifest.{Manifest, ManifestObject, ManifestError, to_json_bytes}
use s4_logs.Job.{DrainOptions, Outside, WindowWriter, reconcile, open_window, finish_window, fill}
use s4_logs.Job.Books.{decoded, sum_records}
use s4_logs.Job.Filled.{fill_complete}
use s4_logs.Process.{Archive}
use s4_logs.Reconcile.{
  ReconcileError, ChunkReadError, WindowReconcileOutcome, Repair, Sweep, sweep_pages, start_sweep,
  close_repair, after_sweep, sweep_unless, read_archive, next_attempt, reconcile_window, repaired,
  update_manifest, put_updated, reconcile_outcome, or_zero, too_many_attempts,
}
use s4_logs.Reconcile.Late.{marked, IsFresh, late_of, IsIn, late_of-IsIn, late_of-HasTime}
use s4_logs.Reconcile.Swept.{events_of, is_out, IsSwept, sweep_pages_lem}

module _ (o : Outside) (a : Archive) (get_object : Bytes → Result ChunkReadError (Option Bytes))
    (opts : DrainOptions) (key_prefix : Bytes) (w : Window) where
  -- One manifest was put: the old one with the new entries, which count the late records.
  abbrev pub IsUpdate : Manifest → Bytes → ℕ → Repair → Type 0
  IsUpdate m key n run =
      (objects : List ManifestObject) × (body : Bytes) × (run.manifests ≡ (key, body) ∷ [])
      × (length objects ≡ length run.puts)
      × (sum_records objects ≡ n)
      × (to_json_bytes a.json (record m {
        record_count = add_u64 m.record_count n;
        reconciled_added =
            some (add_u64 (or_zero o a get_object opts key_prefix w m.reconciled_added) n);
        reconciled_at_ms = some a.now_ms;
        objects = m.objects ++ objects;
      })
          ≡ ok body)

  -- What a repair that succeeds did for the late records.
  abbrev pub IsRepaired :
      Manifest → Bytes → List LogRecord → Repair → WindowReconcileOutcome → Type 0
  IsRepaired m key late run out =
      (decoded o.crates run.puts ≡ jsonl o.crates late)
      × (out.appended ≡ length late)
      × (((late ≡ []) × (run.manifests ≡ [])) ⊎ IsUpdate m key (length late) run)

  module _ (law : IsLawful o.crates) (real : opts.dry_run ≡ false) where
    updated_lem :
        (m : Manifest) (key : Bytes) (s : Sweep) (late : List LogRecord)
        (out : WindowReconcileOutcome) (r : Result ManifestError Bytes)
        → to_json_bytes a.json (repaired o a get_object opts key_prefix w m s.appended s.ww) ≡ r
        → s.appended ≡ length late
        → decoded o.crates s.ww.puts ≡ jsonl o.crates late
        → sum_records s.ww.objects ≡ length late
        → length s.ww.objects ≡ length s.ww.puts
        → (update_manifest o a get_object opts key_prefix w s key r).result ≡ ok out
        → IsRepaired m key late (update_manifest o a get_object opts key_prefix w s key r) out
    unfolding repaired
    updated_lem m key s late out (err x) made n d sums puts e = cc
    updated_lem m key s late out (ok body) made n d sums puts e = go (a.put key body) e
      where
        go :
            (r : Result ManifestError Unit)
            → (put_updated o a get_object opts key_prefix w s key body r).result ≡ ok out
            → IsRepaired m key late (put_updated o a get_object opts key_prefix w s key body r) out
        go (err x) k = cc
        go (ok x) k =
            let same : reconcile_outcome o a get_object opts key_prefix w s ≡ out = cc in
            (
              d,
              ap (λ (z : WindowReconcileOutcome). z.appended) (sym same) ∙ n,
              inr (s.ww.objects, body, refl, puts, sums, rw n at made),
            )

    close_lem :
        (m : Manifest) (key : Bytes) (s : Sweep) (late : List LogRecord) (attempt : ℕ)
        (out : WindowReconcileOutcome) (p : WindowWriter × Result DrainError Unit)
        → length (jsonl o.crates late) < 2 ^ 64
        → All HasTime late
        → s.appended ≡ length late
        → fill o opts late (open_window o opts w (reconcile attempt)) ≡ p
        → (close_repair o a get_object opts key_prefix w m key s p).result ≡ ok out
        → IsRepaired m key late (close_repair o a get_object opts key_prefix w m key s p) out
    close_lem m key s late attempt out (ww, err x) fits times n e k = cc
    close_lem m key s late attempt out (ww, ok x) fits times n e k =
        let (d, count, raw, sums, puts) =
          fill_complete o law opts real w (reconcile attempt) late ww fits times e in
        let s' : Sweep = record s { ww = ww } in
        let clean : Repair = record {
          puts = ww.puts;
          manifests = [];
          result = ok (reconcile_outcome o a get_object opts key_prefix w s');
        } in
        let update : Repair =
          update_manifest o a get_object opts key_prefix w s' key
            (to_json_bytes a.json (repaired o a get_object opts key_prefix w m s.appended ww)) in
        let Good : Repair → Type 0 = λ run. run.result ≡ ok out → IsRepaired m key late run out in
        elim (Bool-cases (ltb 0 s.appended && not opts.dry_run)) [
          | inl some_late ↦
              subst Good (sym (ap (λ (b : Bool). if b then update else clean) some_late))
                (updated_lem m key s' late out _ refl n d sums puts) k
          | inr none_late ↦
              let empty : late ≡ [] = nothing late (rw real at none_late) (sym n) in
              subst Good (sym (ap (λ (b : Bool). if b then update else clean) none_late))
                (λ k'. (
                  d,
                  ap (λ (z : WindowReconcileOutcome). z.appended) (same_outcome k') ∙ n,
                  inl (empty, refl),
                ))
                k
        ]
      where
        nothing :
            (rs : List LogRecord)
            → (ltb 0 s.appended && true) ≡ false
            → length rs ≡ s.appended
            → rs ≡ []
        nothing [] p q = refl
        nothing (r ∷ rs) p q = absurd (ground arith)

        same_outcome :
            ◌≡◌ {A = Result ReconcileError WindowReconcileOutcome}
              (ok (reconcile_outcome o a get_object opts key_prefix w (record s { ww = ww })))
              (ok out)
            → out ≡ reconcile_outcome o a get_object opts key_prefix w (record s { ww = ww })
        same_outcome k' = cc

    -- If `reconcile_window` succeeds in a run that is not dry, there is a list of late records,
    -- none with an identity of the archive or of an earlier one, such that every event of the
    -- window is known by the identities of the archive and of these records; the bodies put
    -- decode, one after the other, to their lines; the outcome counts them; and either there are
    -- none and no manifest was put, or one was put, at the given key, which is the old one with
    -- the new entries, whose counts sum to the late records; crates are lawful, timestamps are
    -- `i64`, the late records' lines take less than 2^64 bytes, and the archive was read.
    pub reconcile_complete :
        (pages : List (Result CwError (List CwEvent))) (m : Manifest) (key : Bytes) (seen : List ℕ)
        (out : WindowReconcileOutcome)
        → length (
            jsonl o.crates
              (late_of (is_out o a get_object opts key_prefix w) seen (events_of pages)))
          < 2 ^ 64
        → All (λ (ev : CwEvent). IsI64 ev.timestamp) (events_of pages)
        → read_archive o.crates get_object m.objects [] ≡ ok seen
        → (reconcile_window o a get_object opts key_prefix w pages m key).result ≡ ok out
        → (late : List LogRecord) × IsRepaired m key late
            (reconcile_window o a get_object opts key_prefix w pages m key)
            out
          × All
              (IsIn (is_out o a get_object opts key_prefix w) (marked seen late))
              (events_of pages)
          × IsFresh seen late
    unfolding reconcile_window
    reconcile_complete pages m key seen out fits times reads e =
        let (known, fresh) =
          late_of-IsIn (is_out o a get_object opts key_prefix w) seen (events_of pages) in
        (late, main, known, fresh)
      where
        late : List LogRecord
        late = late_of (is_out o a get_object opts key_prefix w) seen (events_of pages)

        s0 : Sweep
        s0 = start_sweep o a get_object opts key_prefix w (next_attempt m) seen

        swept :
            (p : Sweep × Result ReconcileError Unit)
            → sweep_pages o a get_object opts key_prefix w pages s0 ≡ p
            → (after_sweep o a get_object opts key_prefix w m key p).result ≡ ok out
            → IsRepaired m key late (after_sweep o a get_object opts key_prefix w m key p) out
        swept (s, err x) q k = cc
        swept (s, ok x) q k =
            let l : IsSwept o a get_object opts key_prefix w s0 s late =
              sweep_pages_lem o a get_object opts key_prefix w pages s0 s q in
            close_lem m key s late (next_attempt m) out (finish_window o opts s.ww) fits
              (late_of-HasTime (is_out o a get_object opts key_prefix w) seen (events_of pages)
                times)
              (omega (arith, l.appended (omega arith), length-le-jsonl o.crates late))
              (ap (λ z. fill o opts z s0.ww) (sym (append-nil late))
                ∙ (l.fills [] ∙ unfold fill in refl))
              k

        main :
            IsRepaired m key late
              (reconcile_window o a get_object opts key_prefix w pages m key)
              out
        main =
            let Good : Repair → Type 0 =
              λ run. run.result ≡ ok out → IsRepaired m key late run out in
            let refused : Repair = record {
              puts = [];
              manifests = [];
              result = err (too_many_attempts w.start_ms 99);
            } in
            let swept_run : Repair =
              after_sweep o a get_object opts key_prefix w m key
                (sweep_pages o a get_object opts key_prefix w pages s0) in
            subst (λ z. Good (sweep_unless o a get_object opts key_prefix w pages m key z))
              (sym reads)
              (elim (Bool-cases (ltb 99 (next_attempt m))) [
                | inl many ↦
                    subst Good (sym (ap (λ (b : Bool). if b then refused else swept_run) many))
                      (λ k. cc)
                | inr few ↦
                    subst Good (sym (ap (λ (b : Bool). if b then refused else swept_run) few))
                      (swept (sweep_pages o a get_object opts key_prefix w pages s0) refl)
              ])
              e

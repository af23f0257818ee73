-- ===== src/Process/Proven.antt =====
-- The manifest that a run puts, and what a later run makes of it.
use s4_logs.Prelude.{
  ℕ, ◌≡◌, ◌⊎◌, inl, inr, refl, sym, ap, true, false, Bool, Option, some, List, [], ◌∷◌, subst,
  if◌then◌else◌, Option-cases, arith, Bool-cases,
}
use s4_logs.Prelude.Text.{Bytes}
use s4_logs.Prelude.Result.{Result, ok, err}
use s4_logs.Layout.{manifest_key}
use s4_logs.Window.{Window}
use s4_logs.Cw.{CwError, CwEvent}
use s4_logs.Manifest.{Manifest, ManifestError, to_json_bytes, manifest_covers_window}
use s4_logs.Manifest.Proof.{manifest_covers_window_iff}
use s4_logs.Drain.{DrainError}
use s4_logs.Job.{DrainOptions, Outside, WindowWriter, base, open_window, finish_window}
use s4_logs.Process.{
  WindowOutcome, no_outcome, Archive, Run, Feed, take_pages, mkey, manifest_of, outcome_of,
  put_done, put_manifest, close_window, after_pages, is_covered, drain_unless, process_window,
}

module _ (o : Outside) (a : Archive) (opts : DrainOptions) (key_prefix : Bytes) (w : Window) where
  -- A run that puts nothing, or only a proof of the window, and then succeeds.
  abbrev IsHonest : Run → Type 0
  IsHonest run =
      ((run.manifests ≡ [])
        × ((out : WindowOutcome)
            → run.result ≡ ok out
            → (out.skipped ≡ true) ⊎ (opts.dry_run ≡ true)))
      ⊎ ((body : Bytes) × (out : WindowOutcome) × (run.manifests
            ≡ (manifest_key key_prefix opts.account opts.log_group w.start_ms w.end_ms, body) ∷ [])
          × (run.result ≡ ok out)
          × (manifest_covers_window a.json body opts.account opts.log_group w.start_ms w.end_ms
              ≡ true))

  -- A run that ends in an error.
  failed : (x : DrainError) → IsHonest (record { manifests = []; result = err x })
  failed x = inl (refl, λ out e. absurd (ground arith))

  module _
      (reads : (m : Manifest) (body : Bytes)
        → a.json.to_vec m ≡ some body
        → a.json.from_slice body ≡ some m) where
    written :
        (m : Manifest) (body : Bytes)
        → to_json_bytes a.json m ≡ ok body
        → a.json.to_vec m ≡ some body
    unfolding to_json_bytes
    written m body e = elim (Option-cases (a.json.to_vec m)) [
      | inl fails ↦ absurd (ground (arith, fails))
      | inr (bytes, gives) ↦ ground (arith, gives)
    ]

    covers :
        (ww : WindowWriter) (body : Bytes)
        → to_json_bytes a.json (manifest_of o a opts key_prefix w ww) ≡ ok body
        → manifest_covers_window a.json body opts.account opts.log_group w.start_ms w.end_ms ≡ true
    unfolding manifest_of
    covers ww body e =
        let m : Manifest = manifest_of o a opts key_prefix w ww in
        (manifest_covers_window_iff a.json body opts.account opts.log_group w.start_ms w.end_ms).1
          (m, reads m body (written m body e), (refl, refl, refl, refl, refl))

    done-IsHonest :
        (out : WindowOutcome) (body : Bytes) (r : Result ManifestError Unit)
        → manifest_covers_window a.json body opts.account opts.log_group w.start_ms w.end_ms ≡ true
        → IsHonest (put_done o a opts key_prefix w out body r)
    done-IsHonest out body (err x) c = failed (DrainError.manifest x)
    done-IsHonest out body (ok x) c = inr (body, out, refl, refl, c)

    put-IsHonest :
        (ww : WindowWriter) (out : WindowOutcome) (r : Result ManifestError Bytes)
        → to_json_bytes a.json (manifest_of o a opts key_prefix w ww) ≡ r
        → IsHonest (put_manifest o a opts key_prefix w out r)
    put-IsHonest ww out (err x) e = failed (DrainError.manifest x)
    put-IsHonest ww out (ok body) e =
        done-IsHonest out body (a.put (mkey o a opts key_prefix w) body) (covers ww body e)

    close-IsHonest :
        (dropped : ℕ) (p : WindowWriter × Result DrainError Unit)
        → IsHonest (close_window o a opts key_prefix w dropped p)
    close-IsHonest dropped (ww, err x) = failed x
    close-IsHonest dropped (ww, ok x) =
        let out : WindowOutcome = outcome_of o a opts key_prefix w ww dropped in
        let dry_end : Run = record { manifests = []; result = ok out } in
        let real_end : Run =
          put_manifest o a opts key_prefix w out
            (to_json_bytes a.json (manifest_of o a opts key_prefix w ww)) in
        elim (Bool-cases opts.dry_run) [
          | inl dry ↦
              subst IsHonest (sym (ap (λ (d : Bool). if d then dry_end else real_end) dry))
                (inl (refl, λ out' e. inr dry))
          | inr real ↦
              subst IsHonest (sym (ap (λ (d : Bool). if d then dry_end else real_end) real)) (
                put-IsHonest ww out (to_json_bytes a.json (manifest_of o a opts key_prefix w ww))
                  refl)
        ]

    after-IsHonest :
        (p : Feed o a opts key_prefix w × Result DrainError Unit)
        → IsHonest (after_pages o a opts key_prefix w p)
    after-IsHonest (feed, err x) = failed x
    after-IsHonest ((ww, dropped), ok x) = close-IsHonest dropped (finish_window o opts ww)

    found-IsHonest :
        (pages : List (Result CwError (List CwEvent))) (r : Result ManifestError (Option Bytes))
        → IsHonest (drain_unless o a opts key_prefix w pages r)
    found-IsHonest pages (err x) = failed (DrainError.manifest x)
    found-IsHonest pages (ok found) =
        let skip : Run = record {
          manifests = [];
          result = ok (record no_outcome { skipped = true });
        } in
        let go_on : Run =
          after_pages o a opts key_prefix w
            (take_pages o a opts key_prefix w pages (open_window o opts w base, 0)) in
        elim (Bool-cases (is_covered o a opts key_prefix w found)) [
          | inl proven ↦
              subst IsHonest (sym (ap (λ (d : Bool). if d then skip else go_on) proven))
                (inl (refl, λ out e. inl (ground arith)))
          | inr open_still ↦
              subst IsHonest (sym (ap (λ (d : Bool). if d then skip else go_on) open_still)) (
                after-IsHonest
                  (take_pages o a opts key_prefix w pages (open_window o opts w base, 0)))
        ]

    -- A run for one window that is not dry and does not skip it succeeds only if it put one
    -- manifest, at the window's key, and that object proves the window; a manifest's JSON is to be
    -- read back.
    pub process_proves :
        (pages : List (Result CwError (List CwEvent))) (out : WindowOutcome)
        → opts.dry_run ≡ false
        → (process_window o a opts key_prefix w pages).result ≡ ok out
        → out.skipped ≡ false
        → (body : Bytes) × ((process_window o a opts key_prefix w pages).manifests
            ≡ (manifest_key key_prefix opts.account opts.log_group w.start_ms w.end_ms, body) ∷ [])
          × (manifest_covers_window a.json body opts.account opts.log_group w.start_ms w.end_ms
              ≡ true)
    unfolding process_window
    process_proves pages out real succeeds fresh =
        elim (found-IsHonest pages (a.get (mkey o a opts key_prefix w))) [
          | inl (nothing, why) ↦ elim (why out succeeds) [
            | inl skipped ↦ absurd (ground arith)
            | inr dry ↦ absurd (ground arith)
          ]
          | inr (body, out', put, _, proof) ↦ (body, put, proof)
        ]

    -- After a run that put a manifest for a window, a run with a store that has it at the window's
    -- key skips the window, whatever its pages, and puts no manifest; a manifest's JSON is to be
    -- read back.
    pub process_rerun :
        (pages pages' : List (Result CwError (List CwEvent))) (body : Bytes)
        (get : Bytes → Result ManifestError (Option Bytes))
        → (process_window o a opts key_prefix w pages).manifests
          ≡ (manifest_key key_prefix opts.account opts.log_group w.start_ms w.end_ms, body) ∷ []
        → get (manifest_key key_prefix opts.account opts.log_group w.start_ms w.end_ms)
          ≡ ok (some body)
        → process_window o (record a { get = get }) opts key_prefix w pages'
          ≡ record { manifests = []; result = ok (record no_outcome { skipped = true }) }
    unfolding process_window
    process_rerun pages pages' body get puts finds =
        elim (found-IsHonest pages (a.get (mkey o a opts key_prefix w))) [
          | inl (nothing, why) ↦ absurd (ground arith)
          | inr (body', out', put, _, proof) ↦
              let same : body' ≡ body = ground arith in rw finds (rw (rw same at proof) refl)
        ]

    -- A run for one window that ends in an error put no manifest; a manifest's JSON is to be read
    -- back.
    pub process_fails :
        (pages : List (Result CwError (List CwEvent))) (x : DrainError)
        → (process_window o a opts key_prefix w pages).result ≡ err x
        → (process_window o a opts key_prefix w pages).manifests ≡ []
    unfolding process_window
    process_fails pages x fails = elim (found-IsHonest pages (a.get (mkey o a opts key_prefix w))) [
      | inl (nothing, why) ↦ nothing
      | inr (body, out', put, succeeds, proof) ↦ absurd (ground arith)
    ]

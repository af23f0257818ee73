-- ===== src/DrainRun/Proven.antt =====
-- A run that succeeds, against the windows of its range.
use s4_logs.Prelude.{
  ℕ, ◌+◌, ◌≤◌, ◌<◌, ◌^◌, ◌≡◌, refl, sym, ap, ◌∙◌, subst, Bool, true, false, Option, none, some,
  List, [], ◌∷◌, ◌++◌, Any, Bool-cases, inl, inr, ◌⊎◌, if◌then◌else◌,
}
use s4_logs.Prelude.Int.{pos, ◌≤ℤ◌}
use s4_logs.Prelude.Text.{Bytes}
use s4_logs.Prelude.Result.{Result, ok, err, Result-cases}
use s4_logs.Layout.{manifest_key}
use s4_logs.Window.{Window, Outcome, windows, day_ms, align_down, next_boundary}
use s4_logs.Window.Cover.{Contains, windows_cover}
use s4_logs.Cw.{CwError, CwEvent}
use s4_logs.Drain.{DrainError}
use s4_logs.Manifest.{Manifest, ManifestError, manifest_covers_window}
use s4_logs.Job.{DrainOptions, Outside, WindowWriter, base, open_window, finish_window}
use s4_logs.Process.{
  Archive, Run, WindowOutcome, no_outcome, DrainReport, absorb, Feed, mkey, process_window,
  drain_unless, after_pages, close_window, put_manifest, put_done, outcome_of, is_covered,
  take_pages, manifest_of,
}
use s4_logs.Manifest.{to_json_bytes}
use s4_logs.Process.Proven.{process_proves}
use s4_logs.DrainRun.{
  CwSource, GroupRun, resolve_range, compute_shards, absorb_by, absorb_next, run_windows,
  start_report, run_over, run_in, run_from, run,
}

abbrev pub Among : Window → List Window → Type 0
Among w = Any (λ x. x ≡ w)

Any-Among : (P : Window → Type 0) (ws : List Window) → Any P ws → (w : Window) × P w × Among w ws
Any-Among P [] h = absurd h
Any-Among P (w ∷ ws) (inl p) = (w, p, inl refl)
Any-Among P (w ∷ ws) (inr h) = let (x, p, e) = Any-Among P ws h in (x, p, inr e)

Any-append_left :
    (P : Bytes × Bytes → Type 0) (xs ys : List (Bytes × Bytes)) → Any P xs → Any P (xs ++ ys)
Any-append_left P [] ys h = absurd h
Any-append_left P (x ∷ xs) ys (inl h) = inl h
Any-append_left P (x ∷ xs) ys (inr h) = inr (Any-append_left P xs ys h)

Any-append_right :
    (P : Bytes × Bytes → Type 0) (xs ys : List (Bytes × Bytes)) → Any P ys → Any P (xs ++ ys)
Any-append_right P [] ys h = h
Any-append_right P (x ∷ xs) ys h = inr (Any-append_right P xs ys h)

module _ (o : Outside) (a : Archive) (opts : DrainOptions) (key_prefix : Bytes) where
  -- A stored or put object proves the window.
  abbrev pub IsProof : Window → Bytes × Bytes → Type 0
  IsProof w (key, body) =
      (key ≡ manifest_key key_prefix opts.account opts.log_group w.start_ms w.end_ms)
      × (manifest_covers_window a.json body opts.account opts.log_group w.start_ms w.end_ms ≡ true)

  -- Among the manifests put, or in the store before.
  abbrev pub IsArchived : List (Bytes × Bytes) → Window → Type 0
  IsArchived manifests w =
      Any (IsProof w) manifests
      ⊎ ((body : Bytes) × (a.get
              (manifest_key key_prefix opts.account opts.log_group w.start_ms w.end_ms)
            ≡ ok (some body))
          × (manifest_covers_window a.json body opts.account opts.log_group w.start_ms w.end_ms
              ≡ true))

  module _ (w : Window) where
    abbrev IsDrained : Run → Type 0
    IsDrained run' = (out : WindowOutcome) → run'.result ≡ ok out → out.skipped ≡ false

    put_manifest-IsDrained :
        (ww : WindowWriter) (dropped : ℕ) (r : Result ManifestError Bytes)
        → IsDrained
            (put_manifest o a opts key_prefix w (outcome_of o a opts key_prefix w ww dropped) r)
    put_manifest-IsDrained ww dropped (err x) out e = cc
    put_manifest-IsDrained ww dropped (ok body) out e =
        go (a.put (mkey o a opts key_prefix w) body) e
      where
        go :
            (r : Result ManifestError Unit)
            → (put_done o a opts key_prefix w
                (outcome_of o a opts key_prefix w ww dropped)
                body
                r).result
              ≡ ok out
            → out.skipped ≡ false
        go (err x) k = cc
        go (ok x) k =
            let same : outcome_of o a opts key_prefix w ww dropped ≡ out = cc in
            ap (λ (z : WindowOutcome). z.skipped) (sym same)

    close_window-IsDrained :
        (dropped : ℕ) (p : WindowWriter × Result DrainError Unit)
        → IsDrained (close_window o a opts key_prefix w dropped p)
    close_window-IsDrained dropped (ww, err x) = λ out e. cc
    close_window-IsDrained dropped (ww, ok x) =
        let dry_end : Run = record {
          manifests = [];
          result = ok (outcome_of o a opts key_prefix w ww dropped);
        } in
        let real_end : Run =
          put_manifest o a opts key_prefix w (outcome_of o a opts key_prefix w ww dropped)
            (to_json_bytes a.json (manifest_of o a opts key_prefix w ww)) in
        elim (Bool-cases opts.dry_run) [
          | inl dry ↦
              subst IsDrained (sym (ap (λ (b : Bool). if b then dry_end else real_end) dry))
                (λ out e.
                  let same : outcome_of o a opts key_prefix w ww dropped ≡ out = cc in
                  ap (λ (z : WindowOutcome). z.skipped) (sym same))
          | inr real ↦
              subst IsDrained (sym (ap (λ (b : Bool). if b then dry_end else real_end) real)) (
                put_manifest-IsDrained ww dropped
                  (to_json_bytes a.json (manifest_of o a opts key_prefix w ww)))
        ]

    after_pages-IsDrained :
        (p : Feed o a opts key_prefix w × Result DrainError Unit)
        → IsDrained (after_pages o a opts key_prefix w p)
    after_pages-IsDrained (feed, err x) = λ out e. cc
    after_pages-IsDrained ((ww, dropped), ok x) =
        close_window-IsDrained dropped (finish_window o opts ww)

    -- A window is skipped only if the store proves it.
    skipped_lem :
        (pages : List (Result CwError (List CwEvent))) (out : WindowOutcome)
        → (process_window o a opts key_prefix w pages).result ≡ ok out
        → out.skipped ≡ true
        → (body : Bytes) × (a.get (mkey o a opts key_prefix w) ≡ ok (some body))
          × (manifest_covers_window a.json body opts.account opts.log_group w.start_ms w.end_ms
              ≡ true)
    unfolding process_window is_covered
    skipped_lem pages out e skipped = go (a.get (mkey o a opts key_prefix w)) refl e
      where
        drains : Run
        drains =
            after_pages o a opts key_prefix w
              (take_pages o a opts key_prefix w pages (open_window o opts w base, 0))

        skip : Run
        skip = record { manifests = []; result = ok (record no_outcome { skipped = true }) }

        drained : drains.result ≡ ok out → ⊥
        drained k =
            let not_skipped =
              after_pages-IsDrained
                (take_pages o a opts key_prefix w pages (open_window o opts w base, 0)) out k in
            let clash : true ≡ false = sym skipped ∙ not_skipped in cc

        go :
            (r : Result ManifestError (Option Bytes))
            → a.get (mkey o a opts key_prefix w) ≡ r
            → (drain_unless o a opts key_prefix w pages r).result ≡ ok out
            → (body : Bytes) × (a.get (mkey o a opts key_prefix w) ≡ ok (some body))
              × (manifest_covers_window a.json body opts.account opts.log_group w.start_ms w.end_ms
                  ≡ true)
        go (err x) q k = cc
        go (ok none) q k = absurd (drained k)
        go (ok (some body)) q k =
            elim (Bool-cases (
              manifest_covers_window a.json body opts.account opts.log_group w.start_ms w.end_ms)) [
                | inl proof ↦ (body, q, proof)
                | inr open_still ↦ absurd (
                    drained (
                      subst (λ (run' : Run). run'.result ≡ ok out)
                        (ap (λ (b : Bool). if b then skip else drains) open_still) k))
              ]

    module _
        (reads : (m : Manifest) (body : Bytes)
          → a.json.to_vec m ≡ some body
          → a.json.from_slice body ≡ some m)
        (real : opts.dry_run ≡ false) where
      window_lem :
          (pages : List (Result CwError (List CwEvent))) (out : WindowOutcome)
          → (process_window o a opts key_prefix w pages).result ≡ ok out
          → IsArchived (process_window o a opts key_prefix w pages).manifests w
      window_lem pages out e = elim (Bool-cases out.skipped) [
        | inl skipped ↦ inr (skipped_lem pages out e skipped)
        | inr fresh ↦
            let (body, puts, proof) =
              process_proves o a opts key_prefix w reads pages out real e fresh in
            inl (subst (λ z. Any (IsProof w) z) (sym puts) (inl (refl, proof)))
      ]

  module _
      (reads : (m : Manifest) (body : Bytes)
        → a.json.to_vec m ≡ some body
        → a.json.from_slice body ≡ some m)
      (real : opts.dry_run ≡ false) (cws : CwSource) where
    more_IsArchived :
        (w : Window) (xs ys : List (Bytes × Bytes)) → IsArchived ys w → IsArchived (xs ++ ys) w
    more_IsArchived w xs ys (inl h) = inl (Any-append_right (IsProof w) xs ys h)
    more_IsArchived w xs ys (inr h) = inr h

    absorb_lem :
        (x : Window) (more : DrainReport → GroupRun) (report out : DrainReport) (run' : Run)
        → ((o' : WindowOutcome) → run'.result ≡ ok o' → IsArchived run'.manifests x)
        → (absorb_next o a cws opts key_prefix more report run').result ≡ some (ok out)
        → IsArchived (absorb_next o a cws opts key_prefix more report run').manifests x
          × ((o' : WindowOutcome) × (run'.result ≡ ok o')
              × ((more (absorb report o')).result ≡ some (ok out))
              × ((absorb_next o a cws opts key_prefix more report run').manifests
                  ≡ run'.manifests ++ (more (absorb report o')).manifests))
    absorb_lem x more report out run' proves e = elim (Result-cases run'.result) [
      | inl (o', done) ↦
          let goes : absorb_next o a cws opts key_prefix more report run' ≡ record {
            manifests = run'.manifests ++ (more (absorb report o')).manifests;
            result = (more (absorb report o')).result;
          } =
            ap (absorb_by o a cws opts key_prefix more report run'.manifests) done in
          let e' : (more (absorb report o')).result ≡ some (ok out) =
            ap (λ (z : GroupRun). z.result) (sym goes) ∙ e in
          (
            subst (λ (z : GroupRun). IsArchived z.manifests x) (sym goes) (left _ (proves o' done)),
            (o', done, e', ap (λ (z : GroupRun). z.manifests) goes),
          )
      | inr (x', fails) ↦ absurd (
          let goes : absorb_next o a cws opts key_prefix more report run'
              ≡ record { manifests = run'.manifests; result = some (err x') } =
            ap (absorb_by o a cws opts key_prefix more report run'.manifests) fails in
          let clash : some (err x') ≡ some (ok out) =
            ap (λ (z : GroupRun). z.result) (sym goes) ∙ e in
          cc)
    ]
      where
        left :
            (ys : List (Bytes × Bytes))
            → IsArchived run'.manifests x
            → IsArchived (run'.manifests ++ ys) x
        left ys (inl h) = inl (Any-append_left (IsProof x) run'.manifests ys h)
        left ys (inr h) = inr h

    run_windows_lem :
        (shards : Option (List (List Bytes))) (ws : List Window) (report out : DrainReport)
        (w : Window)
        → (run_windows o a cws opts key_prefix shards ws report).result ≡ some (ok out)
        → Among w ws
        → IsArchived (run_windows o a cws opts key_prefix shards ws report).manifests w
    unfolding run_windows
    run_windows_lem shards [] report out w e h = absurd h
    run_windows_lem shards (x ∷ ws) report out w e h =
        let pages = cws.event_pages opts.log_group x shards in
        let (here, (o', done, e', all_of)) =
          absorb_lem x (run_windows o a cws opts key_prefix shards ws) report out
            (process_window o a opts key_prefix x pages)
            (λ o' k. window_lem x reads real pages o' k) e in
        elim h [
          | inl same ↦ subst (IsArchived _) same here
          | inr among ↦
              subst (λ z. IsArchived z w) (sym all_of)
                (more_IsArchived w (process_window o a opts key_prefix x pages).manifests _
                  (run_windows_lem shards ws (absorb report o') out w e' among))
        ]

    -- If a run over one group that is not dry succeeds, each instant from the start of its range
    -- up to the end whose own grid window ends by that end lies in a window that is archived: the
    -- run put a manifest object at the window's key that proves the window, or the store had one;
    -- a manifest's JSON is to be read back, the range is resolved, the window length is positive,
    -- the range keeps a day's distance from the end of `i64`, the fuel is beyond its end, and
    -- every window of the range comes to an end.
    pub run_proves :
        (fuel from to length_ms t : ℕ) (arrive : List Window → List Window) (report : DrainReport)
        → ((w : Window) (ws : List Window) → Among w ws → Among w (arrive ws))
        → resolve_range o a cws opts key_prefix ≡ ok (pos from, pos to)
        → opts.window_ms ≡ pos length_ms
        → 0 < length_ms
        → from + day_ms < 2 ^ 63
        → to + day_ms < 2 ^ 63
        → to < fuel
        → (run o a cws opts key_prefix fuel arrive).result ≡ some (ok report)
        → from ≤ t
        → t < to
        → next_boundary (align_down (pos t) length_ms) length_ms ≤ℤ pos to
        → (w : Window) × Contains t w
          × IsArchived (run o a cws opts key_prefix fuel arrive).manifests w
    unfolding run
    run_proves fuel from to length_ms t arrive report arrives range width some_width hf ht enough e
          lo hi complete =
        subst Good (sym (ap (run_from o a cws opts key_prefix fuel arrive) range))
          (with_shards (compute_shards o a cws opts key_prefix)) e
      where
        Good : GroupRun → Type 0
        Good g =
            g.result ≡ some (ok report) → (w : Window) × Contains t w × IsArchived g.manifests w

        over :
            (shards : Option (List (List Bytes))) (r : Outcome (List Window))
            → windows fuel (pos from) (pos to) opts.window_ms ≡ r
            → Good (run_over o a cws opts key_prefix arrive shards r)
        over shards Outcome.diverged q = λ k. cc
        over shards (Outcome.err x) q = λ k. cc
        over shards (Outcome.ok ws) q = λ k.
            let found : Any (Contains t) ws =
              windows_cover fuel from to length_ms some_width hf ht enough ws t (rw width at q) lo
                hi complete in
            let (w, contains, among) = Any-Among (Contains t) ws found in
            (
              w,
              contains,
              run_windows_lem shards (arrive ws) (start_report o a cws opts key_prefix ws) report w
                  k (arrives w ws among),
            )

        with_shards :
            (r : Result DrainError (Option (List (List Bytes))))
            → Good (run_in o a cws opts key_prefix fuel arrive (pos from, pos to) r)
        with_shards (err x) = λ k. cc
        with_shards (ok shards) = over shards (windows fuel (pos from) (pos to) opts.window_ms) refl

-- ===== src/Reconcile/Again.antt =====
-- A repair of a window whose events are all archived.
use s4_logs.Prelude.{
  ℕ, ◌+◌, ◌%◌, ◌^◌, ◌++◌, length, length-append, filter, filter-append, ◌≤◌, ◌≡◌, refl, sym, ap,
  ◌∙◌, subst, Bool, false, ◌&&◌, not, Option, List, [], ◌∷◌, All, All-append_left, All-append_right,
  arith, Bool-cases, inl, inr, if◌then◌else◌, ltb,
}
use s4_logs.Prelude.Text.{Bytes}
use s4_logs.Prelude.Result.{Result, ok, err}
use s4_logs.Window.{Window}
use s4_logs.Chunk.{add_u64, encode, new, finish}
use s4_logs.Cw.{CwError, CwEvent}
use s4_logs.Manifest.{Manifest, to_json_bytes}
use s4_logs.Job.{
  DrainOptions, Outside, WindowWriter, ObjectNaming, reconcile, open_window, finish_window, flush,
  flushed,
}
use s4_logs.Process.{Archive}
use s4_logs.Reconcile.{
  ReconcileError, ChunkReadError, WindowReconcileOutcome, Repair, Sweep, count_known, page_next,
  sweep_events, sweep_pages, start_sweep, close_repair, after_sweep, sweep_unless, read_archive,
  next_attempt, reconcile_window, reconcile_outcome, update_manifest, repaired, too_many_attempts,
}
use s4_logs.Reconcile.Late.{marked, Includes, late_of, IsIn, late_of-IsIn, IsIn-Includes}
use s4_logs.Reconcile.Swept.{events_of, is_out}

-- No page is an error.
abbrev pub IsPage : Result CwError (List CwEvent) → Type 0
IsPage (ok evs) = Unit {0}
IsPage (err e) = ⊥

module _ (o : Outside) (a : Archive) (get_object : Bytes → Result ChunkReadError (Option Bytes))
    (opts : DrainOptions) (key_prefix : Bytes) (w : Window) where
  -- The number of events that the window holds.
  abbrev pub inside : List CwEvent → ℕ
  inside evs = length (filter (λ ev. not (is_out o a get_object opts key_prefix w ev)) evs)

  -- The loop found nothing new, and counted `n` events, by counters of 64 bits.
  abbrev IsIdle : ℕ → Sweep → Sweep × Result ReconcileError Unit → Type 0
  IsIdle n s (s', r) =
      (r ≡ ok tt)
      × (s'.ww ≡ s.ww)
      × (s'.seen ≡ s.seen)
      × (s'.appended ≡ s.appended)
      × ((k : ℕ) → s.already ≡ k % 2 ^ 64 → s'.already ≡ (k + n) % 2 ^ 64)
      × ((k : ℕ) → s.cw_events ≡ k % 2 ^ 64 → s'.cw_events ≡ (k + n) % 2 ^ 64)

  -- One event more.
  add_one : (k c : ℕ) → c ≡ k % 2 ^ 64 → add_u64 c 1 ≡ (k + 1) % 2 ^ 64
  unfolding add_u64
  add_one k c e = omega (arith, e)

  sweep_events-IsIdle :
      (evs : List CwEvent) (s : Sweep)
      → All (IsIn (is_out o a get_object opts key_prefix w) s.seen) evs
      → IsIdle (inside evs) s (sweep_events o a get_object opts key_prefix w evs s)
  unfolding sweep_events
  sweep_events-IsIdle [] s h =
      (refl, refl, refl, refl, λ k e. omega (arith, e), λ k e. omega (arith, e))
  sweep_events-IsIdle (ev ∷ evs) s h =
      elim (Bool-cases (is_out o a get_object opts key_prefix w ev)) [
        | inl out ↦ rw (out, sweep_events) (sweep_events-IsIdle evs s h.1)
        | inr here ↦
            let (done, ww, seen, appended, known, total) =
              sweep_events-IsIdle evs (count_known o a get_object opts key_prefix w s) h.1 in
            rw (here, h.0 here, sweep_events)
              (
                done,
                ww,
                seen,
                appended,
                λ k e. omega (arith, known (k + 1) (add_one k s.already e)),
                λ k e. omega (arith, total (k + 1) (add_one k s.cw_events e)),
              )
      ]

  inside_append : (xs ys : List CwEvent) → inside (xs ++ ys) ≡ inside xs + inside ys
  inside_append xs ys =
      ap (λ (z : List CwEvent). length z)
        (filter-append (λ ev. not (is_out o a get_object opts key_prefix w ev)) xs ys)
      ∙ length-append (filter (λ ev. not (is_out o a get_object opts key_prefix w ev)) xs)
          (filter (λ ev. not (is_out o a get_object opts key_prefix w ev)) ys)

  sweep_pages-IsIdle :
      (pages : List (Result CwError (List CwEvent))) (s : Sweep)
      → All IsPage pages
      → All (IsIn (is_out o a get_object opts key_prefix w) s.seen) (events_of pages)
      → IsIdle (inside (events_of pages)) s (sweep_pages o a get_object opts key_prefix w pages s)
  unfolding sweep_pages
  sweep_pages-IsIdle [] s whole h =
      (refl, refl, refl, refl, λ k e. omega (arith, e), λ k e. omega (arith, e))
  sweep_pages-IsIdle (err e ∷ pages) s whole h = absurd whole.0
  sweep_pages-IsIdle (ok evs ∷ pages) s whole h =
      let In : CwEvent → Type 0 = IsIn (is_out o a get_object opts key_prefix w) s.seen in
      go (sweep_events o a get_object opts key_prefix w evs s)
        (sweep_events-IsIdle evs s (All-append_left In evs (events_of pages) h))
        (λ t same. sweep_pages-IsIdle pages t whole.1 (
          subst (λ z. All (IsIn (is_out o a get_object opts key_prefix w) z) (events_of pages))
            (sym same) (All-append_right In evs (events_of pages) h)))
    where
      go :
          (p : Sweep × Result ReconcileError Unit)
          → IsIdle (inside evs) s p
          → ((t : Sweep)
              → t.seen ≡ s.seen
              → IsIdle
                  (inside (events_of pages))
                  t
                  (sweep_pages o a get_object opts key_prefix w pages t))
          → IsIdle (inside (evs ++ events_of pages)) s (
              page_next o a get_object opts key_prefix w
                (sweep_pages o a get_object opts key_prefix w pages)
                p)
      go (t, err e) (done, ww, seen, appended, known, total) ih = cc
      go (t, ok x) (done, ww, seen, appended, known, total) ih =
          let (done', ww', seen', appended', known', total') = ih t seen in
          let both = inside_append evs (events_of pages) in
          (
            done',
            ww' ∙ ww,
            seen' ∙ seen,
            appended' ∙ appended,
            λ k e. omega (arith, both, known' (k + inside evs) (known k e)),
            λ k e. omega (arith, both, total' (k + inside evs) (total k e)),
          )

  finish_window-open_window :
      (naming : ObjectNaming)
      → finish_window o opts (open_window o opts w naming) ≡ (open_window o opts w naming, ok tt)
  unfolding finish_window open_window flush flushed finish encode new
  finish_window-open_window naming = refl

  -- Nothing was put, and each of `n` events counts as seen and as archived, by counters of 64 bits.
  abbrev pub IsClean : ℕ → Repair → Type 0
  IsClean n run =
      (run.puts ≡ [])
      × (run.manifests ≡ [])
      × ((out : WindowReconcileOutcome) × (run.result ≡ ok out)
          × (out.appended ≡ 0)
          × (out.objects_written ≡ 0)
          × (out.already_archived ≡ n % 2 ^ 64)
          × (out.cw_events ≡ n % 2 ^ 64))

  after_sweep-IsClean :
      (n : ℕ) (m : Manifest) (key : Bytes) (attempt : ℕ) (seen : List ℕ)
      (p : Sweep × Result ReconcileError Unit)
      → IsIdle n (start_sweep o a get_object opts key_prefix w attempt seen) p
      → IsClean n (after_sweep o a get_object opts key_prefix w m key p)
  after_sweep-IsClean n m key attempt seen (s, err e) (done, ww, same, appended, known, total) = cc
  after_sweep-IsClean n m key attempt seen (s, ok x) (done, ww, same, appended, known, total) =
      let fresh : WindowWriter = open_window o opts w (reconcile attempt) in
      subst (λ z. IsClean n (close_repair o a get_object opts key_prefix w m key s z))
        (sym (ap (finish_window o opts) ww ∙ finish_window-open_window (reconcile attempt)))
        (subst
          (λ (b : Bool). IsClean n (
            if b
            then update
            else record { puts = fresh.puts; manifests = []; result = ok (outcome s fresh) }))
          (sym quiet)
          (unfold open_window in
            (
              refl,
              refl,
              (
                outcome s fresh,
                refl,
                appended,
                refl,
                omega (arith, known 0 (omega arith)),
                omega (arith, total 0 (omega arith)),
              ),
            )))
    where
      outcome : Sweep → WindowWriter → WindowReconcileOutcome
      outcome s' ww' = reconcile_outcome o a get_object opts key_prefix w (record s' { ww = ww' })

      update : Repair
      update =
          update_manifest o a get_object opts key_prefix w
            (record s { ww = open_window o opts w (reconcile attempt) }) key
            (to_json_bytes a.json (
              repaired o a get_object opts key_prefix w m s.appended
                (open_window o opts w (reconcile attempt))))

      quiet : (ltb 0 s.appended && not opts.dry_run) ≡ false
      quiet = rw appended refl

  -- If the archive of a window has the identities that a first pass over its events leaves, and no
  -- page fails, a further pass over the same events puts no chunk and no manifest, and its outcome
  -- appends nothing and counts, by counters of 64 bits, every event that the pages hold of the
  -- window as seen and as archived; the manifest names fewer than 99 attempts.
  pub reconcile_again :
      (pages : List (Result CwError (List CwEvent))) (m : Manifest) (key : Bytes)
      (seen more : List ℕ)
      → All IsPage pages
      → next_attempt m ≤ 99
      → read_archive o.crates get_object m.objects [] ≡ ok more
      → Includes more
          (marked seen (late_of (is_out o a get_object opts key_prefix w) seen (events_of pages)))
      → IsClean
          (inside (events_of pages))
          (reconcile_window o a get_object opts key_prefix w pages m key)
  unfolding reconcile_window
  reconcile_again pages m key seen more whole few reads inc =
      let known =
        IsIn-Includes (is_out o a get_object opts key_prefix w) more _ (events_of pages) inc
          (late_of-IsIn (is_out o a get_object opts key_prefix w) seen (events_of pages)).0 in
      let s0 : Sweep = start_sweep o a get_object opts key_prefix w (next_attempt m) more in
      let swept : Repair =
        after_sweep o a get_object opts key_prefix w m key
          (sweep_pages o a get_object opts key_prefix w pages s0) in
      let below : ltb 99 (next_attempt m) ≡ false = ground arith in
      subst
        (λ z.
          IsClean (inside (events_of pages))
            (sweep_unless o a get_object opts key_prefix w pages m key z))
        (sym reads)
        (subst (λ (b : Bool). IsClean (inside (events_of pages)) (if b then refused else swept))
          (sym below)
          (after_sweep-IsClean (inside (events_of pages)) m key (next_attempt m) more
            (sweep_pages o a get_object opts key_prefix w pages s0)
            (sweep_pages-IsIdle pages s0 whole known)))
    where
      refused : Repair
      refused = record { puts = []; manifests = []; result = err (too_many_attempts w.start_ms 99) }

-- ===== src/Reconcile/Swept.antt =====
-- The loop over the events of a repair, against the late records as a function of the events.
use s4_logs.Prelude.{
  ℕ, ◌+◌, ◌%◌, ◌^◌, ◌<◌, ◌≡◌, refl, sym, ap, ◌∙◌, subst, Bool, Option, List, [], ◌∷◌, ◌++◌,
  append_assoc, length, length-append, arith, Bool-cases, inl, inr,
}
use s4_logs.Prelude.Text.{Bytes}
use s4_logs.Prelude.Result.{Result, ok, err}
use s4_logs.Record.{LogRecord}
use s4_logs.Window.{Window}
use s4_logs.Chunk.{add_u64}
use s4_logs.Cw.{CwError, CwEvent}
use s4_logs.Drain.{DrainError}
use s4_logs.Job.{DrainOptions, Outside, WindowWriter, push_record, fill, fill_rest}
use s4_logs.Process.{Archive, record_of, is_outside}
use s4_logs.Reconcile.{
  ReconcileError, ChunkReadError, Sweep, identity_of, is_known, append_next, count_known,
  count_late, page_next, sweep_events, sweep_pages,
}
use s4_logs.Reconcile.Late.{marked, late_of, late_out, late_known, late_new, late_of-append}

-- The events of pages that are all there.
abbrev pub events_of : List (Result CwError (List CwEvent)) → List CwEvent
events_of [] = []
events_of (ok evs ∷ pages) = evs ++ events_of pages
events_of (err e ∷ pages) = events_of pages

marked-append :
    (seen : List ℕ) (xs ys : List LogRecord) → marked seen (xs ++ ys) ≡ marked (marked seen xs) ys
marked-append seen [] ys = refl
marked-append seen (r ∷ xs) ys = marked-append (identity_of r ∷ seen) xs ys

module _ (o : Outside) (a : Archive) (get_object : Bytes → Result ChunkReadError (Option Bytes))
    (opts : DrainOptions) (key_prefix : Bytes) (w : Window) where
  abbrev pub is_out : CwEvent → Bool
  is_out = is_outside o a opts key_prefix w

  -- From `s` the loop got to `s'`, appending `late`.
  pub record IsSwept (s s' : Sweep) (late : List LogRecord) : Type 0 where
    pub fills : (rest : List LogRecord) → fill o opts (late ++ rest) s.ww ≡ fill o opts rest s'.ww
    pub seen : s'.seen ≡ marked s.seen late
    pub appended : s.appended < 2 ^ 64 → s'.appended ≡ (s.appended + length late) % 2 ^ 64

  pub IsSwept-nil : (s : Sweep) → IsSwept s s []
  IsSwept-nil s = record { fills = λ rest. refl; seen = refl; appended = λ small. omega arith }

  IsSwept-append :
      (s t u : Sweep) (xs ys : List LogRecord)
      → IsSwept s t xs
      → IsSwept t u ys
      → IsSwept s u (xs ++ ys)
  IsSwept-append s t u xs ys p q = record {
    fills = λ rest.
        ap (λ z. fill o opts z s.ww) (append_assoc xs ys rest)
        ∙ (p.fills (ys ++ rest) ∙ q.fills rest);
    seen = q.seen ∙ (ap (λ z. marked z ys) p.seen ∙ sym (marked-append s.seen xs ys));
    appended = λ small. omega (
      arith,
      p.appended small,
      q.appended (omega (arith, p.appended small)),
      length-append xs ys,
    );
  }

  IsSwept-count_known :
      (s s' : Sweep) (late : List LogRecord)
      → IsSwept (count_known o a get_object opts key_prefix w s) s' late
      → IsSwept s s' late
  IsSwept-count_known s s' late p = record { fills = p.fills; seen = p.seen; appended = p.appended }

  sweep_one :
      (ev : CwEvent) (s : Sweep) (ww : WindowWriter)
      → push_record o opts (record_of ev) s.ww ≡ (ww, ok tt)
      → IsSwept s
          (record (count_late o a get_object opts key_prefix w ev s) { ww = ww })
          (record_of ev ∷ [])
  unfolding fill add_u64
  sweep_one ev s ww e = record {
    fills = λ rest. ap (fill_rest o opts (fill o opts rest)) e;
    seen = refl;
    appended = λ small. omega arith;
  }

  sweep_events_lem :
      (evs : List CwEvent) (s s' : Sweep)
      → sweep_events o a get_object opts key_prefix w evs s ≡ (s', ok tt)
      → IsSwept s s' (late_of is_out s.seen evs)
  unfolding sweep_events late_of
  sweep_events_lem [] s s' e =
      subst (λ z. IsSwept s z []) (ap (λ (z : Sweep × Result ReconcileError Unit). z.0) e)
        (IsSwept-nil s)
  sweep_events_lem (ev ∷ evs) s s' e = elim (Bool-cases (is_out ev)) [
    | inl out ↦
        subst (IsSwept s s') (sym (late_out is_out s.seen ev evs out))
          (sweep_events_lem evs s s' (rw (out, sweep_events) at e))
    | inr inside ↦ elim (Bool-cases (is_known s.seen ev)) [
      | inl known ↦ subst (IsSwept s s') (sym (late_known is_out s.seen ev evs inside known)) (
          IsSwept-count_known s s' _ (
            sweep_events_lem evs (count_known o a get_object opts key_prefix w s) s'
              (rw (inside, known, sweep_events) at e)))
      | inr missing ↦ subst (IsSwept s s') (sym (late_new is_out s.seen ev evs inside missing)) (
          go (push_record o opts (record_of ev) s.ww) refl (rw (inside, missing, sweep_events) at e)
            (λ ww k.
              sweep_events_lem evs
                (record (count_late o a get_object opts key_prefix w ev s) { ww = ww }) s' k))
    ]
  ]
    where
      go :
          (p : WindowWriter × Result DrainError Unit)
          → push_record o opts (record_of ev) s.ww ≡ p
          → append_next o a get_object opts key_prefix w
              (count_late o a get_object opts key_prefix w ev s)
              (sweep_events o a get_object opts key_prefix w evs)
              p
            ≡ (s', ok tt)
          → ((ww : WindowWriter)
              → sweep_events o a get_object opts key_prefix w evs
                  (record (count_late o a get_object opts key_prefix w ev s) { ww = ww })
                ≡ (s', ok tt)
              → IsSwept
                  (record (count_late o a get_object opts key_prefix w ev s) { ww = ww })
                  s'
                  (late_of is_out (identity_of (record_of ev) ∷ s.seen) evs))
          → IsSwept s s' (record_of ev ∷ late_of is_out (identity_of (record_of ev) ∷ s.seen) evs)
      go (ww, err x) q k ih = cc
      go (ww, ok x) q k ih =
          IsSwept-append s (record (count_late o a get_object opts key_prefix w ev s) { ww = ww })
            s' (record_of ev ∷ []) (late_of is_out (identity_of (record_of ev) ∷ s.seen) evs)
            (sweep_one ev s ww q) (ih ww k)

  pub sweep_pages_lem :
      (pages : List (Result CwError (List CwEvent))) (s s' : Sweep)
      → sweep_pages o a get_object opts key_prefix w pages s ≡ (s', ok tt)
      → IsSwept s s' (late_of is_out s.seen (events_of pages))
  unfolding sweep_pages late_of
  sweep_pages_lem [] s s' e =
      subst (λ z. IsSwept s z []) (ap (λ (z : Sweep × Result ReconcileError Unit). z.0) e)
        (IsSwept-nil s)
  sweep_pages_lem (err x ∷ pages) s s' e = cc
  sweep_pages_lem (ok evs ∷ pages) s s' e =
      go (sweep_events o a get_object opts key_prefix w evs s) refl e
        (λ t k. sweep_pages_lem pages t s' k)
    where
      go :
          (p : Sweep × Result ReconcileError Unit)
          → sweep_events o a get_object opts key_prefix w evs s ≡ p
          → page_next o a get_object opts key_prefix w
              (sweep_pages o a get_object opts key_prefix w pages)
              p
            ≡ (s', ok tt)
          → ((t : Sweep)
              → sweep_pages o a get_object opts key_prefix w pages t ≡ (s', ok tt)
              → IsSwept t s' (late_of is_out t.seen (events_of pages)))
          → IsSwept s s' (late_of is_out s.seen (evs ++ events_of pages))
      go (t, err x) q k ih = cc
      go (t, ok x) q k ih =
          let first = sweep_events_lem evs s t q in
          let others : IsSwept t s'
              (late_of is_out (marked s.seen (late_of is_out s.seen evs)) (events_of pages)) =
            subst (λ z. IsSwept t s' (late_of is_out z (events_of pages))) first.seen (ih t k) in
          subst (IsSwept s s') (sym (late_of-append is_out s.seen evs (events_of pages)))
            (IsSwept-append s t s' _ _ first others)

-- ===== src/Retention/Gate.antt =====
-- What the two loops of the gate establish: which windows are required, and which lack a proof.
use s4_logs.Prelude.{
  ℕ, ◌-◌, ◌^◌, ◌≡◌, refl, true, false, Bool, Option, some, none, List, [], ◌∷◌, All, Any, arith,
  Bool-cases, inl, inr,
}
use s4_logs.Prelude.Int.{ℤ, pos, negsuc, leb_ℤ, ◌≤ℤ◌, ◌<ℤ◌}
use s4_logs.Prelude.Text.{Bytes}
use s4_logs.Prelude.Result.{Result, ok, err, map_err, >>=-eq-ok}
use s4_logs.Layout.{manifest_key}
use s4_logs.Window.{Window, day_ms, validate, windows_covering, Outcome}
use s4_logs.Window.Cover.{Contains, windows_covering_cover, windows_covering_total}
use s4_logs.Manifest.{Manifest}
use s4_logs.Manifest.Proof.{IsProof, manifest_covers_window_iff}
use s4_logs.Drain.{manifest}
use s4_logs.Retention.{
  RetentionRequest, Backend, cutoff, required, required_of, covered_by, add_missing, missing,
}

map_err-ok : {E F A : Type 0} (f : E → F) (r : Result E A) (a : A) → map_err f r ≡ ok a → r ≡ ok a
map_err-ok f (ok b) a h = ground arith
map_err-ok f (err e) a h = cc

add_missing-nil :
    (b : Backend) (covered : Bool) (w : Window) (ws : List Window)
    → add_missing b covered w ws ≡ []
    → (covered ≡ true) × (ws ≡ [])
add_missing-nil b covered w ws h = ground arith

required_of_ok :
    (b : Backend) (o : Outcome (List Window)) (ws : List Window)
    → required_of b o ≡ some (ok ws)
    → o ≡ Outcome.ok ws
required_of_ok b (Outcome.ok ws') ws h = ground arith
required_of_ok b (Outcome.err e) ws h = cc
required_of_ok b Outcome.diverged ws h = cc

-- A call that succeeds had times from 0 on and a positive length.
covering_instants :
    (fuel : ℕ) (from to w : ℤ) (ws : List Window) (t : ℕ)
    → to <ℤ pos fuel
    → to <ℤ pos (2 ^ 63 - day_ms)
    → windows_covering fuel from to w ≡ Outcome.ok ws
    → from ≤ℤ pos t
    → pos t <ℤ to
    → Any (Contains t) ws
covering_instants fuel (pos f) (pos u) (pos n) ws t enough fits runs lo hi =
    windows_covering_cover fuel f u n (unfold windows_covering validate in ground arith)
      (omega arith) (omega arith) (omega arith) ws t runs (omega arith) (omega arith)
covering_instants fuel (negsuc f) to w ws t enough fits runs lo hi =
    absurd (unfold windows_covering validate in ground arith)
covering_instants fuel (pos f) (negsuc u) w ws t enough fits runs lo hi =
    absurd (unfold windows_covering validate in ground arith)
covering_instants fuel (pos f) (pos u) (negsuc n) ws t enough fits runs lo hi =
    absurd (unfold windows_covering validate in ground arith)

covering_answers :
    (fuel : ℕ) (from to w : ℤ)
    → pos 0 <ℤ w
    → pos 0 ≤ℤ from
    → from <ℤ to
    → to <ℤ pos fuel
    → to <ℤ pos (2 ^ 63 - day_ms)
    → (ws : List Window) × (windows_covering fuel from to w ≡ Outcome.ok ws)
covering_answers fuel (pos f) (pos u) (pos n) length start past enough fits =
    let (ws, last, runs, _, _, _) =
      windows_covering_total fuel f u n (omega arith) (omega arith) (omega arith) (omega arith) in
    (ws, runs)
covering_answers fuel (negsuc f) to w length start past enough fits = absurd (ground arith)
covering_answers fuel (pos f) (negsuc u) w length start past enough fits = absurd (ground arith)
covering_answers fuel (pos f) (pos u) (negsuc n) length start past enough fits =
    absurd (ground arith)

module _ (b : Backend) (key_prefix : Bytes) (req : RetentionRequest) where
  -- The object at the window's key is a manifest of the request's group and of this window.
  abbrev pub IsProven : Window → Type 0
  IsProven w =
      (body : Bytes) × (m : Manifest) × (b.get
          (manifest_key key_prefix req.account req.log_group w.start_ms w.end_ms)
        ≡ ok (some body))
      × (b.json.from_slice body ≡ some m)
      × IsProof m req.account req.log_group w.start_ms w.end_ms

  covered_by-IsProven :
      (w : Window) (found : Option Bytes)
      → b.get (manifest_key key_prefix req.account req.log_group w.start_ms w.end_ms) ≡ ok found
      → covered_by b req w found ≡ true
      → IsProven w
  covered_by-IsProven w none e h = cc
  covered_by-IsProven w (some body) e h =
      let (m, reads, proof) =
        (manifest_covers_window_iff b.json body req.account req.log_group w.start_ms w.end_ms).0
          h in
      (body, m, e, reads, proof)

  pub missing_none : (ws : List Window) → missing b key_prefix req ws ≡ ok [] → All IsProven ws
  unfolding missing
  missing_none [] h = tt
  missing_none (w ∷ ws) h =
      let (found, e, h') =
        >>=-eq-ok
          (map_err manifest
            (b.get (manifest_key key_prefix req.account req.log_group w.start_ms w.end_ms)))
          _ [] h in
      let (rest, e', h'') = >>=-eq-ok (missing b key_prefix req ws) _ [] h' in
      let (covered, nothing) = add_missing-nil b (covered_by b req w found) w rest (ground arith) in
      (
        covered_by-IsProven w found (map_err-ok manifest _ found e) covered,
        missing_none ws (rw nothing at e'),
      )

  -- Each instant from the start of the coverage up to the cutoff lies in a required window.
  pub required_cover :
      (fuel : ℕ) (ws : List Window) (t : ℕ)
      → cutoff req <ℤ pos fuel
      → cutoff req <ℤ pos (2 ^ 63 - day_ms)
      → required b fuel req ≡ some (ok ws)
      → req.coverage_from_ms ≤ℤ pos t
      → pos t <ℤ cutoff req
      → Any (Contains t) ws
  unfolding required
  required_cover fuel ws t enough fits h lo hi =
      let past : leb_ℤ (cutoff req) req.coverage_from_ms ≡ false = ground arith in
      let runs : windows_covering fuel req.coverage_from_ms (cutoff req) req.window_ms
          ≡ Outcome.ok ws =
        required_of_ok b (windows_covering fuel req.coverage_from_ms (cutoff req) req.window_ms) ws
          (ground (arith, past)) in
      covering_instants fuel req.coverage_from_ms (cutoff req) req.window_ms ws t enough fits runs
        lo hi

  pub required_total :
      (fuel : ℕ)
      → pos 0 <ℤ req.window_ms
      → pos 0 ≤ℤ req.coverage_from_ms
      → cutoff req <ℤ pos fuel
      → cutoff req <ℤ pos (2 ^ 63 - day_ms)
      → (ws : List Window) × (required b fuel req ≡ some (ok ws))
  unfolding required
  required_total fuel length start enough fits =
      elim (Bool-cases (leb_ℤ (cutoff req) req.coverage_from_ms)) [
        | inl early ↦ ([], rw early refl)
        | inr past ↦
            let (ws, runs) =
              covering_answers fuel req.coverage_from_ms (cutoff req) req.window_ms length start
                (ground arith) enough fits in
            (ws, rw (past, runs) refl)
      ]

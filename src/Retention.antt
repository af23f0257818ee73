-- ===== src/Retention.antt =====
-- crates/s4logs-drain/src/retention.rs: whether CloudWatch may be told to delete what is old.
-- `none` stands for a loop that ran out of fuel.
pub mod Gate
pub mod Closed
mod Tests
use s4_logs.Prelude.{
  ℕ, zero, suc, ◌+◌, Bool, true, false, Option, some, none, List, [], ◌∷◌, ◌++◌, if◌then◌else◌,
}
use s4_logs.Prelude.Int.{ℤ, pos, negsuc, leb_ℤ}
use s4_logs.Prelude.I64.{saturating_sub, saturating_mul}
use s4_logs.Prelude.Text.{Bytes, bytes}
use s4_logs.Prelude.Result.{Result, ok, err, map_err, ◌>>=◌}
use s4_logs.Prelude.Decimal.{show_ℤ}
use s4_logs.Cw.{CwError}
use s4_logs.Layout.{manifest_key}
use s4_logs.Window.{Window, day_ms, length_of, windows_covering, Outcome, diverged}
use s4_logs.Manifest.{ManifestError, ManifestJson, manifest_covers_window}
use s4_logs.Drain.{DrainError, cw, manifest, window, bad_options}

pub record RetentionRequest : Type 0 where
  pub account : Bytes
  pub log_group : Bytes
  pub retention_days : ℤ
  pub coverage_from_ms : ℤ
  pub now_ms : ℤ
  pub window_ms : ℤ

pub record RetentionPlan : Type 0 where
  pub log_group : Bytes
  pub retention_days : ℤ
  pub cutoff_ms : ℤ
  pub required_windows : List Window
  pub missing_windows : List Window
  pub applied : Bool

unfoldable pub allowed : RetentionPlan → Bool
allowed plan = elim plan.missing_windows [ [] ↦ true | _ ∷ _ ↦ false ]

unfoldable pub cutoff : RetentionRequest → ℤ
cutoff req = saturating_sub req.now_ms (saturating_mul req.retention_days (pos day_ms))

-- What the gate asks of `ManifestStore` and of `CwSource`, and its JSON.
pub record Backend : Type 0 where
  pub json : ManifestJson
  pub get : Bytes → Result ManifestError (Option Bytes)
  pub put_retention_policy : Bytes → ℤ → Result CwError (Unit {0})

abbrev pub Answer : Type 0 → Type 0
Answer A = Option (Result DrainError A)

-- The calls of `put_retention_policy` that were made, beside the result.
abbrev pub Calls : Type 0
Calls = List (Bytes × ℤ)

module _ (b : Backend) where
  abbrev pub required_of : Outcome (List Window) → Answer (List Window)
  required_of (Outcome.ok ws) = some (ok ws)
  required_of (Outcome.err e) = some (err (window e))
  required_of Outcome.diverged = none

  -- The windows that the cutoff requires.
  unfoldable pub required : ℕ → RetentionRequest → Answer (List Window)
  required fuel req =
      if leb_ℤ (cutoff req) req.coverage_from_ms
      then some (ok [])
      else required_of (windows_covering fuel req.coverage_from_ms (cutoff req) req.window_ms)

  abbrev pub covered_by : RetentionRequest → Window → Option Bytes → Bool
  covered_by req w none = false
  covered_by req w (some body) =
      manifest_covers_window b.json body req.account req.log_group w.start_ms w.end_ms

  abbrev pub add_missing : Bool → Window → List Window → List Window
  add_missing covered w ws = if covered then ws else w ∷ ws

  -- The loop over the required windows: those without a proof, in order.
  unfoldable pub missing : Bytes → RetentionRequest → List Window → Result DrainError (List Window)
  missing key_prefix req [] = ok []
  missing key_prefix req (w ∷ ws) = do
    found ←
        map_err manifest
          (b.get (manifest_key key_prefix req.account req.log_group w.start_ms w.end_ms))
    rest ← missing key_prefix req ws
    ok (add_missing (covered_by req w found) w rest)

  abbrev pub plan_of : RetentionRequest → List Window → List Window → RetentionPlan
  plan_of req required_windows missing_windows = record {
    log_group = req.log_group;
    retention_days = req.retention_days;
    cutoff_ms = cutoff req;
    required_windows = required_windows;
    missing_windows = missing_windows;
    applied = false;
  }

  abbrev pub plan_from : Bytes → RetentionRequest → Answer (List Window) → Answer RetentionPlan
  plan_from key_prefix req none = none
  plan_from key_prefix req (some (err e)) = some (err e)
  plan_from key_prefix req (some (ok ws)) =
      some (do lacking ← missing key_prefix req ws; ok (plan_of req ws lacking))

  unfoldable pub plan_retention : ℕ → Bytes → RetentionRequest → Answer RetentionPlan
  plan_retention fuel key_prefix req =
      if leb_ℤ req.retention_days (pos 0)
      then some (
          err (bad_options (bytes "retention_days must be > 0, got " ++ show_ℤ req.retention_days)))
      else plan_from key_prefix req (required fuel req)

  abbrev pub applied_as : RetentionPlan → Result CwError Unit → Answer RetentionPlan
  applied_as plan (err e) = some (err (cw e))
  applied_as plan (ok _) = some (ok (record plan { applied = true }))

  abbrev pub enforce_plan :
      RetentionRequest → Bool → Answer RetentionPlan → Calls × Answer RetentionPlan
  enforce_plan req apply none = ([], none)
  enforce_plan req apply (some (err e)) = ([], some (err e))
  enforce_plan req apply (some (ok plan)) =
      if allowed plan
      then (if apply
          then (
            (req.log_group, req.retention_days) ∷ [],
            applied_as plan (b.put_retention_policy req.log_group req.retention_days),
          )
          else ([], some (ok plan)))
      else ([], some (ok plan))

  unfoldable pub enforce_retention :
      ℕ → Bytes → RetentionRequest → Bool → Calls × Answer RetentionPlan
  enforce_retention fuel key_prefix req apply =
      enforce_plan req apply (plan_retention fuel key_prefix req)

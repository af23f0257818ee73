-- ===== src/Retention/Tests.antt =====
-- Runs of the gate: one day of retention, asked for half an hour into the second day.
use s4_logs.Prelude.{ℕ, ◌-◌, ◌^◌, ◌≡◌, ◌≢◌, ◌↔◌, refl, true, some, [], ◌∷◌, All, arith}
use s4_logs.Prelude.Int.{pos, ◌<ℤ◌}
use s4_logs.Prelude.I64.{
  saturating_sub, saturating_mul, saturating_add, add_i64, mul_i64, div_i64, sub_i64,
}
use s4_logs.Prelude.Text.{bytes}
use s4_logs.Prelude.Result.{ok}
use s4_logs.Window.{
  Window, day_ms, windows_covering, covering_loop, align_down, next_boundary, validate,
}
use s4_logs.Window.Cover.{Contains}
use s4_logs.Manifest.{from_json_bytes, manifest_covers_window}
use s4_logs.Manifest.Tests.{one_manifest}
use s4_logs.Retention.{
  RetentionRequest, RetentionPlan, Backend, Calls, allowed, cutoff, required, missing,
  plan_retention, enforce_retention,
}
use s4_logs.Retention.Gate.{IsProven}
use s4_logs.Retention.Closed.{gate_closed, gate_opens, plan_total}

abbrev backend : Backend
backend = record {
  json = one_manifest;
  get = λ key. ok (some (bytes "m"));
  put_retention_policy = λ group days. ok tt;
}

abbrev request : RetentionRequest
request = record {
  account = bytes "1";
  log_group = bytes "/app";
  retention_days = pos 1;
  coverage_from_ms = pos 0;
  now_ms = pos 88200000;
  window_ms = pos 3600000;
}

abbrev fuel : ℕ
fuel = 1800001

abbrev calls : Calls
calls = (bytes "/app", pos 1) ∷ []

abbrev made : RetentionPlan
made = record {
  log_group = bytes "/app";
  retention_days = pos 1;
  cutoff_ms = pos 1800000;
  required_windows = record { start_ms = pos 0; end_ms = pos 3600000 } ∷ [];
  missing_windows = [];
  applied = true;
}

cutoff-half_hour : cutoff request ≡ pos 1800000
unfolding cutoff saturating_sub saturating_mul
cutoff-half_hour = refl

enforced : enforce_retention backend fuel (bytes "logs") request true ≡ (calls, some (ok made))
unfolding enforce_retention plan_retention required cutoff saturating_sub saturating_mul
    windows_covering covering_loop align_down next_boundary validate saturating_add add_i64 mul_i64
    div_i64 sub_i64 missing manifest_covers_window from_json_bytes allowed
enforced = refl

early : cutoff request <ℤ pos fuel
early = rw cutoff-half_hour (omega arith)

fits : cutoff request <ℤ pos (2 ^ 63 - day_ms)
fits = rw cutoff-half_hour (omega arith)

soon : pos 1000 <ℤ cutoff request
soon = rw cutoff-half_hour (omega arith)

called : calls ≢ []
called e = cc

gate_closed_example : (w : Window) × Contains 1000 w × IsProven backend (bytes "logs") request w
gate_closed_example =
    gate_closed backend fuel (bytes "logs") request true calls (some (ok made)) 1000 early fits
      enforced called (omega arith) soon

gate_opens_example : (calls ≢ []) ↔ (
    (plan : RetentionPlan) × (true ≡ true)
    × (calls ≡ (request.log_group, request.retention_days) ∷ [])
    × (plan_retention backend fuel (bytes "logs") request ≡ some (ok plan))
    × (plan.missing_windows ≡ []))
gate_opens_example =
    gate_opens backend fuel (bytes "logs") request true calls (some (ok made)) enforced

plan_total_example :
    (plan : RetentionPlan) × (plan_retention backend fuel (bytes "logs") request ≡ some (ok plan))
    × (required backend fuel request ≡ some (ok plan.required_windows))
    × ((plan.missing_windows ≡ [])
        ↔ All (IsProven backend (bytes "logs") request) plan.required_windows)
plan_total_example =
    plan_total backend fuel (bytes "logs") request (λ key. (some (bytes "m"), refl)) (omega arith)
      (omega arith) (omega arith) early fits

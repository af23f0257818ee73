-- ===== src/Window.antt =====
-- crates/s4logs-drain/src/window.rs: the drain windows, cut on a grid that starts anew at each UTC
-- day. An `i64` is an integer; the two loops take fuel, and `none` says that it ran out.
pub mod Grid
pub mod Run
pub mod Cover
mod Tests
use s4_logs.Prelude.{ℕ, zero, suc, Bool, Option, none, some, List, [], ◌∷◌, ◌||◌, if◌then◌else◌}
use s4_logs.Prelude.Int.{ℤ, pos, ltb_ℤ, leb_ℤ, min_ℤ}
use s4_logs.Prelude.I64.{add_i64, sub_i64, mul_i64, div_i64, saturating_add}

abbrev pub hour_ms : ℕ
hour_ms = 3_600_000

abbrev pub day_ms : ℕ
day_ms = 86_400_000

pub record Window : Type 0 where
  pub start_ms : ℤ
  pub end_ms : ℤ

pub data WindowError : Type 0 where
  non_positive_window : ℤ → WindowError
  negative_range : ℤ → ℤ → WindowError

-- What a function of the module returns. `diverged` is no value of the program: the fuel ran out.
pub data Outcome {ℓ} (A : Type ℓ) : Type ℓ where
  ok : A → Outcome A
  err : WindowError → Outcome A
  diverged : Outcome A

unfoldable pub validate : ℤ → ℤ → ℤ → Option WindowError
validate from_ms to_ms window_ms =
    if leb_ℤ window_ms (pos 0)
    then some (WindowError.non_positive_window window_ms)
    else if ltb_ℤ from_ms (pos 0) || ltb_ℤ to_ms (pos 0)
    then some (WindowError.negative_range from_ms to_ms)
    else none

-- `(ts / DAY_MS) * DAY_MS`
unfoldable pub day_start : ℤ → ℤ
day_start ts_ms = mul_i64 (div_i64 ts_ms day_ms) (pos day_ms)

unfoldable pub align_down : ℤ → ℕ → ℤ
unfolding day_start
align_down ts_ms window_ms =
    let day = day_start ts_ms in
    add_i64 day (mul_i64 (div_i64 (sub_i64 ts_ms day) window_ms) (pos window_ms))

unfoldable pub next_boundary : ℤ → ℕ → ℤ
unfolding day_start
next_boundary boundary_ms window_ms =
    let day_end = add_i64 (day_start boundary_ms) (pos day_ms) in
    min_ℤ (saturating_add boundary_ms (pos window_ms)) day_end

abbrev pub push_first : Window → Option (List Window) → Option (List Window)
push_first w none = none
push_first w (some ws) = some (w ∷ ws)

-- The `loop` of `windows` from `start` on.
unfoldable pub windows_loop : ℕ → ℤ → ℤ → ℕ → Option (List Window)
windows_loop zero start to_ms window_ms = none
windows_loop (suc fuel) start to_ms window_ms =
    let end = next_boundary start window_ms in
    let rest =
      push_first (record { start_ms = start; end_ms = end })
        (windows_loop fuel end to_ms window_ms) in
    if ltb_ℤ to_ms end then some [] else rest

-- The `while` of `windows_covering` from `start` on.
unfoldable pub covering_loop : ℕ → ℤ → ℤ → ℕ → Option (List Window)
covering_loop zero start until_ms window_ms = none
covering_loop (suc fuel) start until_ms window_ms =
    let end = next_boundary start window_ms in
    let rest =
      push_first (record { start_ms = start; end_ms = end })
        (covering_loop fuel end until_ms window_ms) in
    if ltb_ℤ start until_ms then rest else some []

abbrev pub outcome : Option (List Window) → Outcome (List Window)
outcome none = Outcome.diverged
outcome (some ws) = Outcome.ok ws

abbrev pub checked : Option WindowError → Outcome (List Window) → Outcome (List Window)
checked none r = r
checked (some e) r = Outcome.err e

-- Past `validate` the length is positive.
abbrev pub length_of : ℤ → ℕ
length_of (pos n) = n
length_of _ = 0

unfoldable pub windows : ℕ → ℤ → ℤ → ℤ → Outcome (List Window)
windows fuel from_ms to_ms window_ms =
    let w = length_of window_ms in
    checked (validate from_ms to_ms window_ms)
      (outcome (windows_loop fuel (align_down from_ms w) to_ms w))

unfoldable pub windows_covering : ℕ → ℤ → ℤ → ℤ → Outcome (List Window)
windows_covering fuel from_ms until_ms window_ms =
    let w = length_of window_ms in
    checked (validate from_ms until_ms window_ms)
      (outcome (covering_loop fuel (align_down from_ms w) until_ms w))

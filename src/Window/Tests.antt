-- ===== src/Window/Tests.antt =====
-- Runs of window.rs, and its theorems at inputs.
use s4_logs.Prelude.{ℕ, ◌+◌, ◌*◌, ◌≡◌, refl, List, [], ◌∷◌, All, Any, arith}
use s4_logs.Prelude.Int.{ℤ, pos, ◌≤ℤ◌, ◌<ℤ◌}
use s4_logs.Prelude.I64.{saturating_add, add_i64, mul_i64, div_i64, sub_i64}
use s4_logs.Window.{
  Window, ok, hour_ms, day_ms, day_start, align_down, next_boundary, windows_loop, covering_loop,
  windows, windows_covering, validate,
}
use s4_logs.Window.Run.{IsChain}
use s4_logs.Window.Cover.{
  Contains, windows_total, windows_cover, windows_aligned, windows_covering_cover,
}

-- From 22:30 to 00:30 of the next day, in steps of an hour.
abbrev evening : ℕ
evening = 22 * hour_ms + 1_800_000

abbrev past_midnight : ℕ
past_midnight = day_ms + 1_800_000

abbrev hour_window : ℕ → Window
hour_window k = record { start_ms = pos (k * hour_ms); end_ms = pos ((k + 1) * hour_ms) }

abbrev night : List Window
night = hour_window 22 ∷ hour_window 23 ∷ []

abbrev fuel : ℕ
fuel = past_midnight + 1

windows-night : windows fuel (pos evening) (pos past_midnight) (pos hour_ms) ≡ ok night
unfolding windows windows_loop align_down next_boundary validate saturating_add add_i64 mul_i64
    div_i64 sub_i64
windows-night = refl

-- The gate's variant also returns the window that the end falls in.
covering_night :
    windows_covering fuel (pos evening) (pos past_midnight) (pos hour_ms)
    ≡ ok (hour_window 22 ∷ hour_window 23 ∷ hour_window 24 ∷ [])
unfolding windows_covering covering_loop align_down next_boundary validate saturating_add add_i64
    mul_i64 div_i64 sub_i64
covering_night = refl

-- Seven-hour windows are cut at the day's end.
cut_at_midnight : next_boundary (pos (21 * hour_ms)) (7 * hour_ms) ≡ pos day_ms
unfolding next_boundary saturating_add add_i64 mul_i64 div_i64 sub_i64
cut_at_midnight = refl

windows_total_example :
    (ws : List Window) × (last : ℤ) × (windows fuel (pos evening) (pos past_midnight) (pos hour_ms)
      ≡ ok ws)
    × IsChain (align_down (pos evening) hour_ms) ws last
    × (pos past_midnight <ℤ next_boundary last hour_ms)
    × All (λ x. x.end_ms ≤ℤ pos past_midnight) ws
windows_total_example =
    windows_total fuel evening past_midnight hour_ms (omega arith) (omega arith) (omega arith)
      (omega arith)

midnight_complete :
    next_boundary (align_down (pos (23 * hour_ms + 5)) hour_ms) hour_ms ≤ℤ pos past_midnight
unfolding next_boundary align_down saturating_add add_i64 mul_i64 div_i64 sub_i64
midnight_complete = omega arith

windows_cover_example : Any (Contains (23 * hour_ms + 5)) night
windows_cover_example =
    windows_cover fuel evening past_midnight hour_ms (omega arith) (omega arith) (omega arith)
      (omega arith) night (23 * hour_ms + 5) windows-night (omega arith) (omega arith)
      midnight_complete

windows_aligned_example :
    (align_down (pos (23 * hour_ms + 5)) hour_ms ≡ pos (23 * hour_ms))
    × (next_boundary (pos (23 * hour_ms)) hour_ms ≡ pos day_ms)
    × (day_start (pos (23 * hour_ms + 5)) ≡ day_start (pos (23 * hour_ms)))
windows_aligned_example =
    windows_aligned fuel evening past_midnight hour_ms (omega arith) (omega arith) (omega arith)
      (omega arith) night 1 (23 * hour_ms + 5) (hour_window 23) windows-night refl (omega arith)

windows_covering_cover_example :
    Any (Contains (day_ms + 5)) (hour_window 22 ∷ hour_window 23 ∷ hour_window 24 ∷ [])
windows_covering_cover_example =
    windows_covering_cover fuel evening past_midnight hour_ms (omega arith) (omega arith)
      (omega arith) (omega arith) (hour_window 22 ∷ hour_window 23 ∷ hour_window 24 ∷ [])
      (day_ms + 5) covering_night (omega arith) (omega arith)

-- ===== src/Window/Grid.antt =====
-- The grid of boundaries in plain numbers, and `align_down` and `next_boundary` on it.
use s4_logs.Prelude.{
  ℕ, ◌+◌, ◌-◌, ◌*◌, ◌/◌, ◌≤◌, ◌<◌, ◌^◌, ◌≡◌, refl, ap, ◌∙◌, arith, if◌then◌else◌, leb,
}
use s4_logs.Prelude.Int.{pos}
use s4_logs.Prelude.I64.{add_i64-pos, sub_i64-pos, mul_i64-pos, saturating_add-pos, div_i64}
use s4_logs.Window.{day_ms, day_start, align_down, next_boundary}
use native.Mathlib.Decide.{dec_lt}
use native.Mathlib.Nat.{div-mul-le_self, lt-div-mul-add, div-eq_of_lt-le}

unfoldable pub day_of : ℕ → ℕ
day_of t = t / day_ms * day_ms

unfoldable pub align : ℕ → ℕ → ℕ
align t w = day_of t + (t - day_of t) / w * w

unfoldable pub boundary : ℕ → ℕ → ℕ
boundary b w = if leb (b + w) (day_of b + day_ms) then b + w else day_of b + day_ms

pub day_of-bounds : (t : ℕ) → (day_of t ≤ t) × (t < day_of t + day_ms)
unfolding day_of
day_of-bounds t = (omega arith, omega arith)

-- The day of every instant of the day is the same.
pub day_of_same : (s t : ℕ) → day_of s ≤ t → t < day_of s + day_ms → day_of t ≡ day_of s
unfolding day_of
day_of_same s t h k = omega arith

pub align-le : (t w : ℕ) → align t w ≤ t
unfolding align
align-le t w = omega (arith, day_of-bounds t, div-mul-le_self (t - day_of t) w)

pub day_of-align : (t w : ℕ) → day_of (align t w) ≡ day_of t
day_of-align t w =
    day_of_same t (align t w) (unfold align in omega arith)
      (omega (arith, align-le t w, day_of-bounds t))

pub lt-boundary-align : (t w : ℕ) → 0 < w → t < boundary (align t w) w
unfolding boundary
lt-boundary-align t w h = ground (arith, day_of-align t w, day_of-bounds t, past)
  where
    past : t < align t w + w
    past = unfold align in omega (arith, day_of-bounds t, lt-div-mul-add {a = t - day_of t} h)

-- A boundary of the grid: a day's start plus a multiple of the length within the day.
abbrev pub IsBoundary : ℕ → ℕ → Type 0
IsBoundary b w = align b w ≡ b

align_within :
    (t q w : ℕ)
    → 0 < w
    → day_of t + q * w ≤ t
    → t < day_of t + (q + 1) * w
    → align t w ≡ day_of t + q * w
unfolding align
align_within t q w h lo hi =
    ap (λ (k : ℕ). day_of t + k * w)
      (div-eq_of_lt-le w (omega arith) (omega (arith, day_of-bounds t)))

-- Every instant from a boundary up to the next is aligned to that boundary.
pub align-between : (b t w : ℕ) → 0 < w → IsBoundary b w → b ≤ t → t < boundary b w → align t w ≡ b
align-between b t w h g lo hi =
    align_within t q w h (omega (arith, at, same)) (omega (arith, at, same, before.0))
    ∙ omega (arith, at, same)
  where
    q : ℕ
    q = (b - day_of b) / w

    at : day_of b + q * w ≡ b
    at = unfold align in g

    before : (t < b + w) × (t < day_of b + day_ms)
    before = unfold boundary in ground arith

    same : day_of t ≡ day_of b
    same = day_of_same b t (omega (arith, day_of-bounds b)) before.1

pub boundary-IsBoundary : (b w : ℕ) → 0 < w → IsBoundary b w → IsBoundary (boundary b w) w
boundary-IsBoundary b w h g = elim (dec_lt (b + w) (day_of b + day_ms)) [
  | yes inside ↦
      let same : day_of (b + w) ≡ day_of b =
        day_of_same b (b + w) (omega (arith, day_of-bounds b)) inside in
      let here : boundary b w ≡ b + w = unfold boundary in ground arith in
      let at : day_of b + (b - day_of b) / w * w ≡ b = unfold align in g in
      rw here (
        align_within (b + w) ((b - day_of b) / w + 1) w h (omega (arith, at, same))
          (omega (arith, at, same))
        ∙ omega (arith, at, same))
  | no outside ↦
      let here : boundary b w ≡ day_of b + day_ms = unfold boundary in ground arith in
      let same : day_of (day_of b + day_ms) ≡ day_of b + day_ms = unfold day_of in omega arith in
      rw here (
        align_within (day_of b + day_ms) 0 w h (omega (arith, same)) (omega (arith, same))
        ∙ omega (arith, same))
]

pub align-IsBoundary : (t w : ℕ) → 0 < w → IsBoundary (align t w) w
align-IsBoundary t w h =
    align_within (align t w) q w h (omega (arith, at, day_of-align t w))
      (omega (arith, at, day_of-align t w))
    ∙ omega (arith, at, day_of-align t w)
  where
    q : ℕ
    q = (t - day_of t) / w

    at : align t w ≡ day_of t + q * w
    at = unfold align in refl

pub boundary-le : (b w : ℕ) → boundary b w ≤ day_of b + day_ms
unfolding boundary
boundary-le b w = ground arith

pub lt-boundary : (b w : ℕ) → 0 < w → b < boundary b w
unfolding boundary
lt-boundary b w h = ground (arith, day_of-bounds b)

-- What the code computes, as long as the day's end is an `i64`.
pub day_start-pos : (t : ℕ) → t < 2 ^ 63 → day_start (pos t) ≡ pos (day_of t)
unfolding day_start div_i64 day_of
day_start-pos t h = mul_i64-pos (t / day_ms) day_ms (omega (arith, div-mul-le_self t day_ms))

pub align_down-pos : (t w : ℕ) → t < 2 ^ 63 → align_down (pos t) w ≡ pos (align t w)
unfolding align_down div_i64 align
align_down-pos t w h =
    rw (day_start-pos t h, sub_i64-pos t (day_of t) (day_of-bounds t).0 h)
      (rw (mul_i64-pos q w (omega (arith, fits)))
        (add_i64-pos (day_of t) (q * w) (omega (arith, fits, day_of-bounds t))))
  where
    q : ℕ
    q = (t - day_of t) / w

    fits : q * w ≤ t - day_of t
    fits = div-mul-le_self (t - day_of t) w

pub next_boundary-pos :
    (b w : ℕ) → b + day_ms < 2 ^ 63 → next_boundary (pos b) w ≡ pos (boundary b w)
unfolding next_boundary boundary
next_boundary-pos b w h =
    rw
      (
        day_start-pos b (omega arith),
        add_i64-pos (day_of b) day_ms (omega (arith, day_of-bounds b)),
        saturating_add-pos b w,
      )
      (ground (arith, day_of-bounds b))

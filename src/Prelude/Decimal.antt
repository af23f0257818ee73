-- ===== src/Prelude/Decimal.antt =====
-- Whole numbers as decimal text: `{}` of an integer, and `str::parse::<i64>`.
use s4_logs.Prelude.Tests.{◌==◌, if◌then◌else◌, ltb, leb}
use s4_logs.Prelude.Lists.{All, All-append}
use s4_logs.Prelude.Int.{ℤ, pos, negsuc}
use s4_logs.Prelude.Text.{Bytes}
use Prim.Native.Nat.{ℕ, zero, suc, ◌+◌, ◌-◌, ◌*◌, ◌/◌, ◌%◌, ◌<◌, ◌≤◌, ◌^◌}
use mathlib.Core.Path.{◌≡◌, refl, ◌∙◌}
use mathlib.Core.Logic.{◌≢◌}
use mathlib.Core.Bool.{◌&&◌}
use mathlib.Core.Option.{Option, none, some}
use mathlib.Core.List.{[], ◌∷◌, ◌++◌}
use native.Mathlib.Omega.{arith}
use native.Mathlib.Decide.{dec_lt}

-- With fuel beyond the number all digits are written.
show_digits : ℕ → ℕ → Bytes
show_digits zero n = []
show_digits (suc fuel) n =
    let more = show_digits fuel (n / 10) in
    if ltb n 10 then (48 + n) ∷ [] else more ++ (48 + n % 10) ∷ []

unfoldable pub show_ℕ : ℕ → Bytes
unfolding show_digits
show_ℕ n = show_digits (suc n) n

unfoldable pub show_ℤ : ℤ → Bytes
show_ℤ (pos n) = show_ℕ n
show_ℤ (negsuc n) = b'-' ∷ show_ℕ (suc n)

-- One more digit, if it is one and the number stays below a bound.
abbrev step : ℕ → ℕ → ℕ → Option ℕ
step bound a b =
    if leb 48 b && leb b 57
    then (if leb (a * 10 + (b - 48)) bound then some (a * 10 + (b - 48)) else none)
    else none

read_digits : ℕ → Option ℕ → Bytes → Option ℕ
read_digits bound acc [] = acc
read_digits bound none (b ∷ bs) = none
read_digits bound (some a) (b ∷ bs) = read_digits bound (step bound a b) bs

abbrev negated : ℕ → ℤ
negated zero = pos 0
negated (suc n) = negsuc n

abbrev read_some : {A : Type 0} → ℕ → (ℕ → A) → Bytes → Option A
read_some bound f [] = none
read_some bound f (b ∷ bs) = elim (read_digits bound (some 0) (b ∷ bs)) [
  | none ↦ none
  | some n ↦ some (f n)
]

unfoldable pub parse_i64 : Bytes → Option ℤ
unfolding read_digits
parse_i64 [] = none
parse_i64 (b ∷ bs) =
    if b == b'-'
    then read_some (2 ^ 63) negated bs
    else if b == b'+'
    then read_some (2 ^ 63 - 1) pos bs
    else read_some (2 ^ 63 - 1) pos (b ∷ bs)

-- `str::parse::<usize>`
unfoldable pub parse_usize : Bytes → Option ℕ
unfolding read_digits
parse_usize [] = none
parse_usize (b ∷ bs) =
    if b == b'+'
    then read_some (2 ^ 64 - 1) (λ n. n) bs
    else read_some (2 ^ 64 - 1) (λ n. n) (b ∷ bs)

abbrev pub IsDigit : ℕ → Type 0
IsDigit b = (48 ≤ b) × (b ≤ 57)

show_digits-IsDigit : (fuel n : ℕ) → All IsDigit (show_digits fuel n)
unfolding show_digits
show_digits-IsDigit zero n = tt
show_digits-IsDigit (suc fuel) n = elim (dec_lt n 10) [
  | yes h ↦ ground arith
  | no h ↦
      let all : All IsDigit (show_digits fuel (n / 10) ++ (48 + n % 10) ∷ []) =
        All-append IsDigit (show_digits fuel (n / 10)) ((48 + n % 10) ∷ [])
          (show_digits-IsDigit fuel (n / 10)) (omega arith) in
      ground arith
]

pub show_ℕ-IsDigit : (n : ℕ) → All IsDigit (show_ℕ n)
unfolding show_ℕ
show_ℕ-IsDigit n = show_digits-IsDigit (suc n) n

read_digits-none : (bound : ℕ) (s : Bytes) → read_digits bound none s ≡ none
unfolding read_digits
read_digits-none bound [] = refl
read_digits-none bound (b ∷ bs) = refl

read_digits-append :
    (bound : ℕ) (acc : Option ℕ) (s t : Bytes)
    → read_digits bound acc (s ++ t) ≡ read_digits bound (read_digits bound acc s) t
unfolding read_digits
read_digits-append bound acc [] t = refl
read_digits-append bound none (b ∷ bs) t = ground (arith, read_digits-none bound t)
read_digits-append bound (some a) (b ∷ bs) t = read_digits-append bound (step bound a b) bs t

read_digits-show :
    (bound fuel n : ℕ)
    → n < fuel
    → n ≤ bound
    → read_digits bound (some 0) (show_digits fuel n) ≡ some n
unfolding read_digits show_digits
read_digits-show bound zero n h k = absurd (omega arith)
read_digits-show bound (suc fuel) n h k = elim (dec_lt n 10) [
  | yes small ↦ ground arith
  | no big ↦
      let whole : read_digits bound (some 0) (show_digits fuel (n / 10) ++ (48 + n % 10) ∷ [])
          ≡ some n =
        read_digits-append bound (some 0) (show_digits fuel (n / 10)) ((48 + n % 10) ∷ [])
        ∙ rw (read_digits-show bound fuel (n / 10) (omega arith) (omega arith)) (ground arith) in
      ground arith
]

append-nonempty : (s : Bytes) (b : ℕ) → s ++ b ∷ [] ≢ []
append-nonempty [] b e = cc
append-nonempty (c ∷ s) b e = cc

show_digits_some : (fuel n : ℕ) → show_digits (suc fuel) n ≢ []
unfolding show_digits
show_digits_some fuel n e = elim (dec_lt n 10) [
  | yes h ↦ ground arith
  | no h ↦ append-nonempty (show_digits fuel (n / 10)) (48 + n % 10) (ground arith)
]

parse_digits :
    (s : Bytes) (n : ℕ)
    → s ≢ []
    → All IsDigit s
    → read_digits (2 ^ 63 - 1) (some 0) s ≡ some n
    → parse_i64 s ≡ some (pos n)
unfolding parse_i64
parse_digits [] n h d e = absurd (h refl)
parse_digits (b ∷ bs) n h d e = ground (arith, d.0)

-- A number that fits is read back from its digits.
pub parse-show : (n : ℕ) → n < 2 ^ 63 → parse_i64 (show_ℕ n) ≡ some (pos n)
unfolding show_ℕ
parse-show n h =
    parse_digits (show_digits (suc n) n) n (show_digits_some n n) (show_ℕ-IsDigit n)
      (read_digits-show (2 ^ 63 - 1) (suc n) n (omega arith) (omega arith))

parse_usize_digits :
    (s : Bytes) (n : ℕ)
    → s ≢ []
    → All IsDigit s
    → read_digits (2 ^ 64 - 1) (some 0) s ≡ some n
    → parse_usize s ≡ some n
unfolding parse_usize
parse_usize_digits [] n h d e = absurd (h refl)
parse_usize_digits (b ∷ bs) n h d e = ground (arith, d.0)

pub parse_usize-show : (n : ℕ) → n < 2 ^ 64 → parse_usize (show_ℕ n) ≡ some n
unfolding show_ℕ
parse_usize-show n h =
    parse_usize_digits (show_digits (suc n) n) n (show_digits_some n n) (show_ℕ-IsDigit n)
      (read_digits-show (2 ^ 64 - 1) (suc n) n (omega arith) (omega arith))

-- ===== src/Prelude/Utf8.antt =====
-- Which byte strings are UTF-8 (`String::from_utf8`), by the table of RFC 3629.
use s4_logs.Prelude.Tests.{ltb, leb, ◌==◌, if◌then◌else◌}
use s4_logs.Prelude.Text.{Bytes}
use Prim.Native.Nat.{ℕ, zero, suc}
use mathlib.Core.Bool.{Bool, true, false, ◌&&◌}
use mathlib.Core.Option.{Option, none, some}
use mathlib.Core.List.{[], ◌∷◌}

abbrev between : ℕ → ℕ → ℕ → Bool
between lo hi b = leb lo b && leb b hi

-- What is to follow a lead byte: how many bytes after the next, and the range of the next.
abbrev after_lead : ℕ → Option (ℕ × ℕ × ℕ)
after_lead b =
    if between 0xc2 0xdf b
    then some (0, 0x80, 0xbf)
    else if b == 0xe0
    then some (1, 0xa0, 0xbf)
    else if b == 0xed
    then some (1, 0x80, 0x9f)
    else if between 0xe1 0xef b
    then some (1, 0x80, 0xbf)
    else if b == 0xf0
    then some (2, 0x90, 0xbf)
    else if between 0xf1 0xf3 b
    then some (2, 0x80, 0xbf)
    else if b == 0xf4
    then some (2, 0x80, 0x8f)
    else none

-- The state is what the current character still wants: the bytes after the next, and the range of
-- the next; `none` between characters.
utf8_from : Option (ℕ × ℕ × ℕ) → Bytes → Bool
utf8_from none [] = true
utf8_from (some want) [] = false
utf8_from none (b ∷ bs) =
    let ascii = utf8_from none bs in
    let lead = utf8_from (after_lead b) bs in
    if ltb b 0x80 then ascii else elim (after_lead b) [ none ↦ false | some _ ↦ lead ]
utf8_from (some (zero, lo, hi)) (b ∷ bs) = between lo hi b && utf8_from none bs
utf8_from (some (suc n, lo, hi)) (b ∷ bs) = between lo hi b && utf8_from (some (n, 0x80, 0xbf)) bs

unfoldable pub is_utf8 : Bytes → Bool
unfolding utf8_from
is_utf8 = utf8_from none

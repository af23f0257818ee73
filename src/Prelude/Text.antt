-- ===== src/Prelude/Text.antt =====
-- Strings as their bytes, and the operations of the standard library on them.
use s4_logs.Prelude.Tests.{◌==◌, if◌then◌else◌}
use s4_logs.Prelude.Lists.{All}
use Prim.Native.Nat.{ℕ, ◌<◌}
use Prim.Native.Char.{code}
use Prim.Native.String.{String}
use mathlib.Core.Path.{◌≡◌, refl, ap}
use mathlib.Core.Logic.{◌≢◌}
use mathlib.Core.Bool.{Bool, true, false, ◌&&◌}
use mathlib.Core.Option
use mathlib.Core.Option.{Option, none, some}
use mathlib.Core.List.{List, [], ◌∷◌, ◌++◌, reverse, reverse-append, reverse-reverse}
use native.Mathlib.Omega.{arith}

abbrev pub Bytes : Type 0
Bytes = List ℕ

abbrev pub IsByte : ℕ → Type 0
IsByte b = b < 256

-- The bytes of an ASCII literal.
abbrev pub bytes : String → Bytes
bytes String.[] = []
bytes (String.◌∷◌ c s) = code c ∷ bytes s

abbrev pub eqb : Bytes → Bytes → Bool
eqb [] [] = true
eqb [] (y ∷ ys) = false
eqb (x ∷ xs) [] = false
eqb (x ∷ xs) (y ∷ ys) = (x == y) && eqb xs ys

pub eqb_refl : (xs : Bytes) → eqb xs xs ≡ true
eqb_refl [] = refl
eqb_refl (x ∷ xs) = ground (arith, eqb_refl xs)

pub eq_of_eqb : (xs ys : Bytes) → eqb xs ys ≡ true → xs ≡ ys
eq_of_eqb [] [] h = refl
eq_of_eqb [] (y ∷ ys) h = cc
eq_of_eqb (x ∷ xs) [] h = cc
eq_of_eqb (x ∷ xs) (y ∷ ys) h = ground (arith, eq_of_eqb xs ys)

-- `str::strip_prefix`
abbrev pub strip_prefix : Bytes → Bytes → Option Bytes
strip_prefix [] s = some s
strip_prefix (p ∷ ps) [] = none
strip_prefix (p ∷ ps) (c ∷ cs) = let rest = strip_prefix ps cs in if p == c then rest else none

pub strip_prefix-append : (p s : Bytes) → strip_prefix p (p ++ s) ≡ some s
strip_prefix-append [] s = refl
strip_prefix-append (p ∷ ps) s = ground (arith, strip_prefix-append ps s)

-- A common front does not matter.
pub strip_prefix-append_append :
    (front p s : Bytes) → strip_prefix (front ++ p) (front ++ s) ≡ strip_prefix p s
strip_prefix-append_append [] p s = refl
strip_prefix-append_append (c ∷ front) p s = ground (arith, strip_prefix-append_append front p s)

-- `str::strip_suffix`
unfoldable pub strip_suffix : Bytes → Bytes → Option Bytes
strip_suffix suffix s = Option.map reverse (strip_prefix (reverse suffix) (reverse s))

pub strip_suffix-append : (suffix s : Bytes) → strip_suffix suffix (s ++ suffix) ≡ some s
unfolding strip_suffix
strip_suffix-append suffix s =
    rw (reverse-append s suffix, strip_prefix-append) (ap some (reverse-reverse s))

abbrev pub cons_first : ℕ → List Bytes → List Bytes
cons_first c [] = (c ∷ []) ∷ []
cons_first c (part ∷ parts) = (c ∷ part) ∷ parts

-- `str::split` at one byte; there is always one part at least.
unfoldable pub split : ℕ → Bytes → List Bytes
split sep [] = [] ∷ []
split sep (c ∷ cs) = let rest = split sep cs in if c == sep then [] ∷ rest else cons_first c rest

abbrev pub IsFree : ℕ → Bytes → Type 0
IsFree sep = All (λ c. c ≢ sep)

-- A part with no separator is split off whole.
pub split-append :
    (sep : ℕ) (part rest : Bytes)
    → IsFree sep part
    → split sep (part ++ sep ∷ rest) ≡ part ∷ split sep rest
unfolding split
split-append sep [] rest h = ground arith
split-append sep (c ∷ cs) rest h = ground (arith, split-append sep cs rest h.1)

pub split_free : (sep : ℕ) (part : Bytes) → IsFree sep part → split sep part ≡ part ∷ []
unfolding split
split_free sep [] h = refl
split_free sep (c ∷ cs) h = ground (arith, split_free sep cs h.1)

abbrev pub starts_with : Bytes → Bytes → Bool
starts_with p s = elim (strip_prefix p s) [ none ↦ false | some _ ↦ true ]

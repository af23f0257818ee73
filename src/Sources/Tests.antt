-- ===== src/Sources/Tests.antt =====
-- The lines of an object that is read without its sidecars.
use s4_logs.Prelude.{◌≡◌, refl, true, false, [], ◌∷◌}
use s4_logs.Prelude.Text.{bytes}
use s4_logs.Sources.{raw_lines, without_cr}

two_lines : raw_lines (bytes "a\nb") ≡ (bytes "a", true) ∷ (bytes "b", false) ∷ []
unfolding raw_lines
two_lines = refl

cr_line : without_cr (bytes "a\r") ≡ bytes "a"
cr_line = refl

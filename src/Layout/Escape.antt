-- ===== src/Layout/Escape.antt =====
-- `sanitize_log_group` loses nothing and writes only bytes that are safe in a key.
use s4_logs.Prelude.{
  ℕ, ◌/◌, ◌%◌, ◌<◌, ◌≡◌, ◌≢◌, refl, sym, ap, ◌∙◌, true, false, some, [], ◌∷◌, All, All-map, arith,
  ◌==◌, ◌||◌, Bool-cases, inl, inr, some,
}
use s4_logs.Prelude.Text.{Bytes, IsByte, IsFree}
use s4_logs.Prelude.Utf8.{is_utf8}
use s4_logs.Layout.{
  is_plain, upper_hex, to_digit, push, sanitize_log_group, unescape, unsanitize_log_group,
}

to_digit-upper_hex : (d : ℕ) → d < 16 → to_digit (upper_hex d) ≡ some d
unfolding to_digit upper_hex
to_digit-upper_hex d h = ground arith

unescape_plain : (b : ℕ) (s : Bytes) → b ≢ b'%' → unescape (b ∷ s) ≡ push (some b) (unescape s)
unfolding unescape
unescape_plain b [] h = ground arith
unescape_plain b (c ∷ []) h = ground arith
unescape_plain b (c ∷ d ∷ s) h = ground arith

unescape_hex :
    (b : ℕ) (s : Bytes)
    → b < 256
    → unescape (b'%' ∷ upper_hex (b / 16) ∷ upper_hex (b % 16) ∷ s) ≡ push (some b) (unescape s)
unfolding unescape
unescape_hex b s h =
    rw (to_digit-upper_hex (b / 16) (omega arith), to_digit-upper_hex (b % 16) (omega arith))
      (ap (λ k. push (some k) (unescape s)) (omega arith))

unescape-sanitize : (g : Bytes) → All IsByte g → unescape (sanitize_log_group g) ≡ some g
unfolding sanitize_log_group
unescape-sanitize [] h = unfold unescape in refl
unescape-sanitize (b ∷ bs) h = elim (Bool-cases (is_plain b)) [
  | inl plain ↦
      rw plain
        (rw (unescape_plain b (sanitize_log_group bs) (ground arith), unescape-sanitize bs h.1))
  | inr other ↦ rw other (rw (unescape_hex b (sanitize_log_group bs) h.0, unescape-sanitize bs h.1))
]

-- The name of a log group comes back from its escaped form, for each UTF-8 byte string.
pub unsanitize-sanitize :
    (g : Bytes)
    → All IsByte g
    → is_utf8 g ≡ true
    → unsanitize_log_group (sanitize_log_group g) ≡ some g
unfolding unsanitize_log_group
unsanitize-sanitize g h valid = rw (unescape-sanitize g h) (rw valid)

-- `[A-Za-z0-9_.-]` or a percent sign.
abbrev pub IsKeyByte : ℕ → Type 0
IsKeyByte c = (is_plain c || (c == b'%')) ≡ true

upper_hex-IsKeyByte : (d : ℕ) → d < 16 → IsKeyByte (upper_hex d)
unfolding upper_hex
upper_hex-IsKeyByte d h = ground arith

-- The escaped form has plain bytes and percent signs only.
pub sanitize-IsKeyByte : (g : Bytes) → All IsByte g → All IsKeyByte (sanitize_log_group g)
unfolding sanitize_log_group
sanitize-IsKeyByte [] h = tt
sanitize-IsKeyByte (b ∷ bs) h = elim (Bool-cases (is_plain b)) [
  | inl plain ↦ rw plain (rw plain refl, sanitize-IsKeyByte bs h.1)
  | inr other ↦ rw other (
    refl,
    (
      upper_hex-IsKeyByte (b / 16) (omega (arith, h.0)),
      (upper_hex-IsKeyByte (b % 16) (omega arith), sanitize-IsKeyByte bs h.1),
    ),
  )
]

pub sanitize-IsFree :
    (c : ℕ) (g : Bytes)
    → (is_plain c || (c == b'%')) ≡ false
    → All IsByte g
    → IsFree c (sanitize_log_group g)
sanitize-IsFree c g h bytes =
    All-map IsKeyByte (λ b. b ≢ c) (sanitize_log_group g)
      (λ b key same. let both : IsKeyByte c = rw same at key in cc) (sanitize-IsKeyByte g bytes)

-- Two names with the same escaped form are the same.
pub sanitize_injective :
    (g g' : Bytes)
    → All IsByte g
    → All IsByte g'
    → sanitize_log_group g ≡ sanitize_log_group g'
    → g ≡ g'
sanitize_injective g g' h h' same =
    let both : some g ≡ some g' =
      sym (unescape-sanitize g h) ∙ (ap unescape same ∙ unescape-sanitize g' h') in
    cc

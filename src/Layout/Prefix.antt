-- ===== src/Layout/Prefix.antt =====
-- `norm_prefix` is settled after one call, so a prefix that a sink has normalised gives the same keys.
use s4_logs.Prelude.{
  ℕ, ◌≡◌, ◌≢◌, refl, sym, ap, ◌∙◌, [], ◌∷◌, ◌++◌, arith, ◌==◌, Bool-cases, inl, inr, subst,
}
use s4_logs.Prelude.Text.{Bytes, bytes}
use s4_logs.Layout.{trim_start, trim_matches, slashed, norm_prefix}
use mathlib.Core.List.{reverse, reverse-append, reverse-reverse}

-- What is left after trimming does not start with the byte.
abbrev Starts : ℕ → Bytes → Type 0
Starts c [] = Unit
Starts c (b ∷ bs) = b ≢ c

Starts-trim_start : (c : ℕ) (s : Bytes) → Starts c (trim_start c s)
Starts-trim_start c [] = tt
Starts-trim_start c (b ∷ bs) = elim (Bool-cases (b == c)) [
  | inl same ↦ rw same (Starts-trim_start c bs)
  | inr other ↦ rw other (ground arith)
]

trim_start_idle : (c : ℕ) (s : Bytes) → Starts c s → trim_start c s ≡ s
trim_start_idle c [] h = refl
trim_start_idle c (b ∷ bs) h = ground arith

-- Trimming takes a front off.
trim_start_front : (c : ℕ) (s : Bytes) → (front : Bytes) × (s ≡ front ++ trim_start c s)
trim_start_front c [] = ([], refl)
trim_start_front c (b ∷ bs) = elim (Bool-cases (b == c)) [
  | inl same ↦ let (front, e) = trim_start_front c bs in (b ∷ front, rw same (ap (λ t. b ∷ t) e))
  | inr other ↦ ([], rw other refl)
]

Starts-front : (c : ℕ) (s back : Bytes) → Starts c (s ++ back) → Starts c s
Starts-front c [] back h = tt
Starts-front c (b ∷ bs) back h = h

-- A trimmed string starts with another byte, and so does its mirror image.
trimmed_ends :
    (c : ℕ) (s : Bytes) → Starts c (trim_matches c s) × Starts c (reverse (trim_matches c s))
unfolding trim_matches
trimmed_ends c s =
    let u : Bytes = trim_start c s in
    let (front, e) = trim_start_front c (reverse u) in
    let whole : u ≡ reverse (trim_start c (reverse u)) ++ reverse front =
      sym (reverse-reverse u) ∙ (ap reverse e ∙ reverse-append front (trim_start c (reverse u))) in
    (
      Starts-front c (reverse (trim_start c (reverse u))) (reverse front)
          (subst (Starts c) whole (Starts-trim_start c s)),
      rw reverse-reverse (Starts-trim_start c (reverse u)),
    )

slashed-trim :
    (t : Bytes) → Starts b'/' t → Starts b'/' (reverse t) → trim_matches b'/' (slashed t) ≡ t
unfolding trim_matches
slashed-trim [] h k = refl
slashed-trim (b ∷ bs) h k =
    rw (trim_start_idle b'/' (b ∷ bs ++ bytes "/") h, reverse-append (b ∷ bs) (bytes "/"))
      (rw (trim_start_idle b'/' (reverse (b ∷ bs)) k) (reverse-reverse (b ∷ bs)))

-- Normalising a normalised prefix changes nothing.
pub norm_prefix_idempotent :
    (prefix : Bytes) → norm_prefix (norm_prefix prefix) ≡ norm_prefix prefix
unfolding norm_prefix
norm_prefix_idempotent prefix =
    let (h, k) = trimmed_ends b'/' prefix in
    ap slashed (slashed-trim (trim_matches b'/' prefix) h k)

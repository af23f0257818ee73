-- ===== src/Manifest/Keys.antt =====
-- A manifest's key tells the window and the group, and a manifest that covers a window is that
-- window's.
use s4_logs.Prelude.{
  ℕ, ◌<◌, ◌^◌, ◌≡◌, ◌≢◌, refl, sym, append_assoc, some, List, [], ◌∷◌, ◌++◌, All-append, All-map,
  arith, ◌⊎◌, ◌==◌, Bool-cases, inl, inr,
}
use s4_logs.Prelude.Int.{ℤ, pos}
use s4_logs.Prelude.Text.{Bytes, bytes, IsFree, split, split_free, strip_suffix-append}
use s4_logs.Prelude.Decimal.{show_ℤ, show_ℕ, show_ℕ-IsDigit, IsDigit, parse-show}
use s4_logs.Layout.{norm_prefix, manifest_seg, sanitize_log_group, manifest_key, window_part}
use s4_logs.Manifest.{
  last_part, file_part, split_once, parse_window_part, parse_manifest_key_window,
}

split-two :
    (sep : ℕ) (front back : Bytes)
    → IsFree sep back
    → (p q : Bytes) × (qs : List Bytes) × (split sep (front ++ sep ∷ back) ≡ p ∷ q ∷ qs)
      × (last_part q qs ≡ back)
unfolding split
split-two sep [] back free = ([], back, [], rw (split_free sep back free) (ground arith), refl)
split-two sep (b ∷ front) back free =
    let (p, q, qs, e, l) = split-two sep front back free in
    elim (Bool-cases (b == sep)) [
      | inl same ↦ ([], p, q ∷ qs, rw (same, e) refl, l)
      | inr other ↦ (b ∷ p, q, qs, rw (other, e) refl, l)
    ]

-- The part behind the last slash.
file_part-append :
    (front back : Bytes)
    → IsFree b'/' back
    → file_part (split b'/' (front ++ b'/' ∷ back)) ≡ some back
file_part-append front back free =
    let (p, q, qs, e, l) = split-two b'/' front back free in rw (e, l) refl

split_once-append :
    (sep : ℕ) (front back : Bytes)
    → IsFree sep front
    → split_once sep (front ++ sep ∷ back) ≡ some (front, back)
unfolding split_once
split_once-append sep [] back h = ground arith
split_once-append sep (b ∷ front) back h =
    rw (split_once-append sep front back h.1) (ground (arith, h.0))

digits-IsFree : (c n : ℕ) → (c < 48) ⊎ (57 < c) → IsFree c (show_ℕ n)
digits-IsFree c n h =
    All-map IsDigit (λ b. b ≢ c) (show_ℕ n) (λ b d. omega arith) (show_ℕ-IsDigit n)

window_part-IsFree : (s e : ℕ) → IsFree b'/' (window_part (pos s) (pos e))
unfolding window_part show_ℤ
window_part-IsFree s e =
    All-append (λ b. b ≢ b'/') (bytes "window=") (show_ℕ s ++ (b'-' ∷ (show_ℕ e ++ bytes ".json")))
      (omega arith)
      (All-append (λ b. b ≢ b'/') (show_ℕ s) (b'-' ∷ (show_ℕ e ++ bytes ".json"))
        (digits-IsFree b'/' s (omega arith))
        (
          omega arith,
          All-append (λ b. b ≢ b'/') (show_ℕ e) (bytes ".json") (digits-IsFree b'/' e (omega arith))
              (omega arith),
        ))

window_part-front :
    (prefix account log_group : Bytes) (s e : ℤ)
    → (front : Bytes) × (manifest_key prefix account log_group s e
        ≡ front ++ b'/' ∷ window_part s e)
unfolding manifest_key
window_part-front prefix account log_group s e = (
  norm_prefix prefix
      ++ (manifest_seg
          ++ (b'/'
              ∷ (bytes "account="
                  ++ (account ++ (b'/' ∷ (bytes "loggroup=" ++ sanitize_log_group log_group)))))),
  simp append_assoc,
)

parse-window_part :
    (s e : ℕ)
    → s < 2 ^ 63
    → e < 2 ^ 63
    → parse_window_part (window_part (pos s) (pos e))
      ≡ some (record { start_ms = pos s; end_ms = pos e })
unfolding parse_window_part window_part show_ℤ
parse-window_part s e hs he =
    let whole : show_ℕ s ++ (b'-' ∷ (show_ℕ e ++ bytes ".json"))
        ≡ (show_ℕ s ++ (b'-' ∷ show_ℕ e)) ++ bytes ".json" =
      sym (append_assoc (show_ℕ s) (b'-' ∷ show_ℕ e) (bytes ".json")) in
    rw
      (
        whole,
        strip_suffix-append (bytes ".json") (show_ℕ s ++ (b'-' ∷ show_ℕ e)),
        split_once-append b'-' (show_ℕ s) (show_ℕ e) (digits-IsFree b'-' s (omega arith)),
        parse-show s hs,
        parse-show e he,
      )
      refl

-- The manifest key of a window with ends in 0 up to 2^63 is parsed back into the window, whatever
-- the prefix, the account and the group.
pub parse-manifest_key :
    (prefix account log_group : Bytes) (s e : ℕ)
    → s < 2 ^ 63
    → e < 2 ^ 63
    → parse_manifest_key_window (manifest_key prefix account log_group (pos s) (pos e))
      ≡ some (record { start_ms = pos s; end_ms = pos e })
unfolding parse_manifest_key_window
parse-manifest_key prefix account log_group s e hs he =
    let (front, key) = window_part-front prefix account log_group (pos s) (pos e) in
    rw (key, file_part-append front (window_part (pos s) (pos e)) (window_part-IsFree s e))
      (parse-window_part s e hs he)

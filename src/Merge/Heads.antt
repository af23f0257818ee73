-- ===== src/Merge/Heads.antt =====
-- The orders of crates/s4logs-cli/src/scan.rs on records and on the heads of the sources.
use s4_logs.Prelude.{true, ℕ, ◌≡◌, refl, leb, Bool-cases, inl, inr}
use s4_logs.Prelude.Int.{leb_ℤ}
use s4_logs.Prelude.Order.{
  IsOrder, lex, lex-IsOrder, leb_bytes, leb_bytes-IsOrder, leb-IsOrder, leb_ℤ-IsOrder, on-IsOrder,
  le_refl,
}
use s4_logs.Record.{LogRecord}
use s4_logs.Merge.{rec_key, rec_le, head_le}

pub rec_le-IsOrder : IsOrder rec_le
unfolding rec_le
rec_le-IsOrder =
    on-IsOrder (lex leb_ℤ leb_bytes) rec_key
      (lex-IsOrder leb_ℤ leb_bytes leb_ℤ-IsOrder leb_bytes-IsOrder)

pub head_le-IsOrder : IsOrder head_le
unfolding head_le rec_le
head_le-IsOrder =
    on-IsOrder (lex (lex leb_ℤ leb_bytes) leb) (λ h. (rec_key h.0, h.1))
      (lex-IsOrder (lex leb_ℤ leb_bytes) leb
        (lex-IsOrder leb_ℤ leb_bytes leb_ℤ-IsOrder leb_bytes-IsOrder) leb-IsOrder)

-- Records of one source are ordered as their heads.
pub head_le-rec_le : (a b : LogRecord) (i : ℕ) → rec_le a b ≡ true → head_le (a, i) (b, i) ≡ true
unfolding head_le rec_le
head_le-rec_le a b i h = elim (Bool-cases (rec_le b a)) [
  | inl e ↦ rw (h, e) (le_refl leb leb-IsOrder i)
  | inr e ↦ rw (h, e) refl
]

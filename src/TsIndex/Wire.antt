-- ===== src/TsIndex/Wire.antt =====
-- What the code relies on in the `bytes` crate: fixed-width little-endian integers that are read
-- back as they were written, and bytes that are written back as they were read.
use s4_logs.Prelude.{ℕ, ◌≤◌, ◌<◌, ◌^◌, ◌≡◌, ◌++◌, All, length}
use s4_logs.Prelude.Int.{ℤ}
use s4_logs.Prelude.I64.{IsI64}
use s4_logs.Prelude.Text.{Bytes, IsByte}

pub record LittleEndian : Type 0 where
  pub put_u32_le : ℕ → Bytes
  pub put_u64_le : ℕ → Bytes
  pub put_i64_le : ℤ → Bytes
  pub get_u32_le : Bytes → ℕ × Bytes
  pub get_u64_le : Bytes → ℕ × Bytes
  pub get_i64_le : Bytes → ℤ × Bytes
  pub u32_width : (n : ℕ) → length (put_u32_le n) ≡ 4
  pub u64_width : (n : ℕ) → length (put_u64_le n) ≡ 8
  pub i64_width : (z : ℤ) → length (put_i64_le z) ≡ 8
  pub get-put_u32 :
      (n : ℕ) (rest : Bytes) → n < 2 ^ 32 → get_u32_le (put_u32_le n ++ rest) ≡ (n, rest)
  pub get-put_u64 :
      (n : ℕ) (rest : Bytes) → n < 2 ^ 64 → get_u64_le (put_u64_le n ++ rest) ≡ (n, rest)
  pub get-put_i64 : (z : ℤ) (rest : Bytes) → IsI64 z → get_i64_le (put_i64_le z ++ rest) ≡ (z, rest)
  pub put-get_u32 :
      (s : Bytes)
      → All IsByte s
      → 4 ≤ length s
      → put_u32_le (get_u32_le s).0 ++ (get_u32_le s).1 ≡ s
  pub put-get_u64 :
      (s : Bytes)
      → All IsByte s
      → 8 ≤ length s
      → put_u64_le (get_u64_le s).0 ++ (get_u64_le s).1 ≡ s
  pub put-get_i64 :
      (s : Bytes)
      → All IsByte s
      → 8 ≤ length s
      → put_i64_le (get_i64_le s).0 ++ (get_i64_le s).1 ≡ s
  pub get_i64-IsI64 : (s : Bytes) → All IsByte s → 8 ≤ length s → IsI64 (get_i64_le s).0

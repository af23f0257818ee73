-- ===== src/Read/Capped.antt =====
-- When decompression gives a result, and which.
use s4_logs.Prelude.{
  ℕ, ◌+◌, ◌-◌, ◌≤◌, ◌≡◌, ◌↔◌, true, length, ◌^◌, min, if◌then◌else◌, ltb, Bool, arith, Bool-cases,
  inl, inr,
}
use s4_logs.Prelude.Text.{Bytes}
use s4_logs.Prelude.Result.{ok, err}
use s4_logs.Crates.{Crates}
use s4_logs.Read.{bomb, bomb_slack_bytes, max_decompressed_bytes, capped, decompress_frames}

capped_ok :
    (cap expected : ℕ) (p : Bytes × Bool) (out : Bytes)
    → capped cap expected p ≡ ok out
    → (p ≡ (out, true)) × (length out ≡ expected)
unfolding capped
capped_ok cap expected p out h = ground arith

capped_passes :
    (expected : ℕ) (out : Bytes)
    → expected ≤ max_decompressed_bytes
    → length out ≡ expected
    → (if ltb max_decompressed_bytes expected
        then err (bomb max_decompressed_bytes)
        else capped (min (expected + bomb_slack_bytes) (2 ^ 64 - 1)) expected (out, true))
      ≡ ok out
unfolding capped
capped_passes expected out small size = ground arith

module _ (c : Crates) (input : Bytes) (expected : ℕ) (out : Bytes) where
  -- Decompression gives a result exactly if the expected size is within the ceiling and the input
  -- decodes without an error to that many bytes, which are the result.
  pub decompress_frames_iff : (decompress_frames c input expected ≡ ok out) ↔ (
      (expected ≤ max_decompressed_bytes)
      × (c.zstd_decode input ≡ (out, true))
      × (length out ≡ expected))
  unfolding decompress_frames
  decompress_frames_iff = (
    (λ h. elim (Bool-cases (ltb max_decompressed_bytes expected)) [
      | inl big ↦ absurd (ground (arith, big))
      | inr small ↦
          let (decodes, size) =
            capped_ok (min (expected + bomb_slack_bytes) (2 ^ 64 - 1)) expected
              (c.zstd_decode input) out (ground (arith, small)) in
          (ground arith, decodes, size)
    ]),
    (λ h. let (small, decodes, size) = h in rw decodes (capped_passes expected out small size)),
  )

-- ===== src/Identity.antt =====
-- crates/s4logs-drain/src/reconcile.rs: the identity of an event, two FNV-1a lanes of 64 bits each.
use s4_logs.Prelude.{
  ℕ, zero, suc, ◌+◌, ◌-◌, ◌*◌, ◌/◌, ◌%◌, ◌^◌, Option, none, some, [], ◌∷◌, length,
}
use s4_logs.Prelude.Int.{ℤ, pos, negsuc}
use s4_logs.Prelude.Text.{Bytes}
use Prim.Native.Nat.{bit_xor}

abbrev pub fnv_offset : ℕ
fnv_offset = 0xcbf29ce484222325

abbrev pub fnv_prime : ℕ
fnv_prime = 0x00000100000001b3

abbrev pub lane2_offset : ℕ
lane2_offset = bit_xor fnv_offset 0x9e3779b97f4a7c15

abbrev pub lane2_prime : ℕ
lane2_prime = 0xc2b2ae3d27d4eb4f

pub record Hash128 : Type 0 where
  pub a : ℕ
  pub b : ℕ

abbrev pub new_hash : Hash128
new_hash = record { a = fnv_offset; b = lane2_offset }

-- `Hash128::write`
unfoldable pub write : Bytes → Hash128 → Hash128
write [] h = h
write (x ∷ xs) h = write xs (record {
  a = (bit_xor h.a x * fnv_prime) % 2 ^ 64;
  b = (bit_xor h.b x * lane2_prime) % 2 ^ 64;
})

-- `Hash128::finish`
unfoldable pub finish_hash : Hash128 → ℕ
finish_hash h = h.a * 2 ^ 64 + h.b

-- `to_le_bytes` of a number of so many bytes, and of an i64.
unfoldable pub le_bytes : ℕ → ℕ → Bytes
le_bytes zero n = []
le_bytes (suc k) n = (n % 256) ∷ le_bytes k (n / 256)

abbrev pub as_u64 : ℤ → ℕ
as_u64 (pos n) = n % 2 ^ 64
as_u64 (negsuc n) = 2 ^ 64 - (suc n % 2 ^ 64)

unfoldable pub id_identity : Bytes → ℕ
unfolding write finish_hash
id_identity event_id = finish_hash (write event_id (write (1 ∷ []) new_hash))

unfoldable pub fallback_identity : ℤ → Bytes → Bytes → ℕ
unfolding write finish_hash le_bytes
fallback_identity timestamp stream message =
    let h1 = write (0 ∷ []) new_hash in
    let h2 = write (le_bytes 8 (as_u64 timestamp)) h1 in
    let h3 = write (le_bytes 4 (length stream % 2 ^ 32)) h2 in
    finish_hash (write message (write stream h3))

unfoldable pub record_identity : Option Bytes → ℤ → Bytes → Bytes → ℕ
record_identity (some event_id) timestamp stream message = id_identity event_id
record_identity none timestamp stream message = fallback_identity timestamp stream message

-- ===== src/TsIndex.antt =====
-- crates/s4logs-core/src/tsindex.rs: the S4LT sidecar, a header and the time range of each frame.
-- The integer reads and writes are those of the `bytes` crate, a parameter.
pub mod Wire
pub mod RoundTrip
pub mod Tests
use s4_logs.Prelude.{
  ℕ, zero, suc, ◌+◌, ◌*◌, ◌-◌, ◌^◌, min, Bool, List, [], ◌∷◌, ◌++◌, length, take, drop,
  if◌then◌else◌, ltb, ◌==◌, not,
}
use s4_logs.Prelude.Int.{ℤ, ltb_ℤ}
use s4_logs.Prelude.Text.{Bytes, bytes, eqb}
use s4_logs.Prelude.Result.{Result, ok, err, ◌>>=◌}
use s4_logs.TsIndex.Wire.{LittleEndian}

abbrev pub magic : Bytes
magic = bytes "S4LT"

abbrev pub version : ℕ
version = 1

abbrev pub header_bytes : ℕ
header_bytes = 4 + 4 + 8

abbrev pub entry_bytes : ℕ
entry_bytes = 8 + 8

abbrev pub max_frames : ℕ
max_frames = 16 * 1024 * 1024

pub record TsEntry : Type 0 where
  pub min_ts : ℤ
  pub max_ts : ℤ

pub record TsIndex : Type 0 where
  pub entries : List TsEntry

pub data TsIndexError : Type 0 where
  too_short : ℕ → TsIndexError
  bad_magic : Bytes → TsIndexError
  unsupported_version : ℕ → TsIndexError
  entry_count_mismatch : ℕ → ℕ → TsIndexError
  too_many_frames : ℕ → TsIndexError
  invalid_entry : ℕ → ℤ → ℤ → TsIndexError

module _ (wire : LittleEndian) where
  open wire use {put_u32_le, put_u64_le, put_i64_le, get_u32_le, get_u64_le, get_i64_le}

  pub put_entries : List TsEntry → Bytes
  put_entries [] = []
  put_entries (e ∷ es) = put_i64_le e.min_ts ++ (put_i64_le e.max_ts ++ put_entries es)

  pub encode_ts_index : TsIndex → Bytes
  encode_ts_index idx =
      magic ++ (put_u32_le version ++ (put_u64_le (length idx.entries) ++ put_entries idx.entries))

  -- The `for` loop: `idx` is the entry's number, the first argument how many are left.
  pub get_entries : ℕ → ℕ → Bytes → Result TsIndexError (List TsEntry)
  get_entries zero idx input = ok []
  get_entries (suc n) idx input =
      let (min_ts, after_min) = get_i64_le input in
      let (max_ts, after_max) = get_i64_le after_min in
      let rest = get_entries n (idx + 1) after_max in
      if ltb_ℤ max_ts min_ts
      then err (invalid_entry idx min_ts max_ts)
      else do es ← rest; ok (record { min_ts = min_ts; max_ts = max_ts } ∷ es)

  -- `usize` has 64 bits.
  pub decode_body : ℕ → Bytes → Result TsIndexError TsIndex
  decode_body n input =
      if ltb max_frames n
      then err (too_many_frames n)
      else if length input == min (n * entry_bytes) (2 ^ 64 - 1)
      then (do es ← get_entries n 0 input; ok (record { entries = es }))
      else err (entry_count_mismatch n (length input))

  pub decode_versioned : Bytes → Result TsIndexError TsIndex
  decode_versioned input =
      let (v, after_version) = get_u32_le input in
      let (n, rest) = get_u64_le after_version in
      if v == version then decode_body n rest else err (unsupported_version v)

  pub decode_ts_index : Bytes → Result TsIndexError TsIndex
  decode_ts_index input =
      if ltb (length input) header_bytes
      then err (too_short (length input))
      else if eqb (take 4 input) magic
      then decode_versioned (drop 4 input)
      else err (bad_magic (take 4 input))

-- ===== src/TsIndex/Tests.antt =====
-- The codec of tsindex.rs over concrete little-endian integers, and its theorems at inputs.
use s4_logs.Prelude.{
  ℕ, zero, suc, ◌+◌, ◌-◌, ◌*◌, ◌/◌, ◌%◌, ◌≤◌, ◌<◌, ◌^◌, ◌≡◌, refl, ap, ◌∙◌, [], ◌∷◌, ◌++◌, All,
  length, take, drop, arith, if◌then◌else◌, ltb,
}
use s4_logs.Prelude.Int.{ℤ, pos, negsuc}
use s4_logs.Prelude.I64.{IsI64}
use s4_logs.Prelude.Text.{Bytes, IsByte}
use s4_logs.Prelude.Result.{ok, err}
use s4_logs.TsIndex.Wire.{LittleEndian}
use s4_logs.TsIndex.{
  TsIndex, invalid_entry, max_frames, header_bytes, entry_bytes, put_entries, get_entries,
  encode_ts_index, decode_body, decode_versioned, decode_ts_index,
}
use s4_logs.TsIndex.RoundTrip.{IsEntry, decode-encode, encode-decode}

pub le : ℕ → ℕ → Bytes
le zero n = []
le (suc k) n = n % 256 ∷ le k (n / 256)

pub from_le : Bytes → ℕ
from_le [] = 0
from_le (b ∷ bs) = b + 256 * from_le bs

pub length-le : (k n : ℕ) → length (le k n) ≡ k
unfolding le
length-le zero n = refl
length-le (suc k) n = ap suc (length-le k (n / 256))

from_le-le : (k n : ℕ) → n < 256 ^ k → from_le (le k n) ≡ n
unfolding le from_le
from_le-le zero n h = omega arith
from_le-le (suc k) n h = omega (arith, from_le-le k (n / 256) (omega arith))

take-le : (k n : ℕ) (rest : Bytes) → take k (le k n ++ rest) ≡ le k n
unfolding le
take-le zero n rest = refl
take-le (suc k) n rest = ap (λ t. n % 256 ∷ t) (take-le k (n / 256) rest)

pub drop-le : (k n : ℕ) (rest : Bytes) → drop k (le k n ++ rest) ≡ rest
unfolding le
drop-le zero n rest = refl
drop-le (suc k) n rest = drop-le k (n / 256) rest

pub le-from_le :
    (k : ℕ) (s : Bytes) → All IsByte s → k ≤ length s → le k (from_le (take k s)) ++ drop k s ≡ s
unfolding le from_le
le-from_le zero s h long = refl
le-from_le (suc k) [] h long = absurd (omega arith)
le-from_le (suc k) (b ∷ bs) h long =
    let low : (b + 256 * from_le (take k bs)) % 256 ≡ b = omega (arith, h.0) in
    let high : (b + 256 * from_le (take k bs)) / 256 ≡ from_le (take k bs) = omega (arith, h.0) in
    rw (low, high) (ap (λ t. b ∷ t) (le-from_le k bs h.1 (omega arith)))

pub from_le-lt : (k : ℕ) (s : Bytes) → All IsByte s → from_le (take k s) < 256 ^ k
unfolding from_le
from_le-lt zero s h = omega arith
from_le-lt (suc k) [] h = omega (arith, from_le-lt k [] tt)
from_le-lt (suc k) (b ∷ bs) h = omega (arith, h.0, from_le-lt k bs h.1)

pub word : ℤ → ℕ
word (pos n) = n % 2 ^ 64
word (negsuc n) = 2 ^ 64 - 1 - n % 2 ^ 64

pub signed : ℕ → ℤ
signed n = if ltb n (2 ^ 63) then pos n else negsuc (2 ^ 64 - 1 - n)

pub signed-word : (z : ℤ) → IsI64 z → signed (word z) ≡ z
unfolding signed word
signed-word (pos n) h = ground arith
signed-word (negsuc n) h = ground arith

pub word-signed : (n : ℕ) → n < 2 ^ 64 → word (signed n) ≡ n
unfolding signed word
word-signed n h = ground arith

pub word-lt : (z : ℤ) → word z < 2 ^ 64
unfolding word
word-lt (pos n) = omega arith
word-lt (negsuc n) = omega arith

pub signed-IsI64 : (n : ℕ) → n < 2 ^ 64 → IsI64 (signed n)
unfolding signed
signed-IsI64 n h = ground arith

pub read-le : (k n : ℕ) (rest : Bytes) → n < 256 ^ k → from_le (take k (le k n ++ rest)) ≡ n
read-le k n rest h = rw (take-le k n rest) (from_le-le k n h)

abbrev pub little_endian : LittleEndian
unfolding le from_le word signed
little_endian = record {
  put_u32_le = le 4;
  put_u64_le = le 8;
  put_i64_le = λ z. le 8 (word z);
  get_u32_le = λ s. (from_le (take 4 s), drop 4 s);
  get_u64_le = λ s. (from_le (take 8 s), drop 8 s);
  get_i64_le = λ s. (signed (from_le (take 8 s)), drop 8 s);
  u32_width = length-le 4;
  u64_width = length-le 8;
  i64_width = λ z. length-le 8 (word z);
  get-put_u32 = λ n rest h. λ i. (read-le 4 n rest h i, drop-le 4 n rest i);
  get-put_u64 = λ n rest h. λ i. (read-le 8 n rest h i, drop-le 8 n rest i);
  get-put_i64 = λ z rest h. λ i. (
    (ap signed (read-le 8 (word z) rest (word-lt z)) ∙ signed-word z h) i,
    drop-le 8 (word z) rest i,
  );
  put-get_u32 = le-from_le 4;
  put-get_u64 = le-from_le 8;
  put-get_i64 =
      λ s h long. rw (word-signed (from_le (take 8 s)) (from_le-lt 8 s h)) (le-from_le 8 s h long);
  get_i64-IsI64 = λ s h long. signed-IsI64 (from_le (take 8 s)) (from_le-lt 8 s h);
}

abbrev sample : TsIndex
sample = record {
  entries =
      record { min_ts = negsuc 4; max_ts = pos 10 }
      ∷ record { min_ts = pos 3; max_ts = pos 3 }
      ∷ [];
}

sample-IsEntry : All IsEntry sample.entries
sample-IsEntry = (
  record { min_fits = omega arith; max_fits = omega arith; ordered = omega arith },
  (record { min_fits = omega arith; max_fits = omega arith; ordered = omega arith }, tt),
)

decode-encode_example :
    decode_ts_index little_endian (encode_ts_index little_endian sample) ≡ ok sample
decode-encode_example = decode-encode little_endian sample sample-IsEntry (omega arith)

abbrev one_frame : Bytes
one_frame =
    83 ∷ 52 ∷ 76 ∷ 84 ∷ 1 ∷ 0 ∷ 0 ∷ 0 ∷ 1 ∷ 0 ∷ 0 ∷ 0 ∷ 0 ∷ 0 ∷ 0 ∷ 0 ∷ 5 ∷ 0 ∷ 0 ∷ 0 ∷ 0 ∷ 0 ∷ 0
    ∷ 0 ∷ 9 ∷ 0 ∷ 0 ∷ 0 ∷ 0 ∷ 0 ∷ 0 ∷ 0 ∷ []

abbrev five_to_nine : TsIndex
five_to_nine = record { entries = record { min_ts = pos 5; max_ts = pos 9 } ∷ [] }

decode_one : decode_ts_index little_endian one_frame ≡ ok five_to_nine
unfolding decode_ts_index decode_versioned decode_body get_entries little_endian
decode_one = refl

encode-decode_example :
    (encode_ts_index little_endian five_to_nine ≡ one_frame)
    × All IsEntry five_to_nine.entries
    × (length five_to_nine.entries ≤ max_frames)
    × (length one_frame ≡ header_bytes + length five_to_nine.entries * entry_bytes)
encode-decode_example = encode-decode little_endian one_frame five_to_nine (omega arith) decode_one

-- A range whose ends are swapped is refused with its number.
decode_swapped :
    decode_ts_index little_endian (
      encode_ts_index little_endian (record {
        entries =
            record { min_ts = pos 5; max_ts = pos 9 }
            ∷ record { min_ts = pos 2; max_ts = pos 1 }
            ∷ [];
      }))
    ≡ err (invalid_entry 1 (pos 2) (pos 1))
unfolding encode_ts_index put_entries decode_ts_index decode_versioned decode_body get_entries
    little_endian
decode_swapped = refl

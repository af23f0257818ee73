-- ===== src/Crates/Sample.antt =====
-- Third-party code that keeps the laws, for the tests: a record with a timestamp alone is written as
-- its sign and a tally, and a frame is stored as it is.
use s4_logs.Prelude.{
  ℕ, zero, suc, ◌+◌, ◌≡◌, ◌≢◌, refl, ap, ◌∙◌, Bool, true, false, ◌&&◌, Option, none, some, [], ◌∷◌,
  arith, length, if◌then◌else◌, ◌==◌,
}
use s4_logs.Prelude.Int.{ℤ, pos, negsuc}
use s4_logs.Prelude.Text.{Bytes, bytes, IsFree}
use s4_logs.Record.{LogRecord}
use s4_logs.Crates.{Crates, IsLawful}

unfoldable pub tally : ℕ → Bytes
tally zero = []
tally (suc n) = b'i' ∷ tally n

length-tally : (n : ℕ) → length (tally n) ≡ n
unfolding tally
length-tally zero = refl
length-tally (suc n) = ap suc (length-tally n)

abbrev pub is_absent : {A : Type 0} → Option A → Bool
is_absent none = true
is_absent (some a) = false

abbrev pub is_nil : Bytes → Bool
is_nil [] = true
is_nil (b ∷ bs) = false

unfoldable pub signed : ℤ → Bytes
unfolding tally
signed (pos n) = b'+' ∷ tally n
signed (negsuc n) = b'-' ∷ tally n

abbrev pub at_time : ℤ → LogRecord
at_time t = record {
  timestamp = t;
  stream = [];
  message = [];
  ingestion_time = none;
  event_id = none;
}

unfoldable pub is_bare : LogRecord → Bool
is_bare r =
    is_nil r.stream && (is_nil r.message && (is_absent r.ingestion_time && is_absent r.event_id))

is_bare_lem : (r : LogRecord) → is_bare r ≡ true → at_time r.timestamp ≡ r
unfolding is_bare
is_bare_lem r h = ground arith

unfoldable pub read : Bytes → Option LogRecord
read [] = none
read (b ∷ bs) =
    if b == b'+'
    then some (at_time (pos (length bs)))
    else if b == b'-'
    then some (at_time (negsuc (length bs)))
    else none

read-signed : (t : ℤ) → read (signed t) ≡ some (at_time t)
unfolding read signed
read-signed (pos n) = rw (length-tally n) refl
read-signed (negsuc n) = rw (length-tally n) refl

tally-IsFree : (n : ℕ) → IsFree b'\n' (tally n)
unfolding tally
tally-IsFree zero = tt
tally-IsFree (suc n) = (omega arith, tally-IsFree n)

signed-IsFree : (t : ℤ) → IsFree b'\n' (signed t)
unfolding signed
signed-IsFree (pos n) = (omega arith, tally-IsFree n)
signed-IsFree (negsuc n) = (omega arith, tally-IsFree n)

signed-ne-nil : (t : ℤ) → signed t ≢ []
unfolding signed
signed-ne-nil (pos n) e = cc
signed-ne-nil (negsuc n) e = cc

abbrev pub sample_crates : Crates
sample_crates = record {
  to_writer = λ r. (signed r.timestamp, is_bare r);
  from_slice = read;
  zstd_encode = λ level checksum n plain. some plain;
  zstd_decode = λ input. (input, true);
  crc32c = length;
  compressed_end = λ e. e.compressed_offset + e.compressed_size;
  encode_index = λ idx. [];
  sidecar_suffix = bytes ".s4index";
}

pub sample_crates-IsLawful : IsLawful sample_crates
unfolding signed is_bare read
sample_crates-IsLawful = record {
  line_free = λ r. signed-IsFree r.timestamp;
  line_some = λ r. signed-ne-nil r.timestamp;
  line_parses = λ r h. read-signed r.timestamp ∙ ap some (is_bare_lem r h);
  decode_none = refl;
  decode_frame = λ level n plain frame rest h. let same : plain ≡ frame = cc in rw same refl;
  end_of_entry = λ e. refl;
}

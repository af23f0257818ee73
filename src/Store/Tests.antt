-- ===== src/Store/Tests.antt =====
-- A bucket as a map from keys to bodies, and a chunk put into it.
use s4_logs.Prelude.{
  Option, none, some, [], ◌∷◌, ◌≡◌, refl, ap, All, length, ◌≤◌, ◌∙◌, sym, Bool-cases, inl, inr,
  arith, if◌then◌else◌,
}
use s4_logs.Prelude.Text.{Bytes, bytes, eqb, eqb_refl, eq_of_eqb}
use s4_logs.Prelude.Result.{Result, ok, err}
use s4_logs.Crates.{Crates}
use s4_logs.Crates.Sample.{sample_crates}
use s4_logs.Chunk.Tests.{object}
use s4_logs.TsIndex.{max_frames}
use s4_logs.TsIndex.RoundTrip.{IsEntry}
use s4_logs.TsIndex.Tests.{little_endian}
use s4_logs.Layout.{ChunkLocation}
use s4_logs.Sink.{PutReceipt, encode_sidecars}
use s4_logs.Store.{
  S3, GetError, no_such_key, ObjectStore, put_chunk, get_bytes, load_indexes, receipt, no_object,
  put_sidecars, put_bytes, put_data_bytes, put_object_inner,
}
use s4_logs.Store.Written.{
  IsBucket, IsIndexed, IsOrdered, stamped, put_chunk_reads, put_chunk-IsOrdered,
}

abbrev Bucket : Type 0
Bucket = Bytes → Option Bytes

abbrev found : Option Bytes → Result GetError Bytes
found none = err no_such_key
found (some body) = ok body

abbrev etag_of : Bytes → Option Bytes
etag_of [] = none
etag_of (b ∷ bs) = some bs

abbrev etag_bytes : Option Bytes → Bytes
etag_bytes none = []
etag_bytes (some e) = 1 ∷ e

abbrev bucket : S3 Bucket
bucket = record {
  put_object = λ key body sc d. (λ k. if eqb k key then some body else d k, ok none);
  get_object = λ key d. found (d key);
  get_object_range = λ key range d. err no_such_key;
  list_page = λ prefix token d. ok ([], none);
  head_object = λ key d. err no_object;
  decode_index = λ s. ok (stamped object (etag_of s));
}

bucket-IsBucket : IsBucket bucket
bucket-IsBucket = record {
  put_reads = λ key body sc d d' etag h.
      ap (λ (z : Bucket × Result Bytes (Option Bytes)). found (z.0 key)) (sym h)
      ∙ rw (eqb_refl key) refl;
  put_other = λ key other body sc d n. elim (Bool-cases (eqb other key)) [
    | inl e ↦ absurd (n (eq_of_eqb other key e))
    | inr e ↦ rw (e) refl
  ];
}

abbrev crates : Crates
crates = record sample_crates { encode_index = λ idx. etag_bytes idx.source_etag }

etag_read : (e : Option Bytes) → etag_of (etag_bytes e) ≡ e
etag_read none = refl
etag_read (some e) = refl

object-IsIndexed : IsIndexed bucket crates object
object-IsIndexed = record {
  index_reads = λ etag. ap (λ e. ok (stamped object e)) (etag_read etag);
  other_suffix = λ h. ground arith;
}

abbrev store : ObjectStore
store = record { prefix = bytes "logs"; storage_class = some (bytes "GLACIER_IR") }

abbrev loc : ChunkLocation
loc = record { account = bytes "1"; log_group = bytes "g"; date = bytes "d"; name = bytes "n" }

abbrev before : Bucket
before = λ k. none

abbrev after : Bucket
after = (put_chunk bucket store crates little_endian loc object before).0

abbrev given : PutReceipt
given = receipt bucket store crates little_endian loc object none

put_object : put_chunk bucket store crates little_endian loc object before ≡ (after, ok given)
unfolding put_chunk put_sidecars put_bytes put_data_bytes put_object_inner encode_sidecars
put_object = refl

object-IsEntry : All IsEntry object.ts_index.entries
object-IsEntry = (
  record { min_fits = omega arith; max_fits = omega arith; ordered = omega arith },
  (record { min_fits = omega arith; max_fits = omega arith; ordered = omega arith }, tt),
)

object_small : length object.ts_index.entries ≤ max_frames
object_small = omega arith

put_chunk_reads_example :
    (get_bytes bucket store given.data_key after ≡ ok object.body)
    × (load_indexes bucket store crates little_endian loc after
        ≡ ok (stamped object none, object.ts_index))
put_chunk_reads_example =
    put_chunk_reads bucket store bucket-IsBucket crates little_endian loc object before after given
      object-IsIndexed object-IsEntry object_small put_object

put_chunk-IsOrdered_example :
    IsOrdered bucket store bucket-IsBucket crates little_endian loc object before after
put_chunk-IsOrdered_example =
    put_chunk-IsOrdered bucket store bucket-IsBucket crates little_endian loc object before

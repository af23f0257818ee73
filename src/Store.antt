-- ===== src/Store.antt =====
-- `ObjectStore` of crates/s4logs-core/src/store.rs over a client of S3 for one bucket: what the AWS SDK
-- answers is a parameter over a state of the bucket, as is the decoder of s4-codec's index.
pub mod Written
mod Tests
use s4_logs.Prelude.{
  ℕ, zero, suc, ◌-◌, Bool, true, false, Option, none, some, List, [], ◌∷◌, ◌++◌, length,
  if◌then◌else◌, leb,
}
use s4_logs.Prelude.Decimal.{show_ℕ}
use s4_logs.Prelude.Text.{Bytes, bytes}
use s4_logs.Prelude.Result.{Result, ok, err, ◌>>=◌, map_err}
use s4_logs.Crates.{Crates, FrameIndex}
use s4_logs.TsIndex.{TsIndex, decode_ts_index}
use s4_logs.TsIndex.Wire.{LittleEndian}
use s4_logs.Chunk.{EncodedChunk}
use s4_logs.Layout.{
  ChunkLocation, norm_prefix, data_key, index_key, ts_index_key, parse_data_key, data_group_prefix,
}
use s4_logs.Sink.{StoreError, SinkError, PutReceipt, encode_sidecars}

pub data GetError : Type 0 where
  no_such_key : GetError
  send_failed : Bytes → GetError
  body_failed : Bytes → GetError

pub data HeadError : Type 0 where
  no_object : HeadError
  head_failed : Bytes → HeadError

-- The calls of the SDK; an error that the source only passes on is its text. `list_page` gives the keys
-- of the page's objects, where they have one, and the token of the next page.
pub record S3 (D : Type 0) : Type 0 where
  pub put_object : Bytes → Bytes → Option Bytes → D → D × Result Bytes (Option Bytes)
  pub get_object : Bytes → D → Result GetError Bytes
  pub get_object_range : Bytes → Bytes → D → Result GetError Bytes
  pub list_page : Bytes → Option Bytes → D → Result Bytes (List (Option Bytes) × Option Bytes)
  pub head_object : Bytes → D → Result HeadError Unit
  pub decode_index : Bytes → Result Bytes FrameIndex

pub record ObjectStore : Type 0 where
  pub prefix : Bytes
  pub storage_class : Option Bytes

unfoldable pub new_store : Bytes → ObjectStore
new_store prefix = record { prefix = norm_prefix prefix; storage_class = none }

abbrev pub with_storage_class : Option Bytes → ObjectStore → ObjectStore
with_storage_class sc st = record st { storage_class = sc }

abbrev pub present : List (Option Bytes) → List Bytes
present [] = []
present (none ∷ ks) = present ks
present (some k ∷ ks) = k ∷ present ks

abbrev pub parsed_keys : Bytes → List Bytes → List ChunkLocation
parsed_keys prefix [] = []
parsed_keys prefix (k ∷ ks) = elim (parse_data_key prefix k) [
  | none ↦ parsed_keys prefix ks
  | some loc ↦ loc ∷ parsed_keys prefix ks
]

module _ {D : Type 0} (s3 : S3 D) (st : ObjectStore) where
  unfoldable pub put_object_inner :
      Bytes → Bytes → Option Bytes → D → D × Result StoreError (Option Bytes)
  put_object_inner key body storage_class d =
      let (d', out) = s3.put_object key body storage_class d in
      (d', map_err (StoreError.aws (bytes "PutObject") key) out)

  unfoldable pub put_bytes : Bytes → Bytes → D → D × Result StoreError (Option Bytes)
  unfolding put_object_inner
  put_bytes key body d = put_object_inner key body none d

  unfoldable pub put_data_bytes : Bytes → Bytes → D → D × Result StoreError (Option Bytes)
  unfolding put_object_inner
  put_data_bytes key body d = put_object_inner key body st.storage_class d

  -- The errors of `get_bytes` and `get_range`, which call themselves by other names.
  abbrev pub get_error : Bytes → Bytes → Bytes → GetError → StoreError
  get_error op body_op key no_such_key = StoreError.not_found key
  get_error op body_op key (send_failed e) = StoreError.aws op key e
  get_error op body_op key (body_failed e) = StoreError.aws body_op key e

  unfoldable pub get_bytes : Bytes → D → Result StoreError Bytes
  get_bytes key d =
      map_err (get_error (bytes "GetObject") (bytes "GetObject(body)") key) (s3.get_object key d)

  abbrev pub range_header : ℕ → ℕ → Bytes
  range_header start end_exclusive =
      bytes "bytes=" ++ (show_ℕ start ++ (b'-' ∷ show_ℕ (end_exclusive - 1)))

  unfoldable pub get_range : Bytes → ℕ → ℕ → D → Result StoreError Bytes
  get_range key start end_exclusive d =
      if leb end_exclusive start
      then ok []
      else map_err (get_error (bytes "GetObject(range)") (bytes "GetObject(range body)") key)
          (s3.get_object_range key (range_header start end_exclusive) d)

  -- The pages from a token on; `none` says that the fuel ran out.
  abbrev pub and_pages :
      (Option Bytes → Option (Result StoreError (List Bytes)))
      → Bytes
      → Result Bytes (List (Option Bytes) × Option Bytes)
      → Option (Result StoreError (List Bytes))
  and_pages more key_prefix (err e) =
      some (err (StoreError.aws (bytes "ListObjectsV2") key_prefix e))
  and_pages more key_prefix (ok (ks, none)) = some (ok (present ks))
  and_pages more key_prefix (ok (ks, some token)) = elim (more (some token)) [
    | none ↦ none
    | some (err e) ↦ some (err e)
    | some (ok rest) ↦ some (ok (present ks ++ rest))
  ]

  unfoldable pub list_from : ℕ → Bytes → D → Option Bytes → Option (Result StoreError (List Bytes))
  list_from zero key_prefix d token = none
  list_from (suc fuel) key_prefix d token =
      and_pages (list_from fuel key_prefix d) key_prefix (s3.list_page key_prefix token d)

  unfoldable pub list_keys : ℕ → Bytes → D → Option (Result StoreError (List Bytes))
  unfolding list_from
  list_keys fuel key_prefix d = list_from fuel key_prefix d none

  unfoldable pub exists : Bytes → D → Result StoreError Bool
  exists key d = elim (s3.head_object key d) [
    | ok _ ↦ ok true
    | err no_object ↦ ok false
    | err (head_failed e) ↦ err (StoreError.aws (bytes "HeadObject") key e)
  ]

  unfoldable pub list_chunks :
      ℕ → Bytes → Bytes → D → Option (Result StoreError (List ChunkLocation))
  unfolding list_keys
  list_chunks fuel account log_group d =
      elim (list_keys fuel (data_group_prefix st.prefix account log_group) d) [
        | none ↦ none
        | some (err e) ↦ some (err e)
        | some (ok keys) ↦ some (ok (parsed_keys st.prefix keys))
      ]

  module _ (c : Crates) (wire : LittleEndian) where
    unfoldable pub load_indexes : ChunkLocation → D → Result StoreError (FrameIndex × TsIndex)
    unfolding get_bytes
    load_indexes loc d = do
      idx_bytes ← get_bytes (index_key c.sidecar_suffix loc st.prefix) d
      idx ← map_err StoreError.index (s3.decode_index idx_bytes)
      ts_bytes ← get_bytes (ts_index_key loc st.prefix) d
      ts ← map_err StoreError.ts_index (decode_ts_index wire ts_bytes)
      ok (idx, ts)

    abbrev pub Put : Type 0
    Put = D × Result SinkError PutReceipt

    abbrev pub receipt : ChunkLocation → EncodedChunk → Option Bytes → PutReceipt
    receipt loc chunk etag = record {
      data_key = data_key loc st.prefix;
      index_key = index_key c.sidecar_suffix loc st.prefix;
      ts_index_key = ts_index_key loc st.prefix;
      etag = etag;
      crc32c = chunk.crc32c;
      body_len = length chunk.body;
      storage_class = st.storage_class;
    }

    -- A PUT, and what follows if it succeeds.
    abbrev pub and_put : (D → Option Bytes → Put) → D × Result StoreError (Option Bytes) → Put
    and_put more (d, ok etag) = more d etag
    and_put more (d, err e) = (d, err (SinkError.store e))

    abbrev pub acknowledged : ChunkLocation → EncodedChunk → Option Bytes → D → Option Bytes → Put
    acknowledged loc chunk etag d _ = (d, ok (receipt loc chunk etag))

    abbrev pub put_times :
        ChunkLocation → EncodedChunk → Option Bytes → Bytes → D → Option Bytes → Put
    put_times loc chunk etag ts_bytes d _ =
        and_put (acknowledged loc chunk etag) (put_bytes (ts_index_key loc st.prefix) ts_bytes d)

    -- Both sidecars, one after the other.
    unfoldable pub put_sidecars : ChunkLocation → EncodedChunk → D → Option Bytes → Put
    unfolding put_bytes
    put_sidecars loc chunk d etag =
        let (idx_bytes, ts_bytes) = encode_sidecars c wire chunk etag in
        and_put (put_times loc chunk etag ts_bytes)
          (put_bytes (index_key c.sidecar_suffix loc st.prefix) idx_bytes d)

    unfoldable pub put_chunk : ChunkLocation → EncodedChunk → D → Put
    unfolding put_sidecars put_data_bytes
    put_chunk loc chunk d =
        and_put (put_sidecars loc chunk) (put_data_bytes (data_key loc st.prefix) chunk.body d)

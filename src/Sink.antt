-- ===== src/Sink.antt =====
-- crates/s4logs-core/src/sink.rs: the receipt of a chunk that was put, the stamp on its frame index,
-- and the errors.
use s4_logs.Prelude.{ℕ, Option, some, length}
use s4_logs.Prelude.Text.{Bytes}
use s4_logs.Crates.{Crates}
use s4_logs.TsIndex.{TsIndexError, encode_ts_index}
use s4_logs.TsIndex.Wire.{LittleEndian}
use s4_logs.Chunk.{EncodedChunk}

-- `StoreError` of store.rs. The errors of the AWS SDK and of s4-codec are left at a text.
pub data StoreError : Type 0 where
  aws : (op key source : Bytes) → StoreError
  not_found : (key : Bytes) → StoreError
  index : Bytes → StoreError
  ts_index : TsIndexError → StoreError

pub data SinkError : Type 0 where
  storage : Bytes → SinkError
  store : StoreError → SinkError

pub record PutReceipt : Type 0 where
  pub data_key : Bytes
  pub index_key : Bytes
  pub ts_index_key : Bytes
  pub etag : Option Bytes
  pub crc32c : ℕ
  pub body_len : ℕ
  pub storage_class : Option Bytes

module _ (c : Crates) (wire : LittleEndian) where
  unfoldable pub encode_sidecars : EncodedChunk → Option Bytes → Bytes × Bytes
  encode_sidecars chunk etag = (
    c.encode_index (record chunk.frame_index {
      source_etag = etag;
      source_compressed_size = some (length chunk.body);
    }),
    encode_ts_index wire chunk.ts_index,
  )

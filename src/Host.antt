-- ===== src/Host.antt =====
-- What the gateway's code calls outside the repository, as a parameter over a state of the world: the
-- file system of std::fs, the clock, the uuid crate, serde_json on a line of the log, and the sink. An
-- operation returns the new world beside its answer; a file is named by its path.
pub mod Sample
use s4_logs.Prelude.{Bool, Option, some, List, [], ◌≡◌, ◌≢◌, ℕ}
use s4_logs.Prelude.Int.{ℤ}
use s4_logs.Prelude.Text.{Bytes, IsFree}
use s4_logs.Prelude.Result.{Result}
use s4_logs.Crates.{Crates}
use s4_logs.Layout.{ChunkLocation}
use s4_logs.Chunk.{EncodedChunk}
use s4_logs.Sink.{SinkError, PutReceipt}

-- `WalEntry` of crates/s4logs-gateway/src/wal.rs
pub record WalEntry : Type 0 where
  pub log_group : Bytes
  pub timestamp : ℤ
  pub stream : Bytes
  pub message : Bytes
  pub ingestion_time : Option ℤ

pub record Host (D : Type 0) : Type 0 where
  pub crates : Crates
  pub date_from_ts_ms : ℤ → Bytes
  -- `serde_json::to_vec` and `serde_json::from_slice`
  pub to_vec : WalEntry → Option Bytes
  pub from_slice : Bytes → Option WalEntry
  -- `Instant::now` in milliseconds, and `Uuid::new_v4().simple()`
  pub now : D → ℕ
  pub new_v4 : D → D × Bytes
  -- The sink.
  pub put_chunk : ChunkLocation → EncodedChunk → D → D × Result SinkError PutReceipt
  pub sink_ready : D → Bool
  -- std::fs; `false` or `none` is an I/O error. `read_dir` gives the names, and whether each is a
  -- file.
  pub join : Bytes → Bytes → Bytes
  pub parent : Bytes → Option Bytes
  pub create_dir_all : Bytes → D → D × Bool
  pub create_new : Bytes → D → D × Bool
  pub write_all : Bytes → Bytes → D → D × Bool
  pub sync_data : Bytes → D → D × Bool
  pub sync_dir : Bytes → D → D × Bool
  pub remove_file : Bytes → D → D × Bool
  pub exists : Bytes → D → Bool
  pub read_dir : Bytes → D → Option (List (Bytes × Bool))
  pub read : Bytes → D → Option Bytes

-- Compact JSON of an entry has no newline, is not empty, and is read back.
pub record HasLines {D : Type 0} (h : Host D) : Type 0 where
  pub entry_free : (e : WalEntry) (line : Bytes) → h.to_vec e ≡ some line → IsFree b'\n' line
  pub entry_some : (e : WalEntry) (line : Bytes) → h.to_vec e ≡ some line → line ≢ []
  pub entry_parses :
      (e : WalEntry) (line : Bytes) → h.to_vec e ≡ some line → h.from_slice line ≡ some e

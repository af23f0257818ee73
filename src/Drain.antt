-- ===== src/Drain.antt =====
-- The types of crates/s4logs-drain/src/job.rs that the drain's other parts use.
use s4_logs.Prelude.Text.{Bytes}
use s4_logs.Chunk.{ChunkError}
use s4_logs.Manifest.{ManifestError}
use s4_logs.Cw.{CwError}
use s4_logs.Sink.{SinkError}
use s4_logs.Window.{WindowError}

pub data DrainError : Type 0 where
  cw : CwError → DrainError
  chunk : ChunkError → DrainError
  sink : SinkError → DrainError
  manifest : ManifestError → DrainError
  window : WindowError → DrainError
  bad_options : Bytes → DrainError

-- ===== src/Record.antt =====
-- crates/s4logs-core/src/record.rs: one log event, as a line of a data object.
use s4_logs.Prelude.{Option}
use s4_logs.Prelude.Int.{ℤ}
use s4_logs.Prelude.Text.{Bytes}

pub record LogRecord : Type 0 where
  pub timestamp : ℤ
  pub stream : Bytes
  pub message : Bytes
  pub ingestion_time : Option ℤ
  pub event_id : Option Bytes

pub data RecordError : Type 0 where
  encode decode : RecordError

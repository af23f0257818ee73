-- ===== src/Flusher/Tests.antt =====
-- A gateway whose sink refuses the first PUT.
use s4_logs.Prelude.{◌≤◌, ◌≡◌, refl, none, List, [], ◌∷◌, arith}
use s4_logs.Prelude.Int.{ℤ, pos}
use s4_logs.Prelude.Text.{bytes}
use s4_logs.Prelude.Result.{Result, ok}
use s4_logs.Record.{LogRecord}
use s4_logs.Crates.Sample.{sample_crates, sample_crates-IsLawful, signed, tally, is_bare, at_time}
use s4_logs.Jsonl.{append_jsonl}
use s4_logs.Chunk.{
  add_u64, new, push, pend, cut_frame, close_frame, compress_frame, encode, uncompressed_len,
}
use s4_logs.Chunk.Tests.{small}
use s4_logs.Host.{Host}
use s4_logs.Host.Sample.{Mem, sample, sample_receipt}
use s4_logs.Buffer.{
  BufferConfig, BufferError, Entry, InputLogEvent, accept, push_batch, push_one, append_one,
  open_buf, sync_wal, take_due, shed, take_matching, remove_entries, buffered_total, incoming,
}
use s4_logs.Buffer.Bags.{SameRecords}
use s4_logs.Buffer.Push.{IsPacking}
use s4_logs.Buffer.Bound.{accept-bound}
use s4_logs.Flusher.{
  Manager, new_manager, push_events, flush_all, reserve, flush_taken, flush_one, flush_to, answered,
  reinsert,
}
use s4_logs.Flusher.ReadBack.{archived}
use s4_logs.Flusher.Lossless.{due_of, Reach, start, IsLossless, Reach-IsLossless}
use s4_logs.Flusher.Methods.{at, push_events-Reach, flush_all_delivers}

-- A buffer is due as soon as it has four bytes.
abbrev cfg : BufferConfig
cfg = record {
  account = bytes "a";
  flush_bytes = 4;
  flush_interval = 10;
  chunk = small;
  wal_dir = none;
  max_buffered_bytes = 1000;
}

abbrev event : ℤ → InputLogEvent
event t = record { timestamp = t; message = [] }

abbrev first : List InputLogEvent
first = event (pos 2) ∷ event (pos 0) ∷ []

abbrev second : List InputLogEvent
second = event (pos 1) ∷ []

abbrev world : Mem
world = record { files = []; refuses = 1 }

sample_crates-IsPacking : IsPacking sample_crates
unfolding compress_frame
sample_crates-IsPacking level plain = (plain, refl)

-- The first flush fails, and the buffer comes back.
abbrev m1 : Manager Mem
m1 = (push_events sample cfg (bytes "g") [] first (new_manager world)).0

abbrev m2 : Manager Mem
m2 = (push_events sample cfg (bytes "g") [] second m1).0

abbrev three : List LogRecord
three = at_time (pos 2) ∷ at_time (pos 0) ∷ at_time (pos 1) ∷ []

m1_runs : (push_events sample cfg (bytes "g") [] first (new_manager world)).1 ≡ ok tt
unfolding push_events reserve accept push_batch push_one append_one open_buf sync_wal take_due shed
    take_matching remove_entries buffered_total incoming flush_taken flush_one flush_to answered
    reinsert push pend add_u64 new cut_frame close_frame compress_frame encode append_jsonl tally
    signed is_bare uncompressed_len
m1_runs = refl

abbrev two : List LogRecord
two = at_time (pos 2) ∷ at_time (pos 0) ∷ []

push_events-Reach_example : Reach sample cfg world (at sample cfg m1 [] two)
unfolding push_events reserve accept push_batch push_one append_one open_buf sync_wal take_due shed
    take_matching remove_entries buffered_total incoming flush_taken flush_one flush_to answered
    reinsert push pend add_u64 new cut_frame close_frame compress_frame encode append_jsonl tally
    signed is_bare uncompressed_len
push_events-Reach_example =
    push_events-Reach sample cfg (bytes "g") [] first (new_manager world) [] []
      ((refl, omega arith), ((refl, omega arith), tt)) (omega arith) start

reach_again : Reach sample cfg world (at sample cfg m2 [] three)
unfolding push_events reserve accept push_batch push_one append_one open_buf sync_wal take_due shed
    take_matching remove_entries buffered_total incoming flush_taken flush_one flush_to answered
    reinsert push pend add_u64 new cut_frame close_frame compress_frame encode append_jsonl tally
    signed is_bare uncompressed_len
reach_again =
    push_events-Reach sample cfg (bytes "g") [] second m1 [] two ((refl, omega arith), tt)
      (omega arith)
      (push_events-Reach sample cfg (bytes "g") [] first (new_manager world) [] []
        ((refl, omega arith), ((refl, omega arith), tt)) (omega arith) start)

Reach-IsLossless_example : IsLossless sample cfg (at sample cfg m2 [] three)
Reach-IsLossless_example =
    Reach-IsLossless sample cfg sample_crates-IsLawful sample_crates-IsPacking refl reach_again

-- A sink that takes everything.
abbrev open_sample : Host Mem
open_sample = record sample { put_chunk = λ loc made d. (d, ok (sample_receipt made)) }

abbrev m3 : Manager Mem
m3 = (push_events open_sample cfg (bytes "g") [] second (new_manager world)).0

reach_open : Reach open_sample cfg world (at open_sample cfg m3 [] (at_time (pos 1) ∷ []))
unfolding push_events reserve accept push_batch push_one append_one open_buf sync_wal take_due shed
    take_matching remove_entries buffered_total incoming flush_taken flush_one flush_to answered
    reinsert push pend add_u64 new cut_frame close_frame compress_frame encode append_jsonl tally
    signed is_bare uncompressed_len
reach_open =
    push_events-Reach open_sample cfg (bytes "g") [] second (new_manager world) [] []
      ((refl, omega arith), tt) (omega arith) start

flush_all_delivers_example :
    ((flush_all open_sample cfg m3).1 ≡ ok tt)
    × ((flush_all open_sample cfg m3).0.buffers ≡ [])
    × SameRecords
        (at_time (pos 1) ∷ [])
        (archived sample_crates (flush_all open_sample cfg m3).0.puts)
flush_all_delivers_example =
    flush_all_delivers open_sample cfg sample_crates-IsLawful sample_crates-IsPacking refl
      (λ loc made d. (d, sample_receipt made, refl)) m3 (at_time (pos 1) ∷ []) reach_open

abbrev pool : Mem × List Entry × Result BufferError (List Entry)
pool = accept sample cfg (bytes "g") two world []

abbrev due_one : List Entry
due_one = due_of pool.2

accept_runs : accept sample cfg (bytes "g") two world [] ≡ (world, [], ok due_one)
unfolding push_events reserve accept push_batch push_one append_one open_buf sync_wal take_due shed
    take_matching remove_entries buffered_total incoming flush_taken flush_one flush_to answered
    reinsert push pend add_u64 new cut_frame close_frame compress_frame encode append_jsonl tally
    signed is_bare uncompressed_len
accept_runs = refl

accept-bound_example : buffered_total [] ≤ 1000
accept-bound_example = accept-bound sample cfg (bytes "g") two world world [] [] due_one accept_runs

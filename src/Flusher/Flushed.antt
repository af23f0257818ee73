-- ===== src/Flusher/Flushed.antt =====
-- One flush, whatever the sink answers: where the records of the buffer are afterwards.
use s4_logs.Prelude.{
  ◌+◌, ◌≤◌, ◌≡◌, refl, sym, ap, subst, ◌∙◌, Option, none, some, List, [], ◌++◌, arith, length,
  append-nil,
}
use s4_logs.Prelude.Result.{Result, ok, err}
use s4_logs.Record.{LogRecord}
use s4_logs.Crates.{IsLawful}
use s4_logs.Jsonl.{jsonl}
use s4_logs.Layout.{ChunkLocation}
use s4_logs.Read.{max_decompressed_bytes}
use s4_logs.Chunk.{EncodedChunk, encode}
use s4_logs.Chunk.Archive.{encode_total}
use s4_logs.Chunk.Held.{none-IsHolding}
use s4_logs.Sink.{SinkError, PutReceipt}
use s4_logs.Host.{Host}
use s4_logs.Wal.{uuid8}
use s4_logs.Buffer.{BufferConfig, BufKey, Buf, Entry}
use s4_logs.Buffer.Bags.{weight, weight-append, SameRecords}
use s4_logs.Buffer.Held.{IsBuf, IsHeld}
use s4_logs.Buffer.Push.{IsPacking}
use s4_logs.Flusher.{Manager, chunk_records, answered, chunk_place, flush_to, flush_one, Done}
use s4_logs.Flusher.ReadBack.{or_none, archived, archived-snoc, chunk_records-IsHolding}
use s4_logs.Flusher.Merge.{reinsert-IsHeld}

module _ {D : Type 0} (h : Host D) (cfg : BufferConfig) (law : IsLawful h.crates)
    (packs : IsPacking h.crates) where
  -- From `m`, whose buffers held `rs`, with `x` in flight: what the map holds, what was archived.
  abbrev pub IsSettled : Manager D → List LogRecord → List LogRecord → Manager D → Type 0
  IsSettled m rs x m' =
      (left a : List LogRecord) × IsHeld h.crates m'.buffers left
      × (archived h.crates m'.puts ≡ archived h.crates m.puts ++ a)
      × SameRecords (rs ++ x) (left ++ a)

  answered-IsSettled :
      (k : BufKey) (buf : Buf) (made : EncodedChunk) (loc : ChunkLocation) (m : Manager D)
      (answer : D × Result SinkError PutReceipt) (x rs : List LogRecord)
      → length (jsonl h.crates rs) + length (jsonl h.crates x) ≤ max_decompressed_bytes
      → IsBuf h.crates buf x
      → chunk_records h.crates made ≡ some x
      → IsHeld h.crates m.buffers rs
      → IsSettled m rs x (answered h cfg k buf made loc m answer).0
  unfolding answered
  answered-IsSettled k buf made loc m (d, ok receipt) x rs fits is_buf reads held = (
    rs,
    x,
    held,
    archived-snoc h.crates m.puts loc made ∙ ap (λ z. archived h.crates m.puts ++ or_none z) reads,
    λ f. refl,
  )
  answered-IsSettled k buf made loc m (d, err e) x rs fits is_buf reads held = (
    rs ++ x,
    [],
    reinsert-IsHeld h.crates packs k buf made m.buffers x rs (omega arith) is_buf reads held,
    sym (append-nil (archived h.crates m.puts)),
    λ f. omega (arith, weight-append f (rs ++ x) []),
  )

  pub flush_one-IsSettled :
      (k : BufKey) (buf : Buf) (m : Manager D) (x rs : List LogRecord)
      → length (jsonl h.crates rs) + length (jsonl h.crates x) ≤ max_decompressed_bytes
      → IsBuf h.crates buf x
      → IsHeld h.crates m.buffers rs
      → IsSettled m rs x (flush_one h cfg (k, buf) m).0
  unfolding flush_one flush_to
  flush_one-IsSettled k buf m x rs fits is_buf held =
      let (out, e) = encode_total h.crates packs buf.writer in
      subst (λ z. IsSettled m rs x (flush_to h cfg k buf m z).0) (sym e) (go out e)
    where
      go :
          (out : Option EncodedChunk)
          → encode h.crates buf.writer ≡ ok out
          → IsSettled m rs x (flush_to h cfg k buf m (ok out)).0
      go none e =
          let empty : x ≡ [] = none-IsHolding h.crates buf.writer x (omega arith) is_buf.0 e in
          (
            rs,
            [],
            held,
            sym (append-nil (archived h.crates m.puts)),
            λ f. ap (λ z. weight f (rs ++ z)) empty,
          )
      go (some made) e =
          let reads : chunk_records h.crates made ≡ some x =
            chunk_records-IsHolding h.crates law buf.writer x made (omega arith) is_buf.2 is_buf.0
              e in
          answered-IsSettled k buf made (chunk_place h cfg k buf (uuid8 h m.world).1) m _ x rs fits
            is_buf reads held

  -- With a sink that takes everything, the buffers stay as they are.
  abbrev pub IsTaking : Type 0
  IsTaking =
      (loc : ChunkLocation) (made : EncodedChunk) (d : D)
      → (d' : D) × (receipt : PutReceipt) × (h.put_chunk loc made d ≡ (d', ok receipt))

  abbrev pub IsDone : List Entry → Done h cfg → Type 0
  IsDone es (m, r) = (m.buffers ≡ es) × (r ≡ ok tt)

  pub flush_one-IsDone :
      (k : BufKey) (buf : Buf) (m : Manager D)
      → IsTaking
      → IsDone m.buffers (flush_one h cfg (k, buf) m)
  unfolding flush_one flush_to answered
  flush_one-IsDone k buf m taking =
      let (out, e) = encode_total h.crates packs buf.writer in
      subst (λ z. IsDone m.buffers (flush_to h cfg k buf m z)) (sym e) (go out)
    where
      go : (out : Option EncodedChunk) → IsDone m.buffers (flush_to h cfg k buf m (ok out))
      go none = (refl, refl)
      go (some made) =
          let loc : ChunkLocation = chunk_place h cfg k buf (uuid8 h m.world).1 in
          let (d', receipt, e) = taking loc made (uuid8 h m.world).0 in
          subst (λ z. IsDone m.buffers (answered h cfg k buf made loc m z)) (sym e) (refl, refl)

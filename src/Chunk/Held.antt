-- ===== src/Chunk/Held.antt =====
-- The records that a writer holds, closed or pending, as one list, and the chunk that they make.
use s4_logs.Prelude.{
  ◌+◌, ◌^◌, ◌<◌, ◌≡◌, true, refl, sym, ap, ◌∙◌, none, some, List, [], ◌∷◌, ◌++◌, append-nil, length,
  length-append, arith,
}
use s4_logs.Prelude.Text.{Bytes}
use s4_logs.Prelude.Result.{ok}
use s4_logs.Record.{LogRecord}
use s4_logs.Crates.{IsLawful, Crates}
use s4_logs.Jsonl.{jsonl, line_of}
use s4_logs.Chunk.{ChunkConfig, ChunkWriter, EncodedChunk, encode, new, push}
use s4_logs.Chunk.Frames.{Frame, all_recs, jsonl-append, HasTime}
use s4_logs.Chunk.Steps.{IsWriting, total, new-IsWriting, push-IsWriting}
use s4_logs.Chunk.Encoded.{encode-IsMadeOf, encode-none}
use s4_logs.Chunk.Archive.{plain_size-jsonl, decode-body_of}

module _ (c : Crates) where
  unfoldable pub IsHolding : ChunkWriter → List LogRecord → Type 0
  IsHolding w held =
      (fs : List Frame) × (late : List LogRecord) × IsWriting c w fs late
      × (all_recs fs ++ late ≡ held)

  total_held :
      (w : ChunkWriter) (fs : List Frame) (late : List LogRecord)
      → IsWriting c w fs late
      → total c fs late ≡ length (jsonl c (all_recs fs ++ late))
  total_held w fs late h = omega (
    arith,
    plain_size-jsonl c w.cfg.zstd_level fs h.frames,
    ap (λ (z : Bytes). length z) (jsonl-append c (all_recs fs) late),
    length-append (jsonl c (all_recs fs)) (jsonl c late),
  )

  pub IsHolding-new : (cfg : ChunkConfig) → IsHolding (new cfg) []
  unfolding IsHolding
  IsHolding-new cfg = ([], [], new-IsWriting c cfg, refl)

  line_size : (r : LogRecord) → length (jsonl c (r ∷ [])) ≡ length (line_of c r)
  line_size r = ap (λ (z : Bytes). length z) (append-nil (line_of c r))

  -- A writer that takes a record holds it behind the others.
  pub push-IsHolding :
      (w w' : ChunkWriter) (held : List LogRecord) (r : LogRecord)
      → length (jsonl c held) + length (jsonl c (r ∷ [])) < 2 ^ 64
      → HasTime r
      → IsHolding w held
      → push c r w ≡ (w', ok tt)
      → IsHolding w' (held ++ r ∷ [])
  unfolding IsHolding
  push-IsHolding w w' held r fits time (fs, late, h, same) e =
      let (fs', late', h', recs, _, _) =
        push-IsWriting c w w' fs late r
          (omega (arith, total_held w fs late h, ap (λ z. length (jsonl c z)) same, line_size r))
          time h e in
      (fs', late', h', recs ∙ ap (λ z. z ++ r ∷ []) same)

  -- What a chunk says of the records that it was encoded from.
  pub encode-IsHolding :
      (w : ChunkWriter) (held : List LogRecord) (made : EncodedChunk)
      → IsLawful c
      → length (jsonl c held) < 2 ^ 64
      → IsHolding w held
      → encode c w ≡ ok (some made)
      → (c.zstd_decode made.body ≡ (jsonl c held, true))
        × (made.record_count ≡ length held)
        × (made.uncompressed_bytes ≡ length (jsonl c held))
  unfolding IsHolding
  encode-IsHolding w held made law fits (fs, late, h, same) e =
      let size = total_held w fs late h in
      let (fs', m, recs, plain) =
        encode-IsMadeOf c w fs late made (omega (arith, size, ap (λ z. length (jsonl c z)) same)) h
          e in
      (
        ap c.zstd_decode m.body
            ∙ (decode-body_of c m.level fs' law m.frames
                ∙ ap (λ z. (jsonl c z, true)) (recs ∙ same)),
        m.count ∙ ap (λ (z : List LogRecord). length z) (recs ∙ same),
        m.plain ∙ (plain ∙ (size ∙ ap (λ z. length (jsonl c z)) same)),
      )

  -- Without a chunk there is no record.
  pub none-IsHolding :
      (w : ChunkWriter) (held : List LogRecord)
      → length (jsonl c held) < 2 ^ 64
      → IsHolding w held
      → encode c w ≡ ok none
      → held ≡ []
  unfolding IsHolding
  none-IsHolding w held fits (fs, late, h, same) e =
      sym same
      ∙ encode-none c w fs late
          (omega (arith, total_held w fs late h, ap (λ z. length (jsonl c z)) same)) h e

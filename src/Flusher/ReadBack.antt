-- ===== src/Flusher/ReadBack.antt =====
-- What the chunks of the gateway read back to.
use s4_logs.Prelude.{
  ◌≤◌, ◌≡◌, refl, sym, ap, ◌∙◌, true, Option, none, some, List, [], ◌∷◌, ◌++◌, arith, length, map,
  All, All-map, append_assoc, append-nil,
}
use s4_logs.Prelude.Result.{ok}
use s4_logs.Record.{LogRecord}
use s4_logs.Crates.{Crates, IsLawful}
use s4_logs.Jsonl.{jsonl}
use s4_logs.Jsonl.Lines.{record_lines-jsonl}
use s4_logs.Layout.{ChunkLocation}
use s4_logs.Read.{decompress_frames, max_decompressed_bytes}
use s4_logs.Read.Capped.{decompress_frames_iff}
use s4_logs.Chunk.{ChunkWriter, EncodedChunk, encode}
use s4_logs.Chunk.Held.{IsHolding, encode-IsHolding}
use s4_logs.Buffer.Held.{IsFit}
use s4_logs.Flusher.{flatten, lines_in, chunk_records}

abbrev pub or_none : Option (List LogRecord) → List LogRecord
or_none none = []
or_none (some rs) = rs

-- The records of the chunks that the sink has taken.
abbrev pub archived : Crates → List (ChunkLocation × EncodedChunk) → List LogRecord
archived c [] = []
archived c ((loc, made) ∷ ps) = or_none (chunk_records c made) ++ archived c ps

pub archived-snoc :
    (c : Crates) (ps : List (ChunkLocation × EncodedChunk)) (loc : ChunkLocation)
    (made : EncodedChunk)
    → archived c (ps ++ (loc, made) ∷ []) ≡ archived c ps ++ or_none (chunk_records c made)
archived-snoc c [] loc made = append-nil (or_none (chunk_records c made))
archived-snoc c ((l, m) ∷ ps) loc made =
    ap (λ z. or_none (chunk_records c m) ++ z) (archived-snoc c ps loc made)
    ∙ sym (
        append_assoc (or_none (chunk_records c m)) (archived c ps) (or_none (chunk_records c made)))

flatten-map : (rs : List LogRecord) → flatten (map ok rs) ≡ rs
flatten-map [] = refl
flatten-map (r ∷ rs) = ap (λ z. r ∷ z) (flatten-map rs)

module _ (c : Crates) (law : IsLawful c) where
  -- A chunk that a writer makes of its records reads back to them.
  pub chunk_records-IsHolding :
      (w : ChunkWriter) (x : List LogRecord) (made : EncodedChunk)
      → length (jsonl c x) ≤ max_decompressed_bytes
      → All (IsFit c) x
      → IsHolding c w x
      → encode c w ≡ ok (some made)
      → chunk_records c made ≡ some x
  unfolding chunk_records
  chunk_records-IsHolding w x made fits fine holds e =
      let (decodes, count, plain) = encode-IsHolding c w x made law (omega arith) holds e in
      let whole : decompress_frames c made.body made.uncompressed_bytes ≡ ok (jsonl c x) =
        (decompress_frames_iff c made.body made.uncompressed_bytes (jsonl c x)).1
          (omega (arith, plain), decodes, sym plain) in
      ap (lines_in c) whole
      ∙ ap some (
          ap flatten (
            record_lines-jsonl c x law
              (All-map (IsFit c) (λ r. (c.to_writer r).1 ≡ true) x (λ r p. p.0) fine))
          ∙ flatten-map x)

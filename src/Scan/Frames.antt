-- ===== src/Scan/Frames.antt =====
-- What is fetched from frames that lie end to end in an object.
use s4_logs.Prelude.{
  ℕ, suc, ◌+◌, ◌-◌, ◌%◌, ◌^◌, ◌≤◌, ◌<◌, ◌≡◌, refl, sym, ap, ◌∙◌, true, false, Bool, Option, List,
  [], ◌∷◌, ◌++◌, append-nil, append_assoc, All, All-append_left, All-append_right, length,
  length-append, map, arith, Bool-cases, inl, inr, ◌==◌, filter, filter-append, filter_none, take,
  drop, take-length_append, drop-length_append,
}
use s4_logs.Prelude.Int.{ℤ, ◌≤ℤ◌}
use s4_logs.Prelude.I64.{i64_min, i64_max}
use s4_logs.Prelude.Text.{Bytes}
use s4_logs.Prelude.Result.{Result, ok}
use s4_logs.Record.{LogRecord}
use s4_logs.Crates.{Crates, IsLawful, FrameIndexEntry}
use s4_logs.Jsonl.{record_lines}
use s4_logs.Jsonl.Lines.{record_lines-jsonl}
use s4_logs.Chunk.{add_u64, compress_frame}
use s4_logs.Chunk.Frames.{
  Frame, earliest, latest, range, all_recs, body_of, tile, IsFrame, earliest-All, latest-All,
}
use s4_logs.Sink.{StoreError}
use s4_logs.Read.{TimeRange, overlaps, span_of, select, max_decompressed_bytes, decompress_frames}
use s4_logs.Read.Capped.{decompress_frames_iff}
use s4_logs.Scan.{
  Batch, record_matches, emit_item, emit_items, emit_records, fetch_span, fetch_spans,
}

-- A record outside the range that its frame claims does not match.
outside :
    (t : TimeRange) (pattern : Option (Bytes → Bool)) (lo hi : ℤ) (r : LogRecord)
    → overlaps t lo hi ≡ false
    → lo ≤ℤ r.timestamp
    → r.timestamp ≤ℤ hi
    → record_matches r t pattern ≡ false
unfolding overlaps record_matches
outside t pattern lo hi r miss above below = ground arith

right_length : (p n : ℕ) → p + n < 2 ^ 64 → (n == ((p + n) + 2 ^ 64 - p) % 2 ^ 64) ≡ true
right_length p n h = ground arith

pub eqb_refl : (n : ℕ) → (n == n) ≡ true
eqb_refl n = ground arith

module _ (t : TimeRange) (pattern : Option (Bytes → Bool)) where
  pub pruned :
      (lo hi : ℤ) (rs : List LogRecord)
      → overlaps t lo hi ≡ false
      → All (λ r. lo ≤ℤ r.timestamp) rs
      → All (λ r. r.timestamp ≤ℤ hi) rs
      → All (λ r. record_matches r t pattern ≡ false) rs
  pruned lo hi [] miss above below = tt
  pruned lo hi (r ∷ rs) miss above below =
      (outside t pattern lo hi r miss above.0 below.0, pruned lo hi rs miss above.1 below.1)

  -- The records that match.
  abbrev pub hits : List LogRecord → List LogRecord
  hits = filter (λ r. record_matches r t pattern)

  -- Items that are all records are filtered, and none is counted as an error.
  emit_items-ok :
      (b : Batch) (rs : List LogRecord)
      → ((emit_items t pattern b (map ok rs)).recs ≡ b.recs ++ hits rs)
        × ((emit_items t pattern b (map ok rs)).stats.parse_errors ≡ b.stats.parse_errors)
  unfolding emit_items emit_item
  emit_items-ok b [] = (sym (append-nil b.recs), refl)
  emit_items-ok b (r ∷ rs) = elim (Bool-cases (record_matches r t pattern)) [
    | inl hit ↦
        let (e, k) = emit_items-ok (emit_item t pattern b (ok r)) rs in
        let one : (emit_item t pattern b (ok r)).recs ≡ b.recs ++ (r ∷ []) = rw hit refl in
        let none_lost : (emit_item t pattern b (ok r)).stats.parse_errors ≡ b.stats.parse_errors =
          rw hit refl in
        (
          e ∙ (ap (λ z. z ++ hits rs) one ∙ (append_assoc b.recs (r ∷ []) (hits rs) ∙ rw hit refl)),
          k ∙ none_lost,
        )
    | inr miss ↦
        let (e, k) = emit_items-ok (emit_item t pattern b (ok r)) rs in
        let same : emit_item t pattern b (ok r) ≡ b = rw miss refl in
        (
          e ∙ (ap (λ (z : Batch). z.recs ++ hits rs) same ∙ rw miss refl),
          k ∙ ap (λ (z : Batch). z.stats.parse_errors) same,
        )
  ]

-- A batch with some more records, and no more errors.
abbrev pub IsMore : Batch → List LogRecord → Batch → Type 0
IsMore b rs b' = (b'.recs ≡ b.recs ++ rs) × (b'.stats.parse_errors ≡ b.stats.parse_errors)

abbrev pub IsWritten : Crates → LogRecord → Type 0
IsWritten c r = (c.to_writer r).1 ≡ true

-- A Range GET gives the bytes of the object.
abbrev pub IsObject : Bytes → (ℕ → ℕ → Result StoreError Bytes) → Type 0
IsObject body get_range =
    (s e : ℕ) → s ≤ e → e ≤ length body → get_range s e ≡ ok (take (e - s) (drop s body))

module _ (c : Crates) (law : IsLawful c) (t : TimeRange) (pattern : Option (Bytes → Bool))
    (body : Bytes) (get_range : ℕ → ℕ → Result StoreError Bytes) where
  decode_frame :
      (level : ℤ) (f : Frame) → IsFrame c level f → c.zstd_decode f.packed ≡ (f.plain, true)
  unfolding compress_frame
  decode_frame level f h =
      let whole = law.decode_frame level (length f.plain) f.plain f.packed [] h.packs in
      ap c.zstd_decode (sym (append-nil f.packed))
      ∙ (whole ∙ rw law.decode_none (rw (append-nil f.plain) refl))

  pub fetch_frame :
      (level : ℤ) (f : Frame) (b : Batch) (i o p : ℕ)
      → IsFrame c level f
      → All (IsWritten c) f.recs
      → length f.plain ≤ max_decompressed_bytes
      → p + length f.packed < 2 ^ 64
      → get_range p (p + length f.packed) ≡ ok f.packed
      → (b' : Batch) × (fetch_span c get_range t pattern b (
            span_of c i (record {
              original_offset = o;
              original_size = length f.plain;
              compressed_offset = p;
              compressed_size = length f.packed;
            }))
          ≡ ok b')
        × IsMore b (hits t pattern f.recs) b'
  unfolding fetch_span emit_records
  fetch_frame level f b i o p h lines small fits reads =
      let fe : FrameIndexEntry = record {
        original_offset = o;
        original_size = length f.plain;
        compressed_offset = p;
        compressed_size = length f.packed;
      } in
      let decodes : decompress_frames c f.packed (length f.plain) ≡ ok f.plain =
        (decompress_frames_iff c f.packed (length f.plain) f.plain).1
          (small, decode_frame level f h, refl) in
      let counted : Batch = record b {
        stats = record b.stats { frames_fetched = add_u64 b.stats.frames_fetched 1 };
      } in
      let lines_read : record_lines c f.plain ≡ map ok f.recs =
        ap (record_lines c) h.plain_lines ∙ record_lines-jsonl c f.recs law lines in
      let (e, k) = emit_items-ok t pattern counted f.recs in
      (
        emit_items t pattern counted (map ok f.recs),
        rw (law.end_of_entry fe, reads)
            (rw (right_length p (length f.packed) fits) (rw (decodes, lines_read) refl)),
        (e, k),
      )

  pub slice :
      (before : Bytes) (f : Frame) (fs : List Frame)
      → IsObject body get_range
      → body ≡ before ++ body_of (f ∷ fs)
      → get_range (length before) (length before + length f.packed) ≡ ok f.packed
  slice before f fs reads e =
      let size : length body ≡ length before + (length f.packed + length (body_of fs)) =
        ap (λ (z : Bytes). length z) e
        ∙ (length-append before (body_of (f ∷ fs))
            ∙ ap (λ n. length before + n) (length-append f.packed (body_of fs))) in
      let width : length before + length f.packed - length before ≡ length f.packed = omega arith in
      reads (length before) (length before + length f.packed) (omega arith) (omega (arith, size))
      ∙ ap ok (
          ap
            (λ (z : Bytes).
              take (length before + length f.packed - length before) (drop (length before) z))
            e
          ∙ (ap (λ n. take n (drop (length before) (before ++ (f.packed ++ body_of fs)))) width
              ∙ (ap (λ z. take (length f.packed) z)
                    (drop-length_append before (f.packed ++ body_of fs))
                  ∙ take-length_append f.packed (body_of fs))))

  abbrev pub IsFetched : Batch → ℕ → ℕ → ℕ → List Frame → Type 0
  IsFetched b i o p fs =
      (b' : Batch) × (fetch_spans c get_range t pattern b
          (select c t i (tile o p fs) (map range fs))
        ≡ ok b')
      × IsMore b (hits t pattern (all_recs fs)) b'

  pub fetch_frames :
      (level : ℤ) (fs : List Frame) (b : Batch) (i o : ℕ) (before : Bytes)
      → IsObject body get_range
      → length body < 2 ^ 64
      → body ≡ before ++ body_of fs
      → All (IsFrame c level) fs
      → All (IsWritten c) (all_recs fs)
      → All (λ f. length f.plain ≤ max_decompressed_bytes) fs
      → IsFetched b i o (length before) fs
  unfolding fetch_spans select
  fetch_frames level [] b i o before reads fits e h lines small =
      (b, refl, (sym (append-nil b.recs), refl))
  fetch_frames level (f ∷ fs) b i o before reads fits e h lines small =
      let lo : ℤ = earliest i64_max f.recs in
      let hi : ℤ = latest i64_min f.recs in
      let p : ℕ = length before in
      let next_at : length (before ++ f.packed) ≡ p + length f.packed =
        length-append before f.packed in
      let here : All (IsWritten c) f.recs =
        All-append_left (IsWritten c) f.recs (all_recs fs) lines in
      let later : All (IsWritten c) (all_recs fs) =
        All-append_right (IsWritten c) f.recs (all_recs fs) lines in
      let joined : hits t pattern (f.recs ++ all_recs fs)
          ≡ hits t pattern f.recs ++ hits t pattern (all_recs fs) =
        filter-append (λ r. record_matches r t pattern) f.recs (all_recs fs) in
      let others : (b1 : Batch)
          → IsFetched b1 (suc i) (o + length f.plain) (p + length f.packed) fs =
        λ b1. rw next_at at (
          fetch_frames level fs b1 (suc i) (o + length f.plain) (before ++ f.packed) reads fits
            (e ∙ sym (append_assoc before f.packed (body_of fs))) h.1 later small.1) in
      elim (Bool-cases (overlaps t lo hi)) [
        | inl hit ↦
            let size : length body ≡ p + (length f.packed + length (body_of fs)) =
              ap (λ (z : Bytes). length z) e
              ∙ (length-append before (body_of (f ∷ fs))
                  ∙ ap (λ n. p + n) (length-append f.packed (body_of fs))) in
            let (b1, one, (recs1, errors1)) =
              fetch_frame level f b i o p h.0 here small.0 (omega (arith, size))
                (slice before f fs reads e) in
            let (b2, rest, (recs2, errors2)) = others b1 in
            (
              b2,
              rw (hit, one, rest) refl,
              (
                recs2
                    ∙ (ap (λ z. z ++ hits t pattern (all_recs fs)) recs1
                        ∙ (append_assoc b.recs (hits t pattern f.recs)
                              (hits t pattern (all_recs fs))
                            ∙ ap (λ z. b.recs ++ z) (sym joined))),
                errors2 ∙ errors1,
              ),
            )
        | inr miss ↦
            let (b2, rest, (recs2, errors2)) = others b in
            let nothing : hits t pattern f.recs ≡ [] =
              filter_none (λ r. record_matches r t pattern) f.recs
                (pruned t pattern lo hi f.recs miss (earliest-All i64_max f.recs)
                  (latest-All i64_min f.recs)) in
            (
              b2,
              rw (miss, rest) refl,
              (
                recs2
                    ∙ ap (λ z. b.recs ++ z)
                        (sym (joined ∙ ap (λ z. z ++ hits t pattern (all_recs fs)) nothing)),
                errors2,
              ),
            )
      ]

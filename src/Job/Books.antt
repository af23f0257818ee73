-- ===== src/Job/Books.antt =====
-- What is booked when a chunk is flushed: its records, its entry and its PUT.
use s4_logs.Prelude.{
  ℕ, ◌+◌, ◌^◌, ◌<◌, ◌≡◌, refl, sym, ap, ◌∙◌, subst, false, Bool, Option, none, some, List, [], ◌∷◌,
  ◌++◌, append-nil, append_assoc, length, length-append, arith,
}
use s4_logs.Prelude.Text.{Bytes}
use s4_logs.Prelude.Result.{Result, ok, err}
use s4_logs.Record.{LogRecord}
use s4_logs.Crates.{IsLawful, Crates}
use s4_logs.Jsonl.{jsonl}
use s4_logs.Layout.{ChunkLocation}
use s4_logs.Manifest.{ManifestObject}
use s4_logs.Chunk.{ChunkWriter, ChunkError, EncodedChunk, add_u64, encode, finish}
use s4_logs.Chunk.Frames.{jsonl-append, length-le-jsonl}
use s4_logs.Chunk.Held.{IsHolding, none-IsHolding, encode-IsHolding}
use s4_logs.Sink.{PutReceipt, SinkError}
use s4_logs.Drain.{DrainError}
use s4_logs.Job.{
  DrainOptions, Outside, WindowWriter, count_chunk, location, entry_of, stored, flushed, flush,
}

-- What a decoder gives for the bodies that were put, one after the other.
abbrev pub decoded : Crates → List (ChunkLocation × EncodedChunk) → Bytes
decoded c [] = []
decoded c ((loc, made) ∷ ps) = (c.zstd_decode made.body).0 ++ decoded c ps

abbrev pub sum_records : List ManifestObject → ℕ
sum_records [] = 0
sum_records (m ∷ ms) = m.record_count + sum_records ms

decoded-snoc :
    (c : Crates) (ps : List (ChunkLocation × EncodedChunk)) (loc : ChunkLocation)
    (made : EncodedChunk)
    → decoded c (ps ++ (loc, made) ∷ []) ≡ decoded c ps ++ (c.zstd_decode made.body).0
decoded-snoc c [] loc made = append-nil (c.zstd_decode made.body).0
decoded-snoc c ((l, m) ∷ ps) loc made =
    ap (λ z. (c.zstd_decode m.body).0 ++ z) (decoded-snoc c ps loc made)
    ∙ sym (append_assoc (c.zstd_decode m.body).0 (decoded c ps) (c.zstd_decode made.body).0)

sum_records-snoc :
    (ms : List ManifestObject) (m : ManifestObject)
    → sum_records (ms ++ m ∷ []) ≡ sum_records ms + m.record_count
sum_records-snoc [] m = omega arith
sum_records-snoc (n ∷ ms) m = omega (arith, sum_records-snoc ms m)

add_u64-small : (a b : ℕ) → a + b < 2 ^ 64 → add_u64 a b ≡ a + b
unfolding add_u64
add_u64-small a b h = omega arith

module _ (o : Outside) (law : IsLawful o.crates) where
  -- The books say that these records were put.
  pub record IsBooked (ww : WindowWriter) (done : List LogRecord) : Type 0 where
    pub archived : decoded o.crates ww.puts ≡ jsonl o.crates done
    pub records : ww.records ≡ length done
    pub raw : ww.raw_bytes ≡ length (jsonl o.crates done)
    pub listed : sum_records ww.objects ≡ length done
    pub put : length ww.objects ≡ length ww.puts

  module _ (opts : DrainOptions) (real : opts.dry_run ≡ false) where
    book_chunk :
        (ww : WindowWriter) (done held : List LogRecord) (made : EncodedChunk)
        (receipt : PutReceipt)
        → length (jsonl o.crates done) + length (jsonl o.crates held) < 2 ^ 64
        → IsBooked ww done
        → (o.crates.zstd_decode made.body).0 ≡ jsonl o.crates held
        → made.record_count ≡ length held
        → made.uncompressed_bytes ≡ length (jsonl o.crates held)
        → IsBooked (stored o opts made (count_chunk o opts made ww) (ok receipt)).0 (done ++ held)
    unfolding stored count_chunk
    book_chunk ww done held made receipt fits b decodes count plain = record {
      archived =
          decoded-snoc o.crates ww.puts _ made
          ∙ (ap (λ z. z ++ (o.crates.zstd_decode made.body).0) b.archived
              ∙ (ap (λ z. jsonl o.crates done ++ z) decodes
                  ∙ sym (jsonl-append o.crates done held)));
      records =
          rw (b.records, count)
            (add_u64-small (length done) (length held)
                (omega (arith, length-le-jsonl o.crates done, length-le-jsonl o.crates held))
              ∙ sym (length-append done held));
      raw =
          rw (b.raw, plain)
            (add_u64-small (length (jsonl o.crates done)) (length (jsonl o.crates held)) fits
              ∙ sym (
                  ap (λ (z : Bytes). length z) (jsonl-append o.crates done held)
                  ∙ length-append (jsonl o.crates done) (jsonl o.crates held)));
      listed = omega (
        arith,
        sum_records-snoc ww.objects (entry_of o opts made receipt),
        b.listed,
        count,
        length-append done held,
      );
      put = omega (
        arith,
        b.put,
        length-append ww.objects (entry_of o opts made receipt ∷ []),
        length-append ww.puts ((location o opts (count_chunk o opts made ww), made) ∷ []),
      );
    }

    put_lem :
        (ww ww' : WindowWriter) (done held : List LogRecord) (made : EncodedChunk)
        (answer : Result SinkError PutReceipt)
        → stored o opts made (count_chunk o opts made ww) answer ≡ (ww', ok tt)
        → ((receipt : PutReceipt)
            → IsBooked
                (stored o opts made (count_chunk o opts made ww) (ok receipt)).0
                (done ++ held))
        → IsBooked ww' (done ++ held) × (ww'.writer ≡ ww.writer)
    unfolding stored count_chunk
    put_lem ww ww' done held made (err x) e books = cc
    put_lem ww ww' done held made (ok receipt) e books =
        let same : (stored o opts made (count_chunk o opts made ww) (ok receipt)).0 ≡ ww' =
          ap (λ (z : WindowWriter × Result DrainError Unit). z.0) e in
        (
          subst (λ z. IsBooked z (done ++ held)) same (books receipt),
          sym (ap (λ (z : WindowWriter). z.writer) same),
        )

    -- A flush that succeeds books the records that the chunk writer held.
    pub flush_lem :
        (ww ww' : WindowWriter) (w : ChunkWriter) (done held : List LogRecord)
        → length (jsonl o.crates done) + length (jsonl o.crates held) < 2 ^ 64
        → IsBooked ww done
        → IsHolding o.crates w held
        → flush o opts ww w ≡ (ww', ok tt)
        → IsBooked ww' (done ++ held) × (ww'.writer ≡ ww.writer)
    unfolding flush finish flushed
    flush_lem ww ww' w done held fits b h e = go (encode o.crates w) refl e
      where
        go :
            (r : Result ChunkError (Option EncodedChunk))
            → encode o.crates w ≡ r
            → flushed o opts ww r ≡ (ww', ok tt)
            → IsBooked ww' (done ++ held) × (ww'.writer ≡ ww.writer)
        go (err x) q k = cc
        go (ok none) q k =
            let same : ww ≡ ww' = ap (λ (z : WindowWriter × Result DrainError Unit). z.0) k in
            let nothing : held ≡ [] = none-IsHolding o.crates w held (omega arith) h q in
            (
              rw nothing (rw (append-nil done) (subst (λ z. IsBooked z done) same b)),
              sym (ap (λ (z : WindowWriter). z.writer) same),
            )
        go (ok (some made)) q k =
            let (decodes, count, plain) =
              encode-IsHolding o.crates w held made law (omega arith) h q in
            put_lem ww ww' done held made
              (o.put_chunk (location o opts (count_chunk o opts made ww)) made) (rw real at k)
              (λ receipt.
                book_chunk ww done held made receipt fits b (ap (λ (z : Bytes × Bool). z.0) decodes)
                  count plain)

-- ===== src/Job/Filled.antt =====
-- The records of a window, against the objects that are put for it.
use s4_logs.Prelude.{
  ℕ, ◌+◌, ◌^◌, ◌<◌, ◌≡◌, refl, sym, ap, ◌∙◌, subst, false, List, [], ◌∷◌, ◌++◌, append-nil,
  append_assoc, All, length, length-append, arith, Bool-cases, inl, inr, leb,
}
use s4_logs.Prelude.Text.{Bytes}
use s4_logs.Prelude.Result.{Result, ok, err}
use s4_logs.Record.{LogRecord}
use s4_logs.Crates.{IsLawful}
use s4_logs.Jsonl.{jsonl}
use s4_logs.Window.{Window}
use s4_logs.Chunk.{ChunkWriter, ChunkError, new, push, uncompressed_len}
use s4_logs.Chunk.Frames.{HasTime, jsonl-append}
use s4_logs.Chunk.Held.{IsHolding, IsHolding-new, push-IsHolding}
use s4_logs.Drain.{DrainError}
use s4_logs.Job.Books.{decoded, sum_records, IsBooked, flush_lem}
use s4_logs.Job.{
  DrainOptions, Outside, WindowWriter, ObjectNaming, open_window, pushed, push_record,
  finish_window, fill_rest, fill,
}

module _ (o : Outside) (law : IsLawful o.crates) (opts : DrainOptions)
    (real : opts.dry_run ≡ false) where
  rebooked :
      (ww : WindowWriter) (w : ChunkWriter) (done : List LogRecord)
      → IsBooked o law ww done
      → IsBooked o law (record ww { writer = w }) done
  rebooked ww w done b = record {
    archived = b.archived;
    records = b.records;
    raw = b.raw;
    listed = b.listed;
    put = b.put;
  }

  size : List LogRecord → ℕ
  size rs = length (jsonl o.crates rs)

  size-append : (xs ys : List LogRecord) → size (xs ++ ys) ≡ size xs + size ys
  unfolding size
  size-append xs ys =
      ap (λ (z : Bytes). length z) (jsonl-append o.crates xs ys)
      ∙ length-append (jsonl o.crates xs) (jsonl o.crates ys)

  -- The records booked and those held, all in all.
  IsAt : WindowWriter → List LogRecord → Type 0
  IsAt ww rs =
      (done held : List LogRecord) × IsBooked o law ww done
      × IsHolding o.crates ww.writer held
      × (done ++ held ≡ rs)

  pushed_lem :
      (ww v : WindowWriter) (w : ChunkWriter) (done held : List LogRecord)
      → size done + size held < 2 ^ 64
      → IsBooked o law ww done
      → IsHolding o.crates w held
      → pushed o opts ww (w, ok tt) ≡ (v, ok tt)
      → IsAt v (done ++ held)
  unfolding pushed IsAt size
  pushed_lem ww v w done held fits b h k =
      elim (Bool-cases (leb opts.chunk_target_bytes (uncompressed_len w))) [
        | inl full ↦
            let (b', fresh) =
              flush_lem o law opts real (record ww { writer = new opts.chunk }) v w done held fits
                (rebooked ww (new opts.chunk) done b) h (rw full at k) in
            (
              done ++ held,
              [],
              b',
              subst (λ z. IsHolding o.crates z []) (sym fresh) (IsHolding-new o.crates opts.chunk),
              append-nil (done ++ held),
            )
        | inr room ↦
            let stays : (record ww { writer = w }, ok tt) ≡ (v, ok tt) = rw room at k in
            let same : record ww { writer = w } ≡ v =
              ap (λ (z : WindowWriter × Result DrainError Unit). z.0) stays in
            (
              done,
              held,
              subst (λ z. IsBooked o law z done) same (rebooked ww w done b),
              subst (λ (z : WindowWriter). IsHolding o.crates z.writer held) same h,
              refl,
            )
      ]

  push_lem :
      (ww v : WindowWriter) (rs : List LogRecord) (r : LogRecord)
      → size rs + size (r ∷ []) < 2 ^ 64
      → HasTime r
      → IsAt ww rs
      → push_record o opts r ww ≡ (v, ok tt)
      → IsAt v (rs ++ r ∷ [])
  unfolding push_record IsAt size
  push_lem ww v rs r fits time (done, held, b, h, same) e = go (push o.crates r ww.writer) refl e
    where
      whole : done ++ (held ++ r ∷ []) ≡ rs ++ r ∷ []
      whole = sym (append_assoc done held (r ∷ [])) ∙ ap (λ z. z ++ r ∷ []) same

      sizes : size done + size held ≡ size rs
      sizes = sym (size-append done held) ∙ ap size same

      go :
          (p : ChunkWriter × Result ChunkError Unit)
          → push o.crates r ww.writer ≡ p
          → pushed o opts ww p ≡ (v, ok tt)
          → (done' held' : List LogRecord) × IsBooked o law v done'
            × IsHolding o.crates v.writer held'
            × (done' ++ held' ≡ rs ++ r ∷ [])
      go (w, err x) q k = cc
      go (w, ok x) q k =
          subst (λ z. IsAt v z) whole
            (pushed_lem ww v w done (held ++ r ∷ [])
              (omega (arith, size-append held (r ∷ []), sizes)) b
              (push-IsHolding o.crates ww.writer w held r (omega (arith, sizes)) time h q) k)

  fill_lem :
      (rs : List LogRecord) (ww ww' : WindowWriter) (before : List LogRecord)
      → size before + size rs < 2 ^ 64
      → All HasTime rs
      → IsAt ww before
      → fill o opts rs ww ≡ (ww', ok tt)
      → IsBooked o law ww' (before ++ rs)
  unfolding fill IsAt finish_window size
  fill_lem [] ww ww' before fits times (done, held, b, h, same) e =
      let (b', _) =
        flush_lem o law opts real (record ww { writer = new opts.chunk }) ww' ww.writer done held
          (omega (arith, size-append done held, ap (λ z. length (jsonl o.crates z)) same))
          (rebooked ww (new opts.chunk) done b) h e in
      subst (λ z. IsBooked o law ww' z) (same ∙ sym (append-nil before)) b'
  fill_lem (r ∷ rs) ww ww' before fits times at_before e =
      let longer : size (r ∷ rs) ≡ size (r ∷ []) + size rs = size-append (r ∷ []) rs in
      go (push_record o opts r ww) refl e
        (λ v at_r k.
          fill_lem rs v ww' (before ++ r ∷ []) (omega (arith, longer, size-append before (r ∷ [])))
            times.1 at_r k)
        (λ v q. push_lem ww v before r (omega (arith, longer)) times.0 at_before q)
    where
      go :
          (p : WindowWriter × Result DrainError Unit)
          → push_record o opts r ww ≡ p
          → fill_rest o opts (fill o opts rs) p ≡ (ww', ok tt)
          → ((v : WindowWriter)
              → IsAt v (before ++ r ∷ [])
              → fill o opts rs v ≡ (ww', ok tt)
              → IsBooked o law ww' ((before ++ r ∷ []) ++ rs))
          → ((v : WindowWriter) → push_record o opts r ww ≡ (v, ok tt) → IsAt v (before ++ r ∷ []))
          → IsBooked o law ww' (before ++ r ∷ rs)
      go (v, err x) q k more here = cc
      go (v, ok x) q k more here =
          subst (λ z. IsBooked o law ww' z) (append_assoc before (r ∷ []) rs) (more v (here v q) k)

  opened : (w : Window) (naming : ObjectNaming) → IsAt (open_window o opts w naming) []
  unfolding open_window IsAt
  opened w naming = (
    [],
    [],
    record { archived = refl; records = refl; raw = refl; listed = refl; put = refl },
    (IsHolding-new o.crates opts.chunk),
    refl,
  )

  -- If a window's records are pushed into its writer and the writer is finished without an error,
  -- in a run that is not dry, the bodies put decode, one after the other, to the records' lines;
  -- the counters are the number of records and the size of their lines; the manifest's entries are
  -- as many as the puts and count all records; given lawful crates, `i64` timestamps and lines of
  -- less than 2^64 bytes.
  pub fill_complete :
      (w : Window) (naming : ObjectNaming) (rs : List LogRecord) (ww : WindowWriter)
      → length (jsonl o.crates rs) < 2 ^ 64
      → All HasTime rs
      → fill o opts rs (open_window o opts w naming) ≡ (ww, ok tt)
      → (decoded o.crates ww.puts ≡ jsonl o.crates rs)
        × (ww.records ≡ length rs)
        × (ww.raw_bytes ≡ length (jsonl o.crates rs))
        × (sum_records ww.objects ≡ length rs)
        × (length ww.objects ≡ length ww.puts)
  fill_complete w naming rs ww fits times e =
      let b =
        fill_lem rs (open_window o opts w naming) ww [] (unfold size in omega arith) times
          (opened w naming) e in
      (b.archived, b.records, b.raw, b.listed, b.put)

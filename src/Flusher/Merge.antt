-- ===== src/Flusher/Merge.antt =====
-- A buffer that comes back into the map keeps its records.
use s4_logs.Prelude.{
  ◌+◌, ◌^◌, ◌<◌, ◌≡◌, refl, sym, ap, subst, ◌∙◌, some, List, [], ◌∷◌, ◌++◌, arith, Option-cases,
  inl, inr, length, All, All-append, append_assoc, append-nil,
}
use s4_logs.Record.{LogRecord}
use s4_logs.Crates.{Crates}
use s4_logs.Jsonl.{jsonl}
use s4_logs.Chunk.{ChunkWriter, EncodedChunk, push}
use s4_logs.Chunk.Archive.{push_total}
use s4_logs.Chunk.Held.{IsHolding, push-IsHolding}
use s4_logs.Buffer.{BufKey, Buf, Entry, lookup, insert}
use s4_logs.Buffer.Bags.{weight-append, same_size, size-append}
use s4_logs.Buffer.Held.{IsFit, IsBuf, IsHeld, IsHeld-same, insert-IsHeld, lookup-IsHeld}
use s4_logs.Buffer.Push.{IsPacking}
use s4_logs.Flusher.{push_quietly, into_live, aged, chunk_records, reinsert, reinsert_at}

module _ (c : Crates) (packs : IsPacking c) where
  push_quietly-IsHolding :
      (recs : List LogRecord) (w : ChunkWriter) (x : List LogRecord)
      → length (jsonl c x) + length (jsonl c recs) < 2 ^ 64
      → All (IsFit c) recs
      → IsHolding c w x
      → IsHolding c (push_quietly c recs w) (x ++ recs)
  unfolding push_quietly
  push_quietly-IsHolding [] w x fits fine holds =
      subst (λ z. IsHolding c w z) (sym (append-nil x)) holds
  push_quietly-IsHolding (r ∷ recs) w x fits fine holds =
      let (w', e) = push_total c packs r w fine.0.0 in
      let next : IsHolding c (push c r w).0 (x ++ r ∷ []) =
        push-IsHolding c w (push c r w).0 x r (omega (arith, size-append c (r ∷ []) recs)) fine.0.1
          holds (rw e refl) in
      subst (λ z. IsHolding c (push_quietly c recs (push c r w).0) z) (append_assoc x (r ∷ []) recs)
        (push_quietly-IsHolding recs (push c r w).0 (x ++ r ∷ [])
          (omega (arith, size-append c (r ∷ []) recs, size-append c x (r ∷ []))) fine.1 next)

  into_live_lem :
      (dst buf : Buf) (y x : List LogRecord)
      → length (jsonl c y) + length (jsonl c x) < 2 ^ 64
      → All (IsFit c) x
      → IsBuf c dst y
      → IsBuf c (into_live c (some x) (aged buf dst)) (y ++ x)
  into_live_lem dst buf y x fits fine (holds, bare, fine') = (
    push_quietly-IsHolding x dst.writer y fits fine holds,
    bare,
    All-append (IsFit c) y x fine' fine,
  )

  -- The buffer's records are among those held after it was put back.
  pub reinsert-IsHeld :
      (k : BufKey) (buf : Buf) (made : EncodedChunk) (es : List Entry) (x rs : List LogRecord)
      → length (jsonl c rs) + length (jsonl c x) < 2 ^ 64
      → IsBuf c buf x
      → chunk_records c made ≡ some x
      → IsHeld c es rs
      → IsHeld c (reinsert c k buf (some made) es) (rs ++ x)
  unfolding reinsert
  reinsert-IsHeld k buf made es x rs fits is_buf reads held = elim (Option-cases (lookup k es)) [
    | inl vacant ↦
        subst (λ z. IsHeld c z (rs ++ x))
          (sym (ap (λ z. reinsert_at c k buf (some made) es z buf.wal) vacant))
          (insert-IsHeld c k buf es x rs vacant is_buf held)
    | inr (dst, found) ↦
        let (y, t, hy, q, put) = lookup-IsHeld c k dst es rs found held in
        let live : IsBuf c (into_live c (some x) (aged buf dst)) (y ++ x) =
          into_live_lem dst buf y x (omega (arith, same_size c rs (y ++ t) q, size-append c y t))
            is_buf.2 hy in
        let both : IsHeld c (insert k (into_live c (some x) (aged buf dst)) es) (rs ++ x) =
          IsHeld-same c _ ((y ++ x) ++ t) (rs ++ x)
            (λ f. omega (
              arith,
              q f,
              weight-append f rs x,
              weight-append f (y ++ x) t,
              weight-append f y x,
              weight-append f y t,
            ))
            (put _ (y ++ x) live) in
        let goes : reinsert_at c k buf (some made) es (lookup k es) buf.wal
            ≡ insert k (into_live c (some x) (aged buf dst)) es =
          ap (λ z. reinsert_at c k buf (some made) es z buf.wal) found
          ∙ (ap (λ z. reinsert_at c k buf (some made) es (some dst) z) is_buf.1
              ∙ ap (λ z. insert k (into_live c z (aged buf dst)) es) reads) in
        subst (λ z. IsHeld c z (rs ++ x)) (sym goes) both
  ]

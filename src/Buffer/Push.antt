-- ===== src/Buffer/Push.antt =====
-- Pushing into the buffers of a gateway without a write-ahead log.
use s4_logs.Prelude.{
  ◌+◌, ◌^◌, ◌<◌, ◌≡◌, refl, ap, subst, ◌∙◌, none, some, List, [], ◌∷◌, ◌++◌, arith, Option-cases,
  inl, inr, length, All, All-append, append_assoc,
}
use s4_logs.Prelude.Int.{ℤ}
use s4_logs.Prelude.Text.{Bytes}
use s4_logs.Prelude.Result.{ok}
use s4_logs.Record.{LogRecord}
use s4_logs.Crates.{Crates}
use s4_logs.Jsonl.{jsonl}
use s4_logs.Chunk.{compress_frame, new}
use s4_logs.Chunk.Archive.{push_total}
use s4_logs.Chunk.Held.{IsHolding-new, push-IsHolding}
use s4_logs.Host.{Host}
use s4_logs.Buffer.{
  BufferConfig, BufKey, Buf, Entry, lookup, insert, open_buf, append_one, push_one, push_batch,
  and_then, sync_wal, sync_none, accept, accepted, take_due, in_new, in_entry, opened, into_writer,
  append_by, segment_in, push_at, sync_by,
}
use s4_logs.Buffer.Bags.{weight-append, same_size, size-append}
use s4_logs.Buffer.Held.{IsFit, IsBuf, IsHeld, insert-IsHeld, lookup-IsHeld, IsHeld-same}
use s4_logs.Buffer.Taken.{IsSplit, take_due-IsSplit}

-- zstd never fails.
abbrev pub IsPacking : Crates → Type 0
IsPacking c =
    (level : ℤ) (plain : Bytes) → (packed : Bytes) × (compress_frame c plain level ≡ some packed)

module _ {D : Type 0} (h : Host D) (cfg : BufferConfig) (packs : IsPacking h.crates)
    (off : cfg.wal_dir ≡ none) where
  append_bare :
      (log_group : Bytes) (r : LogRecord) (b : Buf) (d : D)
      → b.wal ≡ none
      → append_one h cfg log_group r b d ≡ into_writer h cfg r b d
  unfolding append_one
  append_bare log_group r b d bare = ap (append_by h cfg log_group r b d) bare

  open_bare :
      (log_group date : Bytes) (r : LogRecord) (d : D)
      → open_buf h cfg log_group date r d ≡ opened h cfg r (d, ok none)
  unfolding open_buf
  open_bare log_group date r d = ap (λ z. opened h cfg r (segment_in h cfg log_group date d z)) off

  push_vacant :
      (log_group : Bytes) (r : LogRecord) (d : D) (es : List Entry)
      → lookup (log_group, h.date_from_ts_ms r.timestamp) es ≡ none
      → push_one h cfg log_group r d es
        ≡ in_new h cfg
            (log_group, h.date_from_ts_ms r.timestamp)
            log_group
            r
            es
            (open_buf h cfg log_group (h.date_from_ts_ms r.timestamp) r d)
  unfolding push_one
  push_vacant log_group r d es e = ap (push_at h cfg _ log_group r d es) e

  push_found :
      (log_group : Bytes) (r : LogRecord) (d : D) (es : List Entry) (b : Buf)
      → lookup (log_group, h.date_from_ts_ms r.timestamp) es ≡ some b
      → push_one h cfg log_group r d es
        ≡ in_entry h cfg
            (log_group, h.date_from_ts_ms r.timestamp)
            es
            (append_one h cfg log_group r b d)
  unfolding push_one
  push_found log_group r d es b e = ap (push_at h cfg _ log_group r d es) e

  append_one_lem :
      (log_group : Bytes) (r : LogRecord) (b : Buf) (d : D) (x : List LogRecord)
      → length (jsonl h.crates x) + length (jsonl h.crates (r ∷ [])) < 2 ^ 64
      → IsFit h.crates r
      → IsBuf h.crates b x
      → (b' : Buf) × (append_one h cfg log_group r b d ≡ (d, b', ok tt))
        × IsBuf h.crates b' (x ++ r ∷ [])
  append_one_lem log_group r b d x fits fit (holds, bare, fine) =
      let (w, e) = push_total h.crates packs r b.writer fit.0 in
      (
        record b { writer = w },
        append_bare log_group r b d bare ∙ rw e refl,
        (
          push-IsHolding h.crates b.writer w x r fits fit.1 holds e,
          bare,
          All-append (IsFit h.crates) x (r ∷ []) fine (fit, tt),
        ),
      )

  open_buf_lem :
      (log_group date : Bytes) (r : LogRecord) (d : D)
      → (b : Buf) × (open_buf h cfg log_group date r d ≡ (d, ok b)) × IsBuf h.crates b []
  open_buf_lem log_group date r d = (
    record {
      writer = new cfg.chunk;
      first_event_ts_ms = r.timestamp;
      opened_at = h.now d;
      wal = none;
    },
    open_bare log_group date r d,
    (IsHolding-new h.crates cfg.chunk, refl, tt),
  )

  push_one_lem :
      (log_group : Bytes) (r : LogRecord) (d : D) (es : List Entry) (rs : List LogRecord)
      → length (jsonl h.crates rs) + length (jsonl h.crates (r ∷ [])) < 2 ^ 64
      → IsFit h.crates r
      → IsHeld h.crates es rs
      → (es' : List Entry) × (push_one h cfg log_group r d es ≡ (d, es', ok tt))
        × IsHeld h.crates es' (rs ++ r ∷ [])
  push_one_lem log_group r d es rs fits fit held = elim (Option-cases (lookup k es)) [
    | inl vacant ↦
        let (b, made, empty) = open_buf_lem log_group (h.date_from_ts_ms r.timestamp) r d in
        let (b', done, full) = append_one_lem log_group r b d [] (omega arith) fit empty in
        (
          insert k b' es,
          push_vacant log_group r d es vacant
              ∙ (ap (in_new h cfg k log_group r es) made ∙ ap (in_entry h cfg k es) done),
          insert-IsHeld h.crates k b' es (r ∷ []) rs vacant full held,
        )
    | inr (b, found) ↦
        let (x, t, hx, q, put) = lookup-IsHeld h.crates k b es rs found held in
        let (b', done, full) =
          append_one_lem log_group r b d x
            (omega (arith, same_size h.crates rs (x ++ t) q, size-append h.crates x t)) fit hx in
        (
          insert k b' es,
          push_found log_group r d es b found ∙ (ap (in_entry h cfg k es) done),
          IsHeld-same h.crates (insert k b' es) ((x ++ r ∷ []) ++ t) (rs ++ r ∷ [])
              (λ f. omega (
                arith,
                q f,
                weight-append f rs (r ∷ []),
                weight-append f (x ++ r ∷ []) t,
                weight-append f x (r ∷ []),
                weight-append f x t,
              ))
              (put b' (x ++ r ∷ []) full),
        )
  ]
    where
      k : BufKey
      k = (log_group, h.date_from_ts_ms r.timestamp)

  pub push_batch_lem :
      (log_group : Bytes) (recs : List LogRecord) (d : D) (es : List Entry) (rs : List LogRecord)
      → length (jsonl h.crates rs) + length (jsonl h.crates recs) < 2 ^ 64
      → All (IsFit h.crates) recs
      → IsHeld h.crates es rs
      → (es' : List Entry) × (push_batch h cfg log_group recs d es ≡ (d, es', ok tt))
        × IsHeld h.crates es' (rs ++ recs)
  unfolding push_batch
  push_batch_lem log_group [] d es rs fits fit held = (
    es,
    refl,
    IsHeld-same h.crates es rs (rs ++ []) (λ f. omega (arith, weight-append f rs [])) held,
  )
  push_batch_lem log_group (r ∷ recs) d es rs fits fit held =
      let (es', done, held') =
        push_one_lem log_group r d es rs (omega (arith, size-append h.crates (r ∷ []) recs)) fit.0
          held in
      let (es'', done', held'') =
        push_batch_lem log_group recs d es' (rs ++ r ∷ [])
          (omega (arith, size-append h.crates (r ∷ []) recs, size-append h.crates rs (r ∷ [])))
          fit.1 held' in
      (
        es'',
        ap (and_then h cfg (push_batch h cfg log_group recs)) done ∙ done',
        subst (λ z. IsHeld h.crates es'' z) (append_assoc rs (r ∷ []) recs) held'',
      )

  sync_bare :
      (k : BufKey) (b : Buf) (es : List Entry) (d : D)
      → b.wal ≡ none
      → sync_wal h cfg ((k, b) ∷ es) d ≡ sync_none h cfg k b (sync_wal h cfg es d)
  unfolding sync_wal
  sync_bare k b es d bare = ap (sync_by h cfg k b es (λ w. sync_wal h cfg es w) d) bare

  -- Without segments there is nothing to sync.
  sync_wal_lem :
      (es : List Entry) (rs : List LogRecord) (d : D)
      → IsHeld h.crates es rs
      → sync_wal h cfg es d ≡ (d, es, ok tt)
  unfolding sync_wal
  sync_wal_lem [] rs d held = refl
  sync_wal_lem ((k, b) ∷ es) rs d (x, t, hx, ht, q) =
      sync_bare k b es d hx.1 ∙ ap (sync_none h cfg k b) (sync_wal_lem es t d ht)

  pub accept_lem :
      (log_group : Bytes) (recs : List LogRecord) (d : D) (es : List Entry) (rs : List LogRecord)
      → length (jsonl h.crates rs) + length (jsonl h.crates recs) < 2 ^ 64
      → All (IsFit h.crates) recs
      → IsHeld h.crates es rs
      → (due left : List Entry) × (accept h cfg log_group recs d es ≡ (d, left, ok due))
        × IsSplit h.crates (due, left) (rs ++ recs)
  unfolding accept
  accept_lem log_group recs d es rs fits fit held =
      let (es', done, held') = push_batch_lem log_group recs d es rs fits fit held in
      (
        (take_due cfg es').0,
        (take_due cfg es').1,
        ap (accepted h cfg) (
            ap (and_then h cfg (λ w more. sync_wal h cfg more w)) done
            ∙ sync_wal_lem es' (rs ++ recs) d held'),
        take_due-IsSplit h.crates cfg es' (rs ++ recs) held',
      )

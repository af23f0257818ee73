-- ===== src/Flusher/Methods.antt =====
-- The manager's methods, as runs of steps.
use s4_logs.Prelude.{
  ℕ, ◌≡◌, refl, sym, ap, subst, ◌∙◌, Bool, true, Option, none, some, List, [], ◌∷◌, ◌++◌, arith,
  length, All, append-nil, append_assoc, Bool-cases, inl, inr, leb,
}
use s4_logs.Prelude.Text.{Bytes, eqb_refl}
use s4_logs.Prelude.Result.{Result, ok, err}
use s4_logs.Record.{LogRecord}
use s4_logs.Crates.{IsLawful, Crates}
use s4_logs.Jsonl.{jsonl}
use s4_logs.Layout.{ChunkLocation}
use s4_logs.Chunk.{ChunkError, EncodedChunk, add_u64, encode}
use s4_logs.Sink.{SinkError, PutReceipt}
use s4_logs.Host.{Host}
use s4_logs.Wal.{uuid8}
use s4_logs.Buffer.{
  BufferConfig, BufferError, BufKey, Buf, Entry, is_key, take_matching, remove_entries, and_more,
  remove_largest, InputLogEvent, incoming, accept, buffered_total,
}
use s4_logs.Buffer.Bags.{weight-append, SameRecords, size-append}
use s4_logs.Buffer.Held.{IsFit, IsHeld}
use s4_logs.Buffer.Push.{IsPacking}
use s4_logs.Flusher.{
  Manager, Done, flush_one, flush_to, answered, chunk_place, flagged, flush_rest, flush_taken,
  reserve, make_room, still_over, is_over, batch, push_reserved, flush_due, push_events,
  flush_matching, sweep_expired, is_expired, flush_all, chunk_records,
}
use s4_logs.Flusher.ReadBack.{or_none, archived}
use s4_logs.Flusher.Flushed.{IsTaking, IsDone, flush_one-IsDone}
use s4_logs.Flusher.Lossless.{
  Gateway, HasRoom, largest_step, take_step, accept_step, Reach, later, takes, takes_largest,
  accepts, flushes, Reach-IsLossless,
}

abbrev pub acked_by : List LogRecord → Result BufferError Unit → List LogRecord
acked_by recs (ok _) = recs
acked_by recs (err e) = []

archived-append :
    (c : Crates) (ps qs : List (ChunkLocation × EncodedChunk))
    → archived c (ps ++ qs) ≡ archived c ps ++ archived c qs
archived-append c [] qs = refl
archived-append c ((loc, made) ∷ ps) qs =
    ap (λ z. or_none (chunk_records c made) ++ z) (archived-append c ps qs)
    ∙ sym (append_assoc (or_none (chunk_records c made)) (archived c ps) (archived c qs))

module _ {D : Type 0} (h : Host D) (cfg : BufferConfig) where
  abbrev pub at : Manager D → List Entry → List LogRecord → Gateway D
  at m f a = record { manager = m; in_flight = f; acknowledged = a }

  -- Nothing that was put is taken back.
  abbrev IsGrown : Manager D → Manager D → Type 0
  IsGrown m m' = (more : List (ChunkLocation × EncodedChunk)) × (m'.puts ≡ m.puts ++ more)

  flush_one-IsGrown : (e : Entry) (m : Manager D) → IsGrown m (flush_one h cfg e m).0
  unfolding flush_one flush_to answered
  flush_one-IsGrown (k, b) m = with_chunk (encode h.crates b.writer)
    where
      with_answer :
          (made : EncodedChunk) (loc : ChunkLocation) (r : D × Result SinkError PutReceipt)
          → IsGrown m (answered h cfg k b made loc m r).0
      with_answer made loc (d, ok receipt) = ((loc, made) ∷ [], refl)
      with_answer made loc (d, err e) = ([], sym (append-nil m.puts))

      with_chunk :
          (r : Result ChunkError (Option EncodedChunk)) → IsGrown m (flush_to h cfg k b m r).0
      with_chunk (err e) = ([], sym (append-nil m.puts))
      with_chunk (ok none) = ([], sym (append-nil m.puts))
      with_chunk (ok (some made)) = with_answer made (chunk_place h cfg k b (uuid8 h m.world).1) _

  flagged-puts : (p : Done h cfg) → (flagged h cfg p).0.puts ≡ p.0.puts
  flagged-puts (m, ok _) = refl
  flagged-puts (m, err e) = refl

  flush_taken-IsGrown : (es : List Entry) (m : Manager D) → IsGrown m (flush_taken h cfg es m).0
  unfolding flush_taken
  flush_taken-IsGrown [] m = ([], sym (append-nil m.puts))
  flush_taken-IsGrown (e ∷ es) m =
      let (more, p) = flush_one-IsGrown e m in
      let (others, q) = flush_taken-IsGrown es (flagged h cfg (flush_one h cfg e m)).0 in
      (
        more ++ others,
        q
            ∙ (ap (λ z. z ++ others) (flagged-puts (flush_one h cfg e m) ∙ p)
                ∙ append_assoc m.puts more others),
      )

  room_grows :
      (m m' : Manager D) (f f' : List Entry) (a recs : List LogRecord)
      → IsGrown m m'
      → HasRoom h cfg (at m f a) recs
      → HasRoom h cfg (at m' f' a) recs
  room_grows m m' f f' a recs (more, p) room = omega (
    arith,
    room,
    ap (λ z. length (jsonl h.crates (archived h.crates z))) p,
    ap (λ z. length (jsonl h.crates z)) (archived-append h.crates m.puts more),
    size-append h.crates (archived h.crates m.puts) (archived h.crates more),
  )

  abbrev HasMore : D → Manager D → List Entry → List LogRecord → Manager D → Type 0
  HasMore d m f a m' = Reach h cfg d (at m' f a) × IsGrown m m'

  make_room-IsGrown : (m : Manager D) → IsGrown m (make_room h cfg m (remove_largest m.buffers))
  make_room-IsGrown m = go (remove_largest m.buffers)
    where
      go : (p : Option Entry × List Entry) → IsGrown m (make_room h cfg m p)
      go (none, es) = ([], sym (append-nil m.puts))
      go (some e, es) = flush_taken-IsGrown (e ∷ []) (record m { buffers = es })

  still_over-manager : (wanted : ℕ) (m : Manager D) → (still_over h cfg wanted m).0 ≡ m
  still_over-manager wanted m = elim (Bool-cases (is_over h cfg wanted m)) [
    | inl over ↦ rw over refl
    | inr fine ↦ rw fine refl
  ]

  module _ {d : D} where
    flush_taken-Reach :
        (due : List Entry) (m : Manager D) (f : List Entry) (a : List LogRecord)
        → Reach h cfg d (at m (f ++ due) a)
        → Reach h cfg d (at (flush_taken h cfg due m).0 f a)
    unfolding flush_taken
    flush_taken-Reach [] m f a r = subst (λ z. Reach h cfg d (at m z a)) (append-nil f) r
    flush_taken-Reach (e ∷ due) m f a r =
        flush_taken-Reach due (flagged h cfg (flush_one h cfg e m)).0 f a
          (later r (flushes f e due refl))

    make_room-Reach :
        (m : Manager D) (f : List Entry) (a : List LogRecord)
        → Reach h cfg d (at m f a)
        → Reach h cfg d (at (make_room h cfg m (remove_largest m.buffers)) f a)
    make_room-Reach m f a r = go (remove_largest m.buffers) (later r takes_largest)
      where
        go :
            (p : Option Entry × List Entry)
            → Reach h cfg d (largest_step h cfg (at m f a) p)
            → Reach h cfg d (at (make_room h cfg m p) f a)
        go (none, es) r' = r'
        go (some e, es) r' = flush_taken-Reach (e ∷ []) (record m { buffers = es }) f a r'

    reserve-HasMore :
        (wanted : ℕ) (m : Manager D) (f : List Entry) (a : List LogRecord)
        → Reach h cfg d (at m f a)
        → HasMore d m f a (reserve h cfg wanted m).0
    unfolding reserve
    reserve-HasMore wanted m f a r =
        elim (Bool-cases (leb (add_u64 (buffered_total m.buffers) wanted) cfg.max_buffered_bytes)) [
          | inl fits ↦ rw (fits, reserve) (r, ([], sym (append-nil m.puts)))
          | inr full ↦
              let room : Manager D = make_room h cfg m (remove_largest m.buffers) in
              rw (full, reserve)
                (subst (λ z. HasMore d m f a z) (sym (still_over-manager wanted room))
                  (make_room-Reach m f a r, make_room-IsGrown m))
        ]

    matching-Reach :
        (pred : Buf → Bool) (m : Manager D) (f : List Entry) (a : List LogRecord)
        → Reach h cfg d (at m f a)
        → Reach h cfg d (at (flush_matching h cfg pred m).0 f a)
    matching-Reach pred m f a r = go (take_matching pred m.buffers) (later r (takes pred))
      where
        go :
            (p : List Entry × List Entry)
            → Reach h cfg d (take_step h cfg (at m f a) p)
            → Reach h cfg d (at (flush_taken h cfg p.0 (record m { buffers = p.1 })).0 f a)
        go (due, es) r' = flush_taken-Reach due (record m { buffers = es }) f a r'

    -- `push_events` is a run of the steps that may interleave: from a reachable state it reaches
    -- one with the same buffers in flight, where the records of the batch are added to those
    -- acknowledged exactly if it returned `Ok`; the batch's records can be serialized, have `i64`
    -- timestamps and leave room under the decompression cap for what is not archived.
    pub push_events-Reach :
        (log_group stream : Bytes) (events : List InputLogEvent) (m : Manager D) (f : List Entry)
        (a : List LogRecord)
        → All (IsFit h.crates) (batch h cfg stream events)
        → HasRoom h cfg (at m f a) (batch h cfg stream events)
        → Reach h cfg d (at m f a)
        → Reach h cfg d (
            at (push_events h cfg log_group stream events m).0 f (
              a
              ++ acked_by
                  (batch h cfg stream events)
                  (push_events h cfg log_group stream events m).1))
    unfolding push_events
    push_events-Reach log_group stream events m f a fit room r =
        go (reserve h cfg (incoming stream events) m)
          (reserve-HasMore (incoming stream events) m f a r)
      where
        recs : List LogRecord
        recs = batch h cfg stream events

        settle :
            (m' : Manager D) (p : D × List Entry × Result BufferError (List Entry))
            → Reach h cfg d (accept_step h cfg (at m' f a) recs p)
            → Reach h cfg d
                (at (flush_due h cfg m' p).0 f (a ++ acked_by recs (flush_due h cfg m' p).1))
        settle m' (w, es, err e) r' =
            subst (λ z. Reach h cfg d (at (record m' { world = w; buffers = es }) z (a ++ [])))
              (append-nil f) r'
        settle m' (w, es, ok due) r' =
            flush_taken-Reach due (record m' { world = w; buffers = es }) f (a ++ recs) r'

        go :
            (p : Done h cfg)
            → HasMore d m f a p.0
            → Reach h cfg d (
                at
                  (push_reserved h cfg log_group recs p).0
                  f
                  (a ++ acked_by recs (push_reserved h cfg log_group recs p).1))
        go (m', err e) (r', grown) = subst (λ z. Reach h cfg d (at m' f z)) (sym (append-nil a)) r'
        go (m', ok _) (r', grown) =
            settle m' (accept h cfg log_group recs m'.world m'.buffers)
              (later r' (accepts log_group recs fit (room_grows m m' f f a recs grown room)))

    pub sweep_expired-Reach :
        (m : Manager D) (f : List Entry) (a : List LogRecord)
        → Reach h cfg d (at m f a)
        → Reach h cfg d (at (sweep_expired h cfg m) f a)
    unfolding sweep_expired
    sweep_expired-Reach m f a r = matching-Reach (is_expired h cfg m.world) m f a r

    pub flush_all-Reach :
        (m : Manager D) (f : List Entry) (a : List LogRecord)
        → Reach h cfg d (at m f a)
        → Reach h cfg d (at (flush_all h cfg m).0 f a)
    unfolding flush_all
    flush_all-Reach m f a r = matching-Reach (λ b. true) m f a r

  is_key_refl : (k : BufKey) → is_key k k ≡ true
  is_key_refl (g, t) = rw (eqb_refl g, eqb_refl t) refl

  take_all : (es : List Entry) → take_matching (λ b. true) es ≡ (es, [])
  unfolding take_matching remove_entries
  take_all [] = refl
  take_all ((k, b) ∷ es) = rw (is_key_refl k) (ap (and_more (k, b)) (take_all es))

  module _ (law : IsLawful h.crates) (packs : IsPacking h.crates) (off : cfg.wal_dir ≡ none)
      (taking : IsTaking h cfg law packs) where
    flush_rest_lem :
        (es : List Entry) (more : Manager D → Done h cfg) (p : Done h cfg)
        → IsDone h cfg law packs es p
        → ((m : Manager D) → m.buffers ≡ es → IsDone h cfg law packs es (more m))
        → IsDone h cfg law packs es (flush_rest h cfg more (flagged h cfg p))
    flush_rest_lem es more (m, ok _) done ih = ih (record m { last_flush_ok = true }) done.0
    flush_rest_lem es more (m, err e) done ih = cc

    flush_taken-IsDone :
        (due : List Entry) (m : Manager D)
        → IsDone h cfg law packs m.buffers (flush_taken h cfg due m)
    unfolding flush_taken
    flush_taken-IsDone [] m = (refl, refl)
    flush_taken-IsDone ((k, b) ∷ due) m =
        flush_rest_lem m.buffers (flush_taken h cfg due) (flush_one h cfg (k, b) m)
          (flush_one-IsDone h cfg law packs k b m taking)
          (λ m' same.
            subst (λ z. IsDone h cfg law packs z (flush_taken h cfg due m')) same
              (flush_taken-IsDone due m'))

    -- With a sink that takes every chunk and no buffer in flight, from a reachable state
    -- `flush_all` returns `Ok`, leaves no buffer, and every weighing then gives the acknowledged
    -- records and the records of the archived chunks the same weight; there is no write-ahead log,
    -- crates are lawful and zstd never fails.
    pub flush_all_delivers :
        {d : D} (m : Manager D) (a : List LogRecord)
        → Reach h cfg d (at m [] a)
        → ((flush_all h cfg m).1 ≡ ok tt)
          × ((flush_all h cfg m).0.buffers ≡ [])
          × SameRecords a (archived h.crates (flush_all h cfg m).0.puts)
    unfolding flush_all
    flush_all_delivers m a r =
        let emptied : IsDone h cfg law packs [] (flush_all h cfg m) =
          subst
            (λ (z : List Entry × List Entry).
              IsDone h cfg law packs [] (flush_taken h cfg z.0 (record m { buffers = z.1 })))
            (sym (take_all m.buffers)) (flush_taken-IsDone m.buffers (record m { buffers = [] })) in
        let l = Reach-IsLossless h cfg law packs off (flush_all-Reach m [] a r) in
        let none_held : SameRecords l.held [] =
          subst (λ z. IsHeld h.crates z l.held) emptied.0 l.is_held in
        (
          emptied.1,
          emptied.0,
          λ w. omega (
            arith,
            l.kept w,
            none_held w,
            l.is_flying w,
            weight-append w (archived h.crates (flush_all h cfg m).0.puts) (l.held ++ l.flying),
            weight-append w l.held l.flying,
          ),
        )

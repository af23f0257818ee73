-- ===== src/Flusher/Lossless.antt =====
-- Threads that interleave: each step is what one of them does between two points where another may
-- run, that is one critical section over the buffers, or the flush of one buffer that was taken.
use s4_logs.Prelude.{
  ◌+◌, ◌≤◌, ◌≡◌, refl, sym, ap, subst, Bool, Option, none, some, List, [], ◌∷◌, ◌++◌, arith, length,
  All,
}
use s4_logs.Prelude.Text.{Bytes}
use s4_logs.Prelude.Result.{Result, ok, err}
use s4_logs.Record.{LogRecord}
use s4_logs.Crates.{IsLawful}
use s4_logs.Jsonl.{jsonl}
use s4_logs.Read.{max_decompressed_bytes}
use s4_logs.Host.{Host}
use s4_logs.Buffer.{
  BufferConfig, BufferError, BufKey, Buf, Entry, take_matching, remove_largest, accept,
}
use s4_logs.Buffer.Bags.{weight, weight-append, SameRecords, same_size, size-append}
use s4_logs.Buffer.Held.{IsFit, IsHeld, IsHeld-append, IsHeld-middle}
use s4_logs.Buffer.Push.{IsPacking, accept_lem}
use s4_logs.Buffer.Taken.{IsSplit, IsOneOut, take_matching-IsSplit, remove_largest-IsOneOut}
use s4_logs.Flusher.{Manager, new_manager, flush_one, flagged}
use s4_logs.Flusher.ReadBack.{archived}
use s4_logs.Flusher.Flushed.{IsSettled, flush_one-IsSettled}

-- The manager, the buffers that a thread has taken to flush, and the records of the batches that were
-- accepted.
pub record Gateway (D : Type 0) : Type 0 where
  pub manager : Manager D
  pub in_flight : List Entry
  pub acknowledged : List LogRecord

abbrev pub start_at : {D : Type 0} → D → Gateway D
start_at d = record { manager = new_manager d; in_flight = []; acknowledged = [] }

abbrev pub due_of : Result BufferError (List Entry) → List Entry
due_of (ok due) = due
due_of (err e) = []

abbrev pub acked : List LogRecord → Result BufferError (List Entry) → List LogRecord
acked recs (ok due) = recs
acked recs (err e) = []

module _ {D : Type 0} (h : Host D) (cfg : BufferConfig) where
  -- The records that are not yet archived keep to what one chunk may decompress to.
  abbrev pub HasRoom : Gateway D → List LogRecord → Type 0
  HasRoom s recs =
      length (jsonl h.crates s.acknowledged) + length (jsonl h.crates recs)
      ≤ length (jsonl h.crates (archived h.crates s.manager.puts)) + max_decompressed_bytes

  abbrev pub accept_step :
      Gateway D → List LogRecord → D × List Entry × Result BufferError (List Entry) → Gateway D
  accept_step s recs (d, es, r) = record {
    manager = record (s.manager) { world = d; buffers = es };
    in_flight = s.in_flight ++ due_of r;
    acknowledged = s.acknowledged ++ acked recs r;
  }

  abbrev pub take_step : Gateway D → List Entry × List Entry → Gateway D
  take_step s (due, es) = record s {
    manager = record (s.manager) { buffers = es };
    in_flight = s.in_flight ++ due;
  }

  abbrev pub largest_step : Gateway D → Option Entry × List Entry → Gateway D
  largest_step s (none, es) = record s { manager = record (s.manager) { buffers = es } }
  largest_step s (some e, es) = take_step s (e ∷ [], es)

  abbrev pub flush_step : Gateway D → List Entry → Entry → List Entry → Gateway D
  flush_step s before e after = record s {
    manager = (flagged h cfg (flush_one h cfg e s.manager)).0;
    in_flight = before ++ after;
  }

  pub data Step (s : Gateway D) : Gateway D → Type 0 where
    -- The world goes on.
    passes : (d : D) → Step s (record s { manager = record (s.manager) { world = d } })
    accepts :
        (log_group : Bytes) (recs : List LogRecord)
        → All (IsFit h.crates) recs
        → HasRoom s recs
        → Step s
            (accept_step s recs (accept h cfg log_group recs s.manager.world s.manager.buffers))
    takes : (pred : Buf → Bool) → Step s (take_step s (take_matching pred s.manager.buffers))
    takes_largest : Step s (largest_step s (remove_largest s.manager.buffers))
    flushes :
        (before : List Entry) (e : Entry) (after : List Entry)
        → s.in_flight ≡ before ++ e ∷ after
        → Step s (flush_step s before e after)

  pub data Reach (d : D) : Gateway D → Type 0 where
    start : Reach d (start_at d)
    later : {s t : Gateway D} → Reach d s → Step s t → Reach d t

  -- Every record accepted is archived, held or in flight, as often as it was accepted.
  pub record IsLossless (s : Gateway D) : Type 0 where
    pub held : List LogRecord
    pub flying : List LogRecord
    pub is_held : IsHeld h.crates s.manager.buffers held
    pub is_flying : IsHeld h.crates s.in_flight flying
    pub kept : SameRecords s.acknowledged (archived h.crates s.manager.puts ++ (held ++ flying))
    pub room : HasRoom s []

  module _ (law : IsLawful h.crates) (packs : IsPacking h.crates) (off : cfg.wal_dir ≡ none) where
    unarchived :
        (s : Gateway D) (recs : List LogRecord) (l : IsLossless s)
        → HasRoom s recs
        → length (jsonl h.crates l.held)
            + length (jsonl h.crates l.flying)
            + length (jsonl h.crates recs)
          ≤ max_decompressed_bytes
    unarchived s recs l room = omega (
      arith,
      room,
      same_size h.crates s.acknowledged (archived h.crates s.manager.puts ++ (l.held ++ l.flying))
          l.kept,
      size-append h.crates (archived h.crates s.manager.puts) (l.held ++ l.flying),
      size-append h.crates l.held l.flying,
    )

    accept-IsLossless :
        (s : Gateway D) (log_group : Bytes) (recs : List LogRecord)
        → All (IsFit h.crates) recs
        → HasRoom s recs
        → IsLossless s
        → IsLossless
            (accept_step s recs (accept h cfg log_group recs s.manager.world s.manager.buffers))
    accept-IsLossless s log_group recs fit room l =
        let (due, left, e, (a, b, ha, hb, q)) =
          accept_lem h cfg packs off log_group recs s.manager.world s.manager.buffers l.held
            (omega (arith, unarchived s recs l room)) fit l.is_held in
        subst (λ z. IsLossless (accept_step s recs z)) (sym e)
          (record {
            held = b;
            flying = l.flying ++ a;
            is_held = hb;
            is_flying = IsHeld-append h.crates s.in_flight due l.flying a l.is_flying ha;
            kept = λ f. omega (
              arith,
              l.kept f,
              q f,
              weight-append f s.acknowledged recs,
              weight-append f (archived h.crates s.manager.puts) (l.held ++ l.flying),
              weight-append f l.held l.flying,
              weight-append f l.held recs,
              weight-append f a b,
              weight-append f (archived h.crates s.manager.puts) (b ++ (l.flying ++ a)),
              weight-append f b (l.flying ++ a),
              weight-append f l.flying a,
            );
            room = omega (arith, room, size-append h.crates s.acknowledged recs);
          })

    take-IsLossless :
        (s : Gateway D) (p : List Entry × List Entry) (l : IsLossless s)
        → IsSplit h.crates p l.held
        → IsLossless (take_step s p)
    take-IsLossless s (due, left) l (a, b, ha, hb, q) = record {
      held = b;
      flying = l.flying ++ a;
      is_held = hb;
      is_flying = IsHeld-append h.crates s.in_flight due l.flying a l.is_flying ha;
      kept = λ f. omega (
        arith,
        l.kept f,
        q f,
        weight-append f (archived h.crates s.manager.puts) (l.held ++ l.flying),
        weight-append f l.held l.flying,
        weight-append f a b,
        weight-append f (archived h.crates s.manager.puts) (b ++ (l.flying ++ a)),
        weight-append f b (l.flying ++ a),
        weight-append f l.flying a,
      );
      room = l.room;
    }

    largest-IsLossless :
        (s : Gateway D) (p : Option Entry × List Entry) (l : IsLossless s)
        → IsOneOut h.crates p l.held
        → IsLossless (largest_step s p)
    largest-IsLossless s (none, es) l one = record {
      held = l.held;
      flying = l.flying;
      is_held = one;
      is_flying = l.is_flying;
      kept = l.kept;
      room = l.room;
    }
    largest-IsLossless s (some (k, b), es) l one = take-IsLossless s ((k, b) ∷ [], es) l one

    settle-IsLossless :
        (s : Gateway D) (l : IsLossless s) (m : Manager D) (es : List Entry) (x t : List LogRecord)
        → IsHeld h.crates es t
        → SameRecords l.flying (x ++ t)
        → IsSettled h cfg law packs s.manager l.held x m
        → IsLossless (record s { manager = m; in_flight = es })
    settle-IsLossless s l m es x t ht q (left, a, hl, puts, q') = record {
      held = left;
      flying = t;
      is_held = hl;
      is_flying = ht;
      kept = λ f. omega (
        arith,
        l.kept f,
        q f,
        q' f,
        ap (weight f) puts,
        weight-append f (archived h.crates s.manager.puts) a,
        weight-append f (archived h.crates s.manager.puts) (l.held ++ l.flying),
        weight-append f l.held l.flying,
        weight-append f l.held x,
        weight-append f x t,
        weight-append f left a,
        weight-append f (archived h.crates m.puts) (left ++ t),
        weight-append f left t,
      );
      room = omega (
        arith,
        l.room,
        ap (λ z. length (jsonl h.crates z)) puts,
        size-append h.crates (archived h.crates s.manager.puts) a,
      );
    }

    flagged_lem :
        (rs x : List LogRecord) (m : Manager D) (p : Manager D × Result BufferError Unit)
        → IsSettled h cfg law packs m rs x p.0
        → IsSettled h cfg law packs m rs x (flagged h cfg p).0
    flagged_lem rs x m (m', ok _) settled = settled
    flagged_lem rs x m (m', err e) settled = settled

    flush-IsLossless :
        (s : Gateway D) (before : List Entry) (k : BufKey) (b : Buf) (after : List Entry)
        → s.in_flight ≡ before ++ (k, b) ∷ after
        → IsLossless s
        → IsLossless (flush_step s before (k, b) after)
    flush-IsLossless s before k b after e l =
        let (x, t, hx, ht, q) =
          IsHeld-middle h.crates before k b after l.flying
            (subst (λ z. IsHeld h.crates z l.flying) e l.is_flying) in
        let fits : length (jsonl h.crates l.held) + length (jsonl h.crates x)
            ≤ max_decompressed_bytes =
          omega (
            arith,
            unarchived s [] l l.room,
            same_size h.crates l.flying (x ++ t) q,
            size-append h.crates x t,
          ) in
        settle-IsLossless s l (flagged h cfg (flush_one h cfg (k, b) s.manager)).0 (before ++ after)
          x t ht q
          (flagged_lem l.held x s.manager (flush_one h cfg (k, b) s.manager)
            (flush_one-IsSettled h cfg law packs k b s.manager x l.held fits hx l.is_held))

    pub Step-IsLossless : {s t : Gateway D} → Step s t → IsLossless s → IsLossless t
    Step-IsLossless {s} (passes d) l = record {
      held = l.held;
      flying = l.flying;
      is_held = l.is_held;
      is_flying = l.is_flying;
      kept = l.kept;
      room = l.room;
    }
    Step-IsLossless {s} (accepts log_group recs fit room) l =
        accept-IsLossless s log_group recs fit room l
    Step-IsLossless {s} (takes pred) l =
        take-IsLossless s (take_matching pred s.manager.buffers) l
          (take_matching-IsSplit h.crates pred s.manager.buffers l.held l.is_held)
    Step-IsLossless {s} takes_largest l =
        largest-IsLossless s (remove_largest s.manager.buffers) l
          (remove_largest-IsOneOut h.crates s.manager.buffers l.held l.is_held)
    Step-IsLossless {s} (flushes before (k, b) after e) l = flush-IsLossless s before k b after e l

    -- In a gateway without a write-ahead log, in each state that interleaved critical sections and
    -- flushes reach, whatever the sink answers, every weighing of records gives the records of the
    -- accepted batches the weight that it gives those of the archived chunks, those held by the
    -- buffers and those of the buffers in flight together; crates are lawful, zstd never fails,
    -- and each batch's records can be serialized, have `i64` timestamps and leave room under the
    -- decompression cap for what is not archived.
    pub Reach-IsLossless : {d : D} {s : Gateway D} → Reach d s → IsLossless s
    Reach-IsLossless start = record {
      held = [];
      flying = [];
      is_held = λ f. refl;
      is_flying = λ f. refl;
      kept = λ f. refl;
      room = omega arith;
    }
    Reach-IsLossless (later r st) = Step-IsLossless st (Reach-IsLossless r)

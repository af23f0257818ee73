-- ===== src/Merge.antt =====
-- `KWayMerge` of crates/s4logs-cli/src/scan.rs over any sources of batches. The heap is the list of its
-- heads, the least first. A source may give empty batches without end, so `refill` runs on fuel.
pub mod Heads
pub mod Drained
pub mod Given
pub mod Refilled
pub mod Complete
mod Tests
use s4_logs.Prelude.{
  ℕ, zero, suc, ◌+◌, Bool, true, false, Option, none, some, List, [], ◌∷◌, ◌++◌, length, map,
  get_elem?, if◌then◌else◌, leb,
}
use s4_logs.Prelude.Int.{ℤ, leb_ℤ}
use s4_logs.Prelude.Text.{Bytes}
use s4_logs.Prelude.Order.{lex, leb_bytes, insert_by}
use s4_logs.Prelude.Result.{Result, ok, err}
use s4_logs.Record.{LogRecord}

-- `RecordBatchSource`
pub record BatchSource (S E : Type 0) : Type 0 where
  pub next_batch : S → S × Result E (Option (List LogRecord))

-- A record with the index of its source.
abbrev pub Head : Type 0
Head = LogRecord × ℕ

-- The order on `(timestamp, stream)`, and on `Head::key`.
abbrev pub rec_key : LogRecord → ℤ × Bytes
rec_key r = (r.timestamp, r.stream)

unfoldable pub rec_le : LogRecord → LogRecord → Bool
rec_le a b = lex leb_ℤ leb_bytes (rec_key a) (rec_key b)

unfoldable pub head_le : Head → Head → Bool
head_le a b = lex (lex leb_ℤ leb_bytes) leb (rec_key a.0, a.1) (rec_key b.0, b.1)

abbrev pub concat : List (List LogRecord) → List LogRecord
concat [] = []
concat (b ∷ bs) = b ++ concat bs

-- An index out of range panics in the source.
pub data MergeError (E : Type 0) : Type 0 where
  out_of_fuel : MergeError E
  no_source : ℕ → MergeError E
  failed : E → MergeError E

-- A source with what is left of the batch that is open.
pub record Lane (S : Type 0) : Type 0 where
  pub source : S
  pub batch : List LogRecord

-- `sources` and `batches` have the same indices and are one list here.
pub record KWayMerge (S : Type 0) : Type 0 where
  pub lanes : List (Lane S)
  pub heap : List Head
  pub primed : Bool

module _ {S : Type 0} where
  abbrev pub lane_of : S → List LogRecord → Lane S
  lane_of s batch = record { source = s; batch = batch }

  unfoldable pub new_merge : List S → KWayMerge S
  new_merge sources = record { lanes = map (λ s. lane_of s []) sources; heap = []; primed = false }

  abbrev pub set_lane : ℕ → Lane S → List (Lane S) → List (Lane S)
  set_lane i lane [] = []
  set_lane zero lane (l ∷ ls) = lane ∷ ls
  set_lane (suc i) lane (l ∷ ls) = l ∷ set_lane i lane ls

module _ {S E : Type 0} (io : BatchSource S E) (fuel : ℕ) where
  abbrev pub Step : Type 0 → Type 0
  Step A = KWayMerge S × Result (MergeError E) A

  abbrev pub pulled :
      (S → List LogRecord → Lane S × Result (MergeError E) (Option LogRecord))
      → S × Result E (Option (List LogRecord))
      → Lane S × Result (MergeError E) (Option LogRecord)
  pulled more (s, ok (some batch)) = more s batch
  pulled more (s, ok none) = (lane_of s [], ok none)
  pulled more (s, err e) = (lane_of s [], err (failed e))

  -- The loop of `refill` on one source: its next record.
  unfoldable pub refill_from :
      ℕ → S → List LogRecord → Lane S × Result (MergeError E) (Option LogRecord)
  refill_from n s (r ∷ batch) = (lane_of s batch, ok (some r))
  refill_from zero s [] = (lane_of s [], err out_of_fuel)
  refill_from (suc n) s [] = pulled (refill_from n) (io.next_batch s)

  abbrev pub refilled :
      KWayMerge S → ℕ → Lane S × Result (MergeError E) (Option LogRecord) → Step Unit
  refilled m src (lane, ok none) = (record m { lanes = set_lane src lane m.lanes }, ok tt)
  refilled m src (lane, ok (some r)) = (
    record m { lanes = set_lane src lane m.lanes; heap = insert_by head_le (r, src) m.heap },
    ok tt,
  )
  refilled m src (lane, err e) = (record m { lanes = set_lane src lane m.lanes }, err e)

  abbrev pub refill_lane : KWayMerge S → ℕ → Option (Lane S) → Step Unit
  refill_lane m src none = (m, err (no_source src))
  refill_lane m src (some lane) = refilled m src (refill_from fuel lane.source lane.batch)

  unfoldable pub refill : KWayMerge S → ℕ → Step Unit
  unfolding refill_from
  refill m src = refill_lane m src (get_elem? m.lanes src)

  -- The loop that fills the heap, over `k` sources from index `i` on.
  abbrev pub and_prime : (KWayMerge S → Step Unit) → Step Unit → Step Unit
  and_prime more (m, ok _) = more m
  and_prime more (m, err e) = (m, err e)

  unfoldable pub prime_from : ℕ → ℕ → KWayMerge S → Step Unit
  unfolding refill
  prime_from zero i m = (m, ok tt)
  prime_from (suc k) i m = and_prime (prime_from k (i + 1)) (refill m i)

  unfoldable pub prime : KWayMerge S → Step Unit
  unfolding prime_from
  prime m =
      if m.primed then (m, ok tt) else prime_from (length m.lanes) 0 (record m { primed = true })

  abbrev pub popped : Head → Step Unit → Step (Option Head)
  popped h (m, ok _) = (m, ok (some h))
  popped h (m, err e) = (m, err e)

  unfoldable pub pop_head : KWayMerge S → List Head → Step (Option Head)
  unfolding refill
  pop_head m [] = (m, ok none)
  pop_head m (h ∷ hs) = popped h (refill (record m { heap = hs }) h.1)

  abbrev pub pop_primed : Step Unit → Step (Option Head)
  pop_primed (m, ok _) = pop_head m m.heap
  pop_primed (m, err e) = (m, err e)

  unfoldable pub next_indexed : KWayMerge S → Step (Option Head)
  unfolding prime pop_head
  next_indexed m = pop_primed (prime m)

  -- The loop of a caller that takes records until there is none: `n` rounds at most.
  abbrev pub Collected : Type 0
  Collected = KWayMerge S × List Head × Result (MergeError E) Unit

  abbrev pub and_collect : (KWayMerge S → Collected) → Step (Option Head) → Collected
  and_collect more (m, ok none) = (m, [], ok tt)
  and_collect more (m, ok (some h)) = let (m', hs, end) = more m in (m', h ∷ hs, end)
  and_collect more (m, err e) = (m, [], err e)

  unfoldable pub collect : ℕ → KWayMerge S → Collected
  unfolding next_indexed
  collect zero m = (m, [], err out_of_fuel)
  collect (suc n) m = and_collect (collect n) (next_indexed m)

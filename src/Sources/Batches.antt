-- ===== src/Sources/Batches.antt =====
-- The batches of a source of crates/s4logs-cli/src/scan.rs whose frames can all be fetched.
use s4_logs.Prelude.{
  ℕ, Bool, true, Option, some, List, [], ◌∷◌, ◌++◌, ◌≡◌, refl, sym, ap, subst, ◌∙◌, All, All-map,
  All-append, All-append_left, All-append_right, append_assoc, append-nil, map, arith,
}
use s4_logs.Prelude.Int.{◌≤ℤ◌, ◌<ℤ◌}
use s4_logs.Prelude.Text.{Bytes}
use s4_logs.Prelude.Order.{sort_by, sort_by-IsSorted, sort_by-All, IsSorted, IsAbove}
use s4_logs.Prelude.Result.{ok, map_err}
use s4_logs.Record.{LogRecord}
use s4_logs.Crates.{Crates}
use s4_logs.Read.{TimeRange, FrameSpan}
use s4_logs.Scan.{ScanStats, Batch, fetch_span, fetch_spans}
use s4_logs.Buffer.Bags.{weight, weight-append, weight-sort_by, SameRecords}
use s4_logs.Cluster.{Timed, timed_le, clusters}
use s4_logs.Cluster.Apart.{flat, IsBefore, AreApart, clusters_apart}
use s4_logs.Merge.{rec_le, concat}
use s4_logs.Merge.Heads.{rec_le-IsOrder}
use s4_logs.Merge.Refilled.{Yields}
use s4_logs.Sources.{Reader, frames, chunk_batches, load_unit, pull_unit, loaded, fetching}

-- The records of several spans, by those of each.
abbrev pub gather : (FrameSpan → List LogRecord) → List Timed → List LogRecord
gather g [] = []
gather g (t ∷ ts) = g t.span ++ gather g ts

-- A record's time lies in the range of one of the frames.
abbrev pub IsIn : Timed → LogRecord → Type 0
IsIn t r = (t.min_ts ≤ℤ r.timestamp) × (r.timestamp ≤ℤ t.max_ts)

sooner : (a b : LogRecord) → a.timestamp <ℤ b.timestamp → rec_le a b ≡ true
unfolding rec_le
sooner a b h = ground arith

append-IsSorted :
    (xs ys : List LogRecord)
    → IsSorted rec_le xs
    → IsSorted rec_le ys
    → All (λ x. IsAbove rec_le x ys) xs
    → IsSorted rec_le (xs ++ ys)
append-IsSorted [] ys s s' h = s'
append-IsSorted (x ∷ xs) ys s s' h =
    (All-append (λ y. rec_le x y ≡ true) xs ys s.0 h.0, append-IsSorted xs ys s.1 s' h.1)

All-flat : (P : Timed → Type 0) (cs : List (List Timed)) → All P (flat cs) → All (All P) cs
All-flat P [] h = tt
All-flat P (ts ∷ cs) h =
    (All-append_left P ts (flat cs) h, All-flat P cs (All-append_right P ts (flat cs) h))

module _ (c : Crates) (rd : Reader) (range : TimeRange) (pattern : Option (Bytes → Bool)) where
  module _ (key : Bytes) (g : FrameSpan → List LogRecord) where
    -- Fetching a frame adds these records to any batch.
    abbrev pub Gives : FrameSpan → Type 0
    Gives span =
        (b : Batch)
        → (b' : Batch) × (fetch_span c (rd.get_range key) range pattern b span ≡ ok b')
          × (b'.recs ≡ b.recs ++ g span)

    abbrev pub IsGood : Timed → Type 0
    IsGood t = Gives t.span × All (IsIn t) (g t.span)

    fetch_gather :
        (ts : List Timed) (b : Batch)
        → All IsGood ts
        → (b' : Batch) × (fetch_spans c (rd.get_range key) range pattern b (map (λ t. t.span) ts)
            ≡ ok b')
          × (b'.recs ≡ b.recs ++ gather g ts)
    unfolding fetch_spans
    fetch_gather [] b h = (b, refl, sym (append-nil b.recs))
    fetch_gather (t ∷ ts) b h =
        let (b1, e1, r1) = h.0.0 b in
        let (b2, e2, r2) = fetch_gather ts b1 h.1 in
        (
          b2,
          rw (e1) e2,
          r2 ∙ (ap (λ z. z ++ gather g ts) r1 ∙ append_assoc b.recs (g t.span) (gather g ts)),
        )

    abbrev pub batch_of : List Timed → List LogRecord
    batch_of ts = sort_by rec_le (gather g ts)

    pub source-Yields :
        (cs : List (List Timed)) (st : ScanStats)
        → All (All IsGood) cs
        → Yields
            (chunk_batches c rd range pattern)
            (record { data_key = key; units = map frames (map (map (λ t. t.span)) cs); stats = st })
            (map batch_of cs)
    unfolding chunk_batches pull_unit load_unit
    source-Yields [] st h = (_, refl)
    source-Yields (ts ∷ cs) st h =
        let (b, e, r) = fetch_gather ts (record { stats = st; recs = [] }) h.0 in
        (
          record {
            data_key = key;
            units = map frames (map (map (λ t. t.span)) cs);
            stats = b.stats;
          },
          ap
                (λ x.
                  loaded c rd range pattern
                    (record {
                      data_key = key;
                      units = map frames (map (map (λ t. t.span)) cs);
                      stats = st;
                    })
                    (map_err fetching x))
                e
              ∙ ap
                  (λ z. (
                    record {
                      data_key = key;
                      units = map frames (map (map (λ t. t.span)) cs);
                      stats = b.stats;
                    },
                    ok (some (sort_by rec_le z)),
                  ))
                  r,
          source-Yields cs b.stats h.1,
        )

    -- The batches of clusters that lie apart are sorted as they stand.
    gather_before :
        (ts us : List Timed)
        → All IsGood ts
        → IsBefore ts us
        → All (λ r. All (λ u. r.timestamp <ℤ u.min_ts) us) (gather g ts)
    gather_before [] us h q = tt
    gather_before (t ∷ ts) us h q =
        All-append (λ r. All (λ u. r.timestamp <ℤ u.min_ts) us) (g t.span) (gather g ts)
          (All-map (IsIn t) (λ r. All (λ u. r.timestamp <ℤ u.min_ts) us) (g t.span)
            (λ r within.
              All-map (λ u. t.max_ts <ℤ u.min_ts) (λ u. r.timestamp <ℤ u.min_ts) us
                (λ u less. omega (arith, less, within.1)) q.0)
            h.0.1)
          (gather_before ts us h.1 q.1)

    IsAbove-gather :
        (x : LogRecord) (us : List Timed)
        → All IsGood us
        → All (λ u. x.timestamp <ℤ u.min_ts) us
        → IsAbove rec_le x (gather g us)
    IsAbove-gather x [] h q = tt
    IsAbove-gather x (u ∷ us) h q =
        All-append (λ r. rec_le x r ≡ true) (g u.span) (gather g us)
          (All-map (IsIn u) (λ r. rec_le x r ≡ true) (g u.span)
            (λ r within. sooner x r (omega (arith, q.0, within.0))) h.0.1)
          (IsAbove-gather x us h.1 q.1)

    IsAbove-batches :
        (x : LogRecord) (cs : List (List Timed))
        → All (All IsGood) cs
        → All (λ u. x.timestamp <ℤ u.min_ts) (flat cs)
        → IsAbove rec_le x (concat (map batch_of cs))
    IsAbove-batches x [] h q = tt
    IsAbove-batches x (ts ∷ cs) h q =
        All-append (λ r. rec_le x r ≡ true) (batch_of ts) (concat (map batch_of cs))
          (sort_by-All rec_le (λ r. rec_le x r ≡ true) (gather g ts)
            (IsAbove-gather x ts h.0
              (All-append_left (λ u. x.timestamp <ℤ u.min_ts) ts (flat cs) q)))
          (IsAbove-batches x cs h.1
            (All-append_right (λ u. x.timestamp <ℤ u.min_ts) ts (flat cs) q))

    pub batches-IsSorted :
        (cs : List (List Timed))
        → All (All IsGood) cs
        → AreApart cs
        → IsSorted rec_le (concat (map batch_of cs))
    batches-IsSorted [] h q = tt
    batches-IsSorted (ts ∷ cs) h q =
        append-IsSorted (batch_of ts) (concat (map batch_of cs))
          (sort_by-IsSorted rec_le rec_le-IsOrder (gather g ts)) (batches-IsSorted cs h.1 q.1)
          (All-map (λ x. All (λ u. x.timestamp <ℤ u.min_ts) (flat cs))
            (λ x. IsAbove rec_le x (concat (map batch_of cs))) (batch_of ts)
            (λ x less. IsAbove-batches x cs h.1 less)
            (sort_by-All rec_le (λ x. All (λ u. x.timestamp <ℤ u.min_ts) (flat cs)) (gather g ts)
              (gather_before ts (flat cs) h.0 q.0)))

    weight-gather :
        (f : LogRecord → ℕ) (ts : List Timed)
        → weight f (gather g ts) ≡ weight (λ t. weight f (g t.span)) ts
    weight-gather f [] = refl
    weight-gather f (t ∷ ts) =
        omega (arith, weight-append f (g t.span) (gather g ts), weight-gather f ts)

    weight-batches :
        (f : LogRecord → ℕ) (cs : List (List Timed))
        → weight f (concat (map batch_of cs)) ≡ weight (λ t. weight f (g t.span)) (flat cs)
    weight-batches f [] = refl
    weight-batches f (ts ∷ cs) = omega (
      arith,
      weight-append f (batch_of ts) (concat (map batch_of cs)),
      weight-sort_by rec_le f (gather g ts),
      weight-gather f ts,
      weight-batches f cs,
      weight-append (λ t. weight f (g t.span)) ts (flat cs),
    )

    pub batches_same :
        (ts : List Timed) → SameRecords (concat (map batch_of (clusters ts))) (gather g ts)
    batches_same ts f =
        weight-batches f (clusters ts)
        ∙ (ap (weight (λ t. weight f (g t.span))) (clusters_apart ts).1
            ∙ (weight-sort_by timed_le (λ t. weight f (g t.span)) ts ∙ sym (weight-gather f ts)))

    pub clusters-IsGood : (ts : List Timed) → All IsGood ts → All (All IsGood) (clusters ts)
    clusters-IsGood ts h =
        All-flat IsGood (clusters ts)
          (subst (All IsGood) (sym (clusters_apart ts).1) (sort_by-All timed_le IsGood ts h))

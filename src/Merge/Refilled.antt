-- ===== src/Merge/Refilled.antt =====
-- `refill` of crates/s4logs-cli/src/scan.rs against the merge of lists.
use s4_logs.Prelude.{
  ℕ, zero, suc, ◌≤◌, ◌<◌, Option, none, some, List, [], ◌∷◌, ◌++◌, ◌≡◌, ◌≢◌, refl, sym, ap, subst,
  ◌∙◌, All, length, get_elem?, map, Bool-cases, inl, inr, arith,
}
use s4_logs.Prelude.Order.{insert_by, insert_by-All}
use s4_logs.Prelude.Result.{Result, ok}
use s4_logs.Record.{LogRecord}
use s4_logs.Merge.{
  concat, BatchSource, MergeError, Lane, KWayMerge, lane_of, set_lane, head_le, refill_from, refill,
  refilled, refill_lane,
}
use s4_logs.Merge.Drained.{Entry, entry_le, put, IsFresh}

module _ {S E : Type 0} (io : BatchSource S E) where
  -- A source that gives these batches, one after the other, and then none.
  abbrev pub Yields : S → List (List LogRecord) → Type 0
  Yields s [] = (s' : S) × (io.next_batch s ≡ (s', ok none))
  Yields s (b ∷ bs) = (s' : S) × (io.next_batch s ≡ (s', ok (some b))) × Yields s' bs

  module _ (fuel : ℕ) where
    -- The records that are still to come from a lane.
    abbrev pub Holds : Lane S → List LogRecord → Type 0
    Holds lane rs =
        (left : List (List LogRecord)) × Yields lane.source left
        × (length left < fuel)
        × (lane.batch ++ concat left ≡ rs)

    abbrev IsNext : List LogRecord → Lane S × Result (MergeError E) (Option LogRecord) → Type 0
    IsNext [] out = (lane : Lane S) × (out ≡ (lane, ok none))
    IsNext (r ∷ rs) out = (lane : Lane S) × (out ≡ (lane, ok (some r))) × Holds lane rs

    refill_from_lem :
        (n : ℕ) (s : S) (batch : List LogRecord) (left : List (List LogRecord))
        → Yields s left
        → length left < n
        → n ≤ fuel
        → IsNext (batch ++ concat left) (refill_from io fuel n s batch)
    unfolding refill_from
    refill_from_lem n s (r ∷ batch) left y l f =
        (lane_of s batch, refl, (left, y, omega arith, refl))
    refill_from_lem zero s [] left y l f = absurd (omega arith)
    refill_from_lem (suc n) s [] [] y l f = (lane_of y.0 [], rw (y.1) refl)
    refill_from_lem (suc n) s [] (b ∷ bs) y l f =
        rw (y.1) (refill_from_lem n y.0 b bs y.2 (omega arith) (omega arith))

    abbrev pub LaneHolds : List (Lane S) → ℕ → List LogRecord → Type 0
    LaneHolds lanes i rs = (lane : Lane S) × (get_elem? lanes i ≡ some lane) × Holds lane rs

    abbrev pub Tracks : List (Lane S) → List Entry → Type 0
    Tracks lanes = All (λ e. LaneHolds lanes e.head.1 e.tail)

    get-set :
        (i : ℕ) (lane old : Lane S) (lanes : List (Lane S))
        → get_elem? lanes i ≡ some old
        → get_elem? (set_lane i lane lanes) i ≡ some lane
    get-set i lane old [] h = cc
    get-set zero lane old (l ∷ ls) h = refl
    get-set (suc i) lane old (l ∷ ls) h = get-set i lane old ls h

    pub get-other :
        (i j : ℕ) (lane : Lane S) (lanes : List (Lane S))
        → j ≢ i
        → get_elem? (set_lane i lane lanes) j ≡ get_elem? lanes j
    get-other i j lane [] h = refl
    get-other zero zero lane (l ∷ ls) h = absurd (h refl)
    get-other zero (suc j) lane (l ∷ ls) h = refl
    get-other (suc i) zero lane (l ∷ ls) h = refl
    get-other (suc i) (suc j) lane (l ∷ ls) h = get-other i j lane ls (λ e. h (ap suc e))

    length-set :
        (i : ℕ) (lane : Lane S) (lanes : List (Lane S))
        → length (set_lane i lane lanes) ≡ length lanes
    length-set i lane [] = refl
    length-set zero lane (l ∷ ls) = refl
    length-set (suc i) lane (l ∷ ls) = ap suc (length-set i lane ls)

    set_lane-Tracks :
        (i : ℕ) (lane : Lane S) (lanes : List (Lane S)) (es : List Entry)
        → IsFresh i es
        → Tracks lanes es
        → Tracks (set_lane i lane lanes) es
    set_lane-Tracks i lane lanes [] f t = tt
    set_lane-Tracks i lane lanes (e ∷ es) f t = (
      (t.0.0, get-other i e.head.1 lane lanes f.0 ∙ t.0.1, t.0.2),
      set_lane-Tracks i lane lanes es f.1 t.1,
    )

    pub map-insert :
        (e : Entry) (es : List Entry)
        → map (λ z. z.head) (insert_by entry_le e es)
          ≡ insert_by head_le e.head (map (λ z. z.head) es)
    map-insert e [] = refl
    map-insert e (e' ∷ es) = elim (Bool-cases (head_le e.head e'.head)) [
      | inl q ↦ rw (q) refl
      | inr q ↦ rw (q) (ap (λ z. e'.head ∷ z) (map-insert e es))
    ]

    insert_by-Tracks :
        (lanes : List (Lane S)) (e : Entry) (es : List Entry)
        → LaneHolds lanes e.head.1 e.tail
        → Tracks lanes es
        → Tracks lanes (insert_by entry_le e es)
    insert_by-Tracks lanes e es h t =
        insert_by-All entry_le (λ z. LaneHolds lanes z.head.1 z.tail) e es h t

    -- The state is that of the merge of lists with these entries.
    abbrev pub Follows : KWayMerge S → List Entry → Type 0
    Follows m es = (m.heap ≡ map (λ z. z.head) es) × Tracks m.lanes es

    -- A step that puts one source's next record on the heap.
    abbrev pub IsRefill :
        KWayMerge S → ℕ → List Entry → KWayMerge S × Result (MergeError E) Unit → Type 0
    IsRefill m i es out =
        (m' : KWayMerge S) × (out ≡ (m', ok tt))
        × Follows m' es
        × (m'.primed ≡ m.primed)
        × (length m'.lanes ≡ length m.lanes)
        × ((j : ℕ) → j ≢ i → get_elem? m'.lanes j ≡ get_elem? m.lanes j)

    refilled_lem :
        (m : KWayMerge S) (i : ℕ) (lane : Lane S) (rs : List LogRecord) (es : List Entry)
        (out : Lane S × Result (MergeError E) (Option LogRecord))
        → get_elem? m.lanes i ≡ some lane
        → IsFresh i es
        → Follows m es
        → IsNext rs out
        → IsRefill m i (put i rs es) (refilled io fuel m i out)
    refilled_lem m i lane [] es out g f w n = (
      record m { lanes = set_lane i n.0 m.lanes },
      ap (refilled io fuel m i) n.1,
      (w.0, set_lane-Tracks i n.0 m.lanes es f w.1),
      refl,
      length-set i n.0 m.lanes,
      λ j h. get-other i j n.0 m.lanes h,
    )
    refilled_lem m i lane (r ∷ rs) es out g f w n =
        let e : Entry = record { head = (r, i); tail = rs } in
        (
          record m { lanes = set_lane i n.0 m.lanes; heap = insert_by head_le (r, i) m.heap },
          ap (refilled io fuel m i) n.1,
          (
            ap (insert_by head_le (r, i)) w.0 ∙ sym (map-insert e es),
            insert_by-Tracks (set_lane i n.0 m.lanes) e es (n.0, get-set i n.0 lane m.lanes g, n.2)
                (set_lane-Tracks i n.0 m.lanes es f w.1),
          ),
          refl,
          length-set i n.0 m.lanes,
          λ j h. get-other i j n.0 m.lanes h,
        )

    pub refill_lem :
        (m : KWayMerge S) (i : ℕ) (rs : List LogRecord) (es : List Entry)
        → LaneHolds m.lanes i rs
        → IsFresh i es
        → Follows m es
        → IsRefill m i (put i rs es) (refill io fuel m i)
    unfolding refill
    refill_lem m i rs es (lane, g, (left, y, l, same)) f w =
        let next =
          subst (λ z. IsNext z (refill_from io fuel fuel lane.source lane.batch)) same
            (refill_from_lem fuel lane.source lane.batch left y l (omega arith)) in
        subst (IsRefill m i (put i rs es)) (ap (refill_lane io fuel m i) (sym g))
          (refilled_lem m i lane rs es (refill_from io fuel fuel lane.source lane.batch) g f w next)

-- ===== src/Merge/Complete.antt =====
-- What the k-way merge of crates/s4logs-cli/src/scan.rs gives, over sources that do not fail.
use s4_logs.Prelude.{
  ℕ, zero, suc, ◌+◌, ◌<◌, Bool, true, Option, none, some, List, [], ◌∷◌, ◌≡◌, refl, sym, ap, subst,
  ◌∙◌, All, length, get_elem?, map, arith, if◌then◌else◌,
}
use s4_logs.Prelude.Order.{IsSorted}
use s4_logs.Prelude.Result.{Result, ok}
use s4_logs.Record.{LogRecord}
use s4_logs.Buffer.Bags.{SameRecords}
use s4_logs.Merge.{
  concat, BatchSource, Head, MergeError, KWayMerge, new_merge, lane_of, rec_le, head_le, prime_from,
  prime, pop_head, popped, pop_primed, next_indexed, collect, and_collect, and_prime, Collected,
}
use s4_logs.Merge.Drained.{
  drained_below, Entry, put, put_all, drained, drained-IsSorted, of_source, IsFresh, IsDistinct,
  put-IsDistinct,
}
use s4_logs.Merge.Given.{
  put_all_below, size, weight-drained, weight-put_all, size_put_all, total, of_source-drained,
  AreBelow, AreBelow-IsFresh, put_below, content-put_all, put_all-IsDistinct, put_all-IsChain,
  put_all-IsSorted, size_put,
}
use s4_logs.Merge.Refilled.{Yields, LaneHolds, Follows, refill_lem}

module _ {S E : Type 0} (io : BatchSource S E) (fuel : ℕ) where
  abbrev IsPrimed : List Entry → KWayMerge S × Result (MergeError E) Unit → Type 0
  IsPrimed es out =
      (m : KWayMerge S) × (out ≡ (m, ok tt)) × Follows io fuel m es × (m.primed ≡ true)

  prime_from_lem :
      (k i : ℕ) (m : KWayMerge S) (rss : List (List LogRecord)) (es : List Entry)
      → length rss ≡ k
      → m.primed ≡ true
      → Follows io fuel m es
      → AreBelow i es
      → ((j : ℕ) (rs : List LogRecord)
          → get_elem? rss j ≡ some rs
          → LaneHolds io fuel m.lanes (i + j) rs)
      → IsPrimed (put_all i rss es) (prime_from io fuel k i m)
  unfolding prime_from
  prime_from_lem zero i m [] es l p w b h = (m, refl, w, p)
  prime_from_lem zero i m (rs ∷ rss) es l p w b h = absurd (omega arith)
  prime_from_lem (suc k) i m [] es l p w b h = absurd (omega arith)
  prime_from_lem (suc k) i m (rs ∷ rss) es l p w b h =
      let (m', e, w', p', n, kept) =
        refill_lem io fuel m i rs es
          (subst (λ (z : ℕ). LaneHolds io fuel m.lanes z rs) (omega arith) (h 0 rs refl))
          (AreBelow-IsFresh i es b) w in
      subst (IsPrimed (put_all (i + 1) rss (put i rs es)))
        (ap (and_prime io fuel (prime_from io fuel k (i + 1))) (sym e))
        (prime_from_lem k (i + 1) m' rss (put i rs es) (omega arith) (p' ∙ p) w'
          (put_below i rs es b)
          (λ j rs' g.
            let (lane, found, held) = h (suc j) rs' g in
            let at : i + suc j ≡ i + 1 + j = omega arith in
            (
              lane,
              kept (i + 1 + j) (omega arith)
                  ∙ subst (λ z. get_elem? m.lanes z ≡ some lane) at found,
              held,
            )))

  abbrev IsCollected : List Entry → ℕ → Collected io fuel → Type 0
  IsCollected es n out = (m : KWayMerge S) × (out ≡ (m, drained n es, ok tt))

  next_primed :
      (m : KWayMerge S) → m.primed ≡ true → next_indexed io fuel m ≡ pop_head io fuel m m.heap
  unfolding next_indexed prime
  next_primed m p =
      ap
        (λ (b : Bool). pop_primed io fuel (
          if b
          then (m, ok tt)
          else prime_from io fuel (length m.lanes) 0 (record m { primed = true })))
        p

  next_none :
      (m : KWayMerge S) → m.primed ≡ true → m.heap ≡ [] → next_indexed io fuel m ≡ (m, ok none)
  unfolding pop_head
  next_none m p h = next_primed m p ∙ ap (pop_head io fuel m) h

  abbrev IsTaken : Entry → List Entry → KWayMerge S × Result (MergeError E) (Option Head) → Type 0
  IsTaken e es out =
      (m : KWayMerge S) × (out ≡ (m, ok (some e.head)))
      × Follows io fuel m (put e.head.1 e.tail es)
      × (m.primed ≡ true)

  -- Once the heap is primed, a round takes the least entry.
  next_some :
      (m : KWayMerge S) (e : Entry) (es : List Entry)
      → m.primed ≡ true
      → Follows io fuel m (e ∷ es)
      → IsFresh e.head.1 es
      → IsTaken e es (next_indexed io fuel m)
  unfolding pop_head
  next_some m e es p w f =
      let (m', q, w', p', _, _) =
        refill_lem io fuel (record m { heap = map (λ z. z.head) es }) e.head.1 e.tail es w.1.0 f
          (refl, w.1.1) in
      (
        m',
        next_primed m p ∙ (ap (pop_head io fuel m) w.0 ∙ ap (popped io fuel e.head) q),
        w',
        p' ∙ p,
      )

  collect_lem :
      (n : ℕ) (m : KWayMerge S) (es : List Entry)
      → m.primed ≡ true
      → Follows io fuel m es
      → IsDistinct es
      → size es < n
      → IsCollected es n (collect io fuel n m)
  unfolding collect
  collect_lem zero m es p w d h = absurd (omega arith)
  collect_lem (suc n) m [] p w d h =
      (m, ap (and_collect io fuel (collect io fuel n)) (next_none m p w.0))
  collect_lem (suc n) m (e ∷ es) p w d h =
      let (m', q, w', p') = next_some m e es p w d.0 in
      let (m'', r) =
        collect_lem n m' (put e.head.1 e.tail es) p' w' (put-IsDistinct e.head.1 e.tail es d.0 d.1)
          (omega (arith, size_put e.head.1 e.tail es)) in
      (
        m'',
        ap (and_collect io fuel (collect io fuel n)) q
            ∙ ap (λ (out : Collected io fuel). (out.0, e.head ∷ out.1, out.2)) r,
      )

  -- What the merge is given: its sources and the batches that each of them gives.
  abbrev pub Yield : List S → List (List (List LogRecord)) → Type 0
  Yield [] [] = Unit
  Yield [] (bs ∷ bss) = ⊥
  Yield (s ∷ ss) [] = ⊥
  Yield (s ∷ ss) (bs ∷ bss) = (Yields io s bs × (length bs < fuel)) × Yield ss bss

  lanes_hold :
      (ss : List S) (bss : List (List (List LogRecord)))
      → Yield ss bss
      → (j : ℕ) (rs : List LogRecord) → get_elem? (map concat bss) j ≡ some rs
      → LaneHolds io fuel (map (λ s. lane_of s []) ss) j rs
  lanes_hold [] [] y j rs h = cc
  lanes_hold [] (bs ∷ bss) y j rs h = absurd y
  lanes_hold (s ∷ ss) [] y j rs h = absurd y
  lanes_hold (s ∷ ss) (bs ∷ bss) y zero rs h =
      let same : concat bs ≡ rs = cc in (lane_of s [], refl, (bs, y.0.0, y.0.1, same))
  lanes_hold (s ∷ ss) (bs ∷ bss) y (suc j) rs h = lanes_hold ss bss y.1 j rs h

  length_lanes : (ss : List S) → length (map (λ s. lane_of s []) ss) ≡ length ss
  length_lanes [] = refl
  length_lanes (s ∷ ss) = ap suc (length_lanes ss)

  Yield-length :
      (ss : List S) (bss : List (List (List LogRecord)))
      → Yield ss bss
      → length (map concat bss) ≡ length (map (λ s. lane_of s []) ss)
  Yield-length [] [] y = refl
  Yield-length [] (bs ∷ bss) y = absurd y
  Yield-length (s ∷ ss) [] y = absurd y
  Yield-length (s ∷ ss) (bs ∷ bss) y = ap suc (Yield-length ss bss y.1)

  abbrev entries : List (List (List LogRecord)) → List Entry
  entries bss = put_all 0 (map concat bss) []

  -- The first call primes the heap, and goes on as a later one.
  collect_primed :
      (n : ℕ) (m m' : KWayMerge S)
      → prime io fuel m ≡ (m', ok tt)
      → m'.primed ≡ true
      → collect io fuel (suc n) m ≡ collect io fuel (suc n) m'
  unfolding collect next_indexed
  collect_primed n m m' e p =
      ap (and_collect io fuel (collect io fuel n))
        (ap (pop_primed io fuel) e ∙ sym (next_primed m' p))

  collect-new :
      (n : ℕ) (ss : List S) (bss : List (List (List LogRecord)))
      → Yield ss bss
      → total (map concat bss) < suc n
      → IsCollected (entries bss) (suc n) (collect io fuel (suc n) (new_merge ss))
  unfolding new_merge prime
  collect-new n ss bss y h =
      let (m, e, w, p) =
        prime_from_lem (length (map (λ s. lane_of s []) ss)) 0
          (record (new_merge ss) { primed = true }) (map concat bss) [] (Yield-length ss bss y) refl
          (refl, tt) tt
          (λ j rs g.
            subst (λ (z : ℕ). LaneHolds io fuel (map (λ s. lane_of s []) ss) z rs) (omega arith)
              (lanes_hold ss bss y j rs g)) in
      let (m', q) =
        collect_lem (suc n) m (entries bss) p w (put_all-IsDistinct 0 (map concat bss) [] tt tt)
          (omega (arith, size_put_all 0 (map concat bss) [])) in
      (m', collect_primed n (new_merge ss) m e p ∙ q)

  -- Over sources that yield sorted batches and do not fail, the merge ends without an error and
  -- gives heads in ascending order of timestamp, stream and source, whose records of each source
  -- are those that it yields, in order, and weigh as much as all records together under every
  -- weighing, and whose sources are among those given; the fuel is beyond each source's number of
  -- batches, and the rounds beyond the number of records.
  pub merge_complete :
      (n : ℕ) (ss : List S) (bss : List (List (List LogRecord)))
      → Yield ss bss
      → All (IsSorted rec_le) (map concat bss)
      → total (map concat bss) < n
      → (m : KWayMerge S) × (hs : List Head) × (collect io fuel n (new_merge ss) ≡ (m, hs, ok tt))
        × IsSorted head_le hs
        × SameRecords (map (λ h. h.0) hs) (concat (map concat bss))
        × All (λ h. h.1 < length ss) hs
        × ((i : ℕ) (rs : List LogRecord)
            → get_elem? (map concat bss) i ≡ some rs
            → of_source i hs ≡ rs)
  merge_complete zero ss bss y s h = absurd (omega arith)
  merge_complete (suc n) ss bss y s h =
      let (m, e) = collect-new n ss bss y h in
      let rss = map concat bss in
      (
        m,
        drained (suc n) (entries bss),
        e,
        drained-IsSorted (suc n) (entries bss) (put_all-IsSorted 0 rss [] tt)
            (put_all-IsChain 0 rss [] s tt),
        λ f.
            weight-drained f (suc n) (entries bss) (omega (arith, size_put_all 0 rss []))
            ∙ omega (arith, weight-put_all f 0 rss []),
        drained_below (length ss) (suc n) (entries bss) (
            put_all_below (length ss) 0 rss []
              (omega (arith, Yield-length ss bss y, length_lanes ss)) tt),
        λ i rs g.
            of_source-drained (suc n) i (entries bss) (omega (arith, size_put_all 0 rss []))
              (put_all-IsDistinct 0 rss [] tt tt)
            ∙ content-put_all 0 i i rss rs [] (omega arith) tt g,
      )

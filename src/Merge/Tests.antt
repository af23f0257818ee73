-- ===== src/Merge/Tests.antt =====
-- Two sources in memory, one of which gives an empty batch.
use s4_logs.Prelude.{
  length, ℕ, ◌<◌, Option, none, some, List, [], ◌∷◌, ◌≡◌, refl, map, All, get_elem?, arith,
}
use s4_logs.Prelude.Int.{pos}
use s4_logs.Prelude.Order.{IsSorted}
use s4_logs.Prelude.Result.{Result, ok}
use s4_logs.Record.{LogRecord}
use s4_logs.Crates.Sample.{at_time}
use s4_logs.Buffer.Bags.{SameRecords}
use s4_logs.Merge.{BatchSource, Head, KWayMerge, new_merge, rec_le, head_le, concat, collect}
use s4_logs.Merge.Drained.{of_source}
use s4_logs.Merge.Given.{total}
use s4_logs.Merge.Complete.{Yield, merge_complete}

abbrev Batches : Type 0
Batches = List (List LogRecord)

abbrev pop_batch : Batches → Batches × Result ℕ (Option (List LogRecord))
pop_batch [] = ([], ok none)
pop_batch (b ∷ bs) = (bs, ok (some b))

abbrev in_memory : BatchSource Batches ℕ
in_memory = record { next_batch = pop_batch }

abbrev sources : List Batches
sources =
    ((at_time (pos 1) ∷ at_time (pos 4) ∷ []) ∷ [] ∷ (at_time (pos 5) ∷ []) ∷ [])
    ∷ ((at_time (pos 2) ∷ []) ∷ [])
    ∷ []

sources-Yield : Yield in_memory 9 sources sources
sources-Yield = (
  (
    (
      [] ∷ (at_time (pos 5) ∷ []) ∷ [],
      refl,
      ((at_time (pos 5) ∷ []) ∷ [], refl, ([], refl, ([], refl))),
    ),
    omega arith,
  ),
  ((([], refl, ([], refl)), omega arith), tt),
)

sources-IsSorted : All (IsSorted rec_le) (map concat sources)
unfolding rec_le
sources-IsSorted = (((refl, (refl, tt)), ((refl, tt), (tt, tt))), ((tt, tt), tt))

sources_few : total (map concat sources) < 9
sources_few = omega arith

merge_complete_example :
    (m : KWayMerge Batches) × (hs : List Head) × (collect in_memory 9 9 (new_merge sources)
      ≡ (m, hs, ok tt))
    × IsSorted head_le hs
    × SameRecords (map (λ h. h.0) hs) (concat (map concat sources))
    × All (λ h. h.1 < length sources) hs
    × ((i : ℕ) (rs : List LogRecord)
        → get_elem? (map concat sources) i ≡ some rs
        → of_source i hs ≡ rs)
merge_complete_example =
    merge_complete in_memory 9 9 sources sources sources-Yield sources-IsSorted sources_few

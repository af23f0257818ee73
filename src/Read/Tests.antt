-- ===== src/Read/Tests.antt =====
-- Three spans, of which the first two lie close together.
use s4_logs.Prelude.{◌≡◌, refl, All, Any, List, [], ◌∷◌, arith}
use s4_logs.Read.{FrameSpan, Fetch, extend, coalesce_spans}
use s4_logs.Read.Coalesced.{IsOrdered, IsInside, sum_sizes, sum_totals, coalesce_covers}
use s4_logs.Chunk.{add_u64}

abbrev spans : List FrameSpan
spans =
    record { frame_idx = 0; byte_start = 10; byte_end_exclusive = 20; original_size = 100 }
    ∷ record { frame_idx = 2; byte_start = 25; byte_end_exclusive = 40; original_size = 200 }
    ∷ record { frame_idx = 7; byte_start = 90; byte_end_exclusive = 95; original_size = 50 }
    ∷ []

abbrev fetches : List Fetch
fetches =
    record { start = 10; end = 40; total = 300 } ∷ record { start = 90; end = 95; total = 50 } ∷ []

coalesce_spans-gap : coalesce_spans spans 5 ≡ fetches
unfolding coalesce_spans extend add_u64
coalesce_spans-gap = refl

spans-IsOrdered : IsOrdered 0 spans
spans-IsOrdered = ground arith

coalesce_covers_example :
    All (λ s. Any (IsInside s) (coalesce_spans spans 5)) spans
    × (sum_totals (coalesce_spans spans 5) ≡ sum_sizes spans)
coalesce_covers_example = coalesce_covers 5 spans spans-IsOrdered (omega arith)

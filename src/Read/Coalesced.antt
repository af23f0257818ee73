-- ===== src/Read/Coalesced.antt =====
-- What the merged byte ranges cover, and the sizes that they claim.
use s4_logs.Prelude.{
  ℕ, ◌+◌, ◌-◌, ◌^◌, ◌≤◌, ◌<◌, ◌≡◌, Bool, subst, sym, ap, inl, inr, refl, List, [], ◌∷◌, All,
  All-map, Any, arith, leb, if◌then◌else◌, Bool-cases,
}
use s4_logs.Chunk.{add_u64}
use s4_logs.Read.{FrameSpan, Fetch, fetch_of, extend, coalesce_spans}

-- The spans follow each other from an offset on.
abbrev pub IsOrdered : ℕ → List FrameSpan → Type 0
IsOrdered e [] = Unit {0}
IsOrdered e (s ∷ ss) =
    (e ≤ s.byte_start) × (s.byte_start ≤ s.byte_end_exclusive) × IsOrdered s.byte_end_exclusive ss

abbrev pub IsInside : FrameSpan → Fetch → Type 0
IsInside s f = (f.start ≤ s.byte_start) × (s.byte_end_exclusive ≤ f.end)

abbrev pub sum_sizes : List FrameSpan → ℕ
sum_sizes [] = 0
sum_sizes (s ∷ ss) = s.original_size + sum_sizes ss

abbrev pub sum_totals : List Fetch → ℕ
sum_totals [] = 0
sum_totals (f ∷ fs) = f.total + sum_totals fs

Any-map : (P Q : Fetch → Type 0) (fs : List Fetch) → ((f : Fetch) → P f → Q f) → Any P fs → Any Q fs
Any-map P Q [] g h = absurd h
Any-map P Q (f ∷ fs) g (inl p) = inl (g f p)
Any-map P Q (f ∷ fs) g (inr p) = inr (Any-map P Q fs g p)

-- A range that starts where this one does and reaches at least as far.
abbrev Grows : Fetch → Fetch → Type 0
Grows last f = (f.start ≡ last.start) × (last.end ≤ f.end)

abbrev IsCovered : List Fetch → FrameSpan → Type 0
IsCovered fs s = Any (IsInside s) fs

module _ (gap : ℕ) where
  extend_lem :
      (last : Fetch) (ss : List FrameSpan)
      → last.start ≤ last.end
      → IsOrdered last.end ss
      → Any (Grows last) (extend gap last ss) × All (IsCovered (extend gap last ss)) ss
  unfolding extend
  extend_lem last [] h order = (inl (refl, omega arith), tt)
  extend_lem last (s ∷ ss) h order =
      let (from, wide, rest) = order in
      let merged : Fetch = record last {
        end = s.byte_end_exclusive;
        total = add_u64 last.total s.original_size;
      } in
      let Holds : List Fetch → Type 0 =
        λ fs. Any (Grows last) fs × (Any (IsInside s) fs × All (IsCovered fs) ss) in
      elim (Bool-cases (leb (s.byte_start - last.end) gap)) [
        | inl near ↦
            let (grows, covered) = extend_lem merged ss (omega arith) rest in
            subst Holds
              (sym (
                ap
                  (λ (d : Bool).
                    if d then extend gap merged ss else last ∷ extend gap (fetch_of s) ss)
                  near))
              (
                Any-map (Grows merged) (Grows last) (extend gap merged ss)
                    (λ f g. (g.0, omega (arith, g.1))) grows,
                (
                  Any-map (Grows merged) (IsInside s) (extend gap merged ss)
                      (λ f g. (omega (arith, g.0), g.1)) grows,
                  covered,
                ),
              )
        | inr far ↦
            let (grows, covered) = extend_lem (fetch_of s) ss wide rest in
            subst Holds
              (sym (
                ap
                  (λ (d : Bool).
                    if d then extend gap merged ss else last ∷ extend gap (fetch_of s) ss)
                  far))
              (
                inl (refl, omega arith),
                (
                  inr (
                      Any-map (Grows (fetch_of s)) (IsInside s) (extend gap (fetch_of s) ss)
                        (λ f g. (omega (arith, g.0), g.1)) grows),
                  All-map (IsCovered (extend gap (fetch_of s) ss))
                      (IsCovered (last ∷ extend gap (fetch_of s) ss)) ss (λ x c. inr c) covered,
                ),
              )
      ]

  extend_sum :
      (last : Fetch) (ss : List FrameSpan)
      → last.total + sum_sizes ss < 2 ^ 64
      → sum_totals (extend gap last ss) ≡ last.total + sum_sizes ss
  unfolding extend add_u64
  extend_sum last [] h = omega arith
  extend_sum last (s ∷ ss) h =
      let merged : Fetch = record last {
        end = s.byte_end_exclusive;
        total = add_u64 last.total s.original_size;
      } in
      let near_sum = extend_sum merged ss (omega arith) in
      let far_sum = extend_sum (fetch_of s) ss (omega arith) in
      elim (Bool-cases (leb (s.byte_start - last.end) gap)) [
        | inl near ↦ rw near (omega (arith, near_sum))
        | inr far ↦ rw far (omega (arith, far_sum))
      ]

  -- For spans in object order whose sizes sum to less than 2^64, each lies inside one of the
  -- merged byte ranges, and the ranges' sizes have the same sum.
  pub coalesce_covers :
      (ss : List FrameSpan)
      → IsOrdered 0 ss
      → sum_sizes ss < 2 ^ 64
      → All (λ s. Any (IsInside s) (coalesce_spans ss gap)) ss
        × (sum_totals (coalesce_spans ss gap) ≡ sum_sizes ss)
  unfolding coalesce_spans
  coalesce_covers [] order h = (tt, refl)
  coalesce_covers (s ∷ ss) order h =
      let (from, wide, rest) = order in
      let (grows, covered) = extend_lem (fetch_of s) ss wide rest in
      (
        (
          Any-map (Grows (fetch_of s)) (IsInside s) (extend gap (fetch_of s) ss)
              (λ f g. (omega (arith, g.0), g.1)) grows,
          covered,
        ),
        extend_sum (fetch_of s) ss h,
      )

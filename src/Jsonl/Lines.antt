-- ===== src/Jsonl/Lines.antt =====
-- `RecordLines` reads each line that is not empty, and reads back what `append_jsonl` wrote.
use s4_logs.Prelude.{
  ℕ, zero, suc, ◌+◌, ◌≤◌, ◌<◌, ◌≡◌, ◌≢◌, refl, ap, ◌∙◌, true, none, some, List, [], ◌∷◌, ◌++◌,
  append_assoc, All, length, map, arith, inl, inr, ◌⊎◌, List-cases, Bool-cases, ◌==◌,
}
use s4_logs.Prelude.Text.{Bytes, IsFree, split, split-append}
use s4_logs.Prelude.Result.{ok}
use s4_logs.Record.{LogRecord}
use s4_logs.Crates.{Crates, IsLawful}
use s4_logs.Jsonl.{newline, jsonl, from_jsonl, cut_line, next, collect, record_lines}

abbrev pub keep : Bytes → List Bytes → List Bytes
keep [] parts = parts
keep (b ∷ bs) parts = (b ∷ bs) ∷ parts

-- The parts that are not empty.
abbrev pub filled : List Bytes → List Bytes
filled [] = []
filled (p ∷ ps) = keep p (filled ps)

module _ (c : Crates) where
  abbrev parts : Bytes → List Bytes
  parts s = filled (split newline s)

  split-cut :
      (s : Bytes)
      → (others : List Bytes) × (split newline s ≡ (cut_line c s).0 ∷ others)
        × (filled others ≡ parts (cut_line c s).1)
  unfolding cut_line split
  split-cut [] = ([], refl, refl)
  split-cut (b ∷ bs) =
      let (others, e, f) = split-cut bs in
      elim (Bool-cases (b == newline)) [
        | inl end ↦ (split newline bs, rw end refl, rw end refl)
        | inr more ↦ (others, rw more (rw e refl), rw more f)
      ]

  cut_shorter : (b : ℕ) (bs : Bytes) → length (cut_line c (b ∷ bs)).1 ≤ length bs
  unfolding cut_line
  cut_shorter b [] = ground arith
  cut_shorter b (d ∷ bs) = ground (arith, cut_shorter d bs)

  parts-cut : (s : Bytes) → parts s ≡ keep (cut_line c s).0 (parts (cut_line c s).1)
  parts-cut s = let (others, e, f) = split-cut s in rw e (ap (keep (cut_line c s).0) f)

  -- `next` gives the first part that is not empty, and stops before the others.
  next_lem :
      (fuel : ℕ) (s : Bytes)
      → length s < fuel
      → ((parts s ≡ []) × (next c fuel s ≡ none))
        ⊎ ((line rest : Bytes) × (parts s ≡ line ∷ parts rest)
            × (next c fuel s ≡ some (from_jsonl c line, rest))
            × (length rest < length s))
  unfolding next
  next_lem zero s h = absurd (omega arith)
  next_lem (suc fuel) [] h = inl (unfold split in refl, refl)
  next_lem (suc fuel) (b ∷ bs) h =
      let s : Bytes = b ∷ bs in
      let rest : Bytes = (cut_line c s).1 in
      elim (List-cases (cut_line c s).0) [
        | inl blank ↦
            let skip : parts s ≡ parts rest =
              parts-cut s ∙ ap (λ line. keep line (parts rest)) blank in
            let goes : next c (suc fuel) s ≡ next c fuel rest = rw (blank, next) refl in
            elim (next_lem fuel rest (omega (arith, cut_shorter b bs))) [
              | inl (e, stop) ↦ inl (skip ∙ e, goes ∙ stop)
              | inr (line, rest', e, found, shorter) ↦
                  inr
                    (line, rest', skip ∙ e, goes ∙ found, omega (arith, shorter, cut_shorter b bs))
            ]
        | inr (l, ls, line) ↦ inr (
          l ∷ ls,
          rest,
          parts-cut s ∙ ap (λ t. keep t (parts rest)) line,
          rw (line, next) refl,
          omega (arith, cut_shorter b bs),
        )
      ]

  collect_lem :
      (fuel : ℕ) (s : Bytes) → length s ≤ fuel → collect c fuel s ≡ map (from_jsonl c) (parts s)
  unfolding collect
  collect_lem zero [] h = unfold split in refl
  collect_lem zero (b ∷ bs) h = absurd (omega arith)
  collect_lem (suc fuel) s h = elim (next_lem (length s + 1) s (omega arith)) [
    | inl (e, stop) ↦ rw (stop, e, collect) refl
    | inr (line, rest, e, found, shorter) ↦
        rw (found, e, collect)
          (ap (λ t. from_jsonl c line ∷ t) (collect_lem fuel rest (omega (arith, shorter))))
  ]

  -- On any bytes the iterator yields, in order, the parse results of the newline-separated parts
  -- that are not empty.
  pub record_lines-split :
      (s : Bytes) → record_lines c s ≡ map (from_jsonl c) (filled (split newline s))
  unfolding record_lines
  record_lines-split s = collect_lem (length s) s (omega arith)

  parts-line :
      (line rest : Bytes)
      → IsFree newline line
      → line ≢ []
      → parts (line ++ newline ∷ rest) ≡ line ∷ parts rest
  parts-line [] rest free some_line = absurd (some_line refl)
  parts-line (b ∷ bs) rest free some_line = rw (split-append newline (b ∷ bs) rest free) refl

  parts-jsonl :
      (rs : List LogRecord) → IsLawful c → parts (jsonl c rs) ≡ map (λ r. (c.to_writer r).0) rs
  parts-jsonl [] law = unfold split in refl
  parts-jsonl (r ∷ rs) law =
      ap parts (append_assoc (c.to_writer r).0 (newline ∷ []) (jsonl c rs))
      ∙ (parts-line (c.to_writer r).0 (jsonl c rs) (law.line_free r) (law.line_some r)
          ∙ ap (λ t. (c.to_writer r).0 ∷ t) (parts-jsonl rs law))

  parsed :
      (rs : List LogRecord)
      → IsLawful c
      → All (λ r. (c.to_writer r).1 ≡ true) rs
      → map (from_jsonl c) (map (λ r. (c.to_writer r).0) rs) ≡ map ok rs
  unfolding from_jsonl
  parsed [] law lines = refl
  parsed (r ∷ rs) law lines =
      rw (law.line_parses r lines.0, from_jsonl) (ap (λ t. ok r ∷ t) (parsed rs law lines.1))

  -- The lines of records that can all be serialized are read back into those records, in order and
  -- without an error, given lawful crates.
  pub record_lines-jsonl :
      (rs : List LogRecord)
      → IsLawful c
      → All (λ r. (c.to_writer r).1 ≡ true) rs
      → record_lines c (jsonl c rs) ≡ map ok rs
  record_lines-jsonl rs law lines =
      record_lines-split (jsonl c rs)
      ∙ (ap (map (from_jsonl c)) (parts-jsonl rs law) ∙ parsed rs law lines)

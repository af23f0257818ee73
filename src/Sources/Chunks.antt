-- ===== src/Sources/Chunks.antt =====
-- The units of crates/s4logs-cli/src/scan.rs for a chunk that was written, with its sidecars.
use s4_logs.Prelude.{
  ℕ, zero, suc, ◌+◌, ◌^◌, ◌≤◌, ◌<◌, Bool, Option, none, some, List, [], ◌∷◌, ◌++◌, ◌≡◌, refl, sym,
  ap, subst, ◌∙◌, All, All-append_left, All-append_right, append_assoc, length, length-append, map,
  get_elem?, filter, filter-append, filter_none, Bool-cases, inl, inr, arith,
}
use s4_logs.Prelude.Int.{ℤ, ◌≤ℤ◌}
use s4_logs.Prelude.I64.{i64_min, i64_max}
use s4_logs.Prelude.Text.{Bytes}
use s4_logs.Prelude.Result.{ok}
use s4_logs.Record.{LogRecord}
use s4_logs.Crates.{Crates, IsLawful, FrameIndexEntry}
use s4_logs.Chunk.Frames.{
  Frame, earliest, latest, range, all_recs, body_of, tile, IsFrame, earliest-All, latest-All,
}
use s4_logs.Read.{TimeRange, FrameSpan, overlaps, span_of, select, max_decompressed_bytes}
use s4_logs.Scan.{record_matches}
use s4_logs.Scan.Frames.{hits, pruned, fetch_frame, slice, IsWritten, IsObject}
use s4_logs.Cluster.{Timed}
use s4_logs.Sources.{Reader, with_ts, and_timed, timed}
use s4_logs.Sources.Batches.{gather, IsIn, IsGood}

get_elem?-map :
    {A B : Type 0} (f : A → B) (xs : List A) (i : ℕ) (x : A)
    → get_elem? xs i ≡ some x
    → get_elem? (map f xs) i ≡ some (f x)
get_elem?-map f [] i x h = cc
get_elem?-map f (y ∷ ys) zero x h = let same : y ≡ x = cc in ap (λ z. some (f z)) same
get_elem?-map f (y ∷ ys) (suc i) x h = get_elem?-map f ys i x h

All-filter :
    {A : Type 0} (P : A → Type 0) (p : A → Bool) (xs : List A) → All P xs → All P (filter p xs)
All-filter P p [] h = tt
All-filter P p (x ∷ xs) h = elim (Bool-cases (p x)) [
  | inl e ↦ rw (e) (h.0, All-filter P p xs h.1)
  | inr e ↦ rw (e) (All-filter P p xs h.1)
]

All-zip :
    {A : Type 0} (P Q : A → Type 0) (xs : List A) → All P xs → All Q xs → All (λ x. P x × Q x) xs
All-zip P Q [] p q = tt
All-zip P Q (x ∷ xs) p q = ((p.0, q.0), All-zip P Q xs p.1 q.1)

module _ (c : Crates) (law : IsLawful c) (rd : Reader) (t : TimeRange)
    (pattern : Option (Bytes → Bool)) (key body : Bytes) (whole : List Frame) where
  abbrev matches_in : Option Frame → List LogRecord
  matches_in none = []
  matches_in (some f) = hits t pattern f.recs

  -- What matches in the frame of a span.
  abbrev pub frame_hits : FrameSpan → List LogRecord
  frame_hits span = matches_in (get_elem? whole span.frame_idx)

  abbrev pub AreTimed : ℕ → ℕ → ℕ → List Frame → Type 0
  AreTimed i o p fs =
      (ts : List Timed) × (with_ts (map range whole) (select c t i (tile o p fs) (map range fs))
        ≡ ok ts)
      × All (IsGood c rd t pattern key frame_hits) ts
      × (gather frame_hits ts ≡ hits t pattern (all_recs fs))

  abbrev tile_entry : Frame → ℕ → ℕ → FrameIndexEntry
  tile_entry f o p = record {
    original_offset = o;
    original_size = length f.plain;
    compressed_offset = p;
    compressed_size = length f.packed;
  }

  module _ (level : ℤ) where
    -- One frame that lies in the object: what matches in it is fetched, and lies in its times.
    frame-IsGood :
        (f : Frame) (fs : List Frame) (i o : ℕ) (before : Bytes)
        → IsObject body (rd.get_range key)
        → length body < 2 ^ 64
        → body ≡ before ++ body_of (f ∷ fs)
        → IsFrame c level f
        → All (IsWritten c) f.recs
        → length f.plain ≤ max_decompressed_bytes
        → get_elem? whole i ≡ some f
        → IsGood c rd t pattern key frame_hits
            (timed (range f) (span_of c i (tile_entry f o (length before))))
    frame-IsGood f fs i o before reads fits e h lines small found =
        let size : length body ≡ length before + (length f.packed + length (body_of fs)) =
          ap (λ (z : Bytes). length z) e
          ∙ (length-append before (body_of (f ∷ fs))
              ∙ ap (λ n. length before + n) (length-append f.packed (body_of fs))) in
        let here : hits t pattern f.recs ≡ matches_in (get_elem? whole i) =
          ap matches_in (sym found) in
        (
          λ b.
              let (b', got, more) =
                fetch_frame c law t pattern body (rd.get_range key) level f b i o (length before) h
                  lines small (omega (arith, size))
                  (slice c law t pattern body (rd.get_range key) before f fs reads e) in
              (b', got, more.0 ∙ ap (λ z. b.recs ++ z) here),
          subst (All (IsIn (timed (range f) (span_of c i (tile_entry f o (length before)))))) here (
              All-filter _ (λ r. record_matches r t pattern) f.recs
                (All-zip (λ r. earliest i64_max f.recs ≤ℤ r.timestamp)
                  (λ r. r.timestamp ≤ℤ latest i64_min f.recs) f.recs (earliest-All i64_max f.recs)
                  (latest-All i64_min f.recs))),
        )

    pub timed_frames :
        (fs : List Frame) (i o : ℕ) (before : Bytes)
        → IsObject body (rd.get_range key)
        → length body < 2 ^ 64
        → body ≡ before ++ body_of fs
        → All (IsFrame c level) fs
        → All (IsWritten c) (all_recs fs)
        → All (λ f. length f.plain ≤ max_decompressed_bytes) fs
        → ((j : ℕ) (f : Frame) → get_elem? fs j ≡ some f → get_elem? whole (i + j) ≡ some f)
        → AreTimed i o (length before) fs
    unfolding with_ts select
    timed_frames [] i o before reads fits e h lines small at = ([], refl, tt, refl)
    timed_frames (f ∷ fs) i o before reads fits e h lines small at =
        let p : ℕ = length before in
        let rest =
          select c t (suc i) (tile (o + length f.plain) (p + length f.packed) fs) (map range fs) in
        let here = All-append_left (IsWritten c) f.recs (all_recs fs) lines in
        let joined : hits t pattern (f.recs ++ all_recs fs)
            ≡ hits t pattern f.recs ++ hits t pattern (all_recs fs) =
          filter-append (λ r. record_matches r t pattern) f.recs (all_recs fs) in
        let zero_at : i + 0 ≡ i = omega arith in
        let found : get_elem? whole i ≡ some f =
          subst (λ (z : ℕ). get_elem? whole z ≡ some f) zero_at (at 0 f refl) in
        let (ts, made, good, same) : AreTimed (suc i) (o + length f.plain) (p + length f.packed)
            fs =
          subst (λ (z : ℕ). AreTimed (suc i) (o + length f.plain) z fs)
            (length-append before f.packed)
            (timed_frames fs (suc i) (o + length f.plain) (before ++ f.packed) reads fits
              (e ∙ sym (append_assoc before f.packed (body_of fs))) h.1
              (All-append_right (IsWritten c) f.recs (all_recs fs) lines) small.1
              (λ j f' g.
                let shift : i + suc j ≡ suc i + j = omega arith in
                subst (λ (z : ℕ). get_elem? whole z ≡ some f') shift (at (suc j) f' g))) in
        elim (Bool-cases (overlaps t (earliest i64_max f.recs) (latest i64_min f.recs))) [
          | inl hit ↦ (
            timed (range f) (span_of c i (tile_entry f o p)) ∷ ts,
            rw (hit) (
                ap
                  (λ z.
                    and_timed (span_of c i (tile_entry f o p)) z (with_ts (map range whole) rest))
                  (get_elem?-map range whole i f found)
                ∙ ap (and_timed (span_of c i (tile_entry f o p)) (some (range f))) made),
            (frame-IsGood f fs i o before reads fits e h.0 here small.0 found, good),
            ap (λ z. matches_in z ++ gather frame_hits ts) found
                ∙ (ap (λ z. hits t pattern f.recs ++ z) same ∙ sym joined),
          )
          | inr miss ↦
              let nothing : hits t pattern f.recs ≡ [] =
                filter_none (λ r. record_matches r t pattern) f.recs
                  (pruned t pattern (earliest i64_max f.recs) (latest i64_min f.recs) f.recs miss
                    (earliest-All i64_max f.recs) (latest-All i64_min f.recs)) in
              (
                ts,
                rw (miss) made,
                good,
                same ∙ sym (joined ∙ ap (λ z. z ++ hits t pattern (all_recs fs)) nothing),
              )
        ]

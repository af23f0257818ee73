-- ===== src/Stream/Complete.antt =====
-- A scan of crates/s4logs-cli/src/scan.rs over chunks that were written: each record that matches comes
-- out, in the order of time.
use s4_logs.Prelude.{
  ℕ, suc, ◌≤◌, ◌<◌, ◌≡◌, refl, sym, ap, ◌∙◌, Bool, Option, some, List, [], ◌∷◌, ◌++◌, All, length,
  map, get_elem?, arith, filter, filter-append,
}
use s4_logs.Prelude.Order.{IsSorted}
use s4_logs.Prelude.Text.{Bytes}
use s4_logs.Prelude.Result.{ok}
use s4_logs.Record.{LogRecord}
use s4_logs.Crates.{Crates, IsLawful}
use s4_logs.Layout.{ChunkLocation, data_key}
use s4_logs.Read.{TimeRange, FrameSpan}
use s4_logs.Scan.{record_matches}
use s4_logs.Scan.Frames.{hits}
use s4_logs.Buffer.Bags.{weight, weight-append, SameRecords, same_append}
use s4_logs.Cluster.{Timed, clusters, cluster_spans}
use s4_logs.Cluster.Apart.{clusters_apart, length-clusters}
use s4_logs.Merge.{new_merge, Head, KWayMerge, rec_le, head_le, concat, collect}
use s4_logs.Merge.Complete.{Yield, merge_complete}
use s4_logs.Merge.Drained.{of_source}
use s4_logs.Merge.Given.{total}
use s4_logs.Sources.{
  Reader, frames, ChunkSource, chunk_batches, chunk_sources, add_source, no_stats,
}
use s4_logs.Sources.Batches.{
  IsGood, gather, batch_of, source-Yields, batches-IsSorted, batches_same, clusters-IsGood,
}
use s4_logs.Stream.Units.{IsReadable, units_lem}

length-map : {A B : Type 0} (f : A → B) (xs : List A) → length (map f xs) ≡ length xs
length-map f [] = refl
length-map f (x ∷ xs) = ap suc (length-map f xs)

weight_one : (xs : List LogRecord) → weight (λ r. 1) xs ≡ length xs
weight_one [] = refl
weight_one (x ∷ xs) = omega (arith, weight_one xs)

total_weight : (rss : List (List LogRecord)) → total rss ≡ weight (λ r. 1) (concat rss)
total_weight [] = refl
total_weight (rs ∷ rss) =
    omega (arith, total_weight rss, weight_one rs, weight-append (λ r. 1) rs (concat rss))

length-filter : {A : Type 0} (p : A → Bool) (xs : List A) → length (filter p xs) ≤ length xs
length-filter p [] = omega arith
length-filter p (x ∷ xs) = ground (arith, length-filter p xs)

module _ (c : Crates) (law : IsLawful c) (rd : Reader) (t : TimeRange)
    (pattern : Option (Bytes → Bool)) (fuel : ℕ) where
  abbrev pub AreReadable : List ChunkLocation → List (List LogRecord) → Type 0
  AreReadable [] [] = Unit
  AreReadable [] (rs ∷ rss) = ⊥
  AreReadable (loc ∷ locs) [] = ⊥
  AreReadable (loc ∷ locs) (rs ∷ rss) = IsReadable c rd fuel loc rs × AreReadable locs rss

  abbrev pub Given : List ChunkSource → List (List LogRecord) → Type 0
  Given ss rss =
      (bss : List (List (List LogRecord))) × Yield (chunk_batches c rd t pattern) fuel ss bss
      × All (IsSorted rec_le) (map concat bss)
      × SameRecords (concat (map concat bss)) (hits t pattern (concat rss))

  pub hits_both :
      (xs : List LogRecord) (rs : List LogRecord) (rss : List (List LogRecord))
      (ys : List LogRecord)
      → SameRecords xs (hits t pattern rs)
      → SameRecords ys (hits t pattern (concat rss))
      → SameRecords (xs ++ ys) (hits t pattern (rs ++ concat rss))
  hits_both xs rs rss ys h k f =
      same_append xs (hits t pattern rs) ys (hits t pattern (concat rss)) h k f
      ∙ ap (weight f) (sym (filter-append (λ r. record_matches r t pattern) rs (concat rss)))

  add_by :
      (loc : ChunkLocation) (rs : List LogRecord) (ss : List ChunkSource)
      (rss : List (List LogRecord)) (cs : List (List Timed)) (g : FrameSpan → List LogRecord)
      → All (All (IsGood c rd t pattern (data_key loc rd.key_prefix) g)) cs
      → IsSorted rec_le (concat (map (batch_of c rd t pattern (data_key loc rd.key_prefix) g) cs))
      → SameRecords
          (concat (map (batch_of c rd t pattern (data_key loc rd.key_prefix) g) cs))
          (hits t pattern rs)
      → length cs < fuel
      → Given ss rss
      → Given
          (add_source c rd t pattern loc (map frames (map (map (λ z. z.span)) cs)) ss)
          (rs ∷ rss)
  add_by loc rs ss rss [] g good sorted same few (bss, y, others, all) =
      (bss, y, others, hits_both [] rs rss (concat (map concat bss)) same all)
  add_by loc rs ss rss (k ∷ cs) g good sorted same few (bss, y, others, all) =
      let key = data_key loc rd.key_prefix in
      let bs = map (batch_of c rd t pattern key g) (k ∷ cs) in
      (
        bs ∷ bss,
        (
          (
            source-Yields c rd t pattern key g (k ∷ cs) (no_stats c rd t pattern) good,
            omega (arith, length-map (batch_of c rd t pattern key g) (k ∷ cs)),
          ),
          y,
        ),
        (sorted, others),
        hits_both (concat bs) rs rss (concat (map concat bss)) same all,
      )

  -- A chunk's source gives what matches in it, in order; one without units has no match.
  add_lem :
      (loc : ChunkLocation) (rs : List LogRecord) (ss : List ChunkSource)
      (rss : List (List LogRecord)) (ts : List Timed) (g : FrameSpan → List LogRecord)
      → All (IsGood c rd t pattern (data_key loc rd.key_prefix) g) ts
      → gather g ts ≡ hits t pattern rs
      → length ts < fuel
      → Given ss rss
      → Given (add_source c rd t pattern loc (map frames (cluster_spans ts)) ss) (rs ∷ rss)
  unfolding cluster_spans
  add_lem loc rs ss rss ts g good same few given =
      let key = data_key loc rd.key_prefix in
      let better = clusters-IsGood c rd t pattern key g ts good in
      add_by loc rs ss rss (clusters ts) g better
        (batches-IsSorted c rd t pattern key g (clusters ts) better (clusters_apart ts).0)
        (λ f. batches_same c rd t pattern key g ts f ∙ ap (weight f) same)
        (omega (arith, length-clusters ts)) given

  pub sources_lem :
      (locs : List ChunkLocation) (rss : List (List LogRecord))
      → AreReadable locs rss
      → (ss : List ChunkSource) × (chunk_sources c rd t pattern locs ≡ ok ss) × Given ss rss
  unfolding chunk_sources
  sources_lem [] [] r = ([], refl, ([], tt, tt, λ f. refl))
  sources_lem [] (rs ∷ rss) r = absurd r
  sources_lem (loc ∷ locs) [] r = absurd r
  sources_lem (loc ∷ locs) (rs ∷ rss) r =
      let (ts, g, units, good, same, few) = units_lem c law rd t pattern fuel loc rs r.0 in
      let (ss, rest, given) = sources_lem locs rss r.1 in
      (
        add_source c rd t pattern loc (map frames (cluster_spans ts)) ss,
        rw (units, rest) refl,
        add_lem loc rs ss rss ts g good same few given,
      )

  -- The merge of such sources, to its end.
  abbrev pub IsMerged :
      ℕ → (ss : List ChunkSource) → (rss : List (List LogRecord)) → Given ss rss → Type 0
  IsMerged n ss rss given =
      (m : KWayMerge ChunkSource) × (hs : List Head) × (collect (chunk_batches c rd t pattern) fuel
          n (new_merge ss)
        ≡ (m, hs, ok tt))
      × IsSorted head_le hs
      × SameRecords (map (λ h. h.0) hs) (hits t pattern (concat rss))
      × All (λ h. h.1 < length ss) hs
      × ((i : ℕ) (rs : List LogRecord)
          → get_elem? (map concat given.0) i ≡ some rs
          → of_source i hs ≡ rs)

  pub Given-IsMerged :
      (n : ℕ) (ss : List ChunkSource) (rss : List (List LogRecord)) (given : Given ss rss)
      → length (concat rss) < n
      → IsMerged n ss rss given
  Given-IsMerged n ss rss (bss, y, sorted, all) h =
      let (m, hs, ran, ordered, same, below, held) =
        merge_complete (chunk_batches c rd t pattern) fuel n ss bss y sorted (
          omega (
            arith,
            total_weight (map concat bss),
            all (λ x. 1),
            weight_one (hits t pattern (concat rss)),
            length-filter (λ x. record_matches x t pattern) (concat rss),
          )) in
      (m, hs, ran, ordered, λ f. same f ∙ all f, below, held)

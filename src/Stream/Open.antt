-- ===== src/Stream/Open.antt =====
-- The sources of the groups that a scan of crates/s4logs-cli/src/scan.rs opens.
use s4_logs.Prelude.{
  ℕ, suc, ◌+◌, ◌<◌, ◌≡◌, refl, sym, ap, subst, ◌∙◌, Bool, Option, some, List, [], ◌∷◌, ◌++◌, All,
  All-map, All-append, append_assoc, length, length-append, map, get_elem?, arith,
}
use s4_logs.Prelude.Int.{ℤ}
use s4_logs.Prelude.Order.{IsSorted}
use s4_logs.Prelude.Text.{Bytes}
use s4_logs.Prelude.Result.{Result, ok}
use s4_logs.Record.{LogRecord}
use s4_logs.Crates.{Crates, IsLawful}
use s4_logs.Chunk.{add_u64}
use s4_logs.Layout.{ChunkLocation}
use s4_logs.Read.{TimeRange}
use s4_logs.Scan.Frames.{hits}
use s4_logs.Buffer.Bags.{SameRecords, weight, weight-append}
use s4_logs.Merge.{rec_le, concat}
use s4_logs.Merge.Complete.{Yield}
use s4_logs.Sources.{Reader, ScanError, ChunkSource, chunk_batches}
use s4_logs.Stream.{Opened, list_range_chunks, build_group_sources, open_groups}
use s4_logs.Stream.Complete.{AreReadable, sources_lem, hits_both}
use s4_logs.Stream.Parts.{in_named, in_group, grouped, grouped-append, grouped_one}

length-each : {A B : Type 0} (b : B) (xs : List A) → length (map (λ x. b) xs) ≡ length xs
length-each b [] = refl
length-each b (x ∷ xs) = ap suc (length-each b xs)

All-each : {A B : Type 0} (P : B → Type 0) (b : B) (xs : List A) → P b → All P (map (λ x. b) xs)
All-each P b [] h = tt
All-each P b (x ∷ xs) h = (h, All-each P b xs h)

concat-append : (xs ys : List (List LogRecord)) → concat (xs ++ ys) ≡ concat xs ++ concat ys
concat-append [] ys = refl
concat-append (x ∷ xs) ys =
    ap (λ z. x ++ z) (concat-append xs ys) ∙ sym (append_assoc x (concat xs) (concat ys))

map-concat :
    (xs ys : List (List (List LogRecord))) → map concat (xs ++ ys) ≡ map concat xs ++ map concat ys
map-concat [] ys = refl
map-concat (x ∷ xs) ys = ap (λ z. concat x ∷ z) (map-concat xs ys)

abbrev pub flat : List (List (List LogRecord)) → List (List LogRecord)
flat [] = []
flat (rss ∷ groups) = rss ++ flat groups

module _ (c : Crates) (law : IsLawful c) (rd : Reader) (date_from_ts_ms : ℤ → Bytes)
    (account : Bytes) (t : TimeRange) (pattern : Option (Bytes → Bool)) (fuel : ℕ) where
  -- The chunks that the listing of a group finds were written with these records, and can be read.
  abbrev pub IsListed : Bytes → List (List LogRecord) → Type 0
  IsListed name rss =
      (locs : List ChunkLocation) × (k : ℕ) × (list_range_chunks rd date_from_ts_ms account name t
        ≡ ok (locs, k))
      × AreReadable c law rd t pattern fuel locs rss

  abbrev pub AreListed : List Bytes → List (List (List LogRecord)) → Type 0
  AreListed [] [] = Unit
  AreListed [] (rss ∷ groups) = ⊥
  AreListed (name ∷ names) [] = ⊥
  AreListed (name ∷ names) (rss ∷ groups) = IsListed name rss × AreListed names groups

  Yield-append :
      (ss ss' : List ChunkSource) (bss bss' : List (List (List LogRecord)))
      → Yield (chunk_batches c rd t pattern) fuel ss bss
      → Yield (chunk_batches c rd t pattern) fuel ss' bss'
      → Yield (chunk_batches c rd t pattern) fuel (ss ++ ss') (bss ++ bss')
  Yield-append [] ss' [] bss' y y' = y'
  Yield-append [] ss' (bs ∷ bss) bss' y y' = absurd y
  Yield-append (s ∷ ss) ss' [] bss' y y' = absurd y
  Yield-append (s ∷ ss) ss' (bs ∷ bss) bss' y y' = (y.0, Yield-append ss ss' bss bss' y.1 y')

  pub Yield-length :
      (ss : List ChunkSource) (bss : List (List (List LogRecord)))
      → Yield (chunk_batches c rd t pattern) fuel ss bss
      → length ss ≡ length (map concat bss)
  Yield-length [] [] y = refl
  Yield-length [] (bs ∷ bss) y = absurd y
  Yield-length (s ∷ ss) [] y = absurd y
  Yield-length (s ∷ ss) (bs ∷ bss) y = ap suc (Yield-length ss bss y.1)

  -- The records of each group that match, with the group's name.
  abbrev pub tagged : List Bytes → List (List (List LogRecord)) → List (LogRecord × Bytes)
  tagged [] groups = []
  tagged (name ∷ names) [] = []
  tagged (name ∷ names) (rss ∷ groups) =
      map (λ r. (r, name)) (hits t pattern (concat rss)) ++ tagged names groups

  weight-tag :
      (f : LogRecord × Bytes → ℕ) (name : Bytes) (xs : List LogRecord)
      → weight f (map (λ r. (r, name)) xs) ≡ weight (λ r. f (r, name)) xs
  weight-tag f name [] = refl
  weight-tag f name (x ∷ xs) = omega (arith, weight-tag f name xs)

  -- `Given` by these batches.
  abbrev pub Gives :
      List ChunkSource → List (List LogRecord) → List (List (List LogRecord)) → Type 0
  Gives ss rss bss =
      Yield (chunk_batches c rd t pattern) fuel ss bss
      × All (IsSorted rec_le) (map concat bss)
      × SameRecords (concat (map concat bss)) (hits t pattern (concat rss))

  Gives-append :
      (ss ss' : List ChunkSource) (rss rss' : List (List LogRecord))
      (bss bss' : List (List (List LogRecord)))
      → Gives ss rss bss
      → Gives ss' rss' bss'
      → Gives (ss ++ ss') (rss ++ rss') (bss ++ bss')
  Gives-append ss ss' rss rss' bss bss' (y, sorted, all) (y', sorted', all') = (
    Yield-append ss ss' bss bss' y y',
    rw (map-concat bss bss')
        (All-append (IsSorted rec_le) (map concat bss) (map concat bss') sorted sorted'),
    rw
        (
          map-concat bss bss',
          concat-append (map concat bss) (map concat bss'),
          concat-append rss rss',
        )
        (hits_both c law rd t pattern fuel (concat (map concat bss)) (concat rss) rss'
          (concat (map concat bss')) all all'),
  )

  -- Every source's records in its group weigh as much as the groups' records.
  abbrev pub IsParted :
      ℕ → List Bytes → List (List (List LogRecord)) → List ℕ → List (List (List LogRecord)) → Type 0
  IsParted gi names groups gs bss =
      (f : LogRecord × Bytes → ℕ) (every : List Bytes)
      → ((j : ℕ) (name : Bytes)
          → get_elem? names j ≡ some name
          → get_elem? every (gi + j) ≡ some name)
      → grouped f every gs (map concat bss) ≡ weight f (tagged names groups)

  IsParted-step :
      (gi : ℕ) (name : Bytes) (names : List Bytes) (rss : List (List LogRecord))
      (groups : List (List (List LogRecord))) (ss : List ChunkSource) (gs : List ℕ)
      (bss bss' : List (List (List LogRecord)))
      → Gives ss rss bss
      → IsParted (gi + 1) names groups gs bss'
      → IsParted gi (name ∷ names) (rss ∷ groups) (map (λ s. gi) ss ++ gs) (bss ++ bss')
  IsParted-step gi name names rss groups ss gs bss bss' (y, _, all) parted f every at =
      let long : length ss ≡ length (map concat bss) = Yield-length ss bss y in
      let here : get_elem? every gi ≡ some name =
        subst (λ (z : ℕ). get_elem? every z ≡ some name) (omega arith) (at 0 name refl) in
      let one : weight (in_group f every gi) (concat (map concat bss))
          ≡ weight (λ r. f (r, name)) (concat (map concat bss)) =
        ap (λ z. weight (λ r. in_named f r z) (concat (map concat bss))) here in
      omega (
        arith,
        ap (grouped f every (map (λ s. gi) ss ++ gs)) (map-concat bss bss'),
        grouped-append f every (map (λ s. gi) ss) gs (map concat bss) (map concat bss')
            (length-each gi ss ∙ long),
        grouped_one f every gi ss (map concat bss) long,
        one,
        all (λ r. f (r, name)),
        weight-tag f name (hits t pattern (concat rss)),
        weight-append f (map (λ r. (r, name)) (hits t pattern (concat rss))) (tagged names groups),
        parted f every
            (λ j n e. subst (λ (z : ℕ). get_elem? every z ≡ some n) (omega arith) (at (suc j) n e)),
      )

  -- The groups from index `gi` on are open: each source belongs to one of them.
  abbrev pub IsOpened :
      ℕ → List Bytes → List (List (List LogRecord)) → Result ScanError Opened → Type 0
  IsOpened gi names groups out =
      (o : Opened) × (bss : List (List (List LogRecord))) × (out ≡ ok o)
      × Gives o.sources (flat groups) bss
      × (length o.source_groups ≡ length o.sources)
      × All (λ g. g < gi + length names) o.source_groups
      × IsParted gi names groups o.source_groups bss

  pub open_lem :
      (gi : ℕ) (names : List Bytes) (groups : List (List (List LogRecord)))
      → AreListed names groups
      → IsOpened gi names groups (open_groups c rd date_from_ts_ms account t pattern gi names)
  unfolding open_groups build_group_sources
  open_lem gi [] [] h = (_, [], refl, (tt, tt, λ f. refl), refl, tt, λ f every at. refl)
  open_lem gi [] (rss ∷ groups) h = absurd h
  open_lem gi (name ∷ names) [] h = absurd h
  open_lem gi (name ∷ names) (rss ∷ groups) ((locs, k, listed, readable), others) =
      let (ss, made, (bss, y, sorted, all)) =
        sources_lem c law rd t pattern fuel locs rss readable in
      let (o, bss', opened, given, len, below, parted) = open_lem (gi + 1) names groups others in
      (
        record {
          sources = ss ++ o.sources;
          source_groups = map (λ s. gi) ss ++ o.source_groups;
          listed = add_u64 k o.listed;
          scanned = add_u64 (length locs) o.scanned;
        },
        bss ++ bss',
        rw (listed, made, opened) refl,
        Gives-append ss o.sources rss (flat groups) bss bss' (y, sorted, all) given,
        length-append (map (λ x. gi) ss) o.source_groups
            ∙ (ap (λ (z : ℕ). z + length o.source_groups) (length-each gi ss)
                ∙ (ap (λ (z : ℕ). length ss + z) len ∙ sym (length-append ss o.sources))),
        All-append (λ g. g < gi + suc (length names)) (map (λ s. gi) ss) o.source_groups
            (All-each (λ g. g < gi + suc (length names)) gi ss (omega arith))
            (All-map (λ g. g < gi + 1 + length names) (λ g. g < gi + suc (length names))
              o.source_groups (λ g less. omega (arith, less)) below),
        IsParted-step gi name names rss groups ss o.source_groups bss bss' (y, sorted, all) parted,
      )

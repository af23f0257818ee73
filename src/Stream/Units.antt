-- ===== src/Stream/Units.antt =====
-- The units of a chunk that was written, in a scan of crates/s4logs-cli/src/scan.rs.
use s4_logs.Prelude.{
  ℕ, suc, ◌+◌, ◌^◌, ◌≤◌, ◌<◌, ◌≡◌, refl, sym, ap, subst, ◌∙◌, Bool, Option, none, some, List, [],
  ◌∷◌, All, length, map, get_elem?, arith,
}
use s4_logs.Prelude.Text.{Bytes}
use s4_logs.Prelude.Result.{Result, ok, err}
use s4_logs.Record.{LogRecord}
use s4_logs.Crates.{Crates, IsLawful, FrameIndex, FrameIndexEntry}
use s4_logs.Jsonl.{jsonl}
use s4_logs.TsIndex.{TsEntry, TsIndex}
use s4_logs.Chunk.{ChunkConfig, ChunkWriter, EncodedChunk, new, encode}
use s4_logs.Chunk.Frames.{Frame, range, HasTime, tile, plain_size}
use s4_logs.Chunk.Encoded.{push_all, pushed_chunk}
use s4_logs.Chunk.Archive.{plain_size-jsonl, length-tile, length-range}
use s4_logs.Layout.{ChunkLocation, data_key}
use s4_logs.Read.{TimeRange, FrameSpan, select, frames_overlapping, max_decompressed_bytes}
use s4_logs.Scan.Frames.{hits, IsWritten, IsObject, eqb_refl}
use s4_logs.Scan.Pruned.{plain_within}
use s4_logs.Cluster.{Timed, cluster_spans}
use s4_logs.Sources.{
  Reader, ScanError, frames, units_of, units_by, pruned_units, frame_units, with_ts, and_timed,
  timed,
}
use s4_logs.Sources.Batches.{IsGood, gather}
use s4_logs.Sources.Chunks.{frame_hits, timed_frames}

-- The chunk at a location was written with these records, and can be read.
pub record IsReadable (c : Crates) (rd : Reader) (fuel : ℕ) (loc : ChunkLocation)
    (rs : List LogRecord) : Type 0 where
  pub cfg : ChunkConfig
  pub writer : ChunkWriter
  pub chunk : EncodedChunk
  pub index : FrameIndex
  pub pushes : push_all c rs (new cfg) ≡ (writer, ok tt)
  pub encodes : encode c writer ≡ ok (some chunk)
  pub loads : rd.load_indexes loc ≡ ok (index, chunk.ts_index)
  pub entries : index.entries ≡ chunk.frame_index.entries
  pub reads : IsObject chunk.body (rd.get_range (data_key loc rd.key_prefix))
  pub ceiling : length (jsonl c rs) ≤ max_decompressed_bytes
  pub fits : length chunk.body < 2 ^ 64
  pub times : All HasTime rs
  pub lines : All (IsWritten c) rs
  pub few : length index.entries < fuel

and_timed-ok :
    (s : FrameSpan) (o : Option TsEntry) (r : Result ScanError (List Timed)) (ts : List Timed)
    → and_timed s o r ≡ ok ts
    → (ts' : List Timed) × (r ≡ ok ts') × (length ts ≡ suc (length ts'))
and_timed-ok s none r ts h = cc
and_timed-ok s (some e) (err x) ts h = cc
and_timed-ok s (some e) (ok ts') ts h =
    let same : timed e s ∷ ts' ≡ ts = cc in
    (ts', refl, sym (ap (λ (z : List Timed). length z) same))

module _ (c : Crates) (law : IsLawful c) (rd : Reader) (t : TimeRange)
    (pattern : Option (Bytes → Bool)) (fuel : ℕ) where
  length-select :
      (i : ℕ) (es : List FrameIndexEntry) (ts : List TsEntry)
      → length (select c t i es ts) ≤ length es
  unfolding select
  length-select i [] ts = omega arith
  length-select i (e ∷ es) [] = omega arith
  length-select i (e ∷ es) (x ∷ ts) = ground (arith, length-select (suc i) es ts)

  length-with_ts :
      (es : List TsEntry) (spans : List FrameSpan) (ts : List Timed)
      → with_ts es spans ≡ ok ts
      → length ts ≤ length spans
  unfolding with_ts
  length-with_ts es [] ts h =
      let same : ts ≡ [] = cc in omega (arith, ap (λ (z : List Timed). length z) same)
  length-with_ts es (s ∷ spans) ts h =
      let (ts', e, same) = and_timed-ok s (get_elem? es s.frame_idx) (with_ts es spans) ts h in
      omega (arith, length-with_ts es spans ts' e, same)

  spans_lem :
      (fs : List Frame) (index : FrameIndex) (times : TsIndex)
      → index.entries ≡ tile 0 0 fs
      → times.entries ≡ map range fs
      → frames_overlapping c index times t ≡ ok (select c t 0 (tile 0 0 fs) (map range fs))
  unfolding frames_overlapping
  spans_lem fs index times e q =
      rw (e, q) (rw (length-tile 0 0 fs, length-range fs) (rw (eqb_refl (length fs)) refl))

  units_from :
      (fs : List Frame) (loc : ChunkLocation) (index : FrameIndex) (times : TsIndex)
      (ts : List Timed)
      → rd.load_indexes loc ≡ ok (index, times)
      → index.entries ≡ tile 0 0 fs
      → times.entries ≡ map range fs
      → with_ts (map range fs) (select c t 0 (tile 0 0 fs) (map range fs)) ≡ ok ts
      → units_of c rd t pattern loc ≡ ok (map frames (cluster_spans ts))
  unfolding units_of
  units_from fs loc index times ts loads e q found =
      ap (units_by c rd t pattern) loads
      ∙ (ap (pruned_units c rd t pattern times) (spans_lem fs index times e q)
          ∙ (ap
                (λ z.
                  frame_units c rd t pattern
                    (with_ts z (select c t 0 (tile 0 0 fs) (map range fs))))
                q
              ∙ ap (frame_units c rd t pattern) found))

  -- The units of a chunk are its clusters, and give what matches.
  abbrev HasUnits : ChunkLocation → List LogRecord → Type 0
  HasUnits loc rs =
      (ts : List Timed) × (g : FrameSpan → List LogRecord) × (units_of c rd t pattern loc
        ≡ ok (map frames (cluster_spans ts)))
      × All (IsGood c rd t pattern (data_key loc rd.key_prefix) g) ts
      × (gather g ts ≡ hits t pattern rs)
      × (length ts < fuel)

  pub units_lem :
      (loc : ChunkLocation) (rs : List LogRecord) → IsReadable c rd fuel loc rs → HasUnits loc rs
  units_lem loc rs r =
      let fit : length (jsonl c rs) < 2 ^ 64 = omega (arith, r.ceiling) in
      let (fs, made, recs) =
        pushed_chunk c r.cfg rs r.writer r.chunk fit r.times r.pushes r.encodes in
      let small : plain_size fs ≤ max_decompressed_bytes = omega (
        arith,
        plain_size-jsonl c made.level fs made.frames,
        ap (λ z. length (jsonl c z)) recs,
        r.ceiling,
      ) in
      let (ts, found, good, same) =
        timed_frames c law rd t pattern (data_key loc rd.key_prefix) r.chunk.body fs made.level fs 0
          0 [] r.reads r.fits made.body made.frames (subst (All (IsWritten c)) (sym recs) r.lines)
          (plain_within max_decompressed_bytes fs small)
          (λ j f g.
            let at : j ≡ 0 + j = omega arith in subst (λ (z : ℕ). get_elem? fs z ≡ some f) at g) in
      let tiles : r.index.entries ≡ tile 0 0 fs = r.entries ∙ made.entries in
      let short : length r.index.entries ≡ length (tile 0 0 fs) =
        ap (λ (z : List FrameIndexEntry). length z) tiles in
      (
        ts,
        frame_hits c law rd t pattern (data_key loc rd.key_prefix) r.chunk.body fs,
        units_from fs loc r.index r.chunk.ts_index ts r.loads tiles made.ranges found,
        good,
        same ∙ ap (hits t pattern) recs,
        omega (
          arith,
          length-with_ts (map range fs) (select c t 0 (tile 0 0 fs) (map range fs)) ts found,
          length-select 0 (tile 0 0 fs) (map range fs),
          short,
          r.few,
        ),
      )

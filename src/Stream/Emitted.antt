-- ===== src/Stream/Emitted.antt =====
-- The loop of `scan_log_groups` of crates/s4logs-cli/src/scan.rs: what it emits for the heads of the
-- merge.
use s4_logs.Prelude.{
  ℕ, zero, suc, ◌<◌, ◌≡◌, refl, sym, ap, subst, ◌∙◌, Bool, true, Option, none, some, List, [], ◌∷◌,
  All, All-get_elem?, length, map, get_elem?, arith, leb,
}
use s4_logs.Prelude.Int.{ℤ, leb_ℤ}
use s4_logs.Prelude.Order.{IsSorted, IsAbove, lex, lex_first, leb_bytes}
use s4_logs.Prelude.Text.{Bytes}
use s4_logs.Prelude.Result.{ok, err}
use s4_logs.Record.{LogRecord}
use s4_logs.Crates.{Crates}
use s4_logs.Read.{TimeRange}
use s4_logs.Scan.{ScanStats}
use s4_logs.Buffer.Bags.{weight}
use s4_logs.Merge.{
  Head, KWayMerge, rec_key, rec_le, head_le, next_indexed, collect, and_collect, Collected, Step,
  out_of_fuel,
}
use s4_logs.Sources.{Reader, ChunkSource, chunk_batches}
use s4_logs.Stream.{
  ScanStream, group_of, named, next_with_group, stats, Emitted, and_emit, emit_all,
}
use s4_logs.Stream.Parts.{in_named, of_group}

get_elem?-some :
    {A : Type 0} (xs : List A) (i : ℕ) → i < length xs → (x : A) × (get_elem? xs i ≡ some x)
get_elem?-some [] i h = absurd (omega arith)
get_elem?-some (x ∷ xs) zero h = (x, refl)
get_elem?-some (x ∷ xs) (suc i) h = get_elem?-some xs i (omega arith)

head_le-rec_le : (a b : Head) → head_le a b ≡ true → rec_le a.0 b.0 ≡ true
unfolding head_le rec_le
head_le-rec_le a b h = lex_first (lex leb_ℤ leb_bytes) leb (rec_key a.0, a.1) (rec_key b.0, b.1) h

IsAbove-records :
    (k : Head) (hs : List Head) → IsAbove head_le k hs → IsAbove rec_le k.0 (map (λ h. h.0) hs)
IsAbove-records k [] a = tt
IsAbove-records k (h ∷ hs) a = (head_le-rec_le k h a.0, IsAbove-records k hs a.1)

pub records-IsSorted : (hs : List Head) → IsSorted head_le hs → IsSorted rec_le (map (λ h. h.0) hs)
records-IsSorted [] s = tt
records-IsSorted (h ∷ hs) s = (IsAbove-records h hs s.0, records-IsSorted hs s.1)

module _ (c : Crates) (rd : Reader) (date_from_ts_ms : ℤ → Bytes) (account : Bytes) (t : TimeRange)
    (pattern : Option (Bytes → Bool)) (fuel : ℕ) where
  -- What was emitted for these heads: their records, each with the name of a group.
  abbrev AreNamed : ScanStream → List Head → Type 0
  AreNamed s =
      All
        (λ h. (name : Bytes) × (group_of c rd date_from_ts_ms account t pattern s h.1 ≡ some name))

  abbrev IsEmitted :
      ScanStream → List Head → Emitted c rd date_from_ts_ms account t pattern → Type 0
  IsEmitted s hs out =
      (rs : List (LogRecord × Bytes)) × (st : ScanStats) × (out ≡ (rs, ok st))
      × (map (λ r. r.0) rs ≡ map (λ h. h.0) hs)
      × ((f : LogRecord × Bytes → ℕ)
          → weight f rs ≡ weight (of_group f s.group_names s.source_groups) hs)

  emit_step :
      (s : ScanStream) (x : Step (chunk_batches c rd t pattern) fuel (Option Head))
      (taken : KWayMerge ChunkSource → Collected (chunk_batches c rd t pattern) fuel)
      (more : ScanStream → Emitted c rd date_from_ts_ms account t pattern)
      (m : KWayMerge ChunkSource) (hs : List Head)
      → ((m' m'' : KWayMerge ChunkSource) (hs' : List Head)
          → taken m' ≡ (m'', hs', ok tt)
          → AreNamed s hs'
          → IsEmitted s hs' (more (record s { merge = m' })))
      → and_collect (chunk_batches c rd t pattern) fuel taken x ≡ (m, hs, ok tt)
      → AreNamed s hs
      → IsEmitted s hs (
          and_emit c rd date_from_ts_ms account t pattern more
            (named c rd date_from_ts_ms account t pattern s x))
  emit_step s (m', ok none) taken more m hs next e names = (
    [],
    stats c rd date_from_ts_ms account t pattern (record s { merge = m' }),
    refl,
    ap (λ z. map (λ h. h.0) z.1) e,
    λ f. ap (λ z. weight (of_group f s.group_names s.source_groups) z.1) e,
  )
  emit_step s (m', ok (some (rec, src))) taken more m hs next e names =
      let r = taken m' in
      let heads : (rec, src) ∷ r.1 ≡ hs = ap (λ z. z.1) e in
      let named_all = subst (AreNamed s) (sym heads) names in
      let ended : r ≡ (r.0, r.1, ok tt) = ap (λ z. (r.0, r.1, z)) (ap (λ z. z.2) e) in
      let (name, found) = named_all.0 in
      let (rs, st, out, same, weigh) = next m' r.0 r.1 ended named_all.1 in
      (
        (rec, name) ∷ rs,
        st,
        rw (found) (ap (λ z. ((rec, name) ∷ z.0, z.1)) out),
        ap (λ z. rec ∷ z) same ∙ ap (map (λ h. h.0)) heads,
        λ f.
            let one : of_group f s.group_names s.source_groups (rec, src) ≡ f (rec, name) =
              ap (in_named f rec) found in
            omega
              (arith, one, weigh f, ap (weight (of_group f s.group_names s.source_groups)) heads),
      )
  emit_step s (m', err x) taken more m hs next e names =
      let bad : err x ≡ ok tt = ap (λ z. z.2) e in absurd cc

  pub emit_lem :
      (n : ℕ) (s : ScanStream) (m : KWayMerge ChunkSource) (hs : List Head)
      → collect (chunk_batches c rd t pattern) fuel n s.merge ≡ (m, hs, ok tt)
      → AreNamed s hs
      → IsEmitted s hs (emit_all c rd date_from_ts_ms account t pattern fuel n s)
  unfolding collect emit_all next_with_group
  emit_lem zero s m hs e names = let bad : err out_of_fuel ≡ ok tt = ap (λ z. z.2) e in absurd cc
  emit_lem (suc n) s m hs e names =
      emit_step s (next_indexed (chunk_batches c rd t pattern) fuel s.merge)
        (collect (chunk_batches c rd t pattern) fuel n)
        (emit_all c rd date_from_ts_ms account t pattern fuel n) m hs
        (λ m' m'' hs' e' names'. emit_lem n (record s { merge = m' }) m'' hs' e' names') e names

  pub names_lem :
      (s : ScanStream) (k : ℕ)
      → length s.source_groups ≡ k
      → All (λ g. g < length s.group_names) s.source_groups
      → (hs : List Head) → All (λ h. h.1 < k) hs
      → AreNamed s hs
  names_lem s k len below [] low = tt
  names_lem s k len below (h ∷ hs) low =
      let (g, at) = get_elem?-some s.source_groups h.1 (omega (arith, len, low.0)) in
      let (name, found) =
        get_elem?-some s.group_names g
          (All-get_elem? (λ z. z < length s.group_names) s.source_groups h.1 g below at) in
      ((name, rw (group_of, at) found), names_lem s k len below hs low.1)

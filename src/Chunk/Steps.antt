-- ===== src/Chunk/Steps.antt =====
-- The writer's methods on the abstract view: which frames are closed, and which records are pending.
use s4_logs.Prelude.{
  ℕ, ◌+◌, ◌^◌, ◌≤◌, ◌<◌, ◌≡◌, ◌≢◌, refl, sym, ap, ◌∙◌, true, some, List, [], ◌∷◌, ◌++◌, append-nil,
  append_assoc, All, All-append, length, length-append, map, arith, Option-cases, List-cases, inl,
  inr, ◌⊎◌,
}
use s4_logs.Prelude.Int.{min_ℤ, max_ℤ}
use s4_logs.Prelude.I64.{i64_min, i64_max}
use s4_logs.Prelude.Text.{Bytes}
use s4_logs.Prelude.Result.{ok}
use s4_logs.Record.{LogRecord}
use s4_logs.Crates.{Crates}
use s4_logs.Jsonl.{line_of, jsonl, append_jsonl}
use s4_logs.Chunk.{
  ChunkConfig, ChunkWriter, add_u64, new, close_frame, compress_frame, cut_frame, pend, push,
}
use s4_logs.Chunk.Frames.{
  Frame, earliest, latest, range, all_recs, body_of, plain_size, tile, earliest_join, latest_join,
  earliest-snoc, latest-snoc, earliest-IsI64, latest-IsI64, HasTime, all_recs-snoc, body_of-snoc,
  plain_size-snoc, tile-snoc, jsonl-append, length-le-jsonl, IsFrame,
}

map-snoc : (fs : List Frame) (f : Frame) → map range (fs ++ f ∷ []) ≡ map range fs ++ range f ∷ []
map-snoc [] f = refl
map-snoc (g ∷ fs) f = ap (λ t. range g ∷ t) (map-snoc fs f)

length-all_recs-snoc :
    (fs : List Frame) (f : Frame)
    → length (all_recs (fs ++ f ∷ [])) ≡ length (all_recs fs) + length f.recs
length-all_recs-snoc fs f = rw all_recs-snoc (length-append (all_recs fs) f.recs)

add_u64-small : (a b : ℕ) → a + b < 2 ^ 64 → add_u64 a b ≡ a + b
unfolding add_u64
add_u64-small a b h = omega arith

module _ (c : Crates) where
  -- The writer has closed `fs`, and `late` is pending.
  pub record IsWriting (w : ChunkWriter) (fs : List Frame) (late : List LogRecord) : Type 0 where
    pub pending : w.pending ≡ jsonl c late
    pub pending_min : w.pending_min_ts ≡ earliest i64_max late
    pub pending_max : w.pending_max_ts ≡ latest i64_min late
    pub pending_count : w.pending_records ≡ length late
    pub body : w.body ≡ body_of fs
    pub entries : w.entries ≡ tile 0 0 fs
    pub ranges : w.ts_entries ≡ map range fs
    pub offset : w.original_off ≡ plain_size fs
    pub count : w.record_count ≡ length (all_recs fs)
    pub min_time : w.min_ts ≡ earliest i64_max (all_recs fs)
    pub max_time : w.max_ts ≡ latest i64_min (all_recs fs)
    pub times : All HasTime (all_recs fs)
    pub frames : All (IsFrame c w.cfg.zstd_level) fs
    pub late_times : All HasTime late
    pub counted : length (all_recs fs) ≤ plain_size fs

  pub new-IsWriting : (cfg : ChunkConfig) → IsWriting (new cfg) [] []
  unfolding new
  new-IsWriting cfg = record {
    pending = refl;
    pending_min = refl;
    pending_max = refl;
    pending_count = refl;
    body = refl;
    entries = refl;
    ranges = refl;
    offset = refl;
    count = refl;
    min_time = refl;
    max_time = refl;
    times = tt;
    frames = tt;
    late_times = tt;
    counted = omega arith;
  }

  -- One more record is pending.
  pend-IsWriting :
      (w : ChunkWriter) (fs : List Frame) (late : List LogRecord) (r : LogRecord)
      → length (jsonl c (late ++ r ∷ [])) < 2 ^ 64
      → HasTime r
      → IsWriting w fs late
      → IsWriting (pend c r (w.pending ++ line_of c r) w) fs (late ++ r ∷ [])
  unfolding pend
  pend-IsWriting w fs late r fits time h = record {
    pending = rw h.pending (
        sym
          (jsonl-append c late (r ∷ []) ∙ ap (λ t. jsonl c late ++ t) (append-nil (line_of c r))));
    pending_min = ap (λ t. min_ℤ t r.timestamp) h.pending_min ∙ earliest-snoc i64_max late r;
    pending_max = ap (λ t. max_ℤ t r.timestamp) h.pending_max ∙ latest-snoc i64_min late r;
    pending_count =
        rw
          (
            h.pending_count,
            add_u64-small (length late) 1
                (omega (arith, length-append late (r ∷ []), length-le-jsonl c (late ++ r ∷ []))),
          )
          (omega (arith, length-append late (r ∷ [])));
    body = h.body;
    entries = h.entries;
    ranges = h.ranges;
    offset = h.offset;
    count = h.count;
    min_time = h.min_time;
    max_time = h.max_time;
    times = h.times;
    frames = h.frames;
    late_times = All-append HasTime late (r ∷ []) h.late_times (time, tt);
    counted = h.counted;
  }

  abbrev pub frame_of : List LogRecord → Bytes → Frame
  frame_of late packed = record { recs = late; plain = jsonl c late; packed = packed }

  -- The pending records become a frame.
  pub close-IsWriting :
      (w : ChunkWriter) (fs : List Frame) (late : List LogRecord) (packed : Bytes)
      → late ≢ []
      → plain_size fs + length (jsonl c late) < 2 ^ 64
      → compress_frame c w.pending w.cfg.zstd_level ≡ some packed
      → IsWriting w fs late
      → IsWriting (close_frame w packed) (fs ++ frame_of late packed ∷ []) []
  unfolding close_frame
  close-IsWriting w fs late packed some_late fits packs h = record {
    pending = refl;
    pending_min = refl;
    pending_max = refl;
    pending_count = refl;
    body = rw (h.body, body_of-snoc fs f) refl;
    entries = rw (h.entries, h.offset, h.body, h.pending) (sym (tile-snoc 0 0 fs f ∙ ground arith));
    ranges = rw (h.ranges, h.pending_min, h.pending_max) (sym (map-snoc fs f));
    offset =
        rw (h.offset, h.pending, add_u64-small (plain_size fs) (length (jsonl c late)) fits)
          (sym (plain_size-snoc fs f));
    count =
        rw
          (
            h.count,
            h.pending_count,
            add_u64-small (length (all_recs fs)) (length late)
                (omega (arith, h.counted, length-le-jsonl c late)),
          )
          (sym (length-all_recs-snoc fs f));
    min_time =
        rw (h.min_time, h.pending_min)
          (earliest_join (all_recs fs) late
              (earliest-IsI64 i64_max (all_recs fs) (omega arith) h.times)
            ∙ ap (earliest i64_max) (sym (all_recs-snoc fs f)));
    max_time =
        rw (h.max_time, h.pending_max)
          (latest_join (all_recs fs) late (latest-IsI64 i64_min (all_recs fs) (omega arith) h.times)
            ∙ ap (latest i64_min) (sym (all_recs-snoc fs f)));
    times = rw (all_recs-snoc fs f) (All-append HasTime (all_recs fs) late h.times h.late_times);
    frames =
        All-append (IsFrame c w.cfg.zstd_level) fs (f ∷ []) h.frames
          (record { some_recs = some_late; plain_lines = refl; packs = rw h.pending at packs }, tt);
    late_times = tt;
    counted =
        omega (
          arith,
          h.counted,
          length-all_recs-snoc fs f,
          plain_size-snoc fs f,
          length-le-jsonl c late,
        );
  }
    where
      f : Frame
      f = frame_of late packed

  abbrev pub pended : ChunkWriter → LogRecord → ChunkWriter
  pended w r = pend c r (w.pending ++ line_of c r) w

  -- A cut that succeeds leaves the writer alone or closes the frame.
  cut_ok :
      (w w' : ChunkWriter)
      → cut_frame c w ≡ (w', ok tt)
      → (w' ≡ w)
        ⊎ ((packed : Bytes) × (compress_frame c w.pending w.cfg.zstd_level ≡ some packed)
            × (w' ≡ close_frame w packed))
  unfolding cut_frame
  cut_ok w w' e = elim (Option-cases (compress_frame c w.pending w.cfg.zstd_level)) [
    | inl fails ↦ inl (ground arith)
    | inr (packed, packs) ↦ elim (List-cases w.pending) [
      | inl idle ↦ inl (ground arith)
      | inr (b, bs, busy) ↦ inr (packed, packs, ground arith)
    ]
  ]

  push_ok :
      (r : LogRecord) (w w' : ChunkWriter)
      → push c r w ≡ (w', ok tt)
      → ((c.to_writer r).1 ≡ true) × ((w' ≡ pended w r) ⊎ (cut_frame c (pended w r) ≡ (w', ok tt)))
  unfolding push append_jsonl
  push_ok r w w' e = ground arith

  -- Between two states that hold the same records, pending or closed.
  abbrev pub total : List Frame → List LogRecord → ℕ
  total fs late = plain_size fs + length (jsonl c late)

  snoc-ne-nil : (late : List LogRecord) (r : LogRecord) → late ++ r ∷ [] ≢ []
  snoc-ne-nil [] r e = cc
  snoc-ne-nil (x ∷ xs) r e = cc

  total-pend :
      (fs : List Frame) (late : List LogRecord) (r : LogRecord)
      → total fs (late ++ r ∷ []) ≡ total fs late + length (line_of c r)
  total-pend fs late r = omega (
    arith,
    ap (λ (t : Bytes). length t) (jsonl-append c late (r ∷ [])),
    length-append (jsonl c late) (line_of c r ++ []),
    length-append (line_of c r) [],
  )

  -- A successful push adds the record at the end of those that the writer holds.
  pub push-IsWriting :
      (w w' : ChunkWriter) (fs : List Frame) (late : List LogRecord) (r : LogRecord)
      → total fs late + length (line_of c r) < 2 ^ 64
      → HasTime r
      → IsWriting w fs late
      → push c r w ≡ (w', ok tt)
      → (fs' : List Frame) × (late' : List LogRecord) × IsWriting w' fs' late'
        × (all_recs fs' ++ late' ≡ (all_recs fs ++ late) ++ r ∷ [])
        × (total fs' late' ≡ total fs late + length (line_of c r))
        × ((c.to_writer r).1 ≡ true)
  push-IsWriting w w' fs late r fits time h e =
      let (done, way) = push_ok r w w' e in
      let p : IsWriting (pended w r) fs (late ++ r ∷ []) =
        pend-IsWriting w fs late r (omega (arith, total-pend fs late r)) time h in
      let same : all_recs fs ++ (late ++ r ∷ []) ≡ (all_recs fs ++ late) ++ r ∷ [] =
        sym (append_assoc (all_recs fs) late (r ∷ [])) in
      elim way [
        | inl idle ↦ (fs, late ++ r ∷ [], rw idle p, same, total-pend fs late r, done)
        | inr cut ↦ elim (cut_ok (pended w r) w' cut) [
          | inl idle ↦ (fs, late ++ r ∷ [], rw idle p, same, total-pend fs late r, done)
          | inr (packed, packs, closed) ↦
              let f : Frame = frame_of (late ++ r ∷ []) packed in
              (
                fs ++ f ∷ [],
                [],
                rw closed (
                    close-IsWriting (pended w r) fs (late ++ r ∷ []) packed (snoc-ne-nil late r)
                      (omega (arith, total-pend fs late r)) packs p),
                append-nil (all_recs (fs ++ f ∷ [])) ∙ (all_recs-snoc fs f ∙ same),
                omega (arith, plain_size-snoc fs f, total-pend fs late r),
                done,
              )
        ]
      ]

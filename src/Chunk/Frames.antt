-- ===== src/Chunk/Frames.antt =====
-- The abstract view of a chunk: frames of records, their lines, and where they lie in the object.
use s4_logs.Prelude.{
  ℕ, ◌+◌, ◌≤◌, ◌≡◌, ◌≢◌, refl, sym, ap, ◌∙◌, some, List, [], ◌∷◌, ◌++◌, append-nil, append_assoc,
  All, length, length-append, arith,
}
use s4_logs.Prelude.Int.{ℤ, ◌≤ℤ◌, min_ℤ, max_ℤ}
use s4_logs.Prelude.I64.{i64_min, i64_max, IsI64}
use s4_logs.Prelude.Text.{Bytes}
use s4_logs.Record.{LogRecord}
use s4_logs.Crates.{Crates, FrameIndexEntry}
use s4_logs.Jsonl.{newline, line_of, jsonl}
use s4_logs.TsIndex.{TsEntry}
use s4_logs.Chunk.{compress_frame}

pub record Frame : Type 0 where
  pub recs : List LogRecord
  pub plain : Bytes
  pub packed : Bytes

-- The smallest and the largest timestamp, from a given one on.
abbrev pub earliest : ℤ → List LogRecord → ℤ
earliest t [] = t
earliest t (r ∷ rs) = earliest (min_ℤ t r.timestamp) rs

abbrev pub latest : ℤ → List LogRecord → ℤ
latest t [] = t
latest t (r ∷ rs) = latest (max_ℤ t r.timestamp) rs

abbrev pub range : Frame → TsEntry
range f = record { min_ts = earliest i64_max f.recs; max_ts = latest i64_min f.recs }

abbrev pub all_recs : List Frame → List LogRecord
all_recs [] = []
all_recs (f ∷ fs) = f.recs ++ all_recs fs

abbrev pub body_of : List Frame → Bytes
body_of [] = []
body_of (f ∷ fs) = f.packed ++ body_of fs

abbrev pub plain_size : List Frame → ℕ
plain_size [] = 0
plain_size (f ∷ fs) = length f.plain + plain_size fs

-- The entries of frames that lie end to end, from an offset in the plain and in the packed bytes.
abbrev pub tile : ℕ → ℕ → List Frame → List FrameIndexEntry
tile o p [] = []
tile o p (f ∷ fs) =
    record {
      original_offset = o;
      original_size = length f.plain;
      compressed_offset = p;
      compressed_size = length f.packed;
    }
    ∷ tile (o + length f.plain) (p + length f.packed) fs

earliest-append :
    (t : ℤ) (xs ys : List LogRecord) → earliest t (xs ++ ys) ≡ earliest (earliest t xs) ys
earliest-append t [] ys = refl
earliest-append t (x ∷ xs) ys = earliest-append (min_ℤ t x.timestamp) xs ys

latest-append : (t : ℤ) (xs ys : List LogRecord) → latest t (xs ++ ys) ≡ latest (latest t xs) ys
latest-append t [] ys = refl
latest-append t (x ∷ xs) ys = latest-append (max_ℤ t x.timestamp) xs ys

min_ℤ_assoc : (a b c : ℤ) → min_ℤ (min_ℤ a b) c ≡ min_ℤ a (min_ℤ b c)
min_ℤ_assoc a b c = ground arith

max_ℤ_assoc : (a b c : ℤ) → max_ℤ (max_ℤ a b) c ≡ max_ℤ a (max_ℤ b c)
max_ℤ_assoc a b c = ground arith

earliest-min : (s t : ℤ) (rs : List LogRecord) → earliest (min_ℤ s t) rs ≡ min_ℤ s (earliest t rs)
earliest-min s t [] = refl
earliest-min s t (r ∷ rs) =
    ap (λ z. earliest z rs) (min_ℤ_assoc s t r.timestamp) ∙ earliest-min s (min_ℤ t r.timestamp) rs

latest-max : (s t : ℤ) (rs : List LogRecord) → latest (max_ℤ s t) rs ≡ max_ℤ s (latest t rs)
latest-max s t [] = refl
latest-max s t (r ∷ rs) =
    ap (λ z. latest z rs) (max_ℤ_assoc s t r.timestamp) ∙ latest-max s (max_ℤ t r.timestamp) rs

min_ℤ-max : (t : ℤ) → IsI64 t → min_ℤ t i64_max ≡ t
min_ℤ-max t h = ground arith

max_ℤ-min : (t : ℤ) → IsI64 t → max_ℤ t i64_min ≡ t
max_ℤ-min t h = ground arith

-- The bounds of a list and of another join to the bounds of both.
pub earliest_join :
    (xs ys : List LogRecord)
    → IsI64 (earliest i64_max xs)
    → min_ℤ (earliest i64_max xs) (earliest i64_max ys) ≡ earliest i64_max (xs ++ ys)
earliest_join xs ys h =
    sym (earliest-min (earliest i64_max xs) i64_max ys)
    ∙ (ap (λ z. earliest z ys) (min_ℤ-max (earliest i64_max xs) h)
        ∙ sym (earliest-append i64_max xs ys))

pub latest_join :
    (xs ys : List LogRecord)
    → IsI64 (latest i64_min xs)
    → max_ℤ (latest i64_min xs) (latest i64_min ys) ≡ latest i64_min (xs ++ ys)
latest_join xs ys h =
    sym (latest-max (latest i64_min xs) i64_min ys)
    ∙ (ap (λ z. latest z ys) (max_ℤ-min (latest i64_min xs) h) ∙ sym (latest-append i64_min xs ys))

pub earliest-snoc :
    (t : ℤ) (rs : List LogRecord) (r : LogRecord)
    → min_ℤ (earliest t rs) r.timestamp ≡ earliest t (rs ++ r ∷ [])
earliest-snoc t rs r = sym (earliest-append t rs (r ∷ []))

pub latest-snoc :
    (t : ℤ) (rs : List LogRecord) (r : LogRecord)
    → max_ℤ (latest t rs) r.timestamp ≡ latest t (rs ++ r ∷ [])
latest-snoc t rs r = sym (latest-append t rs (r ∷ []))

abbrev pub HasTime : LogRecord → Type 0
HasTime r = IsI64 r.timestamp

min_ℤ-IsI64 : (s t : ℤ) → IsI64 s → IsI64 t → IsI64 (min_ℤ s t)
min_ℤ-IsI64 s t h k = ground arith

max_ℤ-IsI64 : (s t : ℤ) → IsI64 s → IsI64 t → IsI64 (max_ℤ s t)
max_ℤ-IsI64 s t h k = ground arith

pub earliest-IsI64 :
    (t : ℤ) (rs : List LogRecord) → IsI64 t → All HasTime rs → IsI64 (earliest t rs)
earliest-IsI64 t [] h hs = h
earliest-IsI64 t (r ∷ rs) h hs =
    earliest-IsI64 (min_ℤ t r.timestamp) rs (min_ℤ-IsI64 t r.timestamp h hs.0) hs.1

pub latest-IsI64 : (t : ℤ) (rs : List LogRecord) → IsI64 t → All HasTime rs → IsI64 (latest t rs)
latest-IsI64 t [] h hs = h
latest-IsI64 t (r ∷ rs) h hs =
    latest-IsI64 (max_ℤ t r.timestamp) rs (max_ℤ-IsI64 t r.timestamp h hs.0) hs.1

earliest-le : (t : ℤ) (rs : List LogRecord) → earliest t rs ≤ℤ t
earliest-le t [] = omega arith
earliest-le t (r ∷ rs) = ground (arith, earliest-le (min_ℤ t r.timestamp) rs)

le-latest : (t : ℤ) (rs : List LogRecord) → t ≤ℤ latest t rs
le-latest t [] = omega arith
le-latest t (r ∷ rs) = ground (arith, le-latest (max_ℤ t r.timestamp) rs)

-- Every timestamp lies between the bounds.
pub earliest-All : (t : ℤ) (rs : List LogRecord) → All (λ r. earliest t rs ≤ℤ r.timestamp) rs
earliest-All t [] = tt
earliest-All t (r ∷ rs) =
    (ground (arith, earliest-le (min_ℤ t r.timestamp) rs), earliest-All (min_ℤ t r.timestamp) rs)

pub latest-All : (t : ℤ) (rs : List LogRecord) → All (λ r. r.timestamp ≤ℤ latest t rs) rs
latest-All t [] = tt
latest-All t (r ∷ rs) =
    (ground (arith, le-latest (max_ℤ t r.timestamp) rs), latest-All (max_ℤ t r.timestamp) rs)

pub all_recs-snoc : (fs : List Frame) (f : Frame) → all_recs (fs ++ f ∷ []) ≡ all_recs fs ++ f.recs
all_recs-snoc [] f = append-nil f.recs
all_recs-snoc (g ∷ fs) f =
    ap (λ t. g.recs ++ t) (all_recs-snoc fs f) ∙ sym (append_assoc g.recs (all_recs fs) f.recs)

pub body_of-snoc : (fs : List Frame) (f : Frame) → body_of (fs ++ f ∷ []) ≡ body_of fs ++ f.packed
body_of-snoc [] f = append-nil f.packed
body_of-snoc (g ∷ fs) f =
    ap (λ t. g.packed ++ t) (body_of-snoc fs f) ∙ sym (append_assoc g.packed (body_of fs) f.packed)

pub plain_size-snoc :
    (fs : List Frame) (f : Frame) → plain_size (fs ++ f ∷ []) ≡ plain_size fs + length f.plain
plain_size-snoc [] f = omega arith
plain_size-snoc (g ∷ fs) f = omega (arith, plain_size-snoc fs f)

pub tile-snoc :
    (o p : ℕ) (fs : List Frame) (f : Frame)
    → tile o p (fs ++ f ∷ [])
      ≡ tile o p fs ++ tile (o + plain_size fs) (p + length (body_of fs)) (f ∷ [])
tile-snoc o p [] f = ground arith
tile-snoc o p (g ∷ fs) f = ground (
  arith,
  tile-snoc (o + length g.plain) (p + length g.packed) fs f,
  length-append g.packed (body_of fs),
)

module _ (c : Crates) where
  pub jsonl-append : (xs ys : List LogRecord) → jsonl c (xs ++ ys) ≡ jsonl c xs ++ jsonl c ys
  jsonl-append [] ys = refl
  jsonl-append (x ∷ xs) ys =
      ap (λ t. line_of c x ++ t) (jsonl-append xs ys)
      ∙ sym (append_assoc (line_of c x) (jsonl c xs) (jsonl c ys))

  pub length-le-jsonl : (rs : List LogRecord) → length rs ≤ length (jsonl c rs)
  length-le-jsonl [] = omega arith
  length-le-jsonl (r ∷ rs) = omega (
    arith,
    length-append (line_of c r) (jsonl c rs),
    length-append (c.to_writer r).0 (newline ∷ []),
    length-le-jsonl rs,
  )

  -- A closed frame: some records, their lines, and the lines packed at a level.
  pub record IsFrame (level : ℤ) (f : Frame) : Type 0 where
    pub some_recs : f.recs ≢ []
    pub plain_lines : f.plain ≡ jsonl c f.recs
    pub packs : compress_frame c f.plain level ≡ some f.packed

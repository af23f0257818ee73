-- ===== src/TsIndex/RoundTrip.antt =====
-- The codec of tsindex.rs: decoding inverts encoding, and accepts nothing but what encoding writes.
use s4_logs.Prelude.{
  ℕ, zero, suc, ◌+◌, ◌*◌, ◌≤◌, ◌≡◌, refl, sym, ap, ◌∙◌, List, [], ◌∷◌, ◌++◌, All, length,
  length-append, take-append-drop, length-drop, All-append_right, subst, arith, take, drop,
  if◌then◌else◌, Bool-cases, inl, inr,
}
use s4_logs.Prelude.Int.{ℤ, ◌≤ℤ◌, ltb_ℤ}
use s4_logs.Prelude.I64.{IsI64}
use s4_logs.Prelude.Text.{Bytes, IsByte, eq_of_eqb}
use s4_logs.Prelude.Result.{Result, ok, err, ◌>>=◌, >>=-eq-ok}
use s4_logs.TsIndex.Wire.{LittleEndian}
use s4_logs.TsIndex.{
  TsEntry, TsIndex, TsIndexError, invalid_entry, magic, version, header_bytes, entry_bytes,
  max_frames, put_entries, encode_ts_index, get_entries, decode_body, decode_versioned,
  decode_ts_index,
}

-- An entry that the format can hold: two `i64`s in order.
pub record IsEntry (e : TsEntry) : Type 0 where
  pub min_fits : IsI64 e.min_ts
  pub max_fits : IsI64 e.max_ts
  pub ordered : e.min_ts ≤ℤ e.max_ts

-- One round of the decoding loop that succeeds.
round_ok :
    (idx : ℕ) (a b : ℤ) (rest : Result TsIndexError (List TsEntry)) (es : List TsEntry)
    → (if ltb_ℤ b a
        then err (invalid_entry idx a b)
        else (do more ← rest; ok (record { min_ts = a; max_ts = b } ∷ more)))
      ≡ ok es
    → (more : List TsEntry) × (rest ≡ ok more)
      × (a ≤ℤ b)
      × (record { min_ts = a; max_ts = b } ∷ more ≡ es)
round_ok idx a b rest es h = elim (Bool-cases (ltb_ℤ b a)) [
  | inl bad ↦ absurd (let e : err (invalid_entry idx a b) ≡ ok es = rw bad at h in cc)
  | inr good ↦
      let (more, runs, same) = >>=-eq-ok rest _ es (rw good at h) in (more, runs, ground arith, cc)
]

module _ (wire : LittleEndian) where
  open wire use {
    put_u32_le, put_u64_le, put_i64_le, get_u32_le, get_u64_le, get_i64_le, u32_width, u64_width,
    i64_width, get-put_u32, get-put_u64, get-put_i64, put-get_u32, put-get_u64, put-get_i64,
    get_i64-IsI64,
  }

  length-put_entries : (es : List TsEntry) → length (put_entries wire es) ≡ length es * entry_bytes
  unfolding put_entries
  length-put_entries [] = omega arith
  length-put_entries (e ∷ es) = omega (
    arith,
    length-append (put_i64_le e.min_ts) (put_i64_le e.max_ts ++ put_entries wire es),
    length-append (put_i64_le e.max_ts) (put_entries wire es),
    i64_width e.min_ts,
    i64_width e.max_ts,
    length-put_entries es,
  )

  get-put_entries :
      (es : List TsEntry) (idx : ℕ)
      → All IsEntry es
      → get_entries wire (length es) idx (put_entries wire es) ≡ ok es
  unfolding put_entries get_entries
  get-put_entries [] idx h = refl
  get-put_entries (e ∷ es) idx h =
      rw
        (
          get-put_i64 e.min_ts (put_i64_le e.max_ts ++ put_entries wire es) h.0.min_fits,
          get-put_i64 e.max_ts (put_entries wire es) h.0.max_fits,
          get-put_entries es (idx + 1) h.1,
        )
        (ground (arith, h.0.ordered))

  decode_body-put :
      (es : List TsEntry)
      → All IsEntry es
      → length es ≤ max_frames
      → decode_body wire (length es) (put_entries wire es) ≡ ok (record { entries = es })
  unfolding decode_body
  decode_body-put es h small = rw (get-put_entries es 0 h) (ground (arith, length-put_entries es))

  decode_versioned-put :
      (es : List TsEntry)
      → All IsEntry es
      → length es ≤ max_frames
      → decode_versioned wire
          (put_u32_le version ++ (put_u64_le (length es) ++ put_entries wire es))
        ≡ ok (record { entries = es })
  unfolding decode_versioned
  decode_versioned-put es h small =
      rw
        (
          get-put_u32 version (put_u64_le (length es) ++ put_entries wire es) (omega arith),
          get-put_u64 (length es) (put_entries wire es) (omega arith),
        )
        (decode_body-put es h small)

  -- Decoding an encoded index gives the index, if its entries are ordered `i64` ranges and there
  -- are no more than the cap allows.
  pub decode-encode :
      (idx : TsIndex)
      → All IsEntry idx.entries
      → length idx.entries ≤ max_frames
      → decode_ts_index wire (encode_ts_index wire idx) ≡ ok idx
  unfolding encode_ts_index decode_ts_index
  decode-encode idx h small = ground (
    arith,
    decode_versioned-put idx.entries h small,
    length-append (put_u32_le version)
        (put_u64_le (length idx.entries) ++ put_entries wire idx.entries),
    length-append (put_u64_le (length idx.entries)) (put_entries wire idx.entries),
    u32_width version,
    u64_width (length idx.entries),
  )

  -- Bytes that hold a 64-bit integer are what writing it puts in front of the rest.
  read-IsI64 :
      (s : Bytes)
      → All IsByte s
      → 8 ≤ length s
      → (put_i64_le (get_i64_le s).0 ++ (get_i64_le s).1 ≡ s)
        × (length (get_i64_le s).1 + 8 ≡ length s)
        × All IsByte (get_i64_le s).1
        × IsI64 (get_i64_le s).0
  read-IsI64 s h long =
      let whole : put_i64_le (get_i64_le s).0 ++ (get_i64_le s).1 ≡ s = put-get_i64 s h long in
      (
        whole,
        omega (
          arith,
          ap (λ (t : Bytes). length t) whole,
          length-append (put_i64_le (get_i64_le s).0) (get_i64_le s).1,
          i64_width (get_i64_le s).0,
        ),
        All-append_right IsByte (put_i64_le (get_i64_le s).0) (get_i64_le s).1
            (subst (All IsByte) (sym whole) h),
        get_i64-IsI64 s h long,
      )

  get_entries_lem :
      (n idx : ℕ) (input : Bytes) (es : List TsEntry)
      → All IsByte input
      → length input ≡ n * entry_bytes
      → get_entries wire n idx input ≡ ok es
      → (put_entries wire es ≡ input) × (length es ≡ n) × All IsEntry es
  unfolding get_entries put_entries
  get_entries_lem zero idx [] es h long e =
      let none_left : [] ≡ es = cc in rw (← none_left) (refl, refl, tt)
  get_entries_lem zero idx (b ∷ bs) es h long e = absurd (omega arith)
  get_entries_lem (suc n) idx input es h long e =
      let (whole, left, h', fits) = read-IsI64 input h (omega arith) in
      let after_min = (get_i64_le input).1 in
      let (whole', left', h'', fits') = read-IsI64 after_min h' (omega (arith, left)) in
      let after_max = (get_i64_le after_min).1 in
      let (more, runs, ordered, same) =
        round_ok idx (get_i64_le input).0 (get_i64_le after_min).0
          (get_entries wire n (idx + 1) after_max) es e in
      let (puts, count, valid) =
        get_entries_lem n (idx + 1) after_max more h'' (omega (arith, left, left')) runs in
      rw (← same) (
        rw puts (rw whole' whole),
        omega (arith, count),
        (record { min_fits = fits; max_fits = fits'; ordered = ordered }, valid),
      )

  body_ok :
      (n : ℕ) (input : Bytes) (idx : TsIndex)
      → decode_body wire n input ≡ ok idx
      → (n ≤ max_frames)
        × (length input ≡ n * entry_bytes)
        × (get_entries wire n 0 input ≡ ok idx.entries)
  unfolding decode_body
  body_ok n input idx e = ground arith

  versioned_ok :
      (input : Bytes) (idx : TsIndex)
      → decode_versioned wire input ≡ ok idx
      → ((get_u32_le input).0 ≡ version)
        × (decode_body wire (get_u64_le (get_u32_le input).1).0 (get_u64_le (get_u32_le input).1).1
            ≡ ok idx)
  unfolding decode_versioned
  versioned_ok input idx e = ground arith

  framed_ok :
      (input : Bytes) (idx : TsIndex)
      → decode_ts_index wire input ≡ ok idx
      → (header_bytes ≤ length input)
        × (take 4 input ≡ magic)
        × (decode_versioned wire (drop 4 input) ≡ ok idx)
  unfolding decode_ts_index
  framed_ok input idx e = ground (arith, eq_of_eqb (take 4 input) magic)

  read_u32 :
      (s : Bytes)
      → All IsByte s
      → 4 ≤ length s
      → (put_u32_le (get_u32_le s).0 ++ (get_u32_le s).1 ≡ s)
        × (length (get_u32_le s).1 + 4 ≡ length s)
        × All IsByte (get_u32_le s).1
  read_u32 s h long =
      let whole : put_u32_le (get_u32_le s).0 ++ (get_u32_le s).1 ≡ s = put-get_u32 s h long in
      (
        whole,
        omega (
          arith,
          ap (λ (t : Bytes). length t) whole,
          length-append (put_u32_le (get_u32_le s).0) (get_u32_le s).1,
          u32_width (get_u32_le s).0,
        ),
        All-append_right IsByte (put_u32_le (get_u32_le s).0) (get_u32_le s).1
            (subst (All IsByte) (sym whole) h),
      )

  read_u64 :
      (s : Bytes)
      → All IsByte s
      → 8 ≤ length s
      → (put_u64_le (get_u64_le s).0 ++ (get_u64_le s).1 ≡ s)
        × (length (get_u64_le s).1 + 8 ≡ length s)
        × All IsByte (get_u64_le s).1
  read_u64 s h long =
      let whole : put_u64_le (get_u64_le s).0 ++ (get_u64_le s).1 ≡ s = put-get_u64 s h long in
      (
        whole,
        omega (
          arith,
          ap (λ (t : Bytes). length t) whole,
          length-append (put_u64_le (get_u64_le s).0) (get_u64_le s).1,
          u64_width (get_u64_le s).0,
        ),
        All-append_right IsByte (put_u64_le (get_u64_le s).0) (get_u64_le s).1
            (subst (All IsByte) (sym whole) h),
      )

  -- Bytes that decode to an index are exactly what encoding it writes; its entries are ordered
  -- ranges, no more than the cap, and the input's length is that of the header and the entries.
  pub encode-decode :
      (input : Bytes) (idx : TsIndex)
      → All IsByte input
      → decode_ts_index wire input ≡ ok idx
      → (encode_ts_index wire idx ≡ input)
        × All IsEntry idx.entries
        × (length idx.entries ≤ max_frames)
        × (length input ≡ header_bytes + length idx.entries * entry_bytes)
  unfolding encode_ts_index
  encode-decode input idx h e =
      let (long, is_magic, e') = framed_ok input idx e in
      let split : take 4 input ++ drop 4 input ≡ input = take-append-drop 4 input in
      let h' : All IsByte (drop 4 input) =
        All-append_right IsByte (take 4 input) (drop 4 input) (subst (All IsByte) (sym split) h) in
      let (w, l, h'') = read_u32 (drop 4 input) h' (omega (arith, length-drop 4 input)) in
      let (is_version, e'') = versioned_ok (drop 4 input) idx e' in
      let (w', l', h''') =
        read_u64 (get_u32_le (drop 4 input)).1 h'' (omega (arith, length-drop 4 input, l)) in
      let n : ℕ = (get_u64_le (get_u32_le (drop 4 input)).1).0 in
      let (small, fits, e''') = body_ok n _ idx e'' in
      let (puts, count, valid) = get_entries_lem n 0 _ idx.entries h''' fits e''' in
      (
        rw puts (
            rw count (
              rw (w', ← is_version)
                (rw w (ap (λ (t : Bytes). t ++ drop 4 input) (sym is_magic) ∙ split)))),
        valid,
        omega (arith, count),
        omega (arith, count, fits, l, l', length-drop 4 input),
      )

-- ===== src/Buffer/Bound.antt =====
-- The cap after the critical section of `push_events`.
use s4_logs.Prelude.{
  ℕ, zero, suc, ◌≤◌, ◌≡◌, refl, sym, ap, ◌∙◌, subst, true, false, some, List, [], ◌∷◌, ◌++◌, arith,
  Bool-cases, inl, inr, ◌⊎◌, ltb, leb, length, Any,
}
use s4_logs.Prelude.Text.{eqb_refl}
use s4_logs.Prelude.Result.{Result, ok, err}
use s4_logs.Record.{LogRecord}
use s4_logs.Prelude.Text.{Bytes}
use s4_logs.Chunk.{uncompressed_len}
use s4_logs.Host.{Host}
use s4_logs.Buffer.{
  BufferConfig, BufferError, BufKey, Entry, is_key, remove_entry, larger, largest_of, removed,
  remove_largest, largest, shed, shed_from, take_due, buffered_total, take_matching, accept,
  accepted, Pool, push_batch, and_then, sync_wal,
}
use s4_logs.Buffer.Taken.{shed_over, shed_under}

is_key_refl : (k : BufKey) → is_key k k ≡ true
is_key_refl (g, t) = rw (eqb_refl g, eqb_refl t) refl

abbrev HasKey : BufKey → List Entry → Type 0
HasKey k = Any (λ e. e.0 ≡ k)

remove_entry-HasKey :
    (k : BufKey) (es : List Entry)
    → HasKey k es
    → (e : Entry) × (left : List Entry) × (remove_entry k es ≡ some (e, left))
      × (length es ≡ suc (length left))
remove_entry-HasKey k [] h = absurd h
remove_entry-HasKey k ((k', b) ∷ es) h = elim (Bool-cases (is_key k k')) [
  | inl same ↦ ((k', b), es, rw same refl, refl)
  | inr other ↦ elim h [
    | inl e ↦ absurd (
        let t : is_key k k ≡ false = subst (λ z. is_key k z ≡ false) e other in
        let t' = is_key_refl k in cc)
    | inr r ↦
        let (e, left, found, size) = remove_entry-HasKey k es r in
        (e, (k', b) ∷ left, rw (other, found) refl, ap suc size)
  ]
]

larger_one : (e f : Entry) → (larger e f ≡ e) ⊎ (larger e f ≡ f)
larger_one (k, b) (k', b') =
    elim (Bool-cases (leb (uncompressed_len b.writer) (uncompressed_len b'.writer))) [
      | inl more ↦ inr (rw more refl)
      | inr less ↦ inl (rw less refl)
    ]

largest_of-HasKey : (best : Entry) (es : List Entry) → HasKey (largest_of best es).0 (best ∷ es)
largest_of-HasKey best [] = inl refl
largest_of-HasKey best (e ∷ es) = elim (largest_of-HasKey (larger best e) es) [
  | inl same ↦ elim (larger_one best e) [
    | inl first ↦ inl (ap (λ (z : Entry). z.0) (sym first) ∙ same)
    | inr second ↦ inr (inl (ap (λ (z : Entry). z.0) (sym second) ∙ same))
  ]
  | inr later ↦ inr (inr later)
]

remove_largest-length :
    (e : Entry) (es : List Entry)
    → (f : Entry) × (left : List Entry) × (remove_largest (e ∷ es) ≡ (some f, left))
      × (length es ≡ length left)
unfolding remove_largest largest
remove_largest-length e es =
    let (f, left, found, size) =
      remove_entry-HasKey (largest_of e es).0 (e ∷ es) (largest_of-HasKey e es) in
    (f, left, ap (removed (e ∷ es)) found, omega (arith, size))

module _ (cfg : BufferConfig) where
  shed-bound :
      (fuel : ℕ) (due es : List Entry)
      → length es ≤ fuel
      → buffered_total (shed cfg fuel due es).1 ≤ cfg.max_buffered_bytes
  shed-bound zero due [] small = unfold shed buffered_total in omega arith
  shed-bound zero due (e ∷ es) small = absurd (omega arith)
  shed-bound (suc fuel) due [] small =
      rw (shed_under cfg fuel due [] (unfold buffered_total in ground arith))
        (unfold buffered_total in omega arith)
  shed-bound (suc fuel) due (e ∷ es) small =
      elim (Bool-cases (ltb cfg.max_buffered_bytes (buffered_total (e ∷ es)))) [
        | inl over ↦
            let (f, left, found, size) = remove_largest-length e es in
            rw (shed_over cfg fuel due (e ∷ es) over, found)
              (shed-bound fuel (due ++ f ∷ []) left (omega (arith, size)))
        | inr under ↦ rw (shed_under cfg fuel due (e ∷ es) under) (ground (arith, under))
      ]

  pub take_due-bound :
      (es : List Entry) → buffered_total (take_due cfg es).1 ≤ cfg.max_buffered_bytes
  unfolding take_due
  take_due-bound es = go (take_matching _ es)
    where
      go :
          (p : List Entry × List Entry)
          → buffered_total (shed_from cfg p).1 ≤ cfg.max_buffered_bytes
      go (due, left) = shed-bound (length left) due left (omega arith)

-- If the critical section of `push_events` succeeds, the buffers that it leaves are within the cap
-- on buffered bytes, whatever they held before.
pub accept-bound :
    {D : Type 0} (h : Host D) (cfg : BufferConfig) (log_group : Bytes) (recs : List LogRecord)
    (d d' : D) (es es' due : List Entry)
    → accept h cfg log_group recs d es ≡ (d', es', ok due)
    → buffered_total es' ≤ cfg.max_buffered_bytes
unfolding accept
accept-bound {D} h cfg log_group recs d d' es es' due e =
    go (and_then h cfg (λ w more. sync_wal h cfg more w) (push_batch h cfg log_group recs d es)) e
  where
    go :
        (p : Pool h cfg)
        → accepted h cfg p ≡ (d', es', ok due)
        → buffered_total es' ≤ cfg.max_buffered_bytes
    go (w, left, err x) k = cc
    go (w, left, ok x) k =
        let same : (take_due cfg left).1 ≡ es' =
          ap (λ (z : D × List Entry × Result BufferError (List Entry)). z.1) k in
        subst (λ z. buffered_total z ≤ cfg.max_buffered_bytes) same (take_due-bound cfg left)

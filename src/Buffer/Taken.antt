-- ===== src/Buffer/Taken.antt =====
-- Taking buffers out of the map: what was taken and what is left hold the records between them.
use s4_logs.Prelude.{
  ℕ, zero, suc, ◌≡◌, refl, sym, subst, true, false, Bool, Option, none, some, List, [], ◌∷◌, ◌++◌,
  arith, Bool-cases, inl, inr, ltb, length,
}
use s4_logs.Record.{LogRecord}
use s4_logs.Crates.{Crates}
use s4_logs.Buffer.{
  BufferConfig, BufKey, Buf, Entry, is_key, put_back, remove_entry, remove_next, remove_entries,
  and_more, matching_keys, take_matching, removed, remove_largest, largest, shed, shed_next,
  shed_from, take_due, buffered_total,
}
use s4_logs.Buffer.Bags.{weight-append, SameRecords}
use s4_logs.Buffer.Held.{IsBuf, IsHeld, IsHeld-append}

module _ (cfg : BufferConfig) (fuel : ℕ) (due es : List Entry) where
  pub shed_over :
      ltb cfg.max_buffered_bytes (buffered_total es) ≡ true
      → shed cfg (suc fuel) due es ≡ shed_next cfg (shed cfg fuel) due (remove_largest es)
  unfolding shed
  shed_over over = rw (over, shed) refl

  pub shed_under :
      ltb cfg.max_buffered_bytes (buffered_total es) ≡ false
      → shed cfg (suc fuel) due es ≡ (due, es)
  unfolding shed
  shed_under under = rw (under, shed) refl

module _ (c : Crates) where
  -- The records of both parts.
  abbrev pub IsSplit : List Entry × List Entry → List LogRecord → Type 0
  IsSplit (taken, left) rs =
      (a b : List LogRecord) × IsHeld c taken a × IsHeld c left b × SameRecords rs (a ++ b)

  remove_entry-IsHeld :
      (k : BufKey) (es : List Entry) (e : Entry) (left : List Entry) (rs : List LogRecord)
      → remove_entry k es ≡ some (e, left)
      → IsHeld c es rs
      → (x t : List LogRecord) × IsBuf c e.1 x × IsHeld c left t × SameRecords rs (x ++ t)
  remove_entry-IsHeld k [] e left rs p h = cc
  remove_entry-IsHeld k ((k', b) ∷ es) e left rs p (y, t, hy, ht, q) =
      elim (Bool-cases (is_key k k')) [
        | inl same ↦
            let p' : ◌≡◌ {A = Option (Entry × List Entry)} (some ((k', b), es)) (some (e, left)) =
              rw same at p in
            let found : ◌≡◌ {A = Entry} (k', b) e = cc in
            let others : es ≡ left = cc in
            (
              y,
              t,
              subst (λ (z : Entry). IsBuf c z.1 y) found hy,
              subst (λ z. IsHeld c z t) others ht,
              q,
            )
        | inr other ↦
            go (remove_entry k es) refl (rw other at p)
              (λ f kept r. remove_entry-IsHeld k es f kept t r ht)
      ]
    where
      go :
          (r : Option (Entry × List Entry))
          → remove_entry k es ≡ r
          → put_back (k', b) r ≡ some (e, left)
          → ((f : Entry) (kept : List Entry)
              → remove_entry k es ≡ some (f, kept)
              → (x s : List LogRecord) × IsBuf c f.1 x × IsHeld c kept s × SameRecords t (x ++ s))
          → (x s : List LogRecord) × IsBuf c e.1 x × IsHeld c left s × SameRecords rs (x ++ s)
      go none r p' ih = cc
      go (some (f, kept)) r p' ih =
          let found : f ≡ e = cc in
          let others : (k', b) ∷ kept ≡ left = cc in
          let (x, s, hx, hs, q') = ih f kept r in
          (
            x,
            y ++ s,
            subst (λ (z : Entry). IsBuf c z.1 x) found hx,
            subst (λ z. IsHeld c z (y ++ s)) others (y, s, hy, hs, λ w. refl),
            λ w. omega (
              arith,
              q w,
              q' w,
              weight-append w y t,
              weight-append w x s,
              weight-append w y s,
              weight-append w x (y ++ s),
            ),
          )

  more-IsSplit :
      (x t rs : List LogRecord) (k : BufKey) (b : Buf) (p : List Entry × List Entry)
      → IsBuf c b x
      → SameRecords rs (x ++ t)
      → IsSplit p t
      → IsSplit (and_more (k, b) p) rs
  more-IsSplit x t rs k b (taken, left) hx q (a, d, ha, hd, q') = (
    x ++ a,
    d,
    (x, a, hx, ha, λ w. refl),
    hd,
    λ w. omega (
      arith,
      q w,
      q' w,
      weight-append w x t,
      weight-append w a d,
      weight-append w (x ++ a) d,
      weight-append w x a,
    ),
  )

  remove_entries-IsSplit :
      (ks : List BufKey) (es : List Entry) (rs : List LogRecord)
      → IsHeld c es rs
      → IsSplit (remove_entries ks es) rs
  unfolding remove_entries
  remove_entries-IsSplit [] es rs h = ([], rs, λ w. refl, h, λ w. refl)
  remove_entries-IsSplit (k ∷ ks) es rs h =
      go (remove_entry k es) refl (λ left t. remove_entries-IsSplit ks left t)
    where
      go :
          (r : Option (Entry × List Entry))
          → remove_entry k es ≡ r
          → ((left : List Entry) (t : List LogRecord)
              → IsHeld c left t
              → IsSplit (remove_entries ks left) t)
          → IsSplit (remove_next es (remove_entries ks) r) rs
      go none r ih = ih es rs h
      go (some ((k', b), left)) r ih =
          let (x, t, hx, ht, q) = remove_entry-IsHeld k es (k', b) left rs r h in
          more-IsSplit x t rs k' b (remove_entries ks left) hx q (ih left t ht)

  pub take_matching-IsSplit :
      (pred : Buf → Bool) (es : List Entry) (rs : List LogRecord)
      → IsHeld c es rs
      → IsSplit (take_matching pred es) rs
  unfolding take_matching
  take_matching-IsSplit pred es rs h = remove_entries-IsSplit (matching_keys pred es) es rs h

  abbrev pub IsOneOut : Option Entry × List Entry → List LogRecord → Type 0
  IsOneOut (none, es) rs = IsHeld c es rs
  IsOneOut (some (k, b), es) rs = IsSplit ((k, b) ∷ [], es) rs

  pub remove_largest-IsOneOut :
      (es : List Entry) (rs : List LogRecord) → IsHeld c es rs → IsOneOut (remove_largest es) rs
  unfolding remove_largest
  remove_largest-IsOneOut es rs h = with_key (largest es)
    where
      without :
          (k : BufKey) (r : Option (Entry × List Entry))
          → remove_entry k es ≡ r
          → IsOneOut (removed es r) rs
      without k none e = h
      without k (some ((k', b), left)) e =
          let (x, t, hx, ht, q) = remove_entry-IsHeld k es (k', b) left rs e h in
          (x, t, (x, [], hx, λ w. refl, λ w. omega (arith, weight-append w x [])), ht, q)

      with_key :
          (k : Option BufKey)
          → IsOneOut
              (elim k as (λ _. Option Entry × List Entry) [
                | none ↦ (none, es)
                | some k' ↦ removed es (remove_entry k' es)
              ])
              rs
      with_key none = h
      with_key (some k) = without k (remove_entry k es) refl

  join-IsSplit :
      (due : List Entry) (k : BufKey) (b : Buf) (es : List Entry) (a t rs : List LogRecord)
      → IsHeld c due a
      → SameRecords rs (a ++ t)
      → IsSplit ((k, b) ∷ [], es) t
      → IsSplit (due ++ (k, b) ∷ [], es) rs
  join-IsSplit due k b es a t rs ha q (x, d, hx, hd, q') = (
    a ++ x,
    d,
    IsHeld-append c due ((k, b) ∷ []) a x ha hx,
    hd,
    λ w. omega (
      arith,
      q w,
      q' w,
      weight-append w a t,
      weight-append w x d,
      weight-append w (a ++ x) d,
      weight-append w a x,
    ),
  )

  module _ (cfg : BufferConfig) where
    shed-IsSplit :
        (fuel : ℕ) (due es : List Entry) (a t : List LogRecord)
        → IsHeld c due a
        → IsHeld c es t
        → IsSplit (shed cfg fuel due es) (a ++ t)
    unfolding shed
    shed-IsSplit zero due es a t ha ht = (a, t, ha, ht, λ w. refl)
    shed-IsSplit (suc fuel) due es a t ha ht =
        elim (Bool-cases (ltb cfg.max_buffered_bytes (buffered_total es))) [
          | inl over ↦
              subst (λ z. IsSplit z (a ++ t)) (sym (shed_over cfg fuel due es over))
                (go (remove_largest es) (remove_largest-IsOneOut es t ht)
                  (λ due' es' a' t'. shed-IsSplit fuel due' es' a' t'))
          | inr under ↦
              subst (λ z. IsSplit z (a ++ t)) (sym (shed_under cfg fuel due es under))
                (a, t, ha, ht, λ w. refl)
        ]
      where
        go :
            (p : Option Entry × List Entry)
            → IsOneOut p t
            → ((due' es' : List Entry) (a' t' : List LogRecord)
                → IsHeld c due' a'
                → IsHeld c es' t'
                → IsSplit (shed cfg fuel due' es') (a' ++ t'))
            → IsSplit (shed_next cfg (shed cfg fuel) due p) (a ++ t)
        go (none, es') h ih = (a, t, ha, h, λ w. refl)
        go (some (k, b), es') h ih =
            let (a', t', ha', ht', q) = join-IsSplit due k b es' a t (a ++ t) ha (λ w. refl) h in
            let (x, y, hx, hy, q') = ih (due ++ (k, b) ∷ []) es' a' t' ha' ht' in
            (x, y, hx, hy, λ w. omega (arith, q w, q' w))

    pub take_due-IsSplit :
        (es : List Entry) (rs : List LogRecord) → IsHeld c es rs → IsSplit (take_due cfg es) rs
    unfolding take_due
    take_due-IsSplit es rs h = go (take_matching _ es) (take_matching-IsSplit _ es rs h)
      where
        go : (p : List Entry × List Entry) → IsSplit p rs → IsSplit (shed_from cfg p) rs
        go (due, left) (a, t, ha, ht, q) =
            let (x, y, hx, hy, q') = shed-IsSplit (length left) due left a t ha ht in
            (x, y, hx, hy, λ w. omega (arith, q w, q' w))

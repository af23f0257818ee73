-- ===== src/Buffer/Held.antt =====
-- Which records the buffers of a list hold together, and how the operations of the map move them.
use s4_logs.Prelude.{
  ◌≡◌, refl, subst, true, none, some, List, [], ◌∷◌, ◌++◌, arith, Bool-cases, inl, inr, All,
}
use s4_logs.Record.{LogRecord}
use s4_logs.Crates.{Crates}
use s4_logs.Chunk.Frames.{HasTime}
use s4_logs.Chunk.Held.{IsHolding}
use s4_logs.Buffer.{BufKey, Buf, Entry, is_key, lookup, insert}
use s4_logs.Buffer.Bags.{weight-append, SameRecords}

-- A record that can be written, with a time that fits.
abbrev pub IsFit : Crates → LogRecord → Type 0
IsFit c r = ((c.to_writer r).1 ≡ true) × HasTime r

module _ (c : Crates) where
  -- A buffer without a segment that holds these records.
  abbrev pub IsBuf : Buf → List LogRecord → Type 0
  IsBuf b x = IsHolding c b.writer x × (b.wal ≡ none) × All (IsFit c) x

  abbrev pub IsHeld : List Entry → List LogRecord → Type 0
  IsHeld [] rs = SameRecords rs []
  IsHeld ((k, b) ∷ es) rs =
      (x t : List LogRecord) × IsBuf b x × IsHeld es t × SameRecords rs (x ++ t)

  pub IsHeld-same :
      (es : List Entry) (rs rs' : List LogRecord)
      → SameRecords rs' rs
      → IsHeld es rs
      → IsHeld es rs'
  IsHeld-same [] rs rs' p h = λ f. omega (arith, p f, h f)
  IsHeld-same ((k, b) ∷ es) rs rs' p (x, t, hx, ht, q) =
      (x, t, hx, ht, λ f. omega (arith, p f, q f))

  pub IsHeld-append :
      (es es' : List Entry) (rs rs' : List LogRecord)
      → IsHeld es rs
      → IsHeld es' rs'
      → IsHeld (es ++ es') (rs ++ rs')
  IsHeld-append [] es' rs rs' h h' =
      IsHeld-same es' rs' (rs ++ rs') (λ f. omega (arith, h f, weight-append f rs rs')) h'
  IsHeld-append ((k, b) ∷ es) es' rs rs' (x, t, hx, ht, q) h' = (
    x,
    t ++ rs',
    hx,
    IsHeld-append es es' t rs' ht h',
    λ f. omega (
      arith,
      q f,
      weight-append f rs rs',
      weight-append f x t,
      weight-append f t rs',
      weight-append f x (t ++ rs'),
    ),
  )

  -- One buffer's records, and those of the others.
  pub IsHeld-middle :
      (es : List Entry) (k : BufKey) (b : Buf) (es' : List Entry) (rs : List LogRecord)
      → IsHeld (es ++ (k, b) ∷ es') rs
      → (x t : List LogRecord) × IsBuf b x × IsHeld (es ++ es') t × SameRecords rs (x ++ t)
  IsHeld-middle [] k b es' rs h = h
  IsHeld-middle ((k', b') ∷ es) k b es' rs (y, s, hy, hs, q) =
      let (x, t, hx, ht, q') = IsHeld-middle es k b es' s hs in
      (
        x,
        y ++ t,
        hx,
        (y, t, hy, ht, λ f. refl),
        λ f. omega (
          arith,
          q f,
          q' f,
          weight-append f y s,
          weight-append f x t,
          weight-append f y t,
          weight-append f x (y ++ t),
        ),
      )

  -- Into a vacant place.
  pub insert-IsHeld :
      (k : BufKey) (b : Buf) (es : List Entry) (x rs : List LogRecord)
      → lookup k es ≡ none
      → IsBuf b x
      → IsHeld es rs
      → IsHeld (insert k b es) (rs ++ x)
  insert-IsHeld k b [] x rs e hx h =
      (x, [], hx, λ f. refl, λ f. omega (arith, h f, weight-append f rs x, weight-append f x []))
  insert-IsHeld k b ((k', b') ∷ es) x rs e hx (y, t, hy, ht, q) = elim (Bool-cases (is_key k k')) [
    | inl same ↦ absurd (let e' : some b' ≡ none = rw same at e in cc)
    | inr other ↦ rw other (
      y,
      t ++ x,
      hy,
      insert-IsHeld k b es x t (rw other at e) hx ht,
      λ f. omega (
        arith,
        q f,
        weight-append f rs x,
        weight-append f y t,
        weight-append f t x,
        weight-append f y (t ++ x),
      ),
    )
  ]

  -- A buffer that is there, and what may stand in its place.
  pub lookup-IsHeld :
      (k : BufKey) (b : Buf) (es : List Entry) (rs : List LogRecord)
      → lookup k es ≡ some b
      → IsHeld es rs
      → (x t : List LogRecord) × IsBuf b x
        × SameRecords rs (x ++ t)
        × ((b' : Buf) (x' : List LogRecord) → IsBuf b' x' → IsHeld (insert k b' es) (x' ++ t))
  lookup-IsHeld k b [] rs e h = cc
  lookup-IsHeld k b ((k', b'') ∷ es) rs e (y, t, hy, ht, q) = elim (Bool-cases (is_key k k')) [
    | inl same ↦
        let e' : some b'' ≡ some b = rw same at e in
        let found : b'' ≡ b = cc in
        (
          y,
          t,
          subst (λ (z : Buf). IsBuf z y) found hy,
          q,
          λ b' x' hx'. rw same (x', t, hx', ht, λ f. refl),
        )
    | inr other ↦
        let (x, s, hx, q', put) = lookup-IsHeld k b es t (rw other at e) ht in
        (
          x,
          y ++ s,
          hx,
          λ f. omega (
            arith,
            q f,
            q' f,
            weight-append f y t,
            weight-append f x s,
            weight-append f y s,
            weight-append f x (y ++ s),
          ),
          λ b' x' hx'. rw other (
            y,
            x' ++ s,
            hy,
            put b' x' hx',
            λ f. omega (
              arith,
              weight-append f x' (y ++ s),
              weight-append f y s,
              weight-append f x' s,
              weight-append f y (x' ++ s),
            ),
          ),
        )
  ]

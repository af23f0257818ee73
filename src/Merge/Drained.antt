-- ===== src/Merge/Drained.antt =====
-- The merge of lists of records, without sources: what `KWayMerge` of crates/s4logs-cli/src/scan.rs
-- computes. An entry is a head with what follows it in its source.
use s4_logs.Prelude.{
  ◌<◌, ℕ, zero, suc, ◌+◌, ◌==◌, Bool, true, if◌then◌else◌, List, [], ◌∷◌, ◌≡◌, ◌≢◌, refl, sym,
  subst, All, Bool-cases, inl, inr,
}
use s4_logs.Prelude.Order.{
  IsOrder, insert_by, IsAbove, IsSorted, insert_by-All, insert_by-IsSorted, le_refl, on-IsOrder,
}
use s4_logs.Record.{LogRecord}
use s4_logs.Merge.{Head, rec_le, head_le}
use s4_logs.Merge.Heads.{head_le-IsOrder, head_le-rec_le}

pub record Entry : Type 0 where
  pub head : Head
  pub tail : List LogRecord

abbrev pub entry_le : Entry → Entry → Bool
entry_le a b = head_le a.head b.head

abbrev pub put : ℕ → List LogRecord → List Entry → List Entry
put i [] es = es
put i (r ∷ rs) es = insert_by entry_le (record { head = (r, i); tail = rs }) es

abbrev pub put_all : ℕ → List (List LogRecord) → List Entry → List Entry
put_all i [] es = es
put_all i (rs ∷ rss) es = put_all (i + 1) rss (put i rs es)

abbrev pub drained : ℕ → List Entry → List Head
drained zero es = []
drained (suc n) [] = []
drained (suc n) (e ∷ es) = e.head ∷ drained n (put e.head.1 e.tail es)

-- The records that a source gave.
abbrev pub of_source : ℕ → List Head → List LogRecord
of_source i [] = []
of_source i (h ∷ hs) = let rest = of_source i hs in if h.1 == i then h.0 ∷ rest else rest

abbrev pub IsFresh : ℕ → List Entry → Type 0
IsFresh i = All (λ e. e.head.1 ≢ i)

abbrev pub IsDistinct : List Entry → Type 0
IsDistinct [] = Unit
IsDistinct (e ∷ es) = IsFresh e.head.1 es × IsDistinct es

abbrev pub IsChain : Entry → Type 0
IsChain e = IsSorted rec_le (e.head.0 ∷ e.tail)

entry_le-IsOrder : IsOrder entry_le
entry_le-IsOrder = on-IsOrder head_le (λ e. e.head) head_le-IsOrder

pub put-All :
    (P : Entry → Type 0) (i : ℕ) (rs : List LogRecord) (es : List Entry)
    → ((r : LogRecord) (t : List LogRecord) → rs ≡ r ∷ t → P (record { head = (r, i); tail = t }))
    → All P es
    → All P (put i rs es)
put-All P i [] es p h = h
put-All P i (r ∷ rs) es p h =
    insert_by-All entry_le P (record { head = (r, i); tail = rs }) es (p r rs refl) h

insert-IsDistinct :
    (e : Entry) (es : List Entry)
    → IsFresh e.head.1 es
    → IsDistinct es
    → IsDistinct (insert_by entry_le e es)
insert-IsDistinct e [] f d = (tt, tt)
insert-IsDistinct e (e' ∷ es) f d = elim (Bool-cases (entry_le e e')) [
  | inl q ↦ rw (q) (f, d)
  | inr q ↦ rw (q) (
    insert_by-All entry_le (λ z. z.head.1 ≢ e'.head.1) e es (λ same. f.0 (sym same)) d.0,
    insert-IsDistinct e es f.1 d.1,
  )
]

pub put-IsDistinct :
    (i : ℕ) (rs : List LogRecord) (es : List Entry)
    → IsFresh i es
    → IsDistinct es
    → IsDistinct (put i rs es)
put-IsDistinct i [] es f d = d
put-IsDistinct i (r ∷ rs) es f d = insert-IsDistinct (record { head = (r, i); tail = rs }) es f d

-- Nothing comes out below the least head.
pub put-IsChain :
    (i : ℕ) (rs : List LogRecord) (es : List Entry)
    → IsSorted rec_le rs
    → All IsChain es
    → All IsChain (put i rs es)
put-IsChain i [] es s c = c
put-IsChain i (r ∷ rs) es s c =
    insert_by-All entry_le IsChain (record { head = (r, i); tail = rs }) es s c

pub put-IsSorted :
    (i : ℕ) (rs : List LogRecord) (es : List Entry)
    → IsSorted entry_le es
    → IsSorted entry_le (put i rs es)
put-IsSorted i [] es s = s
put-IsSorted i (r ∷ rs) es s =
    insert_by-IsSorted entry_le entry_le-IsOrder (record { head = (r, i); tail = rs }) es s

put-above :
    (k : Head) (e : Entry) (es : List Entry)
    → head_le k e.head ≡ true
    → IsChain e
    → All (λ z. head_le k z.head ≡ true) es
    → All (λ z. head_le k z.head ≡ true) (put e.head.1 e.tail es)
put-above k e es h c a =
    put-All (λ z. head_le k z.head ≡ true) e.head.1 e.tail es
      (λ r t same.
        head_le-IsOrder.trans k e.head (r, e.head.1) h
          (head_le-rec_le e.head.0 r e.head.1 (subst (IsAbove rec_le e.head.0) same c.0).0))
      a

drained-IsAbove :
    (n : ℕ) (k : Head) (es : List Entry)
    → All (λ z. head_le k z.head ≡ true) es
    → All IsChain es
    → IsAbove head_le k (drained n es)
drained-IsAbove zero k es a c = tt
drained-IsAbove (suc n) k [] a c = tt
drained-IsAbove (suc n) k (e ∷ es) a c = (
  a.0,
  drained-IsAbove n k (put e.head.1 e.tail es) (put-above k e es a.0 c.0 a.1)
      (put-IsChain e.head.1 e.tail es c.0.1 c.1),
)

pub drained-IsSorted :
    (n : ℕ) (es : List Entry)
    → IsSorted entry_le es
    → All IsChain es
    → IsSorted head_le (drained n es)
drained-IsSorted zero es s c = tt
drained-IsSorted (suc n) [] s c = tt
drained-IsSorted (suc n) (e ∷ es) s c =
    let chains = put-IsChain e.head.1 e.tail es c.0.1 c.1 in
    (
      drained-IsAbove n e.head (put e.head.1 e.tail es)
          (put-above e.head e es (le_refl head_le head_le-IsOrder e.head) c.0 s.0) chains,
      drained-IsSorted n (put e.head.1 e.tail es) (put-IsSorted e.head.1 e.tail es s.1) chains,
    )

pub drained_below :
    (k n : ℕ) (es : List Entry) → All (λ e. e.head.1 < k) es → All (λ h. h.1 < k) (drained n es)
drained_below k zero es h = tt
drained_below k (suc n) [] h = tt
drained_below k (suc n) (e ∷ es) h = (
  h.0,
  drained_below k n (put e.head.1 e.tail es)
      (put-All (λ z. z.head.1 < k) e.head.1 e.tail es (λ r t same. h.0) h.1),
)

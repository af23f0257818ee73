-- ===== src/Merge/Given.antt =====
-- The records of each source in what `KWayMerge` of crates/s4logs-cli/src/scan.rs gives.
use s4_logs.Prelude.{
  ℕ, zero, suc, ◌+◌, ◌≤◌, ◌<◌, ◌==◌, Bool, true, false, if◌then◌else◌, some, List, [], ◌∷◌, ◌++◌,
  ◌≡◌, ◌≢◌, refl, ap, ◌∙◌, All, All-map, length, get_elem?, Bool-cases, inl, inr, arith, append-nil,
  map,
}
use s4_logs.Prelude.Order.{insert_by, IsSorted}
use s4_logs.Record.{LogRecord}
use s4_logs.Buffer.Bags.{weight, weight-append, weight-insert_by}
use s4_logs.Merge.{rec_le, concat}
use s4_logs.Merge.Drained.{
  Entry, entry_le, put, put_all, drained, of_source, IsFresh, IsDistinct, IsChain, put-IsDistinct,
  put-All, put-IsChain, put-IsSorted,
}

abbrev joined : Bool → List LogRecord → List LogRecord → List LogRecord
joined true rs rest = rs ++ rest
joined false rs rest = rest

-- What the entries hold of a source.
abbrev pub content : ℕ → List Entry → List LogRecord
content i [] = []
content i (e ∷ es) = joined (e.head.1 == i) (e.head.0 ∷ e.tail) (content i es)

abbrev pub size : List Entry → ℕ
size [] = 0
size (e ∷ es) = suc (length e.tail) + size es

abbrev pub total : List (List LogRecord) → ℕ
total [] = 0
total (rs ∷ rss) = length rs + total rss

apart : (a b i : ℕ) → b ≢ a → (a == i) ≡ true → (b == i) ≡ false
apart a b i h e = ground arith

joined_swap :
    (a b i : ℕ) (xs ys rest : List LogRecord)
    → b ≢ a
    → joined (b == i) ys (joined (a == i) xs rest) ≡ joined (a == i) xs (joined (b == i) ys rest)
joined_swap a b i xs ys rest h = elim (Bool-cases (a == i)) [
  | inl e ↦ rw (e, apart a b i h e) refl
  | inr e ↦ rw (e) refl
]

content_insert :
    (i : ℕ) (e : Entry) (es : List Entry)
    → IsFresh e.head.1 es
    → content i (insert_by entry_le e es) ≡ content i (e ∷ es)
content_insert i e [] f = refl
content_insert i e (e' ∷ es) f = elim (Bool-cases (entry_le e e')) [
  | inl q ↦ rw (q) refl
  | inr q ↦ rw (q) (
      ap (λ z. joined (e'.head.1 == i) (e'.head.0 ∷ e'.tail) z) (content_insert i e es f.1)
      ∙ joined_swap e.head.1 e'.head.1 i (e.head.0 ∷ e.tail) (e'.head.0 ∷ e'.tail) (content i es)
          f.0)
]

joined_nil : (b : Bool) (rest : List LogRecord) → rest ≡ joined b [] rest
joined_nil true rest = refl
joined_nil false rest = refl

content_put :
    (i j : ℕ) (rs : List LogRecord) (es : List Entry)
    → IsFresh i es
    → content j (put i rs es) ≡ joined (i == j) rs (content j es)
content_put i j [] es f = joined_nil (i == j) (content j es)
content_put i j (r ∷ rs) es f = content_insert j (record { head = (r, i); tail = rs }) es f

size_insert : (e : Entry) (es : List Entry) → size (insert_by entry_le e es) ≡ size (e ∷ es)
size_insert e [] = refl
size_insert e (e' ∷ es) = elim (Bool-cases (entry_le e e')) [
  | inl q ↦ rw (q) refl
  | inr q ↦ rw (q) (omega (arith, size_insert e es))
]

pub size_put :
    (i : ℕ) (rs : List LogRecord) (es : List Entry) → size (put i rs es) ≡ length rs + size es
size_put i [] es = omega arith
size_put i (r ∷ rs) es = size_insert (record { head = (r, i); tail = rs }) es

pub size_put_all :
    (i : ℕ) (rss : List (List LogRecord)) (es : List Entry)
    → size (put_all i rss es) ≡ total rss + size es
size_put_all i [] es = omega arith
size_put_all i (rs ∷ rss) es =
    omega (arith, size_put_all (i + 1) rss (put i rs es), size_put i rs es)

took_one :
    (b : Bool) (r : LogRecord) (t rest taken : List LogRecord)
    → taken ≡ joined b t rest
    → (if b then r ∷ taken else taken) ≡ joined b (r ∷ t) rest
took_one true r t rest taken h = ap (λ z. r ∷ z) h
took_one false r t rest taken h = h

pub of_source-drained :
    (n i : ℕ) (es : List Entry)
    → size es ≤ n
    → IsDistinct es
    → of_source i (drained n es) ≡ content i es
of_source-drained zero i [] h d = refl
of_source-drained zero i (e ∷ es) h d = absurd (omega arith)
of_source-drained (suc n) i [] h d = refl
of_source-drained (suc n) i (e ∷ es) h d =
    took_one (e.head.1 == i) e.head.0 e.tail (content i es)
      (of_source i (drained n (put e.head.1 e.tail es)))
      (of_source-drained n i (put e.head.1 e.tail es) (omega (arith, size_put e.head.1 e.tail es))
          (put-IsDistinct e.head.1 e.tail es d.0 d.1)
        ∙ content_put e.head.1 i e.tail es d.0)

-- What the entries hold, weighed.
abbrev held_weight : (LogRecord → ℕ) → Entry → ℕ
held_weight f e = f e.head.0 + weight f e.tail

weight-put :
    (f : LogRecord → ℕ) (i : ℕ) (rs : List LogRecord) (es : List Entry)
    → weight (held_weight f) (put i rs es) ≡ weight f rs + weight (held_weight f) es
weight-put f i [] es = omega arith
weight-put f i (r ∷ rs) es =
    weight-insert_by entry_le (held_weight f) (record { head = (r, i); tail = rs }) es

pub weight-put_all :
    (f : LogRecord → ℕ) (i : ℕ) (rss : List (List LogRecord)) (es : List Entry)
    → weight (held_weight f) (put_all i rss es) ≡ weight f (concat rss) + weight (held_weight f) es
weight-put_all f i [] es = omega arith
weight-put_all f i (rs ∷ rss) es = omega (
  arith,
  weight-put_all f (i + 1) rss (put i rs es),
  weight-put f i rs es,
  weight-append f rs (concat rss),
)

pub weight-drained :
    (f : LogRecord → ℕ) (n : ℕ) (es : List Entry)
    → size es ≤ n
    → weight f (map (λ h. h.0) (drained n es)) ≡ weight (held_weight f) es
weight-drained f zero [] h = refl
weight-drained f zero (e ∷ es) h = absurd (omega arith)
weight-drained f (suc n) [] h = refl
weight-drained f (suc n) (e ∷ es) h =
    let smaller = size_put e.head.1 e.tail es in
    omega (
      arith,
      weight-put f e.head.1 e.tail es,
      weight-drained f n (put e.head.1 e.tail es) (omega (arith, smaller)),
    )

abbrev pub AreBelow : ℕ → List Entry → Type 0
AreBelow i = All (λ e. e.head.1 < i)

pub AreBelow-IsFresh : (i : ℕ) (es : List Entry) → AreBelow i es → IsFresh i es
AreBelow-IsFresh i es h = All-map (λ e. e.head.1 < i) (λ e. e.head.1 ≢ i) es (λ e l. omega arith) h

pub put_below :
    (i : ℕ) (rs : List LogRecord) (es : List Entry) → AreBelow i es → AreBelow (i + 1) (put i rs es)
put_below i rs es h =
    put-All (λ e. e.head.1 < i + 1) i rs es (λ r t same. omega arith)
      (All-map (λ e. e.head.1 < i) (λ e. e.head.1 < i + 1) es (λ e l. omega arith) h)

-- The sources before the `i`-th keep what they have.
content_kept :
    (i k : ℕ) (rss : List (List LogRecord)) (es : List Entry)
    → k < i
    → AreBelow i es
    → content k (put_all i rss es) ≡ content k es
content_kept i k [] es h b = refl
content_kept i k (rs ∷ rss) es h b =
    let other : (i == k) ≡ false = ground arith in
    content_kept (i + 1) k rss (put i rs es) (omega arith) (put_below i rs es b)
    ∙ (content_put i k rs es (AreBelow-IsFresh i es b) ∙ rw (other) refl)

none_below : (i k : ℕ) (es : List Entry) → i ≤ k → AreBelow i es → content k es ≡ []
none_below i k [] h b = refl
none_below i k (e ∷ es) h b =
    let other : (e.head.1 == k) ≡ false = ground (arith, b.0) in
    rw (other) (none_below i k es h b.1)

pub content-put_all :
    (i j k : ℕ) (rss : List (List LogRecord)) (rs : List LogRecord) (es : List Entry)
    → k ≡ i + j
    → AreBelow i es
    → get_elem? rss j ≡ some rs
    → content k (put_all i rss es) ≡ rs
content-put_all i j k [] rs es q b h = cc
content-put_all i zero k (rs' ∷ rss) rs es q b h =
    let here : (i == k) ≡ true = ground arith in
    let same : rs' ≡ rs = cc in
    content_kept (i + 1) k rss (put i rs' es) (omega arith) (put_below i rs' es b)
    ∙ (content_put i k rs' es (AreBelow-IsFresh i es b)
        ∙ rw (here, none_below i k es (omega arith) b) (append-nil rs' ∙ same))
content-put_all i (suc j) k (rs' ∷ rss) rs es q b h =
    content-put_all (i + 1) j k rss rs (put i rs' es) (omega arith) (put_below i rs' es b) h

pub put_all-IsDistinct :
    (i : ℕ) (rss : List (List LogRecord)) (es : List Entry)
    → AreBelow i es
    → IsDistinct es
    → IsDistinct (put_all i rss es)
put_all-IsDistinct i [] es b d = d
put_all-IsDistinct i (rs ∷ rss) es b d =
    put_all-IsDistinct (i + 1) rss (put i rs es) (put_below i rs es b)
      (put-IsDistinct i rs es (AreBelow-IsFresh i es b) d)

pub put_all-IsChain :
    (i : ℕ) (rss : List (List LogRecord)) (es : List Entry)
    → All (IsSorted rec_le) rss
    → All IsChain es
    → All IsChain (put_all i rss es)
put_all-IsChain i [] es s c = c
put_all-IsChain i (rs ∷ rss) es s c =
    put_all-IsChain (i + 1) rss (put i rs es) s.1 (put-IsChain i rs es s.0 c)

pub put_all-IsSorted :
    (i : ℕ) (rss : List (List LogRecord)) (es : List Entry)
    → IsSorted entry_le es
    → IsSorted entry_le (put_all i rss es)
put_all-IsSorted i [] es s = s
put_all-IsSorted i (rs ∷ rss) es s =
    put_all-IsSorted (i + 1) rss (put i rs es) (put-IsSorted i rs es s)

pub put_all_below :
    (k i : ℕ) (rss : List (List LogRecord)) (es : List Entry)
    → i + length rss ≤ k
    → AreBelow k es
    → AreBelow k (put_all i rss es)
put_all_below k i [] es h b = b
put_all_below k i (rs ∷ rss) es h b =
    put_all_below k (i + 1) rss (put i rs es) (omega arith)
      (put-All (λ e. e.head.1 < k) i rs es (λ r t same. omega arith) b)

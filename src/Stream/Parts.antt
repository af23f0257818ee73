-- ===== src/Stream/Parts.antt =====
-- What the merge of crates/s4logs-cli/src/scan.rs gives, taken apart by the sources of its heads.
use s4_logs.Prelude.{
  ℕ, zero, suc, ◌+◌, ◌<◌, ◌≤◌, ◌==◌, ◌≡◌, refl, sym, ap, subst, ◌∙◌, false, Option, none, some,
  List, [], ◌∷◌, ◌++◌, All, length, map, get_elem?, arith, Bool-cases, inl, inr,
}
use s4_logs.Prelude.Text.{Bytes}
use s4_logs.Record.{LogRecord}
use s4_logs.Buffer.Bags.{weight, weight-append}
use s4_logs.Merge.{Head, concat}
use s4_logs.Merge.Drained.{of_source}

-- The weight of the heads of `n` sources from `i` on.
abbrev by_source : (Head → ℕ) → List Head → ℕ → ℕ → ℕ
by_source f hs i zero = 0
by_source f hs i (suc n) = weight (λ r. f (r, i)) (of_source i hs) + by_source f hs (suc i) n

by_source-nil : (f : Head → ℕ) (i n : ℕ) → by_source f [] i n ≡ 0
by_source-nil f i zero = refl
by_source-nil f i (suc n) = omega (arith, by_source-nil f (suc i) n)

of_source_other :
    (h : Head) (hs : List Head) (i : ℕ) → (h.1 == i) ≡ false → of_source i (h ∷ hs) ≡ of_source i hs
of_source_other h hs i e = rw (e) refl

by_source_past :
    (f : Head → ℕ) (h : Head) (hs : List Head) (i n : ℕ)
    → h.1 < i
    → by_source f (h ∷ hs) i n ≡ by_source f hs i n
by_source_past f h hs i zero l = refl
by_source_past f h hs i (suc n) l =
    let other : (h.1 == i) ≡ false = ground arith in
    omega (
      arith,
      ap (weight (λ r. f (r, i))) (of_source_other h hs i other),
      by_source_past f h hs (suc i) n (omega arith),
    )

by_source-cons :
    (f : Head → ℕ) (r : LogRecord) (src : ℕ) (hs : List Head) (i n : ℕ)
    → i ≤ src
    → src < i + n
    → by_source f ((r, src) ∷ hs) i n ≡ f (r, src) + by_source f hs i n
by_source-cons f r src hs i zero l u = absurd (omega arith)
by_source-cons f r src hs i (suc n) l u = elim (Bool-cases (src == i)) [
  | inl e ↦
      let same : src ≡ i = ground arith in
      let here : of_source i ((r, src) ∷ hs) ≡ r ∷ of_source i hs = rw (e) refl in
      omega (
        arith,
        ap (weight (λ z. f (z, i))) here,
        ap (λ (z : ℕ). f (r, z)) same,
        by_source_past f (r, src) hs (suc i) n (omega (arith, same)),
      )
  | inr e ↦
      let more : suc i ≤ src = ground arith in
      omega (
        arith,
        ap (weight (λ z. f (z, i))) (of_source_other (r, src) hs i e),
        by_source-cons f r src hs (suc i) n more (omega arith),
      )
]

weight-by_source :
    (f : Head → ℕ) (k : ℕ) (hs : List Head)
    → All (λ h. h.1 < k) hs
    → weight f hs ≡ by_source f hs 0 k
weight-by_source f k [] low = sym (by_source-nil f 0 k)
weight-by_source f k ((r, src) ∷ hs) low = omega (
  arith,
  by_source-cons f r src hs 0 k (omega arith) (omega (arith, low.0)),
  weight-by_source f k hs low.1,
)

abbrev pub in_named : (LogRecord × Bytes → ℕ) → LogRecord → Option Bytes → ℕ
in_named f r none = 0
in_named f r (some name) = f (r, name)

abbrev name_of : List Bytes → Option ℕ → Option Bytes
name_of names o = elim o [ none ↦ none | some g ↦ get_elem? names g ]

-- The weight of a record in the group with this index.
abbrev pub in_group : (LogRecord × Bytes → ℕ) → List Bytes → ℕ → LogRecord → ℕ
in_group f names g r = in_named f r (get_elem? names g)

abbrev pub of_group : (LogRecord × Bytes → ℕ) → List Bytes → List ℕ → Head → ℕ
of_group f names gs h = in_named f h.0 (name_of names (get_elem? gs h.1))

-- The weight of the sources' records, each in its source's group.
abbrev pub grouped : (LogRecord × Bytes → ℕ) → List Bytes → List ℕ → List (List LogRecord) → ℕ
grouped f names [] rss = 0
grouped f names (g ∷ gs) [] = 0
grouped f names (g ∷ gs) (rs ∷ rss) = weight (in_group f names g) rs + grouped f names gs rss

pub grouped-append :
    (f : LogRecord × Bytes → ℕ) (names : List Bytes) (gs gs' : List ℕ)
    (rss rss' : List (List LogRecord))
    → length gs ≡ length rss
    → grouped f names (gs ++ gs') (rss ++ rss') ≡ grouped f names gs rss + grouped f names gs' rss'
grouped-append f names [] gs' [] rss' l = omega arith
grouped-append f names [] gs' (rs ∷ rss) rss' l = absurd (omega arith)
grouped-append f names (g ∷ gs) gs' [] rss' l = absurd (omega arith)
grouped-append f names (g ∷ gs) gs' (rs ∷ rss) rss' l =
    omega (arith, grouped-append f names gs gs' rss rss' (omega arith))

pub grouped_one :
    {A : Type 0} (f : LogRecord × Bytes → ℕ) (names : List Bytes) (g : ℕ) (xs : List A)
    (rss : List (List LogRecord))
    → length xs ≡ length rss
    → grouped f names (map (λ x. g) xs) rss ≡ weight (in_group f names g) (concat rss)
grouped_one f names g [] [] l = refl
grouped_one f names g [] (rs ∷ rss) l = absurd (omega arith)
grouped_one f names g (x ∷ xs) [] l = absurd (omega arith)
grouped_one f names g (x ∷ xs) (rs ∷ rss) l = omega (
  arith,
  grouped_one f names g xs rss (omega arith),
  weight-append (in_group f names g) rs (concat rss),
)

by_source-grouped :
    (f : LogRecord × Bytes → ℕ) (names : List Bytes) (all gs : List ℕ) (hs : List Head) (i : ℕ)
    (rss : List (List LogRecord))
    → length gs ≡ length rss
    → ((j : ℕ) (g : ℕ) → get_elem? gs j ≡ some g → get_elem? all (i + j) ≡ some g)
    → ((j : ℕ) (rs : List LogRecord) → get_elem? rss j ≡ some rs → of_source (i + j) hs ≡ rs)
    → by_source (of_group f names all) hs i (length rss) ≡ grouped f names gs rss
by_source-grouped f names all [] hs i [] l at held = refl
by_source-grouped f names all [] hs i (rs ∷ rss) l at held = absurd (omega arith)
by_source-grouped f names all (g ∷ gs) hs i [] l at held = absurd (omega arith)
by_source-grouped f names all (g ∷ gs) hs i (rs ∷ rss) l at held =
    let start : i + 0 ≡ i = omega arith in
    let here : of_source i hs ≡ rs =
      subst (λ (z : ℕ). of_source z hs ≡ rs) start (held 0 rs refl) in
    let found : get_elem? all i ≡ some g =
      subst (λ (z : ℕ). get_elem? all z ≡ some g) start (at 0 g refl) in
    let first : weight (λ r. of_group f names all (r, i)) (of_source i hs)
        ≡ weight (in_group f names g) rs =
      ap (weight (λ r. of_group f names all (r, i))) here
      ∙ ap (λ z. weight (λ r. in_named f r (name_of names z)) rs) found in
    omega (
      arith,
      first,
      by_source-grouped f names all gs hs (suc i) rss (omega arith)
          (λ j g' e. subst (λ (z : ℕ). get_elem? all z ≡ some g') (omega arith) (at (suc j) g' e))
          (λ j rs' e. subst (λ (z : ℕ). of_source z hs ≡ rs') (omega arith) (held (suc j) rs' e)),
    )

-- The heads, each in its source's group, weigh as much as the sources' records.
pub weight-grouped :
    (f : LogRecord × Bytes → ℕ) (names : List Bytes) (gs : List ℕ) (hs : List Head)
    (rss : List (List LogRecord))
    → length gs ≡ length rss
    → All (λ h. h.1 < length rss) hs
    → ((i : ℕ) (rs : List LogRecord) → get_elem? rss i ≡ some rs → of_source i hs ≡ rs)
    → weight (of_group f names gs) hs ≡ grouped f names gs rss
weight-grouped f names gs hs rss l low held =
    weight-by_source (of_group f names gs) (length rss) hs low
    ∙ by_source-grouped f names gs gs hs 0 rss l
        (λ j g e. subst (λ (z : ℕ). get_elem? gs z ≡ some g) (omega arith) e)
        (λ j rs e. subst (λ (z : ℕ). of_source z hs ≡ rs) (omega arith) (held j rs e))

-- ===== src/Cluster/Apart.antt =====
-- The groups of `cluster_spans` of crates/s4logs-cli/src/scan.rs lie apart in time.
use s4_logs.Prelude.{
  Bool, true, false, List, [], ◌∷◌, ◌++◌, ◌≡◌, refl, sym, ap, subst, ◌∙◌, All, All-map, All-append,
  append_assoc, leb, Bool-cases, inl, inr, arith, length, suc, ◌≤◌,
}
use s4_logs.Prelude.Int.{ℤ, ◌≤ℤ◌, ◌<ℤ◌, leb_ℤ, max_ℤ}
use s4_logs.Prelude.Order.{
  IsOrder, lex, lex-IsOrder, leb-IsOrder, leb_ℤ-IsOrder, on-IsOrder, sort_by, sort_by-IsSorted,
  IsSorted, length-sort_by,
}
use s4_logs.Cluster.{Timed, timed_le, group_from, grouped, clusters}

abbrev pub flat : List (List Timed) → List Timed
flat [] = []
flat (c ∷ cs) = c ++ flat cs

-- All of the second list comes after all of the first.
abbrev pub IsBefore : List Timed → List Timed → Type 0
IsBefore xs ys = All (λ x. All (λ y. x.max_ts <ℤ y.min_ts) ys) xs

abbrev pub AreApart : List (List Timed) → Type 0
AreApart [] = Unit
AreApart (c ∷ cs) = IsBefore c (flat cs) × AreApart cs

timed_le-IsOrder : IsOrder timed_le
unfolding timed_le
timed_le-IsOrder =
    on-IsOrder (lex leb_ℤ leb) (λ t. (t.min_ts, t.span.frame_idx))
      (lex-IsOrder leb_ℤ leb leb_ℤ-IsOrder leb-IsOrder)

min_le : (a b : Timed) → timed_le a b ≡ true → a.min_ts ≤ℤ b.min_ts
unfolding timed_le
min_le a b h = ground arith

abbrev by_test : ℤ → List Timed → Timed → List Timed → Bool → List (List Timed)
by_test m c t ts true = group_from (max_ℤ m t.max_ts) (c ++ t ∷ []) ts
by_test m c t ts false = c ∷ group_from t.max_ts (t ∷ []) ts

group_from_test :
    (m : ℤ) (c : List Timed) (t : Timed) (ts : List Timed) (b : Bool)
    → leb_ℤ t.min_ts m ≡ b
    → group_from m c (t ∷ ts) ≡ by_test m c t ts b
unfolding group_from
group_from_test m c t ts b e = ap (by_test m c t ts) e

flat-group_from : (m : ℤ) (c ts : List Timed) → flat (group_from m c ts) ≡ c ++ ts
unfolding group_from
flat-group_from m c [] = refl
flat-group_from m c (t ∷ ts) = elim (Bool-cases (leb_ℤ t.min_ts m)) [
  | inl e ↦
      rw (group_from_test m c t ts true e)
        (flat-group_from (max_ℤ m t.max_ts) (c ++ t ∷ []) ts ∙ append_assoc c (t ∷ []) ts)
  | inr e ↦
      rw (group_from_test m c t ts false e)
        (ap (λ z. c ++ z) (flat-group_from t.max_ts (t ∷ []) ts))
]

group_from_apart :
    (m : ℤ) (c ts : List Timed)
    → All (λ x. x.max_ts ≤ℤ m) c
    → IsSorted timed_le ts
    → AreApart (group_from m c ts)
unfolding group_from
group_from_apart m c [] h s = (All-map (λ x. x.max_ts ≤ℤ m) (λ x. Unit) c (λ x l. tt) h, tt)
group_from_apart m c (t ∷ ts) h s = elim (Bool-cases (leb_ℤ t.min_ts m)) [
  | inl e ↦ subst AreApart (sym (group_from_test m c t ts true e)) (
      group_from_apart (max_ℤ m t.max_ts) (c ++ t ∷ []) ts
        (All-append (λ x. x.max_ts ≤ℤ max_ℤ m t.max_ts) c (t ∷ [])
          (All-map (λ x. x.max_ts ≤ℤ m) (λ x. x.max_ts ≤ℤ max_ℤ m t.max_ts) c (λ x l. ground arith)
            h)
          (ground arith, tt))
        s.1)
  | inr e ↦ subst AreApart (sym (group_from_test m c t ts false e)) (
    subst (IsBefore c) (sym (flat-group_from t.max_ts (t ∷ []) ts)) (
        All-map (λ x. x.max_ts ≤ℤ m) (λ x. All (λ y. x.max_ts <ℤ y.min_ts) (t ∷ ts)) c
          (λ x l. (
            ground arith,
            All-map (λ y. timed_le t y ≡ true) (λ y. x.max_ts <ℤ y.min_ts) ts
                (λ y k. let up = min_le t y k in ground arith) s.0,
          ))
          h),
    group_from_apart t.max_ts (t ∷ []) ts (omega arith, tt) s.1,
  )
]

grouped_apart :
    (ts : List Timed) → IsSorted timed_le ts → AreApart (grouped ts) × (flat (grouped ts) ≡ ts)
unfolding grouped
grouped_apart [] s = (tt, refl)
grouped_apart (t ∷ ts) s = (
  group_from_apart t.max_ts (t ∷ []) ts (omega arith, tt) s.1,
  flat-group_from t.max_ts (t ∷ []) ts,
)

length-group_from : (m : ℤ) (c ts : List Timed) → length (group_from m c ts) ≤ suc (length ts)
unfolding group_from
length-group_from m c [] = omega arith
length-group_from m c (t ∷ ts) = elim (Bool-cases (leb_ℤ t.min_ts m)) [
  | inl e ↦
      let shorter = length-group_from (max_ℤ m t.max_ts) (c ++ t ∷ []) ts in
      omega
        (arith, shorter, ap (λ (z : List (List Timed)). length z) (group_from_test m c t ts true e))
  | inr e ↦
      let shorter = length-group_from t.max_ts (t ∷ []) ts in
      omega (
        arith,
        shorter,
        ap (λ (z : List (List Timed)). length z) (group_from_test m c t ts false e),
      )
]

length-grouped : (ts : List Timed) → length (grouped ts) ≤ length ts
unfolding grouped
length-grouped [] = omega arith
length-grouped (t ∷ ts) = length-group_from t.max_ts (t ∷ []) ts

pub length-clusters : (spans : List Timed) → length (clusters spans) ≤ length spans
unfolding clusters
length-clusters spans =
    omega (arith, length-grouped (sort_by timed_le spans), length-sort_by timed_le spans)

-- x
pub clusters_apart :
    (spans : List Timed)
    → AreApart (clusters spans) × (flat (clusters spans) ≡ sort_by timed_le spans)
unfolding clusters
clusters_apart spans =
    grouped_apart (sort_by timed_le spans) (sort_by-IsSorted timed_le timed_le-IsOrder spans)

-- ===== src/Prelude/Order.antt =====
-- Boolean orders: tuples and bytes compared part by part, and the stable sort by a key.
use s4_logs.Prelude.Tests.{ltb, leb, ◌==◌, if◌then◌else◌, Bool-cases}
use s4_logs.Prelude.Lists.{All, length}
use s4_logs.Prelude.Int.{leb_ℤ}
use s4_logs.Prelude.Text.{Bytes}
use Prim.Native.Nat.{suc}
use mathlib.Core.Path.{◌≡◌, refl, ap, ◌∙◌}
use mathlib.Core.Logic.{inl, inr}
use mathlib.Core.Bool.{Bool, true, false}
use mathlib.Core.List.{List, [], ◌∷◌}
use native.Mathlib.Omega.{arith}

-- A total preorder.
pub record IsOrder {A : Type 0} (le : A → A → Bool) : Type 0 where
  pub total : (a b : A) → le a b ≡ false → le b a ≡ true
  pub trans : (a b c : A) → le a b ≡ true → le b c ≡ true → le a c ≡ true

pub leb-IsOrder : IsOrder leb
leb-IsOrder = record { total = λ a b h. ground arith; trans = λ a b c h k. ground arith }

pub leb_ℤ-IsOrder : IsOrder leb_ℤ
leb_ℤ-IsOrder = record { total = λ a b h. ground arith; trans = λ a b c h k. ground arith }

-- `Ord` of a pair: the second parts decide if the first are equal.
abbrev lex_by : Bool → Bool → Bool → Bool
lex_by true true z = z
lex_by true false z = true
lex_by false y z = false

abbrev pub lex : {A B : Type 0} → (A → A → Bool) → (B → B → Bool) → A × B → A × B → Bool
lex le le' (a, b) (a', b') = lex_by (le a a') (le a' a) (le' b b')

lex_by_first : (x y z : Bool) → lex_by x y z ≡ true → x ≡ true
lex_by_first true y z h = refl
lex_by_first false y z h = h

pub lex_first :
    {A B : Type 0} (le : A → A → Bool) (le' : B → B → Bool) (x y : A × B)
    → lex le le' x y ≡ true
    → le x.0 y.0 ≡ true
lex_first le le' (a, b) (a', b') h = lex_by_first (le a a') (le a' a) (le' b b') h

lex_by_total :
    (x y z w : Bool)
    → (x ≡ false → y ≡ true)
    → (z ≡ false → w ≡ true)
    → lex_by x y z ≡ false
    → lex_by y x w ≡ true
lex_by_total true true z w f g h = g h
lex_by_total true false z w f g h = cc
lex_by_total false true z w f g h = refl
lex_by_total false false z w f g h = f refl

lex_by_trans :
    (x1 y1 z1 x2 y2 z2 x3 y3 z3 : Bool)
    → (x1 ≡ true → x2 ≡ true → x3 ≡ true)
    → (y3 ≡ true → x1 ≡ true → y2 ≡ true)
    → (x2 ≡ true → y3 ≡ true → y1 ≡ true)
    → (z1 ≡ true → z2 ≡ true → z3 ≡ true)
    → lex_by x1 y1 z1 ≡ true
    → lex_by x2 y2 z2 ≡ true
    → lex_by x3 y3 z3 ≡ true
lex_by_trans false y1 z1 x2 y2 z2 x3 y3 z3 f g k t h h' = cc
lex_by_trans true y1 z1 false y2 z2 x3 y3 z3 f g k t h h' = cc
lex_by_trans true y1 z1 true y2 z2 false y3 z3 f g k t h h' = f refl refl
lex_by_trans true y1 z1 true y2 z2 true false z3 f g k t h h' = refl
lex_by_trans true false z1 true y2 z2 true true z3 f g k t h h' =
    let e : false ≡ true = k refl refl in cc
lex_by_trans true true z1 true false z2 true true z3 f g k t h h' =
    let e : false ≡ true = g refl refl in cc
lex_by_trans true true z1 true true z2 true true z3 f g k t h h' = t h h'

pub lex-IsOrder :
    {A B : Type 0} (le : A → A → Bool) (le' : B → B → Bool)
    → IsOrder le
    → IsOrder le'
    → IsOrder (lex le le')
lex-IsOrder le le' o o' = record {
  total = λ (a, b) (a', b') h.
      lex_by_total (le a a') (le a' a) (le' b b') (le' b' b) (o.total a a') (o'.total b b') h;
  trans = λ (a, b) (a', b') (a'', b'') h h'.
      lex_by_trans (le a a') (le a' a) (le' b b') (le a' a'') (le a'' a') (le' b' b'') (le a a'')
        (le a'' a) (le' b b'') (o.trans a a' a'') (o.trans a'' a a') (o.trans a' a'' a)
        (o'.trans b b' b'') h h';
}

abbrev pub leb_bytes : Bytes → Bytes → Bool
leb_bytes [] ys = true
leb_bytes (x ∷ xs) [] = false
leb_bytes (x ∷ xs) (y ∷ ys) =
    let rest = leb_bytes xs ys in if ltb x y then true else if x == y then rest else false

leb_bytes_total : (a b : Bytes) → leb_bytes a b ≡ false → leb_bytes b a ≡ true
leb_bytes_total [] b h = cc
leb_bytes_total (x ∷ a) [] h = refl
leb_bytes_total (x ∷ a) (y ∷ b) h = ground (arith, leb_bytes_total a b)

leb_bytes_trans :
    (a b c : Bytes) → leb_bytes a b ≡ true → leb_bytes b c ≡ true → leb_bytes a c ≡ true
leb_bytes_trans [] b c h k = refl
leb_bytes_trans (x ∷ a) [] c h k = cc
leb_bytes_trans (x ∷ a) (y ∷ b) [] h k = cc
leb_bytes_trans (x ∷ a) (y ∷ b) (z ∷ c) h k = ground (arith, leb_bytes_trans a b c)

pub leb_bytes-IsOrder : IsOrder leb_bytes
leb_bytes-IsOrder = record { total = leb_bytes_total; trans = leb_bytes_trans }

-- The order of a key.
pub on-IsOrder :
    {A B : Type 0} (le : B → B → Bool) (f : A → B)
    → IsOrder le
    → IsOrder (λ (x y : A). le (f x) (f y))
on-IsOrder le f o = record {
  total = λ a b. o.total (f a) (f b);
  trans = λ a b c. o.trans (f a) (f b) (f c);
}

module _ {A : Type 0} (le : A → A → Bool) where
  abbrev pub insert_by : A → List A → List A
  insert_by x [] = x ∷ []
  insert_by x (y ∷ ys) = let rest = insert_by x ys in if le x y then x ∷ y ∷ ys else y ∷ rest

  -- `sort_by`, which is stable.
  unfoldable pub sort_by : List A → List A
  sort_by [] = []
  sort_by (x ∷ xs) = insert_by x (sort_by xs)

  abbrev pub IsAbove : A → List A → Type 0
  IsAbove k = All (λ x. le k x ≡ true)

  abbrev pub IsSorted : List A → Type 0
  IsSorted [] = Unit
  IsSorted (x ∷ xs) = IsAbove x xs × IsSorted xs

  pub insert_by-All :
      (P : A → Type 0) (x : A) (xs : List A) → P x → All P xs → All P (insert_by x xs)
  insert_by-All P x [] p h = (p, tt)
  insert_by-All P x (y ∷ ys) p h = elim (Bool-cases (le x y)) [
    | inl e ↦ rw (e) (p, h)
    | inr e ↦ rw (e) (h.0, insert_by-All P x ys p h.1)
  ]

  module _ (o : IsOrder le) where
    pub le_refl : (x : A) → le x x ≡ true
    le_refl x = elim (Bool-cases (le x x)) [ inl e ↦ e | inr e ↦ o.total x x e ]

    pub IsAbove-trans : (k x : A) (xs : List A) → le k x ≡ true → IsAbove x xs → IsAbove k xs
    IsAbove-trans k x [] h a = tt
    IsAbove-trans k x (y ∷ ys) h a = (o.trans k x y h a.0, IsAbove-trans k x ys h a.1)

    pub insert_by-IsSorted : (x : A) (xs : List A) → IsSorted xs → IsSorted (insert_by x xs)
    insert_by-IsSorted x [] h = (tt, tt)
    insert_by-IsSorted x (y ∷ ys) h = elim (Bool-cases (le x y)) [
      | inl e ↦ rw (e) ((e, IsAbove-trans x y ys e h.0), h)
      | inr e ↦
          rw (e) (
            insert_by-All (λ z. le y z ≡ true) x ys (o.total x y e) h.0,
            insert_by-IsSorted x ys h.1,
          )
    ]

    pub sort_by-IsSorted : (xs : List A) → IsSorted (sort_by xs)
    unfolding sort_by
    sort_by-IsSorted [] = tt
    sort_by-IsSorted (x ∷ xs) = insert_by-IsSorted x (sort_by xs) (sort_by-IsSorted xs)

  pub sort_by-All : (P : A → Type 0) (xs : List A) → All P xs → All P (sort_by xs)
  unfolding sort_by
  sort_by-All P [] h = tt
  sort_by-All P (x ∷ xs) h = insert_by-All P x (sort_by xs) h.0 (sort_by-All P xs h.1)

  length-insert_by : (x : A) (xs : List A) → length (insert_by x xs) ≡ suc (length xs)
  length-insert_by x [] = refl
  length-insert_by x (y ∷ ys) = elim (Bool-cases (le x y)) [
    | inl e ↦ rw (e) refl
    | inr e ↦ rw (e) (ap suc (length-insert_by x ys))
  ]

  pub length-sort_by : (xs : List A) → length (sort_by xs) ≡ length xs
  unfolding sort_by
  length-sort_by [] = refl
  length-sort_by (x ∷ xs) = length-insert_by x (sort_by xs) ∙ ap suc (length-sort_by xs)

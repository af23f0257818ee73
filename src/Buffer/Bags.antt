-- ===== src/Buffer/Bags.antt =====
-- Lists of records as bags: two lists are the same if every weighing gives them the same weight.
use s4_logs.Prelude.{
  ℕ, ◌+◌, ◌≡◌, refl, List, [], ◌∷◌, ◌++◌, arith, length, length-append, Bool, Bool-cases, inl, inr,
}
use s4_logs.Prelude.Order.{insert_by, sort_by}
use s4_logs.Record.{LogRecord}
use s4_logs.Crates.{Crates}
use s4_logs.Jsonl.{line_of, jsonl}

module _ {A : Type 0} where
  abbrev pub weight : (A → ℕ) → List A → ℕ
  weight f [] = 0
  weight f (r ∷ rs) = f r + weight f rs

  pub weight-append : (f : A → ℕ) (xs ys : List A) → weight f (xs ++ ys) ≡ weight f xs + weight f ys
  weight-append f [] ys = omega arith
  weight-append f (x ∷ xs) ys = omega (arith, weight-append f xs ys)

  pub weight-insert_by :
      (le : A → A → Bool) (f : A → ℕ) (x : A) (xs : List A)
      → weight f (insert_by le x xs) ≡ f x + weight f xs
  weight-insert_by le f x [] = refl
  weight-insert_by le f x (y ∷ ys) = elim (Bool-cases (le x y)) [
    | inl e ↦ rw (e) refl
    | inr e ↦ rw (e) (omega (arith, weight-insert_by le f x ys))
  ]

  pub weight-sort_by :
      (le : A → A → Bool) (f : A → ℕ) (xs : List A) → weight f (sort_by le xs) ≡ weight f xs
  unfolding sort_by
  weight-sort_by le f [] = refl
  weight-sort_by le f (x ∷ xs) =
      omega (arith, weight-insert_by le f x (sort_by le xs), weight-sort_by le f xs)

abbrev pub SameRecords : List LogRecord → List LogRecord → Type 0
SameRecords xs ys = (f : LogRecord → ℕ) → weight f xs ≡ weight f ys

pub same_append :
    (xs xs' ys ys' : List LogRecord)
    → SameRecords xs xs'
    → SameRecords ys ys'
    → SameRecords (xs ++ ys) (xs' ++ ys')
same_append xs xs' ys ys' p q f =
    omega (arith, p f, q f, weight-append f xs ys, weight-append f xs' ys')

pub same_trans :
    (xs ys zs : List LogRecord) → SameRecords xs ys → SameRecords ys zs → SameRecords xs zs
same_trans xs ys zs p q f = omega (arith, p f, q f)

-- The size of the lines is a weight.
abbrev pub line_size : Crates → LogRecord → ℕ
line_size c r = length (line_of c r)

pub length-jsonl :
    (c : Crates) (rs : List LogRecord) → length (jsonl c rs) ≡ weight (line_size c) rs
length-jsonl c [] = refl
length-jsonl c (r ∷ rs) = omega (arith, length-jsonl c rs, length-append (line_of c r) (jsonl c rs))

pub same_size :
    (c : Crates) (xs ys : List LogRecord)
    → SameRecords xs ys
    → length (jsonl c xs) ≡ length (jsonl c ys)
same_size c xs ys p = omega (arith, p (line_size c), length-jsonl c xs, length-jsonl c ys)

pub size-append :
    (c : Crates) (xs ys : List LogRecord)
    → length (jsonl c (xs ++ ys)) ≡ length (jsonl c xs) + length (jsonl c ys)
size-append c xs ys = omega (
  arith,
  length-jsonl c (xs ++ ys),
  length-jsonl c xs,
  length-jsonl c ys,
  weight-append (line_size c) xs ys,
)

-- ===== src/Pages/Follow.antt =====
-- The pages of crates/s4logs-gateway/src/handlers.rs, as a client reads them one after the other.
use s4_logs.Pages.{start_by, page_limit, next_of, start_of, paginate}
use s4_logs.Api.{ApiError}
use s4_logs.Prelude.{
  ℕ, zero, suc, ◌+◌, ◌-◌, ◌^◌, ◌<◌, ◌≤◌, Option, none, some, List, [], ◌∷◌, ◌++◌, ◌≡◌, refl, sym,
  ap, subst, ◌∙◌, length, take, drop, arith,
}
use s4_logs.Prelude.Int.{ℤ, pos, negsuc}
use s4_logs.Prelude.Decimal.{show_ℕ, parse_usize-show}
use s4_logs.Prelude.Text.{Bytes}
use s4_logs.Prelude.Result.{Result, ok, ◌>>=◌}
use native.Mathlib.Decide.{dec_lt}

page_limit_pos : (limit : Option ℤ) → 1 ≤ page_limit limit
page_limit_pos none = omega arith
page_limit_pos (some (pos n)) = ground arith
page_limit_pos (some (negsuc n)) = ground arith

module _ {A : Type 0} where
  drop_all : (n : ℕ) (xs : List A) → length xs ≤ n → drop n xs ≡ []
  drop_all zero [] h = refl
  drop_all zero (x ∷ xs) h = absurd (omega arith)
  drop_all (suc n) [] h = refl
  drop_all (suc n) (x ∷ xs) h = drop_all n xs (omega arith)

  drop-drop : (m n : ℕ) (xs : List A) → drop n (drop m xs) ≡ drop (m + n) xs
  drop-drop zero n xs = let e : n ≡ 0 + n = omega arith in ap (λ (i : ℕ). drop i xs) e
  drop-drop (suc m) n [] = drop_all n [] (omega arith) ∙ sym (drop_all (suc m + n) [] (omega arith))
  drop-drop (suc m) n (x ∷ xs) =
      let e : suc (m + n) ≡ suc m + n = omega arith in
      subst (λ (i : ℕ). drop n (drop m xs) ≡ drop i (x ∷ xs)) e (drop-drop m n xs)

  -- What is left after a page.
  take_rest : (k : ℕ) (xs : List A) → take k xs ++ drop (length (take k xs)) xs ≡ xs
  take_rest zero xs = refl
  take_rest (suc k) [] = refl
  take_rest (suc k) (x ∷ xs) = ap (λ r. x ∷ r) (take_rest k xs)

  take_none : (k : ℕ) (xs : List A) → 1 ≤ k → take k xs ≡ [] → xs ≡ []
  take_none zero xs h e = absurd (omega arith)
  take_none (suc k) [] h e = refl
  take_none (suc k) (x ∷ xs) h e = cc

  page_rest :
      (items : List A) (start k : ℕ) (page : List A)
      → take k (drop start items) ≡ page
      → page ++ drop (start + length page) items ≡ drop start items
  page_rest items start k page e =
      subst (λ p. p ++ drop (start + length p) items ≡ drop start items) e
        (rw (sym (drop-drop start (length (take k (drop start items))) items))
          (take_rest k (drop start items)))

  next_some :
      (total start : ℕ) (x : A) (page : List A)
      → total < 2 ^ 64
      → start + suc (length page) < total
      → next_of total start (x ∷ page) ≡ some (show_ℕ (start + suc (length page)))
  next_some total start x page b h = ground arith

  next_none :
      (total start : ℕ) (x : A) (page : List A)
      → total < 2 ^ 64
      → total ≤ start + suc (length page)
      → next_of total start (x ∷ page) ≡ none
  next_none total start x page b h = ground arith

abbrev more_by :
    {A : Type 0} → (Bytes → Result ApiError (List A)) → Option Bytes → Result ApiError (List A)
more_by more none = ok []
more_by more (some t) = more t

-- The items that a client collects with at most `fuel` requests, from a token on.
unfoldable pub follow :
    {A : Type 0} → ℕ → List A → Option ℤ → Option Bytes → Result ApiError (List A)
follow zero items limit token = ok []
follow (suc fuel) items limit token = do
  page ← paginate items limit token
  rest ← more_by (λ t. follow fuel items limit (some t)) page.1
  ok (page.0 ++ rest)

start_of-show : (n : ℕ) → n < 2 ^ 64 → start_of (some (show_ℕ n)) ≡ ok n
start_of-show n h = ap (λ r. start_by r) (parse_usize-show n h)

module _ {A : Type 0} where
  follow_page :
      (more : Bytes → Result ApiError (List A)) (items : List A) (start k : ℕ) (page : List A)
      → 1 ≤ k
      → length items < 2 ^ 64
      → ((n : ℕ) → start < n → n < length items → more (show_ℕ n) ≡ ok (drop n items))
      → take k (drop start items) ≡ page
      → (more_by more (next_of (length items) start page) >>= λ rest. ok (page ++ rest))
        ≡ ok (drop start items)
  follow_page more items start k [] h b f e = ap ok (sym (take_none k (drop start items) h e))
  follow_page more items start k (x ∷ p) h b f e =
      elim (dec_lt (start + suc (length p)) (length items)) [
        | yes l ↦
            rw (next_some (length items) start x p b l, f (start + suc (length p)) (omega arith) l)
              (ap ok (page_rest items start k (x ∷ p) e))
        | no l ↦ rw (next_none (length items) start x p b (omega arith)) (
            ap ok (
              ap (λ r. x ∷ (p ++ r)) (sym (drop_all (start + suc (length p)) items (omega arith)))
              ∙ page_rest items start k (x ∷ p) e))
      ]

  follow_from :
      (fuel : ℕ) (items : List A) (limit : Option ℤ) (token : Option Bytes) (start : ℕ)
      → length items < 2 ^ 64
      → length items - start < fuel
      → start_of token ≡ ok start
      → follow fuel items limit token ≡ ok (drop start items)
  unfolding follow paginate
  follow_from zero items limit token start b f e = absurd (omega arith)
  follow_from (suc fuel) items limit token start b f e = rw (e) (
      follow_page (λ t. follow fuel items limit (some t)) items start (page_limit limit)
        (take (page_limit limit) (drop start items)) (page_limit_pos limit) b
        (λ n l u.
          follow_from fuel items limit (some (show_ℕ n)) n b (omega arith)
            (start_of-show n (omega arith)))
        refl)

  -- A client that asks for the first page and then for each page that `nextToken` names, with the
  -- same limit, gets every item once and in order, if it may make more requests than there are
  -- items, which are fewer than 2^64.
  pub follow_complete :
      (fuel : ℕ) (items : List A) (limit : Option ℤ)
      → length items < 2 ^ 64
      → length items < fuel
      → follow fuel items limit none ≡ ok items
  follow_complete fuel items limit b f = follow_from fuel items limit none 0 b (omega arith) refl

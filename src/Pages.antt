-- ===== src/Pages.antt =====
-- The pages of crates/s4logs-gateway/src/handlers.rs: the limit and the token of a listing.
pub mod Follow
mod Tests
use s4_logs.Prelude.{
  ℕ, ◌+◌, ◌-◌, ◌^◌, Option, none, some, List, [], ◌∷◌, length, take, drop, min, if◌then◌else◌, ltb,
}
use s4_logs.Prelude.Int.{ℤ, pos, pos_part, min_ℤ, max_ℤ}
use s4_logs.Prelude.Decimal.{show_ℕ, parse_usize}
use s4_logs.Prelude.Text.{Bytes, bytes}
use s4_logs.Prelude.Result.{Result, ok, err, ◌>>=◌}
use s4_logs.Routing.{or_else}
use s4_logs.Api.{ApiError, invalid_parameter}

-- `limit` and `next_token` of a page.
abbrev pub start_by : Option ℕ → Result ApiError ℕ
start_by none = err (invalid_parameter (bytes "invalid nextToken"))
start_by (some n) = ok n

abbrev pub start_of : Option Bytes → Result ApiError ℕ
start_of none = ok 0
start_of (some t) = start_by (parse_usize t)

abbrev pub page_limit : Option ℤ → ℕ
page_limit limit = pos_part (min_ℤ (max_ℤ (or_else (pos 50) limit) (pos 1)) (pos 50))

abbrev pub saturating_add_usize : ℕ → ℕ → ℕ
saturating_add_usize a b = min (a + b) (2 ^ 64 - 1)

abbrev pub next_of : {A : Type 0} → ℕ → ℕ → List A → Option Bytes
next_of total start [] = none
next_of total start (x ∷ page) =
    let consumed = saturating_add_usize start (length (x ∷ page)) in
    if ltb consumed total then some (show_ℕ consumed) else none

abbrev pub page_at : {A : Type 0} → List A → ℕ → ℕ → List A × Option Bytes
page_at items limit start =
    let page = take limit (drop start items) in (page, next_of (length items) start page)

unfoldable pub paginate :
    {A : Type 0} → List A → Option ℤ → Option Bytes → Result ApiError (List A × Option Bytes)
paginate items limit next_token = do
  start ← start_of next_token
  ok (page_at items (page_limit limit) start)

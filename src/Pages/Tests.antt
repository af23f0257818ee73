-- ===== src/Pages/Tests.antt =====
-- Three items, two to a page.
use s4_logs.Pages.Follow.{follow, follow_complete}
use s4_logs.Prelude.{ℕ, ◌<◌, ◌^◌, List, [], ◌∷◌, some, none, ◌≡◌, length, arith}
use s4_logs.Prelude.Int.{pos}
use s4_logs.Prelude.Result.{ok}

abbrev items : List ℕ
items = 3 ∷ 1 ∷ 2 ∷ []

items_fit : length items < 2 ^ 64
items_fit = omega arith

items_fuel : length items < 4
items_fuel = omega arith

follow_complete_example : follow 4 items (some (pos 2)) none ≡ ok items
follow_complete_example = follow_complete 4 items (some (pos 2)) items_fit items_fuel

-- ===== src/Discover.antt =====
-- crates/s4logs-drain/src/discover.rs: the log groups that a pattern selects. The engine of globset
-- and the two calls of CloudWatch are parameters.
use s4_logs.Prelude.{
  Bool, true, ◌||◌, Option, none, some, List, [], ◌∷◌, filter, if◌then◌else◌, ◌==◌, ℕ,
}
use s4_logs.Prelude.Text.{Bytes, eqb}
use s4_logs.Prelude.Result.{Result, ok, ◌>>=◌, map_err}
use s4_logs.Cw.{CwError}
use s4_logs.DrainRun.{LogGroupInfo}
use s4_logs.Routing.{Globs}
use s4_logs.Prelude.Order.{leb_bytes}

pub data DiscoverError : Type 0 where
  bad_pattern : (pattern source : Bytes) → DiscoverError
  cw_failed : CwError → DiscoverError

abbrev pub is_glob_meta : ℕ → Bool
is_glob_meta c =
    (c == b'*')
    || ((c == b'?')
        || ((c == b'[') || ((c == b']') || ((c == b'{') || ((c == b'}') || (c == b'\\'))))))

pub data GroupSelector (g : Globs) : Type 0 where
  exact : Bytes → GroupSelector g
  glob : (pattern : Bytes) (matcher : g.Matcher) (prefix_hint : Bytes) → GroupSelector g
  every : GroupSelector g

-- What stands before the first metacharacter, if there is one.
abbrev pub and_byte : ℕ → Option Bytes → Option Bytes
and_byte c none = none
and_byte c (some hint) = some (c ∷ hint)

unfoldable pub before_meta : Bytes → Option Bytes
before_meta [] = none
before_meta (c ∷ cs) =
    let rest = before_meta cs in if is_glob_meta c then some [] else and_byte c rest

abbrev pub Groups : Type 0
Groups = List (Bytes × LogGroupInfo)

abbrev pub insert_group : Bytes × LogGroupInfo → Groups → Groups
insert_group x [] = x ∷ []
insert_group x (y ∷ ys) =
    let rest = insert_group x ys in if leb_bytes x.0 y.0 then x ∷ y ∷ ys else y ∷ rest

-- `sort_by` on the names
unfoldable pub sort_groups : Groups → Groups
sort_groups [] = []
sort_groups (x ∷ xs) = insert_group x (sort_groups xs)

-- `dedup_by` on the names, after the last that was kept, whose name a dropped entry has as well.
unfoldable pub dedup_after : Bytes → Groups → Groups
dedup_after name [] = []
dedup_after name (x ∷ xs) = let rest = dedup_after x.0 xs in if eqb x.0 name then rest else x ∷ rest

unfoldable pub dedup_groups : Groups → Groups
unfolding dedup_after
dedup_groups [] = []
dedup_groups (x ∷ xs) = x ∷ dedup_after x.0 xs

-- `(!prefix_hint.is_empty()).then_some(prefix_hint)`
abbrev pub hint_of : Bytes → Option Bytes
hint_of [] = none
hint_of (c ∷ cs) = some (c ∷ cs)

module _ (g : Globs) where
  unfoldable pub parse_selector : Bytes → Result DiscoverError (GroupSelector g)
  unfolding before_meta
  parse_selector pattern = elim (before_meta pattern) [
    | none ↦ ok (exact pattern)
    | some hint ↦ do
      matcher ← map_err (bad_pattern pattern) (g.compile pattern)
      ok (glob pattern matcher hint)
  ]

  unfoldable pub selects : GroupSelector g → Bytes → Bool
  selects (exact n) name = eqb n name
  selects (glob pattern matcher hint) name = g.is_match matcher name
  selects every name = true

-- `describe` and `list_groups` stand for `describe_log_group` and `list_log_groups` of the source.
module _ (g : Globs) (describe : Bytes → Result CwError LogGroupInfo)
    (list_groups : Option Bytes → Result CwError Groups) where
  unfoldable pub selected_groups : GroupSelector g → Result DiscoverError Groups
  selected_groups (exact name) = do info ← map_err cw_failed (describe name); ok ((name, info) ∷ [])
  selected_groups every = map_err cw_failed (list_groups none)
  selected_groups (glob pattern matcher hint) = do
    groups ← map_err cw_failed (list_groups (hint_of hint))
    ok (filter (λ x. g.is_match matcher x.0) groups)

  unfoldable pub discover_log_groups : GroupSelector g → Result DiscoverError Groups
  unfolding selected_groups sort_groups dedup_groups
  discover_log_groups selector = do
    groups ← selected_groups selector
    ok (dedup_groups (sort_groups groups))

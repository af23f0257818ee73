-- ===== src/Routing.antt =====
-- crates/s4logs-gateway/src/routing.rs: where a batch goes, by its group and stream. Of the crates
-- globset and toml, the compiled patterns, their two functions and the parser are parameters.
pub mod Forwarding
use s4_logs.Prelude.{
  ℕ, ◌+◌, Bool, true, false, ◌&&◌, ◌||◌, Option, none, some, List, [], ◌∷◌, ◌++◌, if◌then◌else◌,
}
use s4_logs.Prelude.Text.{Bytes, bytes}
use s4_logs.Prelude.Result.{Result, ok, err, ◌>>=◌, map_err}

pub data RouteAction : Type 0 where
  s3 : RouteAction
  cloudwatch : RouteAction
  both : RouteAction
  drop_batch : RouteAction

abbrev pub to_s3 : RouteAction → Bool
to_s3 s3 = true
to_s3 cloudwatch = false
to_s3 both = true
to_s3 drop_batch = false

abbrev pub to_cloudwatch : RouteAction → Bool
to_cloudwatch s3 = false
to_cloudwatch cloudwatch = true
to_cloudwatch both = true
to_cloudwatch drop_batch = false

-- The error of a crate is its message.
pub data RoutingError : Type 0 where
  bad_toml : Bytes → RoutingError
  bad_glob : (index : ℕ) (glob source : Bytes) → RoutingError

pub record RawRule : Type 0 where
  pub log_group : Bytes
  pub stream : Option Bytes
  pub action : RouteAction

pub record RawConfig : Type 0 where
  pub default_action : Option RouteAction
  pub rules : List RawRule

pub record Globs : Type 1 where
  pub Matcher : Type 0
  pub compile : Bytes → Result Bytes Matcher
  pub is_match : Matcher → Bytes → Bool

-- A compiled rule, and the table of them.
pub record Rule (g : Globs) : Type 0 where
  pub group : g.Matcher
  pub stream : g.Matcher
  pub action : RouteAction

pub record RoutingConfig (g : Globs) : Type 0 where
  pub default_action : RouteAction
  pub rules : List (Rule g)

-- `Option::unwrap_or`
abbrev pub or_else : {A : Type 0} → A → Option A → A
or_else a none = a
or_else a (some b) = b

module _ (g : Globs) where
  -- The closure `compile` of the source.
  abbrev pub compile_at : ℕ → Bytes → Result RoutingError g.Matcher
  compile_at index glob = map_err (bad_glob index glob) (g.compile glob)

  -- The loop over the raw rules from index `i` on.
  unfoldable pub compile_rules : ℕ → List RawRule → Result RoutingError (List (Rule g))
  compile_rules i [] = ok []
  compile_rules i (r ∷ rs) = do
    group ← compile_at i r.log_group
    stream ← compile_at i (or_else (bytes "*") r.stream)
    rest ← compile_rules (i + 1) rs
    ok (record { group = group; stream = stream; action = r.action } ∷ rest)

  unfoldable pub from_toml_str :
      (Bytes → Result Bytes RawConfig) → Bytes → Result RoutingError (RoutingConfig g)
  unfolding compile_rules
  from_toml_str parse s = do
    raw ← map_err bad_toml (parse s)
    rules ← compile_rules 0 raw.rules
    ok (record { default_action = or_else s3 raw.default_action; rules = rules })

  -- `find` on the rules, and the action found.
  unfoldable pub first_match : RouteAction → Bytes → Bytes → List (Rule g) → RouteAction
  first_match default log_group stream [] = default
  first_match default log_group stream (r ∷ rs) =
      let rest = first_match default log_group stream rs in
      if g.is_match r.group log_group && g.is_match r.stream stream then r.action else rest

  unfoldable pub route : RoutingConfig g → Bytes → Bytes → RouteAction
  unfolding first_match
  route config log_group stream = first_match config.default_action log_group stream config.rules

  unfoldable pub any_forwards : Bytes → List (Rule g) → Bool
  any_forwards log_group [] = false
  any_forwards log_group (r ∷ rs) =
      (g.is_match r.group log_group && to_cloudwatch r.action) || any_forwards log_group rs

  unfoldable pub group_may_reach_cloudwatch : RoutingConfig g → Bytes → Bool
  unfolding any_forwards
  group_may_reach_cloudwatch config log_group =
      to_cloudwatch config.default_action || any_forwards log_group config.rules

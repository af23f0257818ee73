-- ===== src/Routing/Forwarding.antt =====
-- The test of crates/s4logs-gateway/src/routing.rs on a group against the routes of its streams.
use s4_logs.Routing.{
  Globs, Rule, RoutingConfig, RouteAction, to_cloudwatch, first_match, route, any_forwards,
  group_may_reach_cloudwatch,
}
use s4_logs.Prelude.{Bool, true, false, ◌&&◌, ◌||◌, List, [], ◌∷◌, ◌≡◌, refl, if◌then◌else◌}
use s4_logs.Prelude.Text.{Bytes}

||-true : (d : Bool) → (d || true) ≡ true
||-true true = refl
||-true false = refl

||-keeps : (d a b : Bool) → (d || b) ≡ true → (d || (a || b)) ≡ true
||-keeps true a b h = refl
||-keeps false true b h = refl
||-keeps false false b h = h

-- One rule, by the tests of its patterns.
forwards_by :
    (d m n b : Bool) (x rest : RouteAction)
    → (to_cloudwatch rest ≡ true → (d || b) ≡ true)
    → to_cloudwatch (if m && n then x else rest) ≡ true
    → (d || ((m && to_cloudwatch x) || b)) ≡ true
forwards_by d false n b x rest ih h = ih h
forwards_by d true false b x rest ih h = ||-keeps d (to_cloudwatch x) b (ih h)
forwards_by d true true b x rest ih h = rw (h) (||-true d)

module _ (g : Globs) where
  forwards_rules :
      (default : RouteAction) (log_group stream : Bytes) (rules : List (Rule g))
      → to_cloudwatch (first_match g default log_group stream rules) ≡ true
      → (to_cloudwatch default || any_forwards g log_group rules) ≡ true
  unfolding first_match any_forwards
  forwards_rules default log_group stream [] h = rw (h) refl
  forwards_rules default log_group stream (r ∷ rs) h =
      forwards_by (to_cloudwatch default) (g.is_match r.group log_group)
        (g.is_match r.stream stream) (any_forwards g log_group rs) r.action
        (first_match g default log_group stream rs)
        (λ e. forwards_rules default log_group stream rs e) h

  -- A group with a stream whose batches go to CloudWatch may reach CloudWatch.
  pub group_may_reach_cloudwatch-route :
      (config : RoutingConfig g) (log_group stream : Bytes)
      → to_cloudwatch (route g config log_group stream) ≡ true
      → group_may_reach_cloudwatch g config log_group ≡ true
  unfolding route group_may_reach_cloudwatch
  group_may_reach_cloudwatch-route config log_group stream h =
      forwards_rules config.default_action log_group stream config.rules h

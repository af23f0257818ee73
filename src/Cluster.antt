-- ===== src/Cluster.antt =====
-- `cluster_spans` of crates/s4logs-cli/src/scan.rs: the frames of a chunk in groups that can be
-- decoded one after the other. A group keeps the times of its spans until the end.
pub mod Apart
use s4_logs.Prelude.{ℕ, Bool, true, false, List, [], ◌∷◌, ◌++◌, map, leb}
use s4_logs.Prelude.Int.{ℤ, leb_ℤ, max_ℤ}
use s4_logs.Prelude.Order.{lex, sort_by}
use s4_logs.Read.{FrameSpan}

-- A span with the least and the greatest timestamp of its frame.
pub record Timed : Type 0 where
  pub span : FrameSpan
  pub min_ts : ℤ
  pub max_ts : ℤ

-- `(min, frame_idx)`
unfoldable pub timed_le : Timed → Timed → Bool
timed_le a b = lex leb_ℤ leb (a.min_ts, a.span.frame_idx) (b.min_ts, b.span.frame_idx)

-- The loop, with the last group and its greatest timestamp.
unfoldable pub group_from : ℤ → List Timed → List Timed → List (List Timed)
group_from cluster_max cluster [] = cluster ∷ []
group_from cluster_max cluster (t ∷ ts) = elim (leb_ℤ t.min_ts cluster_max) [
  | true ↦ group_from (max_ℤ cluster_max t.max_ts) (cluster ++ t ∷ []) ts
  | false ↦ cluster ∷ group_from t.max_ts (t ∷ []) ts
]

unfoldable pub grouped : List Timed → List (List Timed)
unfolding group_from
grouped [] = []
grouped (t ∷ ts) = group_from t.max_ts (t ∷ []) ts

unfoldable pub clusters : List Timed → List (List Timed)
unfolding grouped
clusters spans = grouped (sort_by timed_le spans)

unfoldable pub cluster_spans : List Timed → List (List FrameSpan)
unfolding clusters
cluster_spans spans = map (map (λ t. t.span)) (clusters spans)

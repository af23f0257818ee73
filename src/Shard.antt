-- ===== src/Shard.antt =====
-- crates/s4logs-drain/src/shard.rs: the streams of a group, dealt out to shards.
use s4_logs.Prelude.{ℕ, zero, suc, ◌+◌, ◌-◌, ◌/◌, ◌%◌, min, max, List, [], ◌∷◌, ◌++◌, length}
use s4_logs.Prelude.Text.{Bytes}

abbrev pub max_streams_per_filter : ℕ
max_streams_per_filter = 100

abbrev pub div_ceil : ℕ → ℕ → ℕ
div_ceil a b = (a + (b - 1)) / b

-- `vec![Vec::new(); n]`
abbrev pub empties : ℕ → List (List Bytes)
empties zero = []
empties (suc n) = [] ∷ empties n

-- `shards[i].push(s)`
abbrev pub push_at : ℕ → Bytes → List (List Bytes) → List (List Bytes)
push_at i s [] = []
push_at zero s (shard ∷ shards) = (shard ++ (s ∷ [])) ∷ shards
push_at (suc i) s (shard ∷ shards) = shard ∷ push_at i s shards

-- The loop over the streams from index `i` on, for `n` shards.
unfoldable pub deal : ℕ → ℕ → List Bytes → List (List Bytes) → List (List Bytes)
deal n i [] shards = shards
deal n i (s ∷ ss) shards = deal n (i + 1) ss (push_at (i % n) s shards)

abbrev pub shard_count : ℕ → ℕ → ℕ → ℕ
shard_count streams requested_shards max_per_shard =
    min (max (max requested_shards 1) (div_ceil streams (max max_per_shard 1))) streams

unfoldable pub partition_streams : List Bytes → ℕ → ℕ → List (List Bytes)
unfolding deal
partition_streams [] requested_shards max_per_shard = []
partition_streams (s ∷ ss) requested_shards max_per_shard =
    let n = shard_count (length (s ∷ ss)) requested_shards max_per_shard in
    deal n 0 (s ∷ ss) (empties n)

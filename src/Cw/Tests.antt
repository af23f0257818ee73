-- ===== src/Cw/Tests.antt =====
-- Runs of the retries: two throttled calls, then a good one.
use s4_logs.Prelude.{some, ℕ, ◌≡◌, Bool, true, if◌then◌else◌, leb}
use s4_logs.Prelude.Text.{Bytes, bytes}
use s4_logs.Prelude.Result.{Result, ok, err}
use s4_logs.Cw.{default_backoff, CallFailure, throttled, Retried, with_backoff}
use s4_logs.Cw.Backoff.{IsRetry, with_backoff_total}

abbrev seed : ℕ → Bytes → ℕ
seed attempt key = attempt

abbrev third : ℕ → Result CallFailure Bool
third k = if leb 3 k then ok true else err (throttled (bytes "slow down"))

with_backoff_total_example :
    (r : Retried Bool) × (with_backoff seed default_backoff (bytes "op") (bytes "/app") third
      ≡ some r)
    × IsRetry seed default_backoff (bytes "op") (bytes "/app") third 0 r
with_backoff_total_example =
    with_backoff_total seed default_backoff (bytes "op") (bytes "/app") third

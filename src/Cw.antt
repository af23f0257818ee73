-- ===== src/Cw.antt =====
-- crates/s4logs-drain/src/cw.rs: the errors of the CloudWatch client and its retries. An SDK call is
-- a function of the attempt's number, and the hash of the standard library is a parameter.
pub mod Backoff
mod Tests
use s4_logs.Prelude.{
  ℕ, zero, suc, ◌+◌, ◌-◌, ◌*◌, ◌/◌, ◌%◌, ◌^◌, min, if◌then◌else◌, leb, ltb, List, [], ◌∷◌, Option,
  none, some,
}
use s4_logs.Prelude.Int.{ℤ}
use s4_logs.Prelude.Text.{Bytes}
use s4_logs.Prelude.Result.{Result, ok, err}

pub record CwEvent : Type 0 where
  pub timestamp : ℤ
  pub message : Bytes
  pub log_stream_name : Bytes
  pub ingestion_time : Option ℤ
  pub event_id : Option Bytes

pub data CwError : Type 0 where
  throttled_out : (op log_group : Bytes) (attempts : ℕ) (message : Bytes) → CwError
  api : (op log_group message : Bytes) → CwError
  group_not_found : (log_group : Bytes) → CwError
  malformed : (what log_group : Bytes) → CwError

pub record BackoffConfig : Type 0 where
  pub base_ms : ℕ
  pub cap_ms : ℕ
  pub max_attempts : ℕ

-- `BackoffConfig::default`
abbrev pub default_backoff : BackoffConfig
default_backoff = record { base_ms = 200; cap_ms = 10_000; max_attempts = 8 }

-- `saturating_mul` on u64
abbrev pub saturating_mul_u64 : ℕ → ℕ → ℕ
saturating_mul_u64 a b = min (a * b) (2 ^ 64 - 1)

abbrev pub at_least_one : ℕ → ℕ
at_least_one n = if leb 1 n then n else 1

-- The longest delay for an attempt.
unfoldable pub expanded : BackoffConfig → ℕ → ℕ
expanded cfg attempt =
    let shift = min (attempt - 1) 20 in
    at_least_one (min (saturating_mul_u64 cfg.base_ms (2 ^ shift)) cfg.cap_ms)

unfoldable pub delay_ms : (ℕ → Bytes → ℕ) → BackoffConfig → ℕ → Bytes → ℕ
delay_ms hash cfg attempt key =
    let exp = expanded cfg attempt in exp / 2 + hash attempt key % (exp / 2 + 1)

pub data CallFailure : Type 0 where
  throttled fatal : Bytes → CallFailure

pub record Retried (T : Type 0) : Type 0 where
  pub calls : ℕ
  pub slept : List ℕ
  pub answer : Result CwError T

module _ {T : Type 0} (hash : ℕ → Bytes → ℕ) (cfg : BackoffConfig) (op log_group : Bytes) where
  abbrev pub slept_first : ℕ → Option (Retried T) → Option (Retried T)
  slept_first d none = none
  slept_first d (some r) = some (record r { slept = d ∷ r.slept })

  abbrev pub ended : ℕ → Result CwError T → Option (Retried T)
  ended attempts answer = some (record { calls = attempts; slept = []; answer = answer })

  -- What follows a call, where `rest` is the loop from the next attempt on.
  abbrev pub after_call : ℕ → Result CallFailure T → Option (Retried T) → Option (Retried T)
  after_call attempts (ok v) rest = ended attempts (ok v)
  after_call attempts (err (fatal message)) rest = ended attempts (err (api op log_group message))
  after_call attempts (err (throttled message)) rest =
      if leb cfg.max_attempts attempts
      then ended attempts (err (throttled_out op log_group attempts message))
      else slept_first (delay_ms hash cfg attempts log_group) rest

  -- The loop behind `attempts` calls; `none` stands for loops that ran out of fuel.
  unfoldable pub retry : ℕ → (ℕ → Result CallFailure T) → ℕ → Option (Retried T)
  retry zero call attempts = none
  retry (suc fuel) call attempts =
      let rest = retry fuel call (suc attempts) in
      after_call (suc attempts) (call (suc attempts)) rest

  unfoldable pub with_backoff : (ℕ → Result CallFailure T) → Option (Retried T)
  unfolding retry
  with_backoff call = retry (suc cfg.max_attempts) call 0

-- ===== src/Cw/Backoff.antt =====
-- How often a call is made, how long the pauses are, and what is returned.
use s4_logs.Prelude.{
  ℕ, zero, suc, ◌+◌, ◌/◌, ◌≤◌, ◌<◌, ◌≡◌, refl, leb, [], ◌∷◌, some, All, length, arith, Bool-cases,
  inl, inr,
}
use s4_logs.Prelude.Text.{Bytes}
use s4_logs.Prelude.Result.{Result, ok, err}
use native.Mathlib.Decide.{dec_lt}
use s4_logs.Cw.{
  CwError, api, throttled_out, BackoffConfig, CallFailure, throttled, fatal, Retried, at_least_one,
  expanded, delay_ms, retry, with_backoff,
}

-- A delay lies between half of its attempt's maximum and the maximum, which is at most the cap, or
-- 1 if the cap is 0.
pub delay_bounds :
    (hash : ℕ → Bytes → ℕ) (cfg : BackoffConfig) (attempt : ℕ) (key : Bytes)
    → (expanded cfg attempt / 2 ≤ delay_ms hash cfg attempt key)
      × (delay_ms hash cfg attempt key ≤ expanded cfg attempt)
      × (expanded cfg attempt ≤ at_least_one cfg.cap_ms)
unfolding delay_ms
delay_bounds hash cfg attempt key = (omega arith, omega arith, unfold expanded in ground arith)

module _ {T : Type 0} (hash : ℕ → Bytes → ℕ) (cfg : BackoffConfig) (op log_group : Bytes)
    (call : ℕ → Result CallFailure T) where
  -- What the caller gets once the loop ends with the answer of an attempt.
  abbrev pub answer_for : ℕ → Result CallFailure T → Result CwError T
  answer_for attempts (ok v) = ok v
  answer_for attempts (err (fatal message)) = err (api op log_group message)
  answer_for attempts (err (throttled message)) = err (throttled_out op log_group attempts message)

  abbrev pub IsThrottled : Result CallFailure T → Type 0
  IsThrottled r = (message : Bytes) × (r ≡ err (throttled message))

  -- The attempts behind `from` and before the last were throttled, each with its pause; the last
  -- gave the answer, and was throttled only at the limit.
  pub record IsRetry (from : ℕ) (r : Retried T) : Type 0 where
    pub later : from < r.calls
    pub at_most : r.calls ≤ at_least_one cfg.max_attempts
    pub paused : r.calls ≡ from + length r.slept + 1
    pub pauses : All (λ d. d ≤ at_least_one cfg.cap_ms) r.slept
    pub waited : (k : ℕ) → from < k → k < r.calls → IsThrottled (call k)
    pub answered : r.answer ≡ answer_for r.calls (call r.calls)
    pub gives_up : IsThrottled (call r.calls) → cfg.max_attempts ≤ r.calls

  -- The loop behind `n` calls ends.
  abbrev Ends : ℕ → ℕ → Type 0
  Ends fuel n = (r : Retried T) × (retry hash cfg op log_group fuel call n ≡ some r) × IsRetry n r

  last_call :
      (n : ℕ) (answer : Result CwError T)
      → n < at_least_one cfg.max_attempts
      → answer ≡ answer_for (suc n) (call (suc n))
      → (IsThrottled (call (suc n)) → cfg.max_attempts ≤ suc n)
      → IsRetry n (record { calls = suc n; slept = []; answer = answer })
  last_call n answer h e limit = record {
    later = omega arith;
    at_most = omega arith;
    paused = omega arith;
    pauses = tt;
    waited = λ k lo hi. absurd (omega arith);
    answered = e;
    gives_up = limit;
  }

  one_more :
      (n : ℕ) (r : Retried T)
      → IsThrottled (call (suc n))
      → IsRetry (suc n) r
      → IsRetry n (record r { slept = delay_ms hash cfg (suc n) log_group ∷ r.slept })
  one_more n r busy h =
      let (lo, hi, cap) = delay_bounds hash cfg (suc n) log_group in
      record {
        later = omega (arith, h.later);
        at_most = h.at_most;
        paused = omega (arith, h.paused);
        pauses = (omega (arith, hi, cap), h.pauses);
        waited = λ k lo' hi'. elim (dec_lt (suc n) k) [
          | yes more ↦ h.waited k more hi'
          | no same ↦ let here : suc n ≡ k = omega arith in rw here at busy
        ];
        answered = h.answered;
        gives_up = h.gives_up;
      }

  retry_step :
      (fuel n : ℕ) (p : Result CallFailure T)
      → call (suc n) ≡ p
      → n < at_least_one cfg.max_attempts
      → (suc n < cfg.max_attempts → Ends fuel (suc n))
      → Ends (suc fuel) n
  unfolding retry
  retry_step fuel n (ok v) e h more = (
    record { calls = suc n; slept = []; answer = ok v },
    rw e refl,
    last_call n (ok v) h (rw e refl) (λ b. absurd (ground (arith, e, b.1))),
  )
  retry_step fuel n (err (fatal message)) e h more = (
    record { calls = suc n; slept = []; answer = err (api op log_group message) },
    rw e refl,
    last_call n (err (api op log_group message)) h (rw e refl)
        (λ b. absurd (ground (arith, e, b.1))),
  )
  retry_step fuel n (err (throttled message)) e h more =
      elim (Bool-cases (leb cfg.max_attempts (suc n))) [
        | inl limit ↦ (
          record {
            calls = suc n;
            slept = [];
            answer = err (throttled_out op log_group (suc n) message);
          },
          rw (e, limit) refl,
          last_call n (err (throttled_out op log_group (suc n) message)) h (rw e refl)
              (λ b. ground arith),
        )
        | inr room ↦
            let (r, runs, ends) = more (ground arith) in
            (
              record r { slept = delay_ms hash cfg (suc n) log_group ∷ r.slept },
              rw (e, room, runs) refl,
              one_more n r (message, e) ends,
            )
      ]

  retry_lem :
      (fuel n : ℕ) → cfg.max_attempts < fuel + n → n < at_least_one cfg.max_attempts → Ends fuel n
  retry_lem zero n enough h = absurd (ground arith)
  retry_lem (suc fuel) n enough h =
      retry_step fuel n (call (suc n)) refl h
        (λ room. retry_lem fuel (suc n) (omega arith) (ground arith))

  -- The retry loop ends after one call at least and the configured number at most, or one if that
  -- is 0; each call before the last was throttled and had one pause within the cap, or of 1 ms at
  -- most if that is 0; the last call's outcome is returned, and it is a throttled one only at the
  -- limit.
  pub with_backoff_total :
      (r : Retried T) × (with_backoff hash cfg op log_group call ≡ some r) × IsRetry 0 r
  unfolding with_backoff
  with_backoff_total = retry_lem (suc cfg.max_attempts) 0 (omega arith) (ground arith)

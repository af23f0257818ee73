-- ===== src/Retention/Closed.antt =====
-- When the gate lets the call through, and what the archive then has.
use s4_logs.Prelude.{
  ℕ, ◌-◌, ◌^◌, ◌≡◌, ◌≢◌, ◌↔◌, ◌⊎◌, refl, true, false, Bool, Option, some, none, List, [], ◌∷◌, All,
  Any, arith, List-cases, Bool-cases, inl, inr,
}
use s4_logs.Prelude.Int.{pos, leb_ℤ, ◌≤ℤ◌, ◌<ℤ◌}
use s4_logs.Prelude.Text.{Bytes}
use s4_logs.Prelude.Result.{ok, err, >>=-eq-ok}
use s4_logs.Layout.{manifest_key}
use s4_logs.Window.{Window, day_ms}
use s4_logs.Window.Cover.{Contains}
use s4_logs.Manifest.Proof.{manifest_covers_window_iff}
use s4_logs.Retention.{
  RetentionRequest, RetentionPlan, Backend, Answer, Calls, allowed, cutoff, required, covered_by,
  add_missing, missing, plan_of, plan_from, plan_retention, enforce_plan, enforce_retention,
}
use s4_logs.Retention.Gate.{required_total, IsProven, missing_none, required_cover}

allowed_nil : (plan : RetentionPlan) → allowed plan ≡ true → plan.missing_windows ≡ []
unfolding allowed
allowed_nil plan h = elim (List-cases plan.missing_windows) [
  | inl e ↦ e
  | inr (w, ws, e) ↦ absurd (ground (arith, e))
]

module _ (b : Backend) (fuel : ℕ) (key_prefix : Bytes) (req : RetentionRequest) where
  -- A plan is made from a positive number of days, the required windows and those that lack a proof.
  plan_ok :
      (plan : RetentionPlan)
      → plan_retention b fuel key_prefix req ≡ some (ok plan)
      → (ws lacking : List Window) × (pos 0 <ℤ req.retention_days)
        × (required b fuel req ≡ some (ok ws))
        × (missing b key_prefix req ws ≡ ok lacking)
        × (plan ≡ plan_of b req ws lacking)
  unfolding plan_retention
  plan_ok plan h = elim (Bool-cases (leb_ℤ req.retention_days (pos 0))) [
    | inl bad ↦ absurd (ground (arith, bad))
    | inr good ↦ planned (required b fuel req) refl (ground (arith, good)) (ground arith)
  ]
    where
      planned :
          (a : Answer (List Window))
          → required b fuel req ≡ a
          → plan_from b key_prefix req a ≡ some (ok plan)
          → pos 0 <ℤ req.retention_days
          → (ws lacking : List Window) × (pos 0 <ℤ req.retention_days)
            × (required b fuel req ≡ some (ok ws))
            × (missing b key_prefix req ws ≡ ok lacking)
            × (plan ≡ plan_of b req ws lacking)
      planned none e k days = cc
      planned (some (err x)) e k days = cc
      planned (some (ok ws)) e k days =
          let (lacking, found, p) =
            >>=-eq-ok (missing b key_prefix req ws) (λ l. ok (plan_of b req ws l)) plan
              (ground arith) in
          (ws, lacking, days, e, found, ground arith)

  Any-IsProven :
      (t : ℕ) (ws : List Window)
      → Any (Contains t) ws
      → All (IsProven b key_prefix req) ws
      → (w : Window) × Contains t w × IsProven b key_prefix req w
  Any-IsProven t [] inside proven = absurd inside
  Any-IsProven t (w ∷ ws) (inl here) proven = (w, here, proven.0)
  Any-IsProven t (w ∷ ws) (inr later) proven = Any-IsProven t ws later proven.1

  abbrev Opened : Bool → Calls → Type 0
  Opened apply calls =
      (plan : RetentionPlan) × (apply ≡ true)
      × (calls ≡ (req.log_group, req.retention_days) ∷ [])
      × (plan_retention b fuel key_prefix req ≡ some (ok plan))
      × (plan.missing_windows ≡ [])

  -- The policy is put at most once, and only where the plan lacks nothing.
  enforced :
      (apply : Bool) (calls : Calls) (answer : Answer RetentionPlan)
      → enforce_retention b fuel key_prefix req apply ≡ (calls, answer)
      → (calls ≡ []) ⊎ Opened apply calls
  unfolding enforce_retention
  enforced apply calls answer h = go (plan_retention b fuel key_prefix req) refl h
    where
      go :
          (a : Answer RetentionPlan)
          → plan_retention b fuel key_prefix req ≡ a
          → enforce_plan b req apply a ≡ (calls, answer)
          → (calls ≡ []) ⊎ Opened apply calls
      go none e k = inl (ground arith)
      go (some (err x)) e k = inl (ground arith)
      go (some (ok plan)) e k = elim (Bool-cases (allowed plan)) [
        | inl open_gate ↦ elim (Bool-cases apply) [
          | inl yes_apply ↦
              inr (plan, yes_apply, ground (arith, open_gate), e, allowed_nil plan open_gate)
          | inr dry ↦ inl (ground (arith, open_gate))
        ]
        | inr shut ↦ inl (ground (arith, shut))
      ]

  module _ (apply : Bool) (calls : Calls) (answer : Answer RetentionPlan) where
    -- If `enforce_retention` calls for a retention policy, each instant from the start of the
    -- coverage up to the cutoff lies in a window whose manifest object, stored at that window's
    -- key, parses in the supported version and names the account, the group and the window; the
    -- cutoff is to be below the fuel and a day from the end of `i64`.
    pub gate_closed :
        (t : ℕ)
        → cutoff req <ℤ pos fuel
        → cutoff req <ℤ pos (2 ^ 63 - day_ms)
        → enforce_retention b fuel key_prefix req apply ≡ (calls, answer)
        → calls ≢ []
        → req.coverage_from_ms ≤ℤ pos t
        → pos t <ℤ cutoff req
        → (w : Window) × Contains t w × IsProven b key_prefix req w
    gate_closed t enough fits runs called lo hi = elim (enforced apply calls answer runs) [
      | inl idle ↦ absurd (called idle)
      | inr (plan, _, _, planned, full) ↦
          let (ws, lacking, days, needs, found, made) = plan_ok plan planned in
          let nothing : lacking ≡ [] = cc in
          Any-IsProven t ws (required_cover b key_prefix req fuel ws t enough fits needs lo hi)
            (missing_none b key_prefix req ws (rw nothing at found))
    ]

    -- The gate makes its call, once and with the request's group and days, exactly if the policy
    -- is to be applied and there is a plan that lacks no window.
    pub gate_opens :
        enforce_retention b fuel key_prefix req apply ≡ (calls, answer)
        → (calls ≢ []) ↔ (
            (plan : RetentionPlan) × (apply ≡ true)
            × (calls ≡ (req.log_group, req.retention_days) ∷ [])
            × (plan_retention b fuel key_prefix req ≡ some (ok plan))
            × (plan.missing_windows ≡ []))
    gate_opens runs = (
      (λ called. elim (enforced apply calls answer runs) [
        | inl idle ↦ absurd (called idle)
        | inr opened ↦ opened
      ]),
      (λ opened nothing. let (plan, yes_apply, one, planned, full) = opened in cc),
    )

  missing_total :
      (reads : (key : Bytes) → (found : Option Bytes) × (b.get key ≡ ok found)) (ws : List Window)
      → (lacking : List Window) × (missing b key_prefix req ws ≡ ok lacking)
  unfolding missing
  missing_total reads [] = ([], refl)
  missing_total reads (w ∷ ws) =
      let (found, e) =
        reads (manifest_key key_prefix req.account req.log_group w.start_ms w.end_ms) in
      let (rest, e') = missing_total reads ws in
      (add_missing b (covered_by b req w found) w rest, rw (e, e') refl)

  missing-All :
      (ws : List Window) → All (IsProven b key_prefix req) ws → missing b key_prefix req ws ≡ ok []
  unfolding missing
  missing-All [] proven = refl
  missing-All (w ∷ ws) proven =
      let (body, m, e, reads, proof) = proven.0 in
      let covers =
        (manifest_covers_window_iff b.json body req.account req.log_group w.start_ms w.end_ms).1
          (m, reads, proof) in
      rw (e, missing-All ws proven.1, covers) refl

  -- If the store can be read, the days and the window length are positive, the coverage starts at
  -- 0 or later, and the cutoff is below the fuel and a day from the end of `i64`, there is a plan,
  -- and it lacks no window exactly if each required window is proven.
  pub plan_total :
      ((key : Bytes) → (found : Option Bytes) × (b.get key ≡ ok found))
      → pos 0 <ℤ req.retention_days
      → pos 0 <ℤ req.window_ms
      → pos 0 ≤ℤ req.coverage_from_ms
      → cutoff req <ℤ pos fuel
      → cutoff req <ℤ pos (2 ^ 63 - day_ms)
      → (plan : RetentionPlan) × (plan_retention b fuel key_prefix req ≡ some (ok plan))
        × (required b fuel req ≡ some (ok plan.required_windows))
        × ((plan.missing_windows ≡ []) ↔ All (IsProven b key_prefix req) plan.required_windows)
  unfolding plan_retention
  plan_total reads days length start enough fits =
      let (ws, needs) = required_total b key_prefix req fuel length start enough fits in
      let (lacking, found) = missing_total reads ws in
      let good : leb_ℤ req.retention_days (pos 0) ≡ false = ground arith in
      (
        plan_of b req ws lacking,
        rw (good, needs, found) refl,
        needs,
        (
          (λ nothing. missing_none b key_prefix req ws (rw nothing at found)),
          (λ proven. let all = missing-All ws proven in cc),
        ),
      )

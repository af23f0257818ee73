-- ===== src/Window/Run.antt =====
-- What the two loops of window.rs return, from a boundary of the grid on.
use s4_logs.Prelude.{ℕ, zero, suc, ◌+◌, ◌≤◌, ◌<◌, ◌^◌, ◌≡◌, refl, some, List, [], ◌∷◌, arith, All}
use s4_logs.Prelude.Int.{ℤ, pos, ◌≤ℤ◌, ◌<ℤ◌}
use native.Mathlib.Decide.{dec_lt}
use s4_logs.Window.{Window, day_ms, windows_loop, covering_loop}
use s4_logs.Window.Grid.{boundary, IsBoundary, boundary-IsBoundary, lt-boundary, next_boundary-pos}

-- The windows lie end to end from `s` up to `e`.
abbrev pub IsChain : ℤ → List Window → ℤ → Type 0
IsChain s [] e = s ≡ e
IsChain s (x ∷ xs) e = (x.start_ms ≡ s) × IsChain x.end_ms xs e

-- A window from a boundary of the grid to the next one.
pub record IsCell (w : ℕ) (x : Window) : Type 0 where
  pub base : ℕ
  pub from_base : x.start_ms ≡ pos base
  pub to_next : x.end_ms ≡ pos (boundary base w)
  pub on_grid : IsBoundary base w
  pub fits : base + day_ms < 2 ^ 63

cell : (b w : ℕ) → Window
cell b w = record { start_ms = pos b; end_ms = pos (boundary b w) }

cell-IsCell : (b w : ℕ) → IsBoundary b w → b + day_ms < 2 ^ 63 → IsCell w (cell b w)
unfolding cell
cell-IsCell b w g h = record { base = b; from_base = refl; to_next = refl; on_grid = g; fits = h }

module _ (w : ℕ) (positive : 0 < w) where
  pub windows_loop_lem :
      (fuel s to : ℕ)
      → IsBoundary s w
      → 0 < fuel
      → to < fuel + s
      → s + day_ms < 2 ^ 63
      → to + day_ms < 2 ^ 63
      → (ws : List Window) × (e : ℕ) × (windows_loop fuel (pos s) (pos to) w ≡ some ws)
        × IsChain (pos s) ws (pos e)
        × ((to < boundary e w) × (e + day_ms < 2 ^ 63))
        × All (λ x. IsCell w x × (x.end_ms ≤ℤ pos to)) ws
  unfolding windows_loop cell
  windows_loop_lem zero s to g f enough hs ht = elim f [ ]
  windows_loop_lem (suc fuel) s to g f enough hs ht = elim (dec_lt to (boundary s w)) [
    | yes past ↦ ([], s, rw (next_boundary-pos s w hs) (ground arith), refl, (past, hs), tt)
    | no inside ↦
        let grows : s < boundary s w = lt-boundary s w positive in
        let (ws, e, runs, chain, stop, cells) =
          windows_loop_lem fuel (boundary s w) to (boundary-IsBoundary s w positive g) (omega arith)
            (omega arith) (omega arith) ht in
        (
          cell s w ∷ ws,
          e,
          rw (next_boundary-pos s w hs) (rw runs (ground arith)),
          (refl, chain),
          stop,
          ((cell-IsCell s w g hs, omega arith), cells),
        )
  ]

  pub covering_loop_lem :
      (fuel s until : ℕ)
      → IsBoundary s w
      → 0 < fuel
      → until < fuel + s
      → until + day_ms < 2 ^ 63
      → (ws : List Window) × (e : ℕ) × (covering_loop fuel (pos s) (pos until) w ≡ some ws)
        × IsChain (pos s) ws (pos e)
        × (until ≤ e)
        × All (λ x. IsCell w x × (x.start_ms <ℤ pos until)) ws
  unfolding covering_loop cell
  covering_loop_lem zero s until g f enough ht = elim f [ ]
  covering_loop_lem (suc fuel) s until g f enough ht = elim (dec_lt s until) [
    | no past ↦ ([], s, ground arith, refl, omega arith, tt)
    | yes inside ↦
        let grows : s < boundary s w = lt-boundary s w positive in
        let (ws, e, runs, chain, stop, cells) =
          covering_loop_lem fuel (boundary s w) until (boundary-IsBoundary s w positive g)
            (omega arith) (omega arith) ht in
        (
          cell s w ∷ ws,
          e,
          rw (next_boundary-pos s w (omega arith)) (rw runs (ground arith)),
          (refl, chain),
          stop,
          ((cell-IsCell s w g (omega arith), omega arith), cells),
        )
  ]

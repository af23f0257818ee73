-- ===== src/Window/Cover.antt =====
-- What `windows` and `windows_covering` promise: they end, and their windows are cells of one grid
-- that lie end to end and hold every instant that they are to hold.
use s4_logs.Prelude.{
  ℕ, ◌+◌, ◌≤◌, ◌<◌, ◌^◌, ◌≡◌, sym, ◌∙◌, none, some, ◌↔◌, get_elem?, ◌⊎◌, ◌≢◌, Option, Option-cases,
  All-get_elem?, List, [], ◌∷◌, arith, All, Any, All-map, inl, inr, subst, ap,
}
use s4_logs.Prelude.Int.{ℤ, pos, ◌≤ℤ◌, ◌<ℤ◌}
use s4_logs.Window.{
  Window, WindowError, checked, outcome, Outcome, day_ms, validate, align_down, next_boundary,
  day_start, windows, windows_covering, ok,
}
use s4_logs.Window.Grid.{
  align, boundary, IsBoundary, align-le, align-between, align-IsBoundary, boundary-IsBoundary,
  lt-boundary, lt-boundary-align, align_down-pos, next_boundary-pos, day_start-pos, day_of_same,
  day_of-bounds, boundary-le,
}
use s4_logs.Window.Run.{IsChain, IsCell, windows_loop_lem, covering_loop_lem}
use native.Mathlib.Decide.{dec_lt}

-- An instant lies in a window.
abbrev pub Contains : ℕ → Window → Type 0
Contains t x = (x.start_ms ≤ℤ pos t) × (pos t <ℤ x.end_ms)

chain_covers :
    (t s e w : ℕ) (ws : List Window)
    → IsChain (pos s) ws (pos e)
    → All (IsCell w) ws
    → s ≤ t
    → t < e
    → Any (Contains t) ws
chain_covers t s e w [] chain cells lo hi = absurd (ground arith)
chain_covers t s e w (x ∷ xs) chain cells lo hi =
    let c : IsCell w x = cells.0 in
    let to_next : x.end_ms ≡ pos (boundary c.base w) = c.to_next in
    elim (dec_lt t (boundary c.base w)) [
      | yes inside ↦ inl (rw chain.0 (omega arith), rw to_next (omega arith))
      | no later ↦ inr (
          chain_covers t (boundary c.base w) e w xs (rw to_next at chain.1) cells.1 (omega arith)
            hi)
    ]

-- The instants of a cell are those from its base up to the next boundary.
IsCell-Contains :
    (w t : ℕ) (x : Window) (c : IsCell w x)
    → Contains t x
    → (c.base ≤ t) × (t < boundary c.base w) × (boundary c.base w ≤ c.base + day_ms)
IsCell-Contains w t x c h = (
  (let lo : pos c.base ≤ℤ pos t = rw c.from_base at h.0 in omega arith),
  (let hi : pos t <ℤ pos (boundary c.base w) = rw c.to_next at h.1 in omega arith),
  omega (arith, boundary-le c.base w, day_of-bounds c.base),
)

cell_aligned :
    (w : ℕ) (x : Window) (t : ℕ)
    → 0 < w
    → IsCell w x
    → Contains t x
    → (align_down (pos t) w ≡ x.start_ms)
      × (next_boundary x.start_ms w ≡ x.end_ms)
      × (day_start (pos t) ≡ day_start x.start_ms)
cell_aligned w x t h c k =
    let (lo, hi, day) = IsCell-Contains w t x c k in
    (
      align_down-pos t w (omega (arith, c.fits))
          ∙ ap pos (align-between c.base t w h c.on_grid lo hi)
          ∙ sym c.from_base,
      rw c.from_base (next_boundary-pos c.base w c.fits ∙ sym c.to_next),
      rw c.from_base (
          day_start-pos t (omega (arith, c.fits))
          ∙ ap pos (
              day_of_same c.base t (omega (arith, day_of-bounds c.base))
                (omega (arith, boundary-le c.base w)))
          ∙ sym (day_start-pos c.base (omega (arith, c.fits)))),
    )

-- The grid stands still: nothing lies strictly between a boundary and the next.
boundary_mono : (a b w : ℕ) → 0 < w → IsBoundary a w → IsBoundary b w → a < b → boundary a w ≤ b
boundary_mono a b w h ga gb lt = elim (dec_lt b (boundary a w)) [
  | yes inside ↦
      let same : align b w ≡ a = align-between a b w h ga (omega arith) inside in
      absurd (omega (arith, same, gb))
  | no outside ↦ omega arith
]

-- `t` is left of `e`, where the cell of `t` ends by `to` and that from `e` on does not.
before_stop :
    (t e to w : ℕ)
    → 0 < w
    → IsBoundary e w
    → boundary (align t w) w ≤ to
    → to < boundary e w
    → t < e
before_stop t e to w h ge complete stop = elim (dec_lt t e) [
  | yes lt ↦ lt
  | no ge' ↦ elim (dec_lt (align t w) e) [
    | yes left ↦ absurd (
        omega (
          arith,
          boundary_mono (align t w) e w h (align-IsBoundary t w h) ge left,
          lt-boundary-align t w h,
        ))
    | no right ↦ elim (dec_lt e (align t w)) [
      | yes more ↦ absurd (
          omega (
            arith,
            boundary_mono e (align t w) w h ge (align-IsBoundary t w h) more,
            lt-boundary (align t w) w h,
          ))
      | no same ↦
          let eq : align t w ≡ e = omega arith in
          absurd (omega (arith, ap (λ (b : ℕ). boundary b w) eq))
    ]
  ]
]

chain_IsBoundary :
    (s e w : ℕ) (ws : List Window)
    → 0 < w
    → IsBoundary s w
    → IsChain (pos s) ws (pos e)
    → All (IsCell w) ws
    → IsBoundary e w
chain_IsBoundary s e w [] h g chain cells =
    let eq : s ≡ e = ground arith in subst (λ b. IsBoundary b w) eq g
chain_IsBoundary s e w (x ∷ xs) h g chain cells =
    let c : IsCell w x = cells.0 in
    chain_IsBoundary (boundary c.base w) e w xs h (boundary-IsBoundary c.base w h c.on_grid)
      (rw c.to_next at chain.1) cells.1

-- The checks of `validate` pass for times from 0 on and a positive length.
validate_passes : (from to w : ℕ) → 0 < w → validate (pos from) (pos to) (pos w) ≡ none
unfolding validate
validate_passes from to w h = ground arith

module _ (fuel from to w : ℕ) (h : 0 < w) where
  module _ (hf : from + day_ms < 2 ^ 63) (ht : to + day_ms < 2 ^ 63) (enough : to < fuel) where
    start : align_down (pos from) w ≡ pos (align from w)
    start = align_down-pos from w (omega arith)

    windows_run :
        (ws : List Window) × (e : ℕ) × (windows fuel (pos from) (pos to) (pos w) ≡ ok ws)
        × IsChain (pos (align from w)) ws (pos e)
        × ((to < boundary e w) × (e + day_ms < 2 ^ 63))
        × All (λ x. IsCell w x × (x.end_ms ≤ℤ pos to)) ws
    unfolding windows
    windows_run =
        let (ws, e, runs, chain, stop, cells) =
          windows_loop_lem w h fuel (align from w) to (align-IsBoundary from w h) (omega arith)
            (omega arith) (omega (arith, align-le from w)) ht in
        (ws, e, rw (validate_passes from to w h, start, runs), chain, stop, cells)

    -- For a positive length and a range from 0 on that keeps a day's distance from the end of
    -- `i64`, with fuel beyond `to`, `windows` returns; its windows lie end to end from the aligned
    -- start, each ends by `to`, and the one after the last would not.
    pub windows_total :
        (ws : List Window) × (last : ℤ) × (windows fuel (pos from) (pos to) (pos w) ≡ ok ws)
        × IsChain (align_down (pos from) w) ws last
        × (pos to <ℤ next_boundary last w)
        × All (λ x. x.end_ms ≤ℤ pos to) ws
    windows_total =
        let (ws, e, runs, chain, stop, cells) = windows_run in
        (
          ws,
          pos e,
          runs,
          rw start chain,
          rw (next_boundary-pos e w stop.1) (omega (arith, stop.0)),
          All-map (λ x. IsCell w x × (x.end_ms ≤ℤ pos to)) (λ x. x.end_ms ≤ℤ pos to) ws (λ x c. c.1)
              cells,
        )

    windows_cells :
        (ws : List Window)
        → windows fuel (pos from) (pos to) (pos w) ≡ ok ws
        → (e : ℕ) × IsChain (pos (align from w)) ws (pos e)
          × (to < boundary e w)
          × All (IsCell w) ws
    windows_cells ws runs =
        let (ws', e, runs', chain, stop, cells) = windows_run in
        let same : ws' ≡ ws = cc in
        (
          e,
          rw same at chain,
          stop.0,
          rw same at
              (All-map (λ x. IsCell w x × (x.end_ms ≤ℤ pos to)) (IsCell w) ws' (λ x c. c.0) cells),
        )

    -- If `windows` returns, each instant from `from` up to `to` whose own grid window ends by `to`
    -- lies in one of the windows; the length is positive, the range keeps a day's distance from
    -- the end of `i64`, and the fuel is beyond `to`.
    pub windows_cover :
        (ws : List Window) (t : ℕ)
        → windows fuel (pos from) (pos to) (pos w) ≡ ok ws
        → from ≤ t
        → t < to
        → next_boundary (align_down (pos t) w) w ≤ℤ pos to
        → Any (Contains t) ws
    windows_cover ws t runs lo hi complete =
        let (e, chain, stop, cells) = windows_cells ws runs in
        let g : IsBoundary e w =
          chain_IsBoundary (align from w) e w ws h (align-IsBoundary from w h) chain cells in
        let done : pos (boundary (align t w) w) ≤ℤ pos to =
          rw
            (
              align_down-pos t w (omega arith),
              next_boundary-pos (align t w) w (omega (arith, align-le t w)),
            )
            at complete in
        chain_covers t (align from w) e w ws chain cells (omega (arith, align-le from w))
          (before_stop t e to w h g (omega (arith, done)) stop)

    -- A window that `windows` returns depends only on the instants in it: each is aligned down to
    -- its start, its end is the next boundary, and all lie in one UTC day; the length is positive,
    -- the range keeps a day's distance from the end of `i64`, and the fuel is beyond `to`.
    pub windows_aligned :
        (ws : List Window) (i t : ℕ) (x : Window)
        → windows fuel (pos from) (pos to) (pos w) ≡ ok ws
        → get_elem? ws i ≡ some x
        → Contains t x
        → (align_down (pos t) w ≡ x.start_ms)
          × (next_boundary x.start_ms w ≡ x.end_ms)
          × (day_start (pos t) ≡ day_start x.start_ms)
    windows_aligned ws i t x runs at inside =
        let (e, chain, stop, cells) = windows_cells ws runs in
        cell_aligned w x t h (All-get_elem? (IsCell w) ws i x cells at) inside

  module _ (hu : to + day_ms < 2 ^ 63) (hf : from < 2 ^ 63) (enough : to < fuel) where
    covering_run :
        (ws : List Window) × (e : ℕ) × (windows_covering fuel (pos from) (pos to) (pos w) ≡ ok ws)
        × IsChain (pos (align from w)) ws (pos e)
        × (to ≤ e)
        × All (λ x. IsCell w x × (x.start_ms <ℤ pos to)) ws
    unfolding windows_covering
    covering_run =
        let (ws, e, runs, chain, stop, cells) =
          covering_loop_lem w h fuel (align from w) to (align-IsBoundary from w h) (omega arith)
            (omega arith) hu in
        (
          ws,
          e,
          rw (validate_passes from to w h, align_down-pos from w hf, runs),
          chain,
          stop,
          cells,
        )

    -- For a positive length and a range from 0 on whose limit keeps a day's distance from the end
    -- of `i64`, with fuel beyond the limit, `windows_covering` returns; its windows lie end to end
    -- from the aligned start at least up to the limit, and each starts before it.
    pub windows_covering_total :
        (ws : List Window) × (last : ℤ) × (windows_covering fuel (pos from) (pos to) (pos w)
          ≡ ok ws)
        × IsChain (align_down (pos from) w) ws last
        × (pos to ≤ℤ last)
        × All (λ x. x.start_ms <ℤ pos to) ws
    windows_covering_total =
        let (ws, e, runs, chain, stop, cells) = covering_run in
        (
          ws,
          pos e,
          runs,
          rw (align_down-pos from w hf) chain,
          omega (arith, stop),
          All-map (λ x. IsCell w x × (x.start_ms <ℤ pos to)) (λ x. x.start_ms <ℤ pos to) ws
              (λ x c. c.1) cells,
        )

    -- If `windows_covering` returns windows, each instant from `from` up to the limit lies in one
    -- of them; the length is positive, the limit keeps a day's distance from the end of `i64`, and
    -- the fuel is beyond the limit.
    pub windows_covering_cover :
        (ws : List Window) (t : ℕ)
        → windows_covering fuel (pos from) (pos to) (pos w) ≡ ok ws
        → from ≤ t
        → t < to
        → Any (Contains t) ws
    windows_covering_cover ws t runs lo hi =
        let (ws', e, runs', chain, stop, cells) = covering_run in
        let same : ws' ≡ ws = cc in
        rw same at (
          chain_covers t (align from w) e w ws' chain
            (All-map (λ x. IsCell w x × (x.start_ms <ℤ pos to)) (IsCell w) ws' (λ x c. c.0) cells)
            (omega (arith, align-le from w)) (omega (arith, stop)))

abbrev IsBadRange : ℤ → ℤ → ℤ → Type 0
IsBadRange from to w = (w ≤ℤ pos 0) ⊎ ((from <ℤ pos 0) ⊎ (to <ℤ pos 0))

validate_cause :
    (from to w : ℤ) (e : WindowError) → validate from to w ≡ some e → IsBadRange from to w
unfolding validate
validate_cause from to w e h = ground arith

validate_refuses : (from to w : ℤ) → IsBadRange from to w → validate from to w ≢ none
unfolding validate
validate_refuses from to w h = ground arith

checked_cause :
    (v : Option WindowError) (runs : Option (List Window)) (e : WindowError)
    → checked v (outcome runs) ≡ Outcome.err e
    → v ≡ some e
checked_cause none none e h = cc
checked_cause none (some ws) e h = cc
checked_cause (some e') runs e h = cc

-- `windows` returns an error exactly if the length is not positive or an end of the range is
-- negative.
pub windows_refuses :
    (fuel : ℕ) (from to w : ℤ)
    → ((e : WindowError) × (windows fuel from to w ≡ Outcome.err e))
      ↔ ((w ≤ℤ pos 0) ⊎ ((from <ℤ pos 0) ⊎ (to <ℤ pos 0)))
unfolding windows
windows_refuses fuel from to w = (
  (λ p. validate_cause from to w p.0 (checked_cause (validate from to w) _ p.0 p.1)),
  (λ bad. elim (Option-cases (validate from to w)) [
    | inl e ↦ absurd (validate_refuses from to w bad e)
    | inr (e, q) ↦ (e, rw q)
  ]),
)

-- ===== src/Reconcile/Late.antt =====
-- Which events of a window the archive is missing, as a function of the events alone, and the loop
-- against it.
use s4_logs.Prelude.{
  ℕ, ◌≡◌, refl, sym, ap, ◌∙◌, subst, Bool, true, false, List, [], ◌∷◌, ◌++◌, All, arith, Bool-cases,
  inl, inr,
}
use s4_logs.Prelude.I64.{IsI64}
use s4_logs.Record.{LogRecord}
use s4_logs.Chunk.Frames.{HasTime}
use s4_logs.Cw.{CwEvent}
use s4_logs.Process.{record_of}
use s4_logs.Identity.{fallback_identity}
use s4_logs.Reconcile.{contains, identity_of, is_known}

-- Those identities and the records' own.
abbrev pub marked : List ℕ → List LogRecord → List ℕ
marked seen [] = seen
marked seen (r ∷ rs) = marked (identity_of r ∷ seen) rs

-- No identity is there twice.
abbrev pub IsFresh : List ℕ → List LogRecord → Type 0
IsFresh seen [] = Unit {0}
IsFresh seen (r ∷ rs) = (contains (identity_of r) seen ≡ false) × IsFresh (identity_of r ∷ seen) rs

abbrev pub Includes : List ℕ → List ℕ → Type 0
Includes more seen = (x : ℕ) → contains x seen ≡ true → contains x more ≡ true

marked-Includes : (seen : List ℕ) (rs : List LogRecord) → Includes (marked seen rs) seen
marked-Includes seen [] x h = h
marked-Includes seen (r ∷ rs) x h =
    marked-Includes (identity_of r ∷ seen) rs x (rw h (ground arith))

is_known-Includes :
    (more seen : List ℕ) (ev : CwEvent)
    → Includes more seen
    → is_known seen ev ≡ true
    → is_known more ev ≡ true
is_known-Includes more seen ev inc h =
    let p = inc (identity_of (record_of ev)) in
    let q = inc (fallback_identity ev.timestamp ev.log_stream_name ev.message) in
    elim (Bool-cases (contains (identity_of (record_of ev)) seen)) [
      | inl own ↦ rw (p own) refl
      | inr other ↦ ground (arith, p, q)
    ]

itself_known :
    (seen : List ℕ) (ev : CwEvent) → is_known (identity_of (record_of ev) ∷ seen) ev ≡ true
itself_known seen ev = ground arith

module _ (is_out : CwEvent → Bool) where
  -- The records of the events that are in the window and not yet known.
  unfoldable pub late_of : List ℕ → List CwEvent → List LogRecord
  late_of seen [] = []
  late_of seen (ev ∷ evs) = elim (is_out ev) [
    | true ↦ late_of seen evs
    | false ↦ elim (is_known seen ev) [
      | true ↦ late_of seen evs
      | false ↦ record_of ev ∷ late_of (identity_of (record_of ev) ∷ seen) evs
    ]
  ]

  module _ (seen : List ℕ) (ev : CwEvent) (evs : List CwEvent) where
    pub late_out : is_out ev ≡ true → late_of seen (ev ∷ evs) ≡ late_of seen evs
    unfolding late_of
    late_out out = rw (out, late_of) refl

    pub late_known :
        is_out ev ≡ false → is_known seen ev ≡ true → late_of seen (ev ∷ evs) ≡ late_of seen evs
    unfolding late_of
    late_known inside known = rw (inside, known, late_of) refl

    pub late_new :
        is_out ev ≡ false
        → is_known seen ev ≡ false
        → late_of seen (ev ∷ evs) ≡ record_of ev ∷ late_of (identity_of (record_of ev) ∷ seen) evs
    unfolding late_of
    late_new inside missing = rw (inside, missing, late_of) refl

  -- An event of the window is known.
  abbrev pub IsIn : List ℕ → CwEvent → Type 0
  IsIn seen ev = is_out ev ≡ false → is_known seen ev ≡ true

  pub IsIn-Includes :
      (more seen : List ℕ) (evs : List CwEvent)
      → Includes more seen
      → All (IsIn seen) evs
      → All (IsIn more) evs
  IsIn-Includes more seen [] inc h = tt
  IsIn-Includes more seen (ev ∷ evs) inc h = (
    (λ inside. is_known-Includes more seen ev inc (h.0 inside)),
    IsIn-Includes more seen evs inc h.1,
  )

  abbrev pub IsComplete : List ℕ → List CwEvent → List LogRecord → Type 0
  IsComplete seen evs late = All (IsIn (marked seen late)) evs × IsFresh seen late

  -- After the late records are marked, every event of the window is known.
  pub late_of-IsIn : (seen : List ℕ) (evs : List CwEvent) → IsComplete seen evs (late_of seen evs)
  unfolding late_of
  late_of-IsIn seen [] = (tt, tt)
  late_of-IsIn seen (ev ∷ evs) = elim (Bool-cases (is_out ev)) [
    | inl out ↦
        let (here, fresh) = late_of-IsIn seen evs in
        subst (IsComplete seen (ev ∷ evs)) (sym (late_out seen ev evs out))
          (((λ inside. absurd (let no_way : true ≡ false = sym out ∙ inside in cc)), here), fresh)
    | inr inside ↦ elim (Bool-cases (is_known seen ev)) [
      | inl known ↦
          let (here, fresh) = late_of-IsIn seen evs in
          subst (IsComplete seen (ev ∷ evs)) (sym (late_known seen ev evs inside known)) (
            (
              (λ i.
                  is_known-Includes (marked seen (late_of seen evs)) seen ev
                    (marked-Includes seen (late_of seen evs)) known),
              here,
            ),
            fresh,
          )
      | inr missing ↦
          let seen' : List ℕ = identity_of (record_of ev) ∷ seen in
          let (here, fresh) = late_of-IsIn seen' evs in
          subst (IsComplete seen (ev ∷ evs)) (sym (late_new seen ev evs inside missing)) (
            (
              (λ i.
                  is_known-Includes (marked seen' (late_of seen' evs)) seen' ev
                    (marked-Includes seen' (late_of seen' evs)) (itself_known seen ev)),
              here,
            ),
            (ground (arith, missing), fresh),
          )
    ]
  ]

  -- Where every event of the window is known, nothing is late.
  pub late_of_none :
      (seen : List ℕ) (evs : List CwEvent) → All (IsIn seen) evs → late_of seen evs ≡ []
  unfolding late_of
  late_of_none seen [] h = refl
  late_of_none seen (ev ∷ evs) h = elim (Bool-cases (is_out ev)) [
    | inl out ↦ late_out seen ev evs out ∙ late_of_none seen evs h.1
    | inr inside ↦ late_known seen ev evs inside (h.0 inside) ∙ late_of_none seen evs h.1
  ]

  pub late_of_again :
      (seen more : List ℕ) (evs : List CwEvent)
      → Includes more (marked seen (late_of seen evs))
      → late_of more evs ≡ []
  late_of_again seen more evs inc =
      late_of_none more evs
        (IsIn-Includes more (marked seen (late_of seen evs)) evs inc (late_of-IsIn seen evs).0)

  pub late_of-HasTime :
      (seen : List ℕ) (evs : List CwEvent)
      → All (λ (ev : CwEvent). IsI64 ev.timestamp) evs
      → All HasTime (late_of seen evs)
  unfolding late_of
  late_of-HasTime seen [] h = tt
  late_of-HasTime seen (ev ∷ evs) h = elim (Bool-cases (is_out ev)) [
    | inl out ↦ rw (late_out seen ev evs out) (late_of-HasTime seen evs h.1)
    | inr inside ↦ elim (Bool-cases (is_known seen ev)) [
      | inl known ↦ rw (late_known seen ev evs inside known) (late_of-HasTime seen evs h.1)
      | inr missing ↦
          rw (late_new seen ev evs inside missing)
            (h.0, late_of-HasTime (identity_of (record_of ev) ∷ seen) evs h.1)
    ]
  ]

  -- Two stretches of events, one after the other.
  pub late_of-append :
      (seen : List ℕ) (evs evs' : List CwEvent)
      → late_of seen (evs ++ evs')
        ≡ late_of seen evs ++ late_of (marked seen (late_of seen evs)) evs'
  unfolding late_of
  late_of-append seen [] evs' = refl
  late_of-append seen (ev ∷ evs) evs' = elim (Bool-cases (is_out ev)) [
    | inl out ↦
        late_out seen ev (evs ++ evs') out
        ∙ rw (late_out seen ev evs out) (late_of-append seen evs evs')
    | inr inside ↦ elim (Bool-cases (is_known seen ev)) [
      | inl known ↦
          late_known seen ev (evs ++ evs') inside known
          ∙ rw (late_known seen ev evs inside known) (late_of-append seen evs evs')
      | inr missing ↦
          late_new seen ev (evs ++ evs') inside missing
          ∙ rw (late_new seen ev evs inside missing) (
              ap (λ z. record_of ev ∷ z)
                (late_of-append (identity_of (record_of ev) ∷ seen) evs evs'))
    ]
  ]

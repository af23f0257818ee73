-- ===== src/Manifest/Proof.antt =====
-- What a manifest object proves: `manifest_covers_window`.
use s4_logs.Prelude.{◌≡◌, ◌↔◌, refl, true, some, arith, Option-cases, inl, inr, ◌==◌, Bool-cases}
use s4_logs.Prelude.Int.{ℤ, eqb_ℤ_iff}
use s4_logs.Prelude.Text.{Bytes, eq_of_eqb, eqb_refl}
use s4_logs.Manifest.{
  Manifest, ManifestJson, manifest_version, is_manifest_of, from_json_bytes, manifest_covers_window,
}

-- The manifest is this group's and this window's.
abbrev pub IsProof : Manifest → Bytes → Bytes → ℤ → ℤ → Type 0
IsProof m account log_group s e =
    (m.version ≡ manifest_version)
    × (m.account ≡ account)
    × (m.log_group ≡ log_group)
    × (m.window_start_ms ≡ s)
    × (m.window_end_ms ≡ e)

is_manifest_of_IsProof :
    (json : ManifestJson) (m : Manifest) (account log_group : Bytes) (s e : ℤ)
    → m.version ≡ manifest_version
    → is_manifest_of json m account log_group s e ≡ true
    → IsProof m account log_group s e
is_manifest_of_IsProof json m account log_group s e v h = (
  v,
  eq_of_eqb m.account account (ground arith),
  eq_of_eqb m.log_group log_group (ground arith),
  (eqb_ℤ_iff m.window_start_ms s).0 (ground arith),
  (eqb_ℤ_iff m.window_end_ms e).0 (ground arith),
)

module _ (json : ManifestJson) (b account log_group : Bytes) (s e : ℤ) where
  covered :
      manifest_covers_window json b account log_group s e ≡ true
      → (m : Manifest) × (json.from_slice b ≡ some m) × IsProof m account log_group s e
  unfolding manifest_covers_window from_json_bytes
  covered h = elim (Option-cases (json.from_slice b)) [
    | inl fails ↦ absurd (ground (arith, fails))
    | inr (m, reads) ↦ elim (Bool-cases (m.version == manifest_version)) [
      | inl v ↦ (
        m,
        reads,
        is_manifest_of_IsProof json m account log_group s e (ground arith)
            (ground (arith, reads, v)),
      )
      | inr v ↦ absurd (ground (arith, reads, v))
    ]
  ]

  covering :
      (m : Manifest)
      → json.from_slice b ≡ some m
      → IsProof m account log_group s e
      → manifest_covers_window json b account log_group s e ≡ true
  unfolding manifest_covers_window from_json_bytes
  covering m reads (v, a, g, start, end) =
      rw (reads, manifest_covers_window, from_json_bytes)
        (rw v (
          rw (a, g, start, end, eqb_refl account, eqb_refl log_group)
            (rw ((eqb_ℤ_iff s s).1 refl, (eqb_ℤ_iff e e).1 refl) refl)))

  -- An object is taken for the proof of a window exactly if it parses as a manifest of the
  -- supported version that names the account, the group and both ends of the window.
  pub manifest_covers_window_iff :
      (manifest_covers_window json b account log_group s e ≡ true)
      ↔ ((m : Manifest) × (json.from_slice b ≡ some m) × IsProof m account log_group s e)
  manifest_covers_window_iff = (covered, λ p. covering p.0 p.1 p.2)

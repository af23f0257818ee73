-- ===== src/Manifest.antt =====
-- crates/s4logs-drain/src/manifest.rs: the object that proves that one window of a group is archived.
pub mod Keys
pub mod Proof
pub mod Tests
use s4_logs.Prelude.{
  ℕ, zero, suc, ◌==◌, Bool, true, false, ◌&&◌, Option, some, none, List, [], ◌∷◌, ◌++◌,
  if◌then◌else◌,
}
use s4_logs.Prelude.Int.{ℤ, eqb_ℤ}
use s4_logs.Prelude.Text.{Bytes, bytes, eqb, split, strip_prefix, strip_suffix}
use s4_logs.Prelude.Result.{Result, ok, err}
use s4_logs.Prelude.Maybe.{◌>>=◌}
use s4_logs.Prelude.Decimal.{parse_i64}
use s4_logs.Layout.{norm_prefix, manifest_seg, unsanitize_log_group}
use s4_logs.Window.{Window}

abbrev pub manifest_version : ℕ
manifest_version = 1

pub record ManifestObject : Type 0 where
  pub data_key : Bytes
  pub etag : Option Bytes
  pub crc32c : ℕ
  pub body_len : ℕ
  pub raw_bytes : Option ℕ
  pub storage_class : Option Bytes
  pub record_count : ℕ
  pub min_ts : ℤ
  pub max_ts : ℤ

pub record Manifest : Type 0 where
  pub version : ℕ
  pub account : Bytes
  pub log_group : Bytes
  pub window_start_ms : ℤ
  pub window_end_ms : ℤ
  pub objects : List ManifestObject
  pub record_count : ℕ
  pub completed_at_ms : ℤ
  pub drain_version : Bytes
  pub reconciled_at_ms : Option ℤ
  pub reconciled_added : Option ℕ

pub data ManifestError : Type 0 where
  storage : (op key message : Bytes) → ManifestError
  encode decode : ManifestError
  unsupported_version : ℕ → ManifestError

-- serde_json on a manifest, `to_vec` and `from_slice`, as a parameter; `none` is its error.
pub record ManifestJson : Type 0 where
  pub to_vec : Manifest → Option Bytes
  pub from_slice : Bytes → Option Manifest

module _ (json : ManifestJson) where
  unfoldable pub to_json_bytes : Manifest → Result ManifestError Bytes
  to_json_bytes m = elim (json.to_vec m) [ none ↦ err encode | some b ↦ ok b ]

  abbrev pub version_checked : Manifest → Result ManifestError Manifest
  version_checked m =
      if m.version == manifest_version then ok m else err (unsupported_version m.version)

  unfoldable pub from_json_bytes : Bytes → Result ManifestError Manifest
  from_json_bytes b = elim (json.from_slice b) [ none ↦ err decode | some m ↦ version_checked m ]

  abbrev pub is_manifest_of : Manifest → Bytes → Bytes → ℤ → ℤ → Bool
  is_manifest_of m account log_group window_start_ms window_end_ms =
      eqb m.account account
      && (eqb m.log_group log_group
          && (eqb_ℤ m.window_start_ms window_start_ms && eqb_ℤ m.window_end_ms window_end_ms))

  unfoldable pub manifest_covers_window : Bytes → Bytes → Bytes → ℤ → ℤ → Bool
  manifest_covers_window b account log_group window_start_ms window_end_ms =
      elim (from_json_bytes b) [
        | ok m ↦ is_manifest_of m account log_group window_start_ms window_end_ms
        | err _ ↦ false
      ]

-- `key.rsplit('/').next()`: the part behind the last slash.
abbrev pub last_part : Bytes → List Bytes → Bytes
last_part p [] = p
last_part p (q ∷ qs) = last_part q qs

abbrev pub file_part : List Bytes → Option Bytes
file_part [] = none
file_part (p ∷ ps) = some (last_part p ps)

abbrev pub before : ℕ → Bytes → Option (Bytes × Bytes) → Option (Bytes × Bytes)
before b bs none = none
before b bs (some (front, back)) = some (b ∷ front, back)

-- `str::split_once`
unfoldable pub split_once : ℕ → Bytes → Option (Bytes × Bytes)
split_once sep [] = none
split_once sep (b ∷ bs) =
    let rest = before b bs (split_once sep bs) in if b == sep then some ([], bs) else rest

-- What the key's last part says.
unfoldable pub parse_window_part : Bytes → Option Window
parse_window_part base = do
  behind ← strip_prefix (bytes "window=") base
  inner ← strip_suffix (bytes ".json") behind
  ends ← split_once b'-' inner
  s ← parse_i64 ends.0
  e ← parse_i64 ends.1
  some (record { start_ms = s; end_ms = e })

unfoldable pub parse_manifest_key_window : Bytes → Option Window
parse_manifest_key_window key = do base ← file_part (split b'/' key); parse_window_part base

unfoldable pub manifest_account_prefix : Bytes → Bytes → Bytes
manifest_account_prefix prefix account =
    norm_prefix prefix ++ (manifest_seg ++ (b'/' ∷ (bytes "account=" ++ (account ++ (b'/' ∷ [])))))

-- `find_map` with `strip_prefix`: the first part that has the prefix, without it.
abbrev pub find_stripped : Bytes → List Bytes → Option Bytes
find_stripped p [] = none
find_stripped p (s ∷ ss) = elim (strip_prefix p s) [
  | some rest ↦ some rest
  | none ↦ find_stripped p ss
]

unfoldable pub parse_manifest_key_log_group : Bytes → Option Bytes
parse_manifest_key_log_group key = do
  enc ← find_stripped (bytes "loggroup=") (split b'/' key)
  unsanitize_log_group enc

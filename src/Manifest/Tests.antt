-- ===== src/Manifest/Tests.antt =====
-- Runs of the manifest's functions.
use s4_logs.Prelude.{◌≡◌, ◌↔◌, true, Option, none, some, [], ◌∷◌, arith}
use s4_logs.Prelude.Int.{pos}
use s4_logs.Prelude.Text.{Bytes, bytes}
use s4_logs.Layout.{manifest_key}
use s4_logs.Manifest.{Manifest, ManifestJson, manifest_covers_window, parse_manifest_key_window}
use s4_logs.Manifest.Keys.{parse-manifest_key}
use s4_logs.Manifest.Proof.{IsProof, manifest_covers_window_iff}

abbrev pub first_hour : Manifest
first_hour = record {
  version = 1;
  account = bytes "1";
  log_group = bytes "/app";
  window_start_ms = pos 0;
  window_end_ms = pos 3600000;
  objects = [];
  record_count = 0;
  completed_at_ms = pos 7200000;
  drain_version = bytes "0.1.0";
  reconciled_at_ms = none;
  reconciled_added = none;
}

-- One manifest, read from any bytes.
abbrev pub only_read : Bytes → Option Manifest
only_read [] = none
only_read (b ∷ bs) = some first_hour

abbrev pub one_manifest : ManifestJson
one_manifest = record { to_vec = λ m. none; from_slice = only_read }

parse-manifest_key_example :
    parse_manifest_key_window
      (manifest_key (bytes "logs") (bytes "1") (bytes "/app") (pos 0) (pos 3600000))
    ≡ some (record { start_ms = pos 0; end_ms = pos 3600000 })
parse-manifest_key_example =
    parse-manifest_key (bytes "logs") (bytes "1") (bytes "/app") 0 3600000 (omega arith)
      (omega arith)

manifest_covers_window_iff_example :
    (manifest_covers_window one_manifest
        (bytes "m")
        (bytes "1")
        (bytes "/app")
        (pos 0)
        (pos 3600000)
      ≡ true)
    ↔ ((m : Manifest) × (one_manifest.from_slice (bytes "m") ≡ some m)
        × IsProof m (bytes "1") (bytes "/app") (pos 0) (pos 3600000))
manifest_covers_window_iff_example =
    manifest_covers_window_iff one_manifest (bytes "m") (bytes "1") (bytes "/app") (pos 0)
      (pos 3600000)

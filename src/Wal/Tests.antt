-- ===== src/Wal/Tests.antt =====
-- A segment on the sample's disk, and names.
use s4_logs.Prelude.{◌≤◌, ◌≡◌, refl, true, false, some, List, [], ◌∷◌, ◌++◌, length, arith}
use s4_logs.Prelude.Int.{pos, negsuc}
use s4_logs.Prelude.Text.{Bytes, bytes, strip_suffix}
use s4_logs.Prelude.Result.{ok}
use s4_logs.Crates.Sample.{signed, tally}
use s4_logs.Layout.{sanitize_log_group, upper_hex}
use s4_logs.Host.{WalEntry}
use s4_logs.Host.Sample.{Mem, sample, sample-HasLines, sample-read, entry_at, to_line}
use s4_logs.Wal.{
  WalSegment, create, append, entries_of, sort_names, segment_names, uuid8, sync_parent_dir,
}
use s4_logs.Wal.Torn.{append_all, torn_recovered}

abbrev disk : Mem
disk = record { files = (bytes "s", []) ∷ []; refuses = 0 }

abbrev seg : WalSegment
seg = record { path = bytes "s"; dirty = false }

abbrev two : List WalEntry
two = entry_at (pos 2) ∷ entry_at (negsuc 0) ∷ []

abbrev after : Mem
after = (append_all sample two seg disk).0

abbrev dirty_seg : WalSegment
dirty_seg = record { path = bytes "s"; dirty = true }

append_all-two : append_all sample two seg disk ≡ (after, dirty_seg, ok tt)
unfolding append_all append to_line signed tally
append_all-two = refl

create_example : create sample (bytes "w") (bytes "a/b") (bytes "2026-01-02") disk ≡ (
  record disk { files = (bytes "w/a%2Fb.2026-01-02.01234567.wal", []) ∷ disk.files },
  ok (record { path = bytes "w/a%2Fb.2026-01-02.01234567.wal"; dirty = false }),
)
unfolding create uuid8 sync_parent_dir sanitize_log_group upper_hex
create_example = refl

sort_names_example :
    sort_names (
      segment_names (
        (bytes "b.wal", true)
        ∷ (bytes "a.txt", true)
        ∷ (bytes "a.wal", true)
        ∷ (bytes "0.wal", false)
        ∷ []))
    ≡ bytes "a.wal" ∷ bytes "b.wal" ∷ []
unfolding sort_names strip_suffix
sort_names_example = refl

torn_recovered_example :
    (content : Bytes) × (sample.read (bytes "s") after ≡ some content)
    × (entries_of sample (content ++ bytes "+i") ≡ two ++ entries_of sample (bytes "+i"))
    × (length (entries_of sample (bytes "+i")) ≤ 1)
torn_recovered_example =
    torn_recovered sample two seg dirty_seg disk after (bytes "+i") sample-HasLines sample-read refl
      append_all-two (omega arith)

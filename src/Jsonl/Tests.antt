-- ===== src/Jsonl/Tests.antt =====
-- Runs of the line codec.
use s4_logs.Prelude.{◌≡◌, refl, [], ◌∷◌, map}
use s4_logs.Prelude.Int.{pos, negsuc}
use s4_logs.Prelude.Text.{bytes, split}
use s4_logs.Prelude.Result.{ok}
use s4_logs.Crates.Sample.{is_bare, sample_crates, sample_crates-IsLawful, at_time}
use s4_logs.Jsonl.{newline, jsonl, from_jsonl, record_lines}
use s4_logs.Jsonl.Lines.{filled, record_lines-split, record_lines-jsonl}

record_lines-split_example :
    record_lines sample_crates (bytes "+i\n\n?")
    ≡ map (from_jsonl sample_crates) (filled (split newline (bytes "+i\n\n?")))
record_lines-split_example = record_lines-split sample_crates (bytes "+i\n\n?")

record_lines-jsonl_example :
    record_lines sample_crates (jsonl sample_crates (at_time (pos 3) ∷ at_time (negsuc 1) ∷ []))
    ≡ map ok (at_time (pos 3) ∷ at_time (negsuc 1) ∷ [])
unfolding is_bare
record_lines-jsonl_example =
    record_lines-jsonl sample_crates (at_time (pos 3) ∷ at_time (negsuc 1) ∷ [])
      sample_crates-IsLawful (refl, (refl, tt))

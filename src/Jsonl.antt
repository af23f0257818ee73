-- ===== src/Jsonl.antt =====
-- The two methods of record.rs, and `RecordLines` of crates/s4logs-core/src/read.rs, which reads a
-- frame's lines back.
pub mod Lines
mod Tests
use s4_logs.Prelude.{
  ℕ, zero, suc, ◌+◌, length, Bool, true, false, Option, some, none, List, [], ◌∷◌, ◌++◌,
  if◌then◌else◌, ◌==◌,
}
use s4_logs.Prelude.Text.{Bytes}
use s4_logs.Prelude.Result.{Result, ok, err}
use s4_logs.Record.{LogRecord, RecordError, encode, decode}
use s4_logs.Crates.{Crates}

abbrev pub newline : ℕ
newline = b'\n'

module _ (c : Crates) where
  -- The line that `append_jsonl` adds for a record that can be written, and those of several.
  abbrev pub line_of : LogRecord → Bytes
  line_of r = (c.to_writer r).0 ++ (newline ∷ [])

  abbrev pub jsonl : List LogRecord → Bytes
  jsonl [] = []
  jsonl (r ∷ rs) = line_of r ++ jsonl rs

  -- The new `out` comes back beside the result: what was written before an error stays.
  unfoldable pub append_jsonl : LogRecord → Bytes → Bytes × Result RecordError Unit
  append_jsonl rec out =
      let (line, done) = c.to_writer rec in
      if done then (out ++ (line ++ (newline ∷ [])), ok tt) else (out ++ line, err encode)

  unfoldable pub from_jsonl : Bytes → Result RecordError LogRecord
  from_jsonl line = elim (c.from_slice line) [ none ↦ err decode | some rec ↦ ok rec ]

  -- One round of the loop of `RecordLines::next`: the line up to the newline, and what follows it.
  unfoldable pub cut_line : Bytes → Bytes × Bytes
  cut_line [] = ([], [])
  cut_line (b ∷ bs) =
      let (line, rest) = cut_line bs in if b == newline then ([], bs) else (b ∷ line, rest)

  -- `RecordLines::next`: the next record and the iterator's new state, or the end. An empty line is
  -- passed over.
  unfoldable pub next : ℕ → Bytes → Option (Result RecordError LogRecord × Bytes)
  next zero rest = none
  next (suc fuel) [] = none
  next (suc fuel) (b ∷ bs) =
      let (line, rest) = cut_line (b ∷ bs) in
      elim line [ [] ↦ next fuel rest | l ∷ ls ↦ some (from_jsonl (l ∷ ls), rest) ]

  -- The iterator to its end.
  unfoldable pub collect : ℕ → Bytes → List (Result RecordError LogRecord)
  collect zero rest = []
  collect (suc fuel) rest = elim (next (length rest + 1) rest) [
    | none ↦ []
    | some (r, rest') ↦ r ∷ collect fuel rest'
  ]

  unfoldable pub record_lines : Bytes → List (Result RecordError LogRecord)
  record_lines s = collect (length s) s

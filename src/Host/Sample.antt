-- ===== src/Host/Sample.antt =====
-- A host for the tests: a disk that is a list of named files, a sink that refuses the first PUTs, and
-- entries and records with a timestamp alone.
use s4_logs.Prelude.{
  ℕ, zero, suc, ◌≡◌, refl, ap, subst, ◌∙◌, Bool, true, false, ◌&&◌, Option, none, some, List, [],
  ◌∷◌, ◌++◌, if◌then◌else◌, arith, Bool-cases, inl, inr,
}
use s4_logs.Prelude.Int.{ℤ}
use s4_logs.Prelude.Text.{Bytes, bytes, eqb, eqb_refl, IsFree}
use s4_logs.Prelude.Result.{Result, ok, err}
use s4_logs.Record.{LogRecord}
use s4_logs.Crates.Sample.{
  sample_crates, sample_crates-IsLawful, signed, is_bare, is_nil, is_absent, at_time,
}
use s4_logs.Chunk.{EncodedChunk}
use s4_logs.Sink.{SinkError, storage, PutReceipt}
use s4_logs.Host.{Host, HasLines, WalEntry}

pub record Mem : Type 0 where
  pub files : List (Bytes × Bytes)
  pub refuses : ℕ

abbrev pub find : Bytes → List (Bytes × Bytes) → Option Bytes
find path [] = none
find path ((p, content) ∷ fs) = if eqb p path then some content else find path fs

abbrev pub extended :
    Bytes → Option Bytes → Bytes → List (Bytes × Bytes) → List (Bytes × Bytes) × Bool
extended path none more fs = (fs, false)
extended path (some old) more fs = ((path, old ++ more) ∷ fs, true)

abbrev pub entry_record : WalEntry → LogRecord
entry_record e = record {
  timestamp = e.timestamp;
  stream = e.stream;
  message = e.message;
  ingestion_time = e.ingestion_time;
  event_id = none;
}

abbrev pub of_record : LogRecord → WalEntry
of_record r = record {
  log_group = [];
  timestamp = r.timestamp;
  stream = r.stream;
  message = r.message;
  ingestion_time = r.ingestion_time;
}

abbrev pub entry_at : ℤ → WalEntry
entry_at t = of_record (at_time t)

abbrev pub is_sample_entry : WalEntry → Bool
is_sample_entry e =
    is_nil e.log_group && (is_nil e.stream && (is_nil e.message && is_absent e.ingestion_time))

is_sample_entry_lem : (e : WalEntry) → is_sample_entry e ≡ true → entry_at e.timestamp ≡ e
is_sample_entry_lem e p = ground arith

abbrev pub sample_receipt : EncodedChunk → PutReceipt
sample_receipt made = record {
  data_key = [];
  index_key = [];
  ts_index_key = [];
  etag = none;
  crc32c = made.crc32c;
  body_len = 0;
  storage_class = none;
}

abbrev pub answer : ℕ → EncodedChunk → Mem → Mem × Result SinkError PutReceipt
answer zero made d = (d, ok (sample_receipt made))
answer (suc n) made d = (record d { refuses = n }, err (storage []))

unfoldable pub to_line : WalEntry → Option Bytes
unfolding signed
to_line e = if is_sample_entry e then some (signed e.timestamp) else none

unfoldable pub of_line : Bytes → Option WalEntry
of_line line = elim (sample_crates.from_slice line) [ none ↦ none | some r ↦ some (of_record r) ]

abbrev pub sample : Host Mem
sample = record {
  crates = sample_crates;
  date_from_ts_ms = λ t. bytes "d";
  to_vec = to_line;
  from_slice = of_line;
  now = λ d. 0;
  new_v4 = λ d. (d, bytes "0123456789");
  put_chunk = λ loc made d. answer d.refuses made d;
  sink_ready = λ d. true;
  join = λ dir name. dir ++ (b'/' ∷ name);
  parent = λ path. none;
  create_dir_all = λ dir d. (d, true);
  create_new = λ path d. (record d { files = (path, []) ∷ d.files }, true);
  write_all = λ path more d.
      let (fs, done) = extended path (find path d.files) more d.files in
      (record d { files = fs }, done);
  sync_data = λ path d. (d, true);
  sync_dir = λ path d. (d, true);
  remove_file = λ path d. (d, true);
  exists = λ dir d. true;
  read_dir = λ dir d. some [];
  read = λ path d. find path d.files;
}

to_line-some :
    (e : WalEntry) (line : Bytes)
    → to_line e ≡ some line
    → (is_sample_entry e ≡ true) × (signed e.timestamp ≡ line)
unfolding to_line
to_line-some e line h = elim (Bool-cases (is_sample_entry e)) [
  | inl plain ↦
      (plain, let k : some (signed e.timestamp) ≡ some line = rw (plain, to_line) at h in cc)
  | inr other ↦ absurd (let k : none ≡ some line = rw (other, to_line) at h in cc)
]

of_read :
    (line : Bytes) (r : LogRecord)
    → sample_crates.from_slice line ≡ some r
    → of_line line ≡ some (of_record r)
unfolding of_line
of_read line r h =
    ap
      (λ (z : Option LogRecord). elim z as (λ _. Option WalEntry) [
        | none ↦ none
        | some x ↦ some (of_record x)
      ])
      h

pub sample-HasLines : HasLines sample
unfolding of_line
sample-HasLines = record {
  entry_free = λ e line h.
      subst (λ z. IsFree b'\n' z) (to_line-some e line h).1
        (sample_crates-IsLawful.line_free (at_time e.timestamp));
  entry_some = λ e line h k.
      sample_crates-IsLawful.line_some (at_time e.timestamp) ((to_line-some e line h).1 ∙ k);
  entry_parses = λ e line h.
      let (plain, same) = to_line-some e line h in
      let reads : sample_crates.from_slice (signed e.timestamp) ≡ some (at_time e.timestamp) =
        sample_crates-IsLawful.line_parses (at_time e.timestamp) (unfold is_bare in refl) in
      let reads' : sample_crates.from_slice line ≡ some (at_time e.timestamp) =
        subst (λ z. sample_crates.from_slice z ≡ some (at_time e.timestamp)) same reads in
      of_read line (at_time e.timestamp) reads' ∙ ap some (is_sample_entry_lem e plain);
}

pub sample-read :
    (path old more : Bytes) (d d' : Mem)
    → sample.read path d ≡ some old
    → sample.write_all path more d ≡ (d', true)
    → sample.read path d' ≡ some (old ++ more)
sample-read path old more d d' r w =
    let same : record d { files = (path, old ++ more) ∷ d.files } ≡ d' =
      let k : (record d { files = (path, old ++ more) ∷ d.files }, true) ≡ (d', true) = rw r at w in
      ap (λ (z : Mem × Bool). z.0) k in
    subst (λ z. sample.read path z ≡ some (old ++ more)) same (rw (eqb_refl path) refl)

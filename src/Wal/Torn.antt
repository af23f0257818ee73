-- ===== src/Wal/Torn.antt =====
-- What `scan_dir` recovers of a segment.
use s4_logs.Prelude.{
  ◌≤◌, ◌≡◌, refl, ap, ◌∙◌, subst, Bool, true, false, some, List, [], ◌∷◌, ◌++◌, append_assoc,
  append-nil, length, arith, Option-cases, inl, inr,
}
use s4_logs.Prelude.Text.{Bytes, IsFree, split, split-append, split_free}
use s4_logs.Prelude.Result.{Result, ok, err}
use s4_logs.Jsonl.{newline}
use s4_logs.Host.{Host, HasLines, WalEntry}
use s4_logs.Wal.{IoError, WalSegment, append, appended, entry_lines, keep_entry, entries_of}

module _ {D : Type 0} (h : Host D) where
  -- The caller's loop, `for e in entries { seg.append(&e)?; }`.
  abbrev pub append_rest :
      (WalSegment → D → D × WalSegment × Result IoError Unit)
      → D × WalSegment × Result IoError Unit
      → D × WalSegment × Result IoError Unit
  append_rest more (d, seg, ok _) = more seg d
  append_rest more (d, seg, err e) = (d, seg, err e)

  unfoldable pub append_all : List WalEntry → WalSegment → D → D × WalSegment × Result IoError Unit
  append_all [] seg d = (d, seg, ok tt)
  append_all (e ∷ es) seg d = append_rest (append_all es) (append h e seg d)

  -- A write that succeeds is at the end of the file.
  abbrev pub IsAppending : Type 0
  IsAppending =
      (path old more : Bytes) (d d' : D)
      → h.read path d ≡ some old
      → h.write_all path more d ≡ (d', true)
      → h.read path d' ≡ some (old ++ more)

  append_ok :
      (e : WalEntry) (seg seg' : WalSegment) (d d' : D)
      → append h e seg d ≡ (d', seg', ok tt)
      → (line : Bytes) × (h.to_vec e ≡ some line)
        × (h.write_all seg.path (line ++ newline ∷ []) d ≡ (d', true))
        × (seg'.path ≡ seg.path)
  unfolding append
  append_ok e seg seg' d d' k = elim (Option-cases (h.to_vec e)) [
    | inl fails ↦ absurd (
        let k' : (d, seg, err IoError.io_error) ≡ (d', seg', ok tt) = rw (fails, append) at k in cc)
    | inr (line, found) ↦
        let (p, q) =
          wrote (h.write_all seg.path (line ++ newline ∷ []) d) (rw (found, append) at k) in
        (line, found, p, q)
  ]
    where
      wrote :
          (p : D × Bool)
          → appended h seg p ≡ (d', seg', ok tt)
          → (p ≡ (d', true)) × (seg'.path ≡ seg.path)
      wrote (x, true) q = (ground arith, ground arith)
      wrote (x, false) q = cc

  append_all_cons :
      (e : WalEntry) (es : List WalEntry) (seg seg' : WalSegment) (d d' : D)
      → append_all (e ∷ es) seg d ≡ (d', seg', ok tt)
      → (v : D) × (mid : WalSegment) × (append h e seg d ≡ (v, mid, ok tt))
        × (append_all es mid v ≡ (d', seg', ok tt))
  unfolding append_all
  append_all_cons e es seg seg' d d' k = go (append h e seg d) refl k
    where
      go :
          (p : D × WalSegment × Result IoError Unit)
          → append h e seg d ≡ p
          → append_rest (append_all es) p ≡ (d', seg', ok tt)
          → (v : D) × (mid : WalSegment) × (append h e seg d ≡ (v, mid, ok tt))
            × (append_all es mid v ≡ (d', seg', ok tt))
      go (v, mid, ok tt) q k' = (v, mid, q, k')
      go (v, mid, err x) q k' = cc

  entries_of-line :
      (line rest : Bytes) (e : WalEntry)
      → HasLines h
      → h.to_vec e ≡ some line
      → entries_of h ((line ++ newline ∷ []) ++ rest) ≡ e ∷ entries_of h rest
  unfolding entries_of
  entries_of-line [] rest e laws w = absurd (laws.entry_some e [] w refl)
  entries_of-line (b ∷ bs) rest e laws w =
      ap (λ z. entry_lines h (split newline z)) (append_assoc (b ∷ bs) (newline ∷ []) rest)
      ∙ (ap (entry_lines h) (split-append newline (b ∷ bs) rest (laws.entry_free e (b ∷ bs) w))
          ∙ ap (λ z. keep_entry h z (entry_lines h (split newline rest)))
              (laws.entry_parses e (b ∷ bs) w))

  append_all_lem :
      (es : List WalEntry) (seg seg' : WalSegment) (d d' : D) (old : Bytes)
      → HasLines h
      → IsAppending
      → h.read seg.path d ≡ some old
      → append_all es seg d ≡ (d', seg', ok tt)
      → (more : Bytes) × (h.read seg.path d' ≡ some (old ++ more))
        × ((rest : Bytes) → entries_of h (more ++ rest) ≡ es ++ entries_of h rest)
  append_all_lem [] seg seg' d d' old laws files r k =
      let same : d ≡ d' =
        unfold append_all in ap (λ (z : D × WalSegment × Result IoError Unit). z.0) k in
      ([], subst (λ z. h.read seg.path z ≡ some (old ++ [])) same (rw append-nil r), λ rest. refl)
  append_all_lem (e ∷ es) seg seg' d d' old laws files r k =
      let (v, mid, first, others) = append_all_cons e es seg seg' d d' k in
      let (line, found, wrote, path) = append_ok e seg mid d v first in
      let l : Bytes = line ++ newline ∷ [] in
      let r' : h.read seg.path v ≡ some (old ++ l) = files seg.path old l d v r wrote in
      let (more, reads, parses) =
        append_all_lem es mid seg' v d' (old ++ l) laws files (rw path r') others in
      (
        l ++ more,
        subst (λ z. h.read z d' ≡ some (old ++ (l ++ more))) path
            (reads ∙ ap some (append_assoc old l more)),
        λ rest.
            ap (entries_of h) (append_assoc l more rest)
            ∙ (entries_of-line line (more ++ rest) e laws found ∙ ap (λ z. e ∷ z) (parses rest)),
      )

  entries_of-free : (torn : Bytes) → IsFree newline torn → length (entries_of h torn) ≤ 1
  unfolding entries_of
  entries_of-free torn free = rw (split_free newline torn free) (one torn)
    where
      one : (s : Bytes) → length (entry_lines h (s ∷ [])) ≤ 1
      one [] = omega arith
      one (b ∷ bs) = ground arith

  -- If entries were appended without an error to a segment whose file was empty, the file's bytes,
  -- followed by any bytes without a newline, are read as those entries in order and what the added
  -- bytes parse to, which is one entry at most; an entry's JSON is one line that is read back, and
  -- a write that succeeds is at the end of the file.
  pub torn_recovered :
      (es : List WalEntry) (seg seg' : WalSegment) (d d' : D) (torn : Bytes)
      → HasLines h
      → IsAppending
      → h.read seg.path d ≡ some []
      → append_all es seg d ≡ (d', seg', ok tt)
      → IsFree newline torn
      → (content : Bytes) × (h.read seg.path d' ≡ some content)
        × (entries_of h (content ++ torn) ≡ es ++ entries_of h torn)
        × (length (entries_of h torn) ≤ 1)
  torn_recovered es seg seg' d d' torn laws files empty k free =
      let (content, reads, parses) = append_all_lem es seg seg' d d' [] laws files empty k in
      (content, reads, parses torn, entries_of-free torn free)

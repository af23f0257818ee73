-- ===== src/Layout/Keys.antt =====
-- The keys of layout.rs: a data key is read back, and a sidecar's key is never taken for one.
use s4_logs.Prelude.{
  ℕ, ◌≡◌, ◌≢◌, refl, sym, ap, ◌∙◌, true, none, some, List, [], ◌∷◌, ◌++◌, append_assoc, All,
  All-append, arith,
}
use s4_logs.Prelude.Text.{
  Bytes, bytes, IsByte, IsFree, strip_prefix, strip_prefix-append, strip_prefix-append_append,
  strip_suffix-append, split, split-append, split_free,
}
use s4_logs.Prelude.Utf8.{is_utf8}
use s4_logs.Layout.{
  ChunkLocation, data_suffix, norm_prefix, sanitize_log_group, tail, data_key, index_key,
  ts_index_key, parse_parts, parse_data_key, group_part, data_group_prefix,
}
use s4_logs.Layout.Escape.{unsanitize-sanitize, sanitize-IsFree}

abbrev slash : ℕ
slash = b'/'

-- The parts of a location that have no slash of their own, and a log group that is a string.
pub record IsLocation (loc : ChunkLocation) : Type 0 where
  pub account_free : IsFree b'/' loc.account
  pub date_free : IsFree b'/' loc.date
  pub name_free : IsFree b'/' loc.name
  pub group_bytes : All IsByte loc.log_group
  pub group_utf8 : is_utf8 loc.log_group ≡ true

labelled :
    (label part rest : Bytes)
    → label ++ (part ++ (slash ∷ rest)) ≡ (label ++ part) ++ (slash ∷ rest)
labelled label part rest = sym (append_assoc label part (slash ∷ rest))

split-labelled :
    (label part rest : Bytes)
    → IsFree b'/' label
    → IsFree b'/' part
    → split b'/' (label ++ (part ++ (slash ∷ rest))) ≡ (label ++ part) ∷ split b'/' rest
split-labelled label part rest hl hp =
    rw (labelled label part rest)
      (split-append b'/' (label ++ part) rest (All-append (λ c. c ≢ slash) label part hl hp))

split-tail :
    (loc : ChunkLocation)
    → IsLocation loc
    → split b'/' (tail loc)
      ≡ (bytes "account=" ++ loc.account)
        ∷ (bytes "loggroup=" ++ sanitize_log_group loc.log_group)
        ∷ (bytes "dt=" ++ loc.date)
        ∷ (loc.name ++ data_suffix)
        ∷ []
unfolding tail
split-tail loc h =
    split-labelled (bytes "account=") loc.account _ (omega arith) h.account_free
    ∙ ap (λ (t : List Bytes). (bytes "account=" ++ loc.account) ∷ t)
        (split-labelled (bytes "loggroup=") (sanitize_log_group loc.log_group) _ (omega arith)
            (sanitize-IsFree b'/' loc.log_group refl h.group_bytes)
          ∙ ap (λ (t : List Bytes). (bytes "loggroup=" ++ sanitize_log_group loc.log_group) ∷ t)
              (split-labelled (bytes "dt=") loc.date _ (omega arith) h.date_free
                ∙ ap (λ (t : List Bytes). (bytes "dt=" ++ loc.date) ∷ t)
                    (split_free b'/' (loc.name ++ data_suffix) (
                      All-append (λ c. c ≢ slash) loc.name data_suffix h.name_free (omega arith)))))

-- The data key of a well-formed location is parsed back into it under the same prefix.
pub parse-data_key :
    (prefix : Bytes) (loc : ChunkLocation)
    → IsLocation loc
    → parse_data_key prefix (data_key loc prefix) ≡ some loc
unfolding parse_data_key data_key parse_parts
parse-data_key prefix loc h =
    rw
      (
        sym (append_assoc (norm_prefix prefix) (bytes "data/") (tail loc)),
        strip_prefix-append (norm_prefix prefix ++ bytes "data/") (tail loc),
        split-tail loc h,
        strip_suffix-append data_suffix loc.name,
        unsanitize-sanitize loc.log_group h.group_bytes h.group_utf8,
      )
      refl

-- Two well-formed locations with the same data key under one prefix are the same.
pub data_key_injective :
    (prefix : Bytes) (loc loc' : ChunkLocation)
    → IsLocation loc
    → IsLocation loc'
    → data_key loc prefix ≡ data_key loc' prefix
    → loc ≡ loc'
data_key_injective prefix loc loc' h h' same =
    let both : some loc ≡ some loc' =
      sym (parse-data_key prefix loc h)
      ∙ (ap (parse_data_key prefix) same ∙ parse-data_key prefix loc' h') in
    cc

-- The parser of data keys refuses both sidecars' keys of each location.
pub sidecars_apart :
    (suffix prefix : Bytes) (loc : ChunkLocation)
    → (parse_data_key prefix (index_key suffix loc prefix) ≡ none)
      × (parse_data_key prefix (ts_index_key loc prefix) ≡ none)
unfolding parse_data_key index_key ts_index_key
sidecars_apart suffix prefix loc = (
  rw (strip_prefix-append_append (norm_prefix prefix) (bytes "data/") _) refl,
  rw (strip_prefix-append_append (norm_prefix prefix) (bytes "data/") _) refl,
)

-- Every data key of a group is listed under the group's prefix.
pub data_key-listed :
    (prefix : Bytes) (loc : ChunkLocation)
    → (rest : Bytes) × (strip_prefix
          (data_group_prefix prefix loc.account loc.log_group)
          (data_key loc prefix)
        ≡ some rest)
unfolding data_group_prefix data_key group_part tail
data_key-listed prefix loc = (
  bytes "dt=" ++ (loc.date ++ (slash ∷ (loc.name ++ data_suffix))),
  rw
      (
        strip_prefix-append_append (norm_prefix prefix) _ _,
        strip_prefix-append_append loc.account _ _,
        strip_prefix-append_append (sanitize_log_group loc.log_group) _ _,
      )
      refl,
)

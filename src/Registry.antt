-- ===== src/Registry.antt =====
-- crates/s4logs-gateway/src/registry.rs: the groups and streams that agents have named. A `BTreeMap`
-- is the list of its entries in the order of the keys; `now_ms` is what the clock says at the call.
use s4_logs.Prelude.{Bool, true, Option, none, some, List, [], ◌∷◌, map, filter, if◌then◌else◌}
use s4_logs.Prelude.Int.{ℤ}
use s4_logs.Prelude.Text.{Bytes, eqb, starts_with}
use s4_logs.Prelude.Result.{Result, ok, err}
use s4_logs.Prelude.Order.{leb_bytes}

pub data RegistryError : Type 0 where
  group_exists : RegistryError
  stream_exists : RegistryError
  group_not_found : RegistryError

module _ {V : Type 0} where
  abbrev pub get : Bytes → List (Bytes × V) → Option V
  get k [] = none
  get k ((n, v) ∷ es) = let rest = get k es in if eqb k n then some v else rest

  -- `BTreeMap::insert`: a key that is there keeps its place and takes the new value.
  abbrev pub insert_key : Bytes → V → List (Bytes × V) → List (Bytes × V)
  insert_key k v [] = (k, v) ∷ []
  insert_key k v ((n, w) ∷ es) =
      let rest = insert_key k v es in
      if eqb k n then (n, v) ∷ es else if leb_bytes k n then (k, v) ∷ (n, w) ∷ es else (n, w) ∷ rest

pub record GroupEntry : Type 0 where
  pub creation_time_ms : ℤ
  pub streams : List (Bytes × ℤ)

abbrev pub Registry : Type 0
Registry = List (Bytes × GroupEntry)

abbrev pub new_group : ℤ → GroupEntry
new_group now_ms = record { creation_time_ms = now_ms; streams = [] }

unfoldable pub create_group : ℤ → Bytes → Registry → Registry × Result RegistryError Unit
create_group now_ms name groups = elim (get name groups) [
  | some e ↦ (groups, err group_exists)
  | none ↦ (insert_key name (new_group now_ms) groups, ok tt)
]

abbrev pub add_stream : ℤ → Bytes → GroupEntry → GroupEntry
add_stream now_ms stream entry = record entry { streams = insert_key stream now_ms entry.streams }

abbrev pub create_stream_in :
    ℤ → Bytes → Bytes → Registry → GroupEntry → Registry × Result RegistryError Unit
create_stream_in now_ms group stream groups entry = elim (get stream entry.streams) [
  | some t ↦ (groups, err stream_exists)
  | none ↦ (insert_key group (add_stream now_ms stream entry) groups, ok tt)
]

unfoldable pub create_stream : ℤ → Bytes → Bytes → Registry → Registry × Result RegistryError Unit
create_stream now_ms group stream groups = elim (get group groups) [
  | none ↦ (groups, err group_not_found)
  | some entry ↦ create_stream_in now_ms group stream groups entry
]

-- `or_insert_with` on the group and on the stream.
abbrev pub touch_stream : ℤ → Bytes → GroupEntry → GroupEntry
touch_stream now_ms stream entry = elim (get stream entry.streams) [
  | some t ↦ entry
  | none ↦ add_stream now_ms stream entry
]

unfoldable pub touch : ℤ → Bytes → Bytes → Registry → Registry
touch now_ms group stream groups = elim (get group groups) [
  | some entry ↦ insert_key group (touch_stream now_ms stream entry) groups
  | none ↦ insert_key group (touch_stream now_ms stream (new_group now_ms)) groups
]

abbrev pub has_prefix : {V : Type 0} → Option Bytes → Bytes × V → Bool
has_prefix none (name, v) = true
has_prefix (some p) (name, v) = starts_with p name

unfoldable pub describe_groups : Option Bytes → Registry → List (Bytes × ℤ)
describe_groups prefix groups =
    map (λ g. (g.0, g.1.creation_time_ms)) (filter (has_prefix prefix) groups)

unfoldable pub describe_streams :
    Bytes → Option Bytes → Registry → Result RegistryError (List (Bytes × ℤ))
describe_streams group prefix groups = elim (get group groups) [
  | none ↦ err group_not_found
  | some entry ↦ ok (filter (has_prefix prefix) entry.streams)
]

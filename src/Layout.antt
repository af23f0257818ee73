-- ===== src/Layout.antt =====
-- crates/s4logs-core/src/layout.rs: the keys of the objects in a bucket. A string is the list of its
-- UTF-8 bytes. The suffix of the byte index is that of the s4-codec crate, a parameter.
pub mod Escape
pub mod Keys
pub mod Prefix
mod Tests
use s4_logs.Prelude.{
  ℕ, ◌+◌, ◌-◌, ◌*◌, ◌/◌, ◌%◌, Bool, true, false, ◌&&◌, ◌||◌, Option, none, some, List, [], ◌∷◌,
  ◌++◌, if◌then◌else◌, ltb, leb, ◌==◌,
}
use s4_logs.Prelude.Int.{ℤ}
use s4_logs.Prelude.Int.{ℤ}
use s4_logs.Prelude.Decimal.{show_ℤ}
use s4_logs.Prelude.Text.{Bytes, bytes, strip_prefix, strip_suffix, split}
use s4_logs.Prelude.Utf8.{is_utf8}
use s4_logs.Prelude.Maybe.{◌>>=◌}
use mathlib.Core.List.{reverse}

abbrev pub data_seg : Bytes
data_seg = bytes "data"

abbrev pub index_seg : Bytes
index_seg = bytes "index"

abbrev pub manifest_seg : Bytes
manifest_seg = bytes "manifest"

abbrev pub data_suffix : Bytes
data_suffix = bytes ".jsonl.zst"

abbrev pub ts_sidecar_suffix : Bytes
ts_sidecar_suffix = bytes ".s4lts"

-- `A..=Z | a..=z | 0..=9 | _ | . | -`
abbrev pub is_plain : ℕ → Bool
is_plain b =
    (leb b'A' b && leb b b'Z')
    || ((leb b'a' b && leb b b'z')
        || ((leb b'0' b && leb b b'9') || (b == b'_' || (b == b'.' || b == b'-'))))

-- One digit of `{b:02X}`.
unfoldable pub upper_hex : ℕ → ℕ
upper_hex d = if ltb d 10 then 48 + d else 55 + d

-- `char::to_digit(16)`
unfoldable pub to_digit : ℕ → Option ℕ
to_digit c =
    if leb b'0' c && leb c b'9'
    then some (c - 48)
    else if leb b'a' c && leb c b'f'
    then some (c - 87)
    else if leb b'A' c && leb c b'F'
    then some (c - 55)
    else none

unfoldable pub sanitize_log_group : Bytes → Bytes
sanitize_log_group [] = []
sanitize_log_group (b ∷ bs) =
    let rest = sanitize_log_group bs in
    if is_plain b then b ∷ rest else b'%' ∷ upper_hex (b / 16) ∷ upper_hex (b % 16) ∷ rest

-- `(hi * 16 + lo) as u8`
abbrev pub hex_byte : Option ℕ → Option ℕ → Option ℕ
hex_byte none lo = none
hex_byte (some hi) none = none
hex_byte (some hi) (some lo) = some ((hi * 16 + lo) % 256)

abbrev pub push : Option ℕ → Option Bytes → Option Bytes
push none out = none
push (some b) none = none
push (some b) (some out) = some (b ∷ out)

-- The `while` loop over the bytes that are left.
unfoldable pub unescape : Bytes → Option Bytes
unescape [] = some []
unescape (b ∷ []) = if b == b'%' then none else some (b ∷ [])
unescape (b ∷ h ∷ []) =
    let plain = push (some b) (unescape (h ∷ [])) in if b == b'%' then none else plain
unescape (b ∷ h ∷ l ∷ rest) =
    let escaped = push (hex_byte (to_digit h) (to_digit l)) (unescape rest) in
    let plain = push (some b) (unescape (h ∷ l ∷ rest)) in if b == b'%' then escaped else plain

-- `String::from_utf8(out).ok()`
abbrev pub from_utf8 : Bytes → Option Bytes
from_utf8 out = if is_utf8 out then some out else none

unfoldable pub unsanitize_log_group : Bytes → Option Bytes
unsanitize_log_group s = do out ← unescape s; from_utf8 out

abbrev pub trim_start : ℕ → Bytes → Bytes
trim_start c [] = []
trim_start c (b ∷ bs) = let rest = trim_start c bs in if b == c then rest else b ∷ bs

-- `prefix.trim_matches('/')`
unfoldable pub trim_matches : ℕ → Bytes → Bytes
trim_matches c s = reverse (trim_start c (reverse (trim_start c s)))

abbrev pub slashed : Bytes → Bytes
slashed [] = []
slashed (b ∷ bs) = b ∷ bs ++ bytes "/"

unfoldable pub norm_prefix : Bytes → Bytes
norm_prefix prefix = slashed (trim_matches b'/' prefix)

pub record ChunkLocation : Type 0 where
  pub account : Bytes
  pub log_group : Bytes
  pub date : Bytes
  pub name : Bytes

-- `account={}/loggroup={}/`
unfoldable pub group_part : Bytes → Bytes → Bytes
group_part account log_group =
    bytes "account="
    ++ (account ++ (b'/' ∷ (bytes "loggroup=" ++ (sanitize_log_group log_group ++ (b'/' ∷ [])))))

unfoldable pub tail : ChunkLocation → Bytes
tail loc =
    bytes "account="
    ++ (loc.account
        ++ (b'/'
            ∷ (bytes "loggroup="
                ++ (sanitize_log_group loc.log_group
                    ++ (b'/'
                        ∷ (bytes "dt=" ++ (loc.date ++ (b'/' ∷ (loc.name ++ data_suffix)))))))))

unfoldable pub data_key : ChunkLocation → Bytes → Bytes
data_key loc prefix = norm_prefix prefix ++ (data_seg ++ (b'/' ∷ tail loc))

unfoldable pub index_key : Bytes → ChunkLocation → Bytes → Bytes
index_key index_sidecar_suffix loc prefix =
    norm_prefix prefix ++ (index_seg ++ (b'/' ∷ (tail loc ++ index_sidecar_suffix)))

unfoldable pub ts_index_key : ChunkLocation → Bytes → Bytes
ts_index_key loc prefix =
    norm_prefix prefix ++ (index_seg ++ (b'/' ∷ (tail loc ++ ts_sidecar_suffix)))

-- The parts of a key behind `data/`; any other number of parts is refused.
unfoldable pub parse_parts : List Bytes → Option ChunkLocation
parse_parts (a ∷ g ∷ d ∷ file ∷ []) = do
  account ← strip_prefix (bytes "account=") a
  group_enc ← strip_prefix (bytes "loggroup=") g
  date ← strip_prefix (bytes "dt=") d
  name ← strip_suffix data_suffix file
  log_group ← unsanitize_log_group group_enc
  some (record { account = account; log_group = log_group; date = date; name = name })
parse_parts _ = none

unfoldable pub parse_data_key : Bytes → Bytes → Option ChunkLocation
parse_data_key prefix key = do
  rest ← strip_prefix (norm_prefix prefix ++ (data_seg ++ (b'/' ∷ []))) key
  parse_parts (split b'/' rest)

unfoldable pub data_group_prefix : Bytes → Bytes → Bytes → Bytes
data_group_prefix prefix account log_group =
    norm_prefix prefix ++ (data_seg ++ (b'/' ∷ group_part account log_group))

unfoldable pub manifest_group_prefix : Bytes → Bytes → Bytes → Bytes
manifest_group_prefix prefix account log_group =
    norm_prefix prefix ++ (manifest_seg ++ (b'/' ∷ group_part account log_group))

-- `window={}-{}.json`
unfoldable pub window_part : ℤ → ℤ → Bytes
window_part window_start_ms window_end_ms =
    bytes "window=" ++ (show_ℤ window_start_ms ++ (b'-' ∷ (show_ℤ window_end_ms ++ bytes ".json")))

unfoldable pub manifest_key : Bytes → Bytes → Bytes → ℤ → ℤ → Bytes
manifest_key prefix account log_group window_start_ms window_end_ms =
    norm_prefix prefix
    ++ (manifest_seg
        ++ (b'/'
            ∷ (bytes "account="
                ++ (account
                    ++ (b'/'
                        ∷ (bytes "loggroup="
                            ++ (sanitize_log_group log_group
                                ++ (b'/' ∷ window_part window_start_ms window_end_ms))))))))

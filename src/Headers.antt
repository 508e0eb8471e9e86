-- ===== src/Headers.antt =====
-- src/http_header.c: the header table of a request. `nexus_headers_t` is the list of its first
-- `count` entries; the slots behind them are never read. Operations that may fail return the table
-- and whether they returned 0.
pub mod View
use nexus_gateway.Base.{
  Bool, Bytes, List, Option, [], bytes_eq, c_str, false, if◌then◌else◌, leb, length, none, some,
  true, ℕ, ◌&&◌, ◌++◌, ◌==◌, ◌∷◌,
}
use nexus_gateway.Util.{hash_fnv1a, normalize_lower}

-- `nexus_header_t`
pub record Header : Type 0 where
  pub hash : ℕ
  pub name : Bytes
  pub value : Bytes

-- `nexus_headers_t`
abbrev pub Headers : Type 0
Headers = List Header

-- NEXUS_HTTP_HEADER_MAX
abbrev pub header_max : ℕ
header_max = 32

-- `nexus_headers_init` and `nexus_headers_reset` leave no entry.
abbrev pub headers_init : Headers
headers_init = []

-- The entry that `nexus_headers_add` writes.
unfoldable pub new_header : Bytes → Bytes → Header
new_header name value = record {
  hash = hash_fnv1a (normalize_lower name);
  name = normalize_lower name;
  value = value;
}

-- `nexus_headers_add`, given the `name_len` bytes of the name and the `value_len` of the value.
unfoldable pub headers_add : Headers → Bytes → Bytes → Headers × Bool
headers_add h name value =
    if leb header_max (length h) then (h, false) else (h ++ new_header name value ∷ [], true)

-- `normalize_lower_strdup`
abbrev pub lower_name : Bytes → Bytes
lower_name name = normalize_lower (c_str name)

-- The loop of `nexus_headers_get`: the hashes are compared, and nothing else.
unfoldable pub find_hash : ℕ → Headers → Option Bytes
find_hash target [] = none
find_hash target (e ∷ h) = if e.hash == target then some e.value else find_hash target h

unfoldable pub headers_get : Headers → Bytes → Option Bytes
headers_get h name = find_hash (hash_fnv1a (lower_name name)) h

-- The test of `nexus_headers_remove`: the hash, then `strcmp`.
unfoldable pub matches : ℕ → Bytes → Header → Bool
matches target lower e = e.hash == target && bytes_eq (c_str e.name) lower

-- The loop of `nexus_headers_remove`; the entries behind a match move one place forward.
unfoldable pub remove_loop : ℕ → Bytes → Headers → Headers
remove_loop target lower [] = []
remove_loop target lower (e ∷ h) =
    let rest = remove_loop target lower h in if matches target lower e then rest else e ∷ rest

unfoldable pub headers_remove : Headers → Bytes → Headers
headers_remove h name = remove_loop (hash_fnv1a (lower_name name)) (lower_name name) h

-- `nexus_headers_set`
unfoldable pub headers_set : Headers → Bytes → Bytes → Headers × Bool
headers_set h name value = headers_add (headers_remove h name) (c_str name) (c_str value)

-- ===== src/Config.antt =====
-- src/config.c: the configuration file, its key-value table and the custom headers.
-- The file's bytes are an argument; `none` is a file that does not open.
pub mod Bounds
use nexus_gateway.Base.{
  Bytes, List, Option, [], bytes_eq, c_str, codes, if◌then◌else◌, leb, length, map, none, some,
  split_at_byte, take, ℕ, ◌&&◌, ◌++◌, ◌-◌, ◌==◌, ◌||◌, ◌∷◌,
}
use nexus_gateway.Base.Int.{ℤ}
use nexus_gateway.Util.Atoi.{atoi, is_space, skip_space}

-- MAX_KV, MAX_CUSTOM_HEADERS, and the sizes of `line`, `compound` and the custom header texts.
abbrev pub max_kv : ℕ
max_kv = 256

abbrev pub max_custom_headers : ℕ
max_custom_headers = 32

abbrev pub compound_size : ℕ
compound_size = 256

abbrev pub custom_size : ℕ
custom_size = 128

abbrev pub config_line_size : ℕ
config_line_size = 1024

-- `struct nexus_config_t`; `kv_count` and `custom_header_count` are lengths.
pub record Config : Type 0 where
  pub current_section : Bytes
  pub kvs : List (Bytes × Bytes)
  pub custom_headers : List (Bytes × Bytes)

-- `while (end > s && isspace(*(end-1))) *--end = '\0';`
unfoldable pub trim_end : Bytes → Bytes
trim_end [] = []
trim_end (c ∷ cs) =
    let rest = trim_end cs in if is_space c && bytes_eq rest [] then [] else c ∷ rest

-- `trim`
unfoldable pub trim : Bytes → Bytes
unfolding trim_end
trim s = trim_end (skip_space (c_str s))

-- `fgets(line, sizeof(line), f)` over the file: `room` bytes still fit the line `acc`.
unfoldable pub fgets_lines : ℕ → Bytes → Bytes → List Bytes
fgets_lines room acc [] = if bytes_eq acc [] then [] else acc ∷ []
fgets_lines room acc (c ∷ cs) =
    let ended = (acc ++ c ∷ []) ∷ fgets_lines (config_line_size - 1) [] cs in
    let longer = fgets_lines (room - 1) (acc ++ c ∷ []) cs in
    if c == b'\n' || room == 1 then ended else longer

-- `snprintf(compound, sizeof(compound), "%s.%s", section, key)`
unfoldable pub compound : Bytes → Bytes → Bytes
compound section key = take (compound_size - 1) (c_str section ++ (b'.' ∷ c_str key))

-- A line `key = value`, at its first '='.
unfoldable pub add_kv : Config → Bytes → Config
add_kv cfg p = elim (split_at_byte b'=' p) [
  | none ↦ cfg
  | some (k, v) ↦
      if leb max_kv (length cfg.kvs)
      then cfg
      else record cfg { kvs = cfg.kvs ++ (compound cfg.current_section (trim k), trim v) ∷ [] }
]

-- A line `[section]`, behind its first byte.
unfoldable pub open_section : Config → Bytes → Config
open_section cfg rest = elim (split_at_byte b']' rest) [
  | none ↦ cfg
  | some (name, _) ↦ record cfg { current_section = name }
]

-- The body of the reading loop, on the trimmed line.
unfoldable pub load_line : Config → Bytes → Config
load_line cfg [] = cfg
load_line cfg (c ∷ cs) =
    if c == b'#' || c == b';'
    then cfg
    else if c == b'['
    then open_section cfg cs
    else add_kv cfg (c ∷ cs)

unfoldable pub load_lines : Config → List Bytes → Config
load_lines cfg [] = cfg
load_lines cfg (l ∷ ls) = load_lines (load_line cfg (trim l)) ls

-- The search of `nexus_config_get`.
unfoldable pub find_kv : Bytes → List (Bytes × Bytes) → Option Bytes
find_kv key [] = none
find_kv key ((k, v) ∷ kvs) = if bytes_eq k key then some v else find_kv key kvs

-- `nexus_config_get`
unfoldable pub config_get : Config → Bytes → Bytes → Option Bytes
config_get cfg section key = find_kv (compound section key) cfg.kvs

-- `nexus_config_get_int`
unfoldable pub config_get_int : Config → Bytes → Bytes → ℤ → ℤ
config_get_int cfg section key default = elim (config_get cfg section key) [
  | none ↦ default
  | some v ↦ atoi v
]

-- One token of the custom headers: nothing without a colon.
unfoldable pub custom_token : List (Bytes × Bytes) → Bytes → List (Bytes × Bytes)
custom_token hs token = elim (split_at_byte b':' token) [
  | none ↦ hs
  | some (name, value) ↦ hs ++ (take (custom_size - 1) name, take (custom_size - 1) value) ∷ []
]

-- The token loop: `token` is what was read of the current token.
unfoldable pub custom_loop : List (Bytes × Bytes) → Bytes → Bytes → List (Bytes × Bytes)
custom_loop hs token [] = if leb max_custom_headers (length hs) then hs else custom_token hs token
custom_loop hs token (c ∷ cs) =
    let longer = custom_loop hs (token ++ c ∷ []) cs in
    let next = custom_loop (custom_token hs token) [] cs in
    if leb max_custom_headers (length hs) then hs else if c == b',' then next else longer

abbrev pub empty_config : Config
empty_config = record { current_section = codes "default"; kvs = []; custom_headers = [] }

-- The custom headers of a table, from `add_header` in section `http_rewrite`.
unfoldable pub load_custom : Config → Config
load_custom cfg = elim (config_get cfg (codes "http_rewrite") (codes "add_header")) [
  | none ↦ cfg
  | some v ↦ record cfg { custom_headers = custom_loop [] [] v }
]

-- `nexus_config_load`
unfoldable pub config_load : Option Bytes → Option Config
config_load none = none
config_load (some file) =
    some (load_custom (load_lines empty_config (fgets_lines (config_line_size - 1) [] file)))

unfoldable pub copy_header : Bytes × Bytes → Bytes × Bytes
copy_header (name, value) =
    (take (custom_size - 1) (c_str name), take (custom_size - 1) (c_str value))

-- `nexus_config_get_custom_headers`: the copies that it fills and counts.
unfoldable pub config_get_custom_headers : Config → ℕ → List (Bytes × Bytes)
unfolding copy_header
config_get_custom_headers cfg max_count = map copy_header (take max_count cfg.custom_headers)

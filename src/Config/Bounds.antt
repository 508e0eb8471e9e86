-- ===== src/Config/Bounds.antt =====
-- src/config.c: the sizes of a loaded configuration's arrays and texts.
use nexus_gateway.Base.{
  All, All-append, Bool-cases, Bytes, List, Option, Option-cases, [], arith, c_str, codes, inl, inr,
  leb, length, length-append, length-c_str, length-take, none, some, split_at_byte, subst, take, ℕ,
  ◌++◌, ◌+◌, ◌-◌, ◌<◌, ◌==◌, ◌||◌, ◌∷◌, ◌≡◌, ◌≤◌,
}
use nexus_gateway.Config.{
  Config, add_kv, compound, compound_size, config_get, config_line_size, config_load, custom_loop,
  custom_size, custom_token, empty_config, fgets_lines, find_kv, load_custom, load_line, load_lines,
  max_custom_headers, max_kv, open_section, trim, trim_end,
}
use nexus_gateway.Util.Atoi.{skip_space}

-- The sizes of `kvs` and `custom_headers`, of `compound` and of a custom header's texts; a value is
-- part of one line.
pub record IsWithin (cfg : Config) : Type 0 where
  pub few : length cfg.kvs ≤ max_kv
  pub keys : All (λ kv. length kv.0 < compound_size) cfg.kvs
  pub values : All (λ kv. length kv.1 < config_line_size) cfg.kvs
  pub custom_few : length cfg.custom_headers ≤ max_custom_headers
  pub custom_short :
      All (λ h. (length h.0 < custom_size) × (length h.1 < custom_size)) cfg.custom_headers

length-trim_end : (s : Bytes) → length (trim_end s) ≤ length s
unfolding trim_end
length-trim_end [] = omega arith
length-trim_end (c ∷ cs) = ground (arith, length-trim_end cs)

length-skip_space : (s : Bytes) → length (skip_space s) ≤ length s
unfolding skip_space
length-skip_space [] = omega arith
length-skip_space (c ∷ cs) = ground (arith, length-skip_space cs)

length-trim : (s : Bytes) → length (trim s) ≤ length s
unfolding trim
length-trim s =
    omega
      (arith, length-trim_end (skip_space (c_str s)), length-skip_space (c_str s), length-c_str s)

length-split_at_byte :
    (b : ℕ) (s : Bytes) {l r : Bytes}
    → split_at_byte b s ≡ some (l, r)
    → length l + length r < length s
unfolding split_at_byte
length-split_at_byte b [] e = cc
length-split_at_byte b (c ∷ cs) {l} {r} e = elim (Option-cases (split_at_byte b cs)) [
  | inl f ↦ ground (arith, f)
  | inr ((l', r'), f) ↦ ground (arith, f, length-split_at_byte b cs {l = l'} {r = r'} f)
]

length-fgets_lines :
    (room : ℕ) (acc file : Bytes)
    → 0 < room
    → length acc + room < config_line_size
    → All (λ l. length l < config_line_size) (fgets_lines room acc file)
unfolding fgets_lines
length-fgets_lines room acc [] h k = ground arith
length-fgets_lines room acc (c ∷ cs) h k = elim (Bool-cases (c == b'\n' || room == 1)) [
  | inl ends ↦ simp ends (
    omega (arith, length-append acc (c ∷ [])),
    length-fgets_lines (config_line_size - 1) [] cs (omega arith) (omega arith),
  )
  | inr goes ↦ simp goes (
      length-fgets_lines (room - 1) (acc ++ c ∷ []) cs (ground arith)
        (ground (arith, length-append acc (c ∷ []))))
]

-- One more pair, where there is room.
pair-IsWithin :
    (cfg : Config) (k v : Bytes)
    → length cfg.kvs < max_kv
    → length v < config_line_size
    → IsWithin cfg
    → IsWithin (record cfg { kvs = cfg.kvs ++ (compound cfg.current_section k, v) ∷ [] })
unfolding compound
pair-IsWithin cfg k v room short w =
    let text = c_str cfg.current_section ++ (b'.' ∷ c_str k) in
    record {
      few = omega (arith, length-append cfg.kvs ((compound cfg.current_section k, v) ∷ []));
      keys =
          All-append (λ kv. length kv.0 < compound_size) cfg.kvs _ w.keys
            (omega (arith, length-take (compound_size - 1) text), tt);
      values = All-append (λ kv. length kv.1 < config_line_size) cfg.kvs _ w.values (short, tt);
      custom_few = w.custom_few;
      custom_short = w.custom_short;
    }

add_kv-IsWithin :
    (cfg : Config) (p : Bytes)
    → length p < config_line_size
    → IsWithin cfg
    → IsWithin (add_kv cfg p)
unfolding add_kv
add_kv-IsWithin cfg p short w = elim (Option-cases (split_at_byte b'=' p)) [
  | inl e ↦ rw (e, add_kv) w
  | inr ((k, v), e) ↦
      rw (e, add_kv)
        (elim (Bool-cases (leb max_kv (length cfg.kvs))) [
          | inl full ↦ simp full w
          | inr room ↦ simp room (
              pair-IsWithin cfg (trim k) (trim v) (ground arith)
                (omega (arith, length-trim v, length-split_at_byte b'=' p {l = k} {r = v} e)) w)
        ])
]

load_line-IsWithin :
    (cfg : Config) (line : Bytes)
    → length line < config_line_size
    → IsWithin cfg
    → IsWithin (load_line cfg line)
unfolding load_line open_section
load_line-IsWithin cfg [] short w = w
load_line-IsWithin cfg (c ∷ cs) short w = ground (arith, w, add_kv-IsWithin cfg (c ∷ cs) short w)

load_lines-IsWithin :
    (cfg : Config) (ls : List Bytes)
    → All (λ l. length l < config_line_size) ls
    → IsWithin cfg
    → IsWithin (load_lines cfg ls)
unfolding load_lines
load_lines-IsWithin cfg [] short w = w
load_lines-IsWithin cfg (l ∷ ls) short w =
    load_lines-IsWithin (load_line cfg (trim l)) ls short.1
      (load_line-IsWithin cfg (trim l) (omega (arith, length-trim l, short.0)) w)

find_kv-short :
    (key : Bytes) (kvs : List (Bytes × Bytes)) {v : Bytes}
    → All (λ kv. length kv.1 < config_line_size) kvs
    → find_kv key kvs ≡ some v
    → length v < config_line_size
unfolding find_kv
find_kv-short key [] h e = cc
find_kv-short key ((k, x) ∷ kvs) {v} h e = ground (arith, h.0, find_kv-short key kvs {v = v} h.1)

abbrev ShortHeaders : List (Bytes × Bytes) → Type 0
ShortHeaders = All (λ h. (length h.0 < custom_size) × (length h.1 < custom_size))

custom_token-short :
    (hs : List (Bytes × Bytes)) (token : Bytes)
    → length hs < max_custom_headers
    → ShortHeaders hs
    → (length (custom_token hs token) ≤ max_custom_headers) × ShortHeaders (custom_token hs token)
unfolding custom_token
custom_token-short hs token room h = elim (Option-cases (split_at_byte b':' token)) [
  | inl e ↦ rw (e, custom_token) (omega arith, h)
  | inr ((name, value), e) ↦
      rw (e, custom_token)
        (
          omega (
            arith,
            length-append hs ((take (custom_size - 1) name, take (custom_size - 1) value) ∷ []),
          ),
          All-append (λ h. (length h.0 < custom_size) × (length h.1 < custom_size)) hs _ h
              (
                (
                  omega (arith, length-take (custom_size - 1) name),
                  omega (arith, length-take (custom_size - 1) value),
                ),
                tt,
              ),
        )
]

custom_loop-short :
    (hs : List (Bytes × Bytes)) (token s : Bytes)
    → length hs ≤ max_custom_headers
    → ShortHeaders hs
    → (length (custom_loop hs token s) ≤ max_custom_headers) × ShortHeaders (custom_loop hs token s)
unfolding custom_loop
custom_loop-short hs token [] few h = elim (Bool-cases (leb max_custom_headers (length hs))) [
  | inl full ↦ simp full (few, h)
  | inr room ↦ simp room (custom_token-short hs token (ground arith) h)
]
custom_loop-short hs token (c ∷ cs) few h = elim (Bool-cases (leb max_custom_headers (length hs))) [
  | inl full ↦ simp full (few, h)
  | inr room ↦
      let (few', h') = custom_token-short hs token (ground arith) h in
      simp room (elim (Bool-cases (c == b',')) [
        | inl ends ↦ simp ends (custom_loop-short (custom_token hs token) [] cs few' h')
        | inr goes ↦ simp goes (custom_loop-short hs (token ++ c ∷ []) cs few h)
      ])
]

load_custom-IsWithin : (cfg : Config) → IsWithin cfg → IsWithin (load_custom cfg)
unfolding load_custom
load_custom-IsWithin cfg w =
    elim (Option-cases (config_get cfg (codes "http_rewrite") (codes "add_header"))) [
      | inl e ↦ rw (e, load_custom) w
      | inr (v, e) ↦
          let (few, short) = custom_loop-short [] [] v (omega arith) tt in
          rw (e, load_custom)
            (record {
              few = w.few;
              keys = w.keys;
              values = w.values;
              custom_few = few;
              custom_short = short;
            })
    ]

-- Whatever the file holds, a loaded configuration keeps its pairs and headers inside their
-- arrays: at most 256 pairs and 32 headers, keys of at most 255 bytes, values of at most 1023,
-- and header texts of at most 127.
pub config_load-IsWithin :
    (file : Option Bytes) {cfg : Config} → config_load file ≡ some cfg → IsWithin cfg
unfolding config_load
config_load-IsWithin none e = cc
config_load-IsWithin (some file) {cfg} e =
    let lines = length-fgets_lines (config_line_size - 1) [] file (omega arith) (omega arith) in
    let start : IsWithin empty_config = record {
      few = omega arith;
      keys = tt;
      values = tt;
      custom_few = omega arith;
      custom_short = tt;
    } in
    let ls = fgets_lines (config_line_size - 1) [] file in
    let loaded = load_custom-IsWithin _ (load_lines-IsWithin empty_config ls lines start) in
    let same : load_custom (load_lines empty_config ls) ≡ cfg = cc in subst IsWithin same loaded

-- A value that is read back is shorter than a line.
pub config_get-short :
    (cfg : Config) (section key : Bytes) {v : Bytes}
    → IsWithin cfg
    → config_get cfg section key ≡ some v
    → length v < config_line_size
unfolding config_get
config_get-short cfg section key {v} w e =
    find_kv-short (compound section key) cfg.kvs {v = v} w.values e

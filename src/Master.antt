-- ===== src/Master.antt =====
-- src/master.c: the two copies of the configuration in shared memory, and how a reload writes them.
-- The atomic variables are fields; the writes of a reload are listed one by one, in their order.
pub mod Slots
pub mod Memory
pub mod Restart
pub mod Drained
pub mod Loop
pub mod Report
use nexus_gateway.Base.{
  Bool, Bytes, List, Option, [], bytes_eq, c_str, codes, if◌then◌else◌, length, none, not, some,
  take, ℕ, ◌%◌, ◌*◌, ◌++◌, ◌+◌, ◌-◌, ◌^◌, ◌∷◌,
}
use nexus_gateway.Base.Int.{ltb_ℤ, pos, ℤ}
use nexus_gateway.Config.{Config, config_get}
use nexus_gateway.Rewrite.{or_default}
use nexus_gateway.Util.Atoi.{atoi}

-- CONFIG_MAX
abbrev pub config_max : ℕ
config_max = 64 * 1024

-- `config_shadow_t`; `text` is what was written to `data`, without its terminator.
pub record Slot : Type 0 where
  pub version : ℕ
  pub total_size : ℕ
  pub text : Bytes

-- `n += snprintf(p + n, end - p - n, …)` with `end = buf + CONFIG_MAX - 1`: what the buffer holds, and
-- `n`. Behind the end, where the size wraps around, nothing is written here.
unfoldable pub print_at : Bytes × ℕ → Bytes → Bytes × ℕ
print_at (out, n) s = (out ++ take (config_max - 1 - n - 1) s, n + length s)

-- "key=%s\n"
abbrev pub setting : Bytes → Bytes → Bytes
setting key value = key ++ (b'=' ∷ (c_str value ++ b'\n' ∷ []))

unfoldable pub server_setting : Option Bytes → List Bytes
server_setting none = []
server_setting (some server) = setting (codes "upstream.api.server") server ∷ []

-- The lines of `serialize_config`.
unfoldable pub settings : Config → List Bytes
settings cfg =
    setting (codes "listen")
      (or_default (config_get cfg (codes "server") (codes "listen")) (codes "0.0.0.0:8080"))
    ∷ setting (codes "log_dir") (codes "logs")
    ∷ setting (codes "log_level")
        (or_default (config_get cfg (codes "server") (codes "log_level")) (codes "info"))
    ∷ setting (codes "worker_num")
        (or_default (config_get cfg (codes "server") (codes "worker_num")) (codes "auto"))
    ∷ server_setting (config_get cfg (codes "upstream.api") (codes "server"))

unfoldable pub print_all : Bytes × ℕ → List Bytes → Bytes × ℕ
print_all s [] = s
print_all out (s ∷ ss) = print_all (print_at out s) ss

-- `serialize_config`: the text, and `*size_out`.
unfoldable pub serialize_config : Config → Bytes × ℕ
serialize_config cfg = print_all ([], 0) (settings cfg)

-- `g_shadow` and `g_active_slot`, which is false for 0.
pub record Shadow : Type 0 where
  pub slot0 : Slot
  pub slot1 : Slot
  pub active_slot : Bool

-- `g_shadow[i]`
abbrev pub slot_at : Bool → Shadow → Slot
slot_at i s = if i then s.slot1 else s.slot0

abbrev pub put_slot : Bool → Slot → Shadow → Shadow
put_slot i x s = if i then record s { slot1 = x } else record s { slot0 = x }

-- `serialize_config(cfg, g_shadow[inactive].data, &g_shadow[inactive].total_size)`
unfoldable pub write_data : Config → Bool → Shadow → Shadow
write_data cfg inactive s =
    let (text, n) = serialize_config cfg in
    put_slot inactive (record (slot_at inactive s) { text = text; total_size = n }) s

-- `atomic_fetch_add(&g_shadow[inactive].version, 1)`
unfoldable pub bump_version : Bool → Shadow → Shadow
bump_version inactive s =
    let x = slot_at inactive s in
    put_slot inactive (record x { version = (x.version + 1) % 2 ^ 64 }) s

-- `atomic_store(g_active_slot, inactive)`
unfoldable pub switch_slot : Bool → Shadow → Shadow
switch_slot inactive s = record s { active_slot = inactive }

-- The writes of `reload_config`, in order.
unfoldable pub reload_writes : Config → Shadow → List (Shadow → Shadow)
reload_writes cfg s =
    let inactive = not s.active_slot in
    write_data cfg inactive ∷ bump_version inactive ∷ switch_slot inactive ∷ []

unfoldable pub run_writes : List (Shadow → Shadow) → Shadow → Shadow
run_writes [] s = s
run_writes (f ∷ fs) s = run_writes fs (f s)

-- `reload_config`
unfoldable pub reload_config : Config → Shadow → Shadow
reload_config cfg s = run_writes (reload_writes cfg s) s

-- `if (g_worker_count < 1) g_worker_count = 1;`
unfoldable pub at_least_one : ℤ → ℤ
at_least_one n = if ltb_ℤ n (pos 1) then pos 1 else n

-- `if (g_worker_count > 64) g_worker_count = 64;`
unfoldable pub at_most_64 : ℤ → ℤ
at_most_64 n = if ltb_ℤ (pos 64) n then pos 64 else n

unfoldable pub asked_workers : Option Bytes → ℤ → ℤ
asked_workers none processors = at_least_one processors
asked_workers (some wn) processors =
    if bytes_eq wn (codes "auto") then at_least_one processors else atoi wn

-- `g_worker_count`, from `worker_num` and the number of processors.
unfoldable pub worker_count : Config → ℤ → ℤ
worker_count cfg processors =
    let asked = asked_workers (config_get cfg (codes "server") (codes "worker_num")) processors in
    at_most_64 (at_least_one asked)

-- ===== src/Master/Slots.antt =====
-- src/master.c: the active slot during a reload, and the length of the configuration's text.
use mathlib.Core.List.{append-nil, append_assoc}
use nexus_gateway.Base.{
  Bool-cases, Bytes, List, Option-cases, [], ap, ap₂, arith, c_str, codes, inl, inr, length,
  length-append, length-c_str, refl, suc, sym, take, take-length, zero, ℕ, ◌*◌, ◌++◌, ◌+◌, ◌-◌, ◌<◌,
  ◌∙◌, ◌∷◌, ◌≡◌,
}
use nexus_gateway.Config.{Config, config_get, config_line_size}
use nexus_gateway.Config.Bounds.{IsWithin, config_get-short}
use nexus_gateway.Master.{
  Shadow, bump_version, config_max, print_all, print_at, reload_config, reload_writes, run_writes,
  serialize_config, server_setting, setting, settings, slot_at, switch_slot, write_data,
}
use nexus_gateway.Rewrite.{or_default}

old_slot :
    (cfg : Config) (s : Shadow) (k : ℕ)
    → k < 3
    → slot_at
        (run_writes (take k (reload_writes cfg s)) s).active_slot
        (run_writes (take k (reload_writes cfg s)) s)
      ≡ slot_at s.active_slot s
unfolding run_writes reload_writes write_data bump_version
old_slot cfg s zero h = refl
old_slot cfg s (suc zero) h = elim (Bool-cases s.active_slot) [
  | inl e ↦ simp e refl
  | inr e ↦ simp e refl
]
old_slot cfg s (suc (suc zero)) h = elim (Bool-cases s.active_slot) [
  | inl e ↦ simp e refl
  | inr e ↦ simp e refl
]
old_slot cfg s (suc (suc (suc k))) h = absurd (omega arith)

new_slot :
    (cfg : Config) (s : Shadow)
    → ((slot_at (reload_config cfg s).active_slot (reload_config cfg s)).text
        ≡ (serialize_config cfg).0)
      × ((slot_at (reload_config cfg s).active_slot (reload_config cfg s)).total_size
          ≡ (serialize_config cfg).1)
unfolding run_writes reload_writes reload_config write_data bump_version switch_slot
new_slot cfg s = elim (Bool-cases s.active_slot) [
  | inl e ↦ simp e (refl, refl)
  | inr e ↦ simp e (refl, refl)
]

-- While a reload has done fewer than all of its three writes, the active slot is the old one,
-- unchanged; behind the last write, it has the new text and its size.
pub reload_config-writes :
    (cfg : Config) (s : Shadow) (k : ℕ)
    → k < 3
    → (slot_at
          (run_writes (take k (reload_writes cfg s)) s).active_slot
          (run_writes (take k (reload_writes cfg s)) s)
        ≡ slot_at s.active_slot s)
      × ((slot_at (reload_config cfg s).active_slot (reload_config cfg s)).text
          ≡ (serialize_config cfg).0)
      × ((slot_at (reload_config cfg s).active_slot (reload_config cfg s)).total_size
          ≡ (serialize_config cfg).1)
reload_config-writes cfg s k h =
    let (text, size) = new_slot cfg s in (old_slot cfg s k h, text, size)

unfoldable pub total_length : List Bytes → ℕ
total_length [] = 0
total_length (t ∷ ts) = length t + total_length ts

unfoldable pub joined : List Bytes → Bytes
joined [] = []
joined (t ∷ ts) = t ++ joined ts

-- Texts that fit are printed whole.
print_all_fits :
    (ts : List Bytes) (out : Bytes)
    → length out + total_length ts + 1 < config_max
    → print_all (out, length out) ts ≡ (out ++ joined ts, length out + total_length ts)
unfolding print_all print_at total_length joined
print_all_fits [] out h = ap₂ (λ a n. (a, n)) (sym (append-nil out)) (omega arith)
print_all_fits (t ∷ ts) out h =
    rw (take-length t (config_max - 1 - length out - 1) (omega arith), sym (length-append out t))
      (print_all_fits ts (out ++ t) (omega (arith, length-append out t))
        ∙ ap₂ (λ a n. (a, n)) (append_assoc out t (joined ts)) (omega (arith, length-append out t)))

length-setting :
    (key value : Bytes)
    → length value < config_line_size
    → length (setting key value) < length key + config_line_size + 2
length-setting key value h = omega (
  arith,
  length-append key (b'=' ∷ (c_str value ++ b'\n' ∷ [])),
  length-append (c_str value) (b'\n' ∷ []),
  length-c_str value,
)

or_default-short :
    (cfg : Config) (section key default : Bytes)
    → IsWithin cfg
    → length default < config_line_size
    → length (or_default (config_get cfg section key) default) < config_line_size
or_default-short cfg section key default w h = elim (Option-cases (config_get cfg section key)) [
  | inl e ↦ rw e h
  | inr (v, e) ↦ rw e (config_get-short cfg section key {v = v} w e)
]

server_setting-short :
    (cfg : Config)
    → IsWithin cfg
    → total_length (server_setting (config_get cfg (codes "upstream.api") (codes "server"))) < 1100
unfolding total_length server_setting
server_setting-short cfg w =
    elim (Option-cases (config_get cfg (codes "upstream.api") (codes "server"))) [
      | inl e ↦ rw (e, server_setting) (omega arith)
      | inr (v, e) ↦
          rw (e, server_setting)
            (omega (
              arith,
              length-setting (codes "upstream.api.server") v
                  (config_get-short cfg (codes "upstream.api") (codes "server") {v = v} w e),
            ))
    ]

settings-short : (cfg : Config) → IsWithin cfg → total_length (settings cfg) < 5 * 1100
unfolding settings total_length
settings-short cfg w =
    let a =
      or_default-short cfg (codes "server") (codes "listen") (codes "0.0.0.0:8080") w
        (omega arith) in
    let b =
      or_default-short cfg (codes "server") (codes "log_level") (codes "info") w (omega arith) in
    let c =
      or_default-short cfg (codes "server") (codes "worker_num") (codes "auto") w (omega arith) in
    omega (
      arith,
      length-setting (codes "listen") _ a,
      length-setting (codes "log_dir") (codes "logs") (omega arith),
      length-setting (codes "log_level") _ b,
      length-setting (codes "worker_num") _ c,
      server_setting-short cfg w,
    )

-- The text of a configuration that keeps its bounds is printed whole, and ends inside the buffer
-- of 65536 bytes with its terminator.
pub serialize_config-fits :
    (cfg : Config)
    → IsWithin cfg
    → (serialize_config cfg ≡ (joined (settings cfg), total_length (settings cfg)))
      × ((serialize_config cfg).1 + 1 < config_max)
unfolding serialize_config
serialize_config-fits cfg w =
    let short = settings-short cfg w in
    let zero_add : 0 + total_length (settings cfg) ≡ total_length (settings cfg) = omega arith in
    let whole =
      print_all_fits (settings cfg) [] (omega (arith, short))
      ∙ ap (λ (n : ℕ). (joined (settings cfg), n)) zero_add in
    (whole, rw whole (omega (arith, short)))

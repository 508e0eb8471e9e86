-- ===== src/Tests/Settings.antt =====
-- src/config.c and src/master.c at concrete inputs.
use nexus_gateway.Base.{
  Bytes, [], arith, bytes_eq, c_str, codes, false, get_elem?, refl, some, split_at_byte, take, ◌+◌,
  ◌<◌, ◌∷◌, ◌≡◌,
}
use nexus_gateway.Base.Int.{negsuc, pos}
use nexus_gateway.Config.{
  Config, add_kv, compound, config_get, config_load, custom_loop, custom_token, fgets_lines,
  find_kv, load_custom, load_line, load_lines, open_section, trim, trim_end,
}
use nexus_gateway.Config.Bounds.{IsWithin, config_load-IsWithin}
use nexus_gateway.Master.{
  Shadow, asked_workers, at_least_one, at_most_64, config_max, reload_config, reload_writes,
  run_writes, serialize_config, server_setting, settings, slot_at, worker_count,
}
use nexus_gateway.Master.Slots.{joined, reload_config-writes, serialize_config-fits, total_length}
use nexus_gateway.Util.Atoi.{is_space, skip_space}

abbrev file : Bytes
file = codes "# comment\n[server]\n listen = :80 \n[http_rewrite]\nadd_header=X-Env:prod,bad\n"

abbrev loaded : Config
loaded = record {
  current_section = codes "http_rewrite";
  kvs =
      (codes "server.listen", codes ":80")
      ∷ (codes "http_rewrite.add_header", codes "X-Env:prod,bad")
      ∷ [];
  custom_headers = (codes "X-Env", codes "prod") ∷ [];
}

config_load_test : config_load (some file) ≡ some loaded
unfolding config_load load_custom load_lines load_line fgets_lines trim trim_end skip_space is_space
    c_str open_section add_kv compound split_at_byte bytes_eq config_get find_kv custom_loop
    custom_token
config_load_test = refl

config_load-IsWithin_example : IsWithin loaded
config_load-IsWithin_example = config_load-IsWithin (some file) {cfg = loaded} config_load_test

abbrev first_shadow : Shadow
first_shadow = record {
  slot0 = record { version = 1; total_size = 0; text = [] };
  slot1 = record { version = 0; total_size = 0; text = [] };
  active_slot = false;
}

reload_config-writes_example :
    (slot_at
        (run_writes (take 2 (reload_writes loaded first_shadow)) first_shadow).active_slot
        (run_writes (take 2 (reload_writes loaded first_shadow)) first_shadow)
      ≡ slot_at false first_shadow)
    × ((slot_at
          (reload_config loaded first_shadow).active_slot
          (reload_config loaded first_shadow)).text
        ≡ (serialize_config loaded).0)
    × ((slot_at
          (reload_config loaded first_shadow).active_slot
          (reload_config loaded first_shadow)).total_size
        ≡ (serialize_config loaded).1)
reload_config-writes_example = reload_config-writes loaded first_shadow 2 (omega arith)

serialize_config-fits_example :
    (serialize_config loaded ≡ (joined (settings loaded), total_length (settings loaded)))
    × ((serialize_config loaded).1 + 1 < config_max)
serialize_config-fits_example = serialize_config-fits loaded config_load-IsWithin_example

-- The line of a configured setting, and of one that is not configured.
settings_test :
    (get_elem? (settings loaded) 0 ≡ some (codes "listen=:80\n"))
    × (get_elem? (settings loaded) 2 ≡ some (codes "log_level=info\n"))
unfolding settings config_get find_kv compound bytes_eq c_str server_setting
settings_test = (refl, refl)

-- At least one worker, at most 64.
worker_count_test :
    (worker_count loaded (pos 100) ≡ pos 64) × (worker_count loaded (negsuc 0) ≡ pos 1)
unfolding worker_count asked_workers at_least_one at_most_64 config_get find_kv compound bytes_eq
    c_str
worker_count_test = (refl, refl)

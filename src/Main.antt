-- ===== src/Main.antt =====
-- src/main.c: the program, from its arguments.
use nexus_gateway.Base.{Bytes, List, Option, [], none, some, ◌∷◌}
use nexus_gateway.Config.{Config, config_load}

-- How `main` ends: with 1 for a call without a configuration or one that is not loaded, or with what
-- `nexus_master_run` returns on the configuration and its path.
pub data MainResult : Type 0 where
  usage_error load_error : MainResult
  runs_master : Config → Bytes → MainResult

-- `main`, on its arguments and the files that can be opened.
unfoldable pub main_program : List Bytes → (Bytes → Option Bytes) → MainResult
main_program [] files = usage_error
main_program (name ∷ []) files = usage_error
main_program (name ∷ path ∷ args) files = elim (config_load (files path)) [
  | none ↦ load_error
  | some cfg ↦ runs_master cfg path
]

-- ===== src/Master/Memory.antt =====
-- src/master.c: the mapping of the shared memory, by the master and by a worker. An address is a
-- number; what the system answers is an argument.
use nexus_gateway.Base.{
  Bool, Bool-cases, List, Option, Option-cases, [], arith, if◌then◌else◌, inl, inr, none, refl,
  some, true, ℕ, ◌*◌, ◌+◌, ◌-◌, ◌/◌, ◌∷◌, ◌≡◌, ◌≤◌,
}
use nexus_gateway.Base.Int.{pos, ℤ}
use nexus_gateway.Master.{config_max}

-- `round_up n k` is the least multiple of `k` from `n` on.
abbrev pub round_up : ℕ → ℕ → ℕ
round_up n k = (n + (k - 1)) / k * k

-- `sizeof(config_shadow_t)`, whose `uint64_t` makes it a multiple of 8.
abbrev pub slot_bytes : ℕ
slot_bytes = round_up (8 + 4 + config_max) 8

-- `sizeof(atomic_int)`
abbrev pub int_bytes : ℕ
int_bytes = 4

-- The two slots, which `mmap` is asked for.
abbrev pub mapped_bytes : ℕ
mapped_bytes = slot_bytes * 2

-- The size that `ftruncate` gives the file.
abbrev pub total_bytes : ℕ
total_bytes = slot_bytes * 2 + int_bytes * 3

-- `NULL`, `MAP_FAILED`, or an address.
pub data Address : Type 0 where
  null map_failed : Address
  located : ℕ → Address

-- `g_shadow`, `g_active_slot`, `g_shutting_down`, `g_drain_generation`
pub record Pointers : Type 0 where
  pub shadow : Address
  pub active_slot : Address
  pub shutting_down : Address
  pub drain_generation : Address

abbrev pub null_pointers : Pointers
null_pointers = record {
  shadow = null;
  active_slot = null;
  shutting_down = null;
  drain_generation = null;
}

-- The three variables stand behind the slots.
unfoldable pub variables_at : ℕ → Pointers
variables_at base = record {
  shadow = located base;
  active_slot = located (base + slot_bytes * 2);
  shutting_down = located (base + slot_bytes * 2 + int_bytes);
  drain_generation = located (base + slot_bytes * 2 + int_bytes * 2);
}

-- What is done to the memory, in order.
pub data MemoryCall : Type 0 where
  set_length : ℕ → ℕ → MemoryCall
  map_file : ℕ → ℕ → MemoryCall
  store_int : Address → ℤ → MemoryCall
  zero_bytes : ℕ → ℕ → MemoryCall
  close_file : ℕ → MemoryCall
  exit_process : ℤ → MemoryCall

-- What `shm_open`, `ftruncate` and `mmap` answer.
pub record MemoryEnv : Type 0 where
  pub shm_fd : Option ℕ
  pub truncates : Bool
  pub mapped : Option ℕ

-- Behind `mmap` of the master.
unfoldable pub map_master : ℕ → Option ℕ → Pointers × List MemoryCall
map_master fd none =
    (record null_pointers { shadow = map_failed }, close_file fd ∷ exit_process (pos 1) ∷ [])
map_master fd (some base) =
    let p = variables_at base in
    (
      p,
      store_int p.active_slot (pos 0)
          ∷ store_int p.shutting_down (pos 0)
          ∷ store_int p.drain_generation (pos 0)
          ∷ zero_bytes base (slot_bytes * 2)
          ∷ close_file fd
          ∷ [],
    )

-- `setup_shared_memory_master`, on pointers that are still `NULL`.
unfoldable pub setup_shared_memory : MemoryEnv → Pointers × List MemoryCall
setup_shared_memory env = elim env.shm_fd [
  | none ↦ (null_pointers, exit_process (pos 1) ∷ [])
  | some fd ↦
      let (p, calls) = map_master fd env.mapped in
      if env.truncates
      then (p, set_length fd total_bytes ∷ map_file fd mapped_bytes ∷ calls)
      else (null_pointers, set_length fd total_bytes ∷ close_file fd ∷ exit_process (pos 1) ∷ [])
]

-- Behind `mmap` of a process without the mapping.
unfoldable pub map_worker : Pointers → ℕ → Option ℕ → Pointers × List MemoryCall
map_worker p fd none = (record p { shadow = map_failed }, close_file fd ∷ [])
map_worker p fd (some base) = (variables_at base, close_file fd ∷ [])

unfoldable pub attach : Pointers → MemoryEnv → Pointers × List MemoryCall
attach p env = elim env.shm_fd [
  | none ↦ (p, [])
  | some fd ↦ let (p', calls) = map_worker p fd env.mapped in (p', map_file fd mapped_bytes ∷ calls)
]

-- With `g_shadow` at an address, the pointers are computed again. `MAP_FAILED` is not `NULL`, so there
-- the code computes pointers from it: `none`.
unfoldable pub init_at : Address → Pointers → MemoryEnv → Option (Pointers × List MemoryCall)
init_at null p env = some (attach p env)
init_at map_failed p env = none
init_at (located base) p env = some (variables_at base, [])

-- `nexus_shared_memory_init`
unfoldable pub shared_memory_init : Pointers → MemoryEnv → Option (Pointers × List MemoryCall)
shared_memory_init p env = init_at p.shadow p env

-- The calls write no byte of the variables but by `store_int`, and close the file once.
abbrev closed_files : List MemoryCall → List ℕ
closed_files [] = []
closed_files (close_file fd ∷ cs) = fd ∷ closed_files cs
closed_files (_ ∷ cs) = closed_files cs

-- A worker that is forked from a master that has mapped the memory has the master's pointers, and
-- asks the system nothing.
pub shared_memory_init-setup :
    (env worker_env : MemoryEnv) (fd base : ℕ)
    → env.shm_fd ≡ some fd
    → env.truncates ≡ true
    → env.mapped ≡ some base
    → shared_memory_init (setup_shared_memory env).0 worker_env
      ≡ some ((setup_shared_memory env).0, [])
unfolding shared_memory_init setup_shared_memory map_master init_at variables_at
shared_memory_init-setup env worker_env fd base e t m = rw (e, setup_shared_memory, t, m) refl

-- The bytes of the pages that hold `n` bytes from a page's start.
abbrev pub in_pages : ℕ → ℕ → ℕ
in_pages page n = round_up n page

-- An address whose four bytes lie in that many bytes from `base`, behind its first `skip`.
abbrev pub IsIn : ℕ → ℕ → ℕ → Address → Type 0
IsIn base skip n (located a) = (base + skip ≤ a) × (a + int_bytes ≤ base + n)
IsIn base skip n _ = ⊥

-- The variables lie behind the bytes that are mapped, in the file and in the last page of 4096 bytes
-- that the mapping has in part.
pub variables_at-IsIn :
    (base : ℕ)
    → let p = variables_at base in
      let inside = λ (a : Address).
        IsIn base mapped_bytes total_bytes a
        × IsIn base mapped_bytes (in_pages 4096 mapped_bytes) a in
      inside p.active_slot × inside p.shutting_down × inside p.drain_generation
unfolding variables_at
variables_at-IsIn base = omega arith

-- Whatever the system answers, the master's descriptor of the memory is closed once.
pub setup_shared_memory-closes :
    (env : MemoryEnv) (fd : ℕ)
    → env.shm_fd ≡ some fd
    → closed_files (setup_shared_memory env).1 ≡ fd ∷ []
unfolding setup_shared_memory map_master
setup_shared_memory-closes env fd e = elim (Option-cases env.mapped) [
  | inl m ↦ elim (Bool-cases env.truncates) [
    | inl t ↦ rw (e, setup_shared_memory, m, t) refl
    | inr t ↦ rw (e, setup_shared_memory, m, t) refl
  ]
  | inr (base, m) ↦ elim (Bool-cases env.truncates) [
    | inl t ↦ rw (e, setup_shared_memory, m, t) refl
    | inr t ↦ rw (e, setup_shared_memory, m, t) refl
  ]
]

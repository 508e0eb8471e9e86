-- ===== src/Connection.antt =====
-- src/connection.c: the connection pool. A slot is free when its descriptor is 0; a connection is the
-- index of its slot.
pub mod Pool
use mathlib.Core.Option
use nexus_gateway.Base.{
  List, Option, [], if◌then◌else◌, none, replicate, some, suc, zero, ℕ, ◌==◌, ◌∷◌,
}

-- `conn_state_t`
pub data ConnState : Type 0 where
  idle reading_req connecting_upstream writing_upstream reading_upstream : ConnState
  writing_client closing : ConnState

-- `nexus_conn_t`
pub record Conn : Type 0 where
  pub fd : ℕ
  pub state : ConnState
  pub created_ms : ℕ
  pub last_active_ms : ℕ

-- CONN_POOL_SIZE
abbrev pub conn_pool_size : ℕ
conn_pool_size = 1024

-- The zeroed `g_conn_pool`.
unfoldable pub conn_pool_init : List Conn
conn_pool_init =
    replicate conn_pool_size (record { fd = 0; state = idle; created_ms = 0; last_active_ms = 0 })

-- `conn_get`: the first slot with the descriptor.
unfoldable pub conn_get : List Conn → ℕ → Option ℕ
conn_get [] fd = none
conn_get (c ∷ cs) fd = if c.fd == fd then some 0 else Option.map suc (conn_get cs fd)

-- `conn_alloc`: the pool and the slot taken, if one is free; `now` is the clock's reading.
unfoldable pub conn_alloc : List Conn → ℕ → ℕ → List Conn × Option ℕ
conn_alloc [] fd now = ([], none)
conn_alloc (c ∷ cs) fd now =
    let (cs', i) = conn_alloc cs fd now in
    if c.fd == 0
    then (record { fd = fd; state = idle; created_ms = now; last_active_ms = now } ∷ cs, some 0)
    else (c ∷ cs', Option.map suc i)

-- `conn_free`
unfoldable pub conn_free : List Conn → ℕ → List Conn
conn_free [] i = []
conn_free (c ∷ cs) zero = record c { fd = 0; state = idle } ∷ cs
conn_free (c ∷ cs) (suc i) = c ∷ conn_free cs i

-- ===== src/Acceptor.antt =====
-- src/acceptor.c: the listening socket. What the system answers is an argument.
pub mod Peer
use nexus_gateway.Base.{
  Bool, Bytes, List, Option, [], bytes_eq, codes, false, if◌then◌else◌, inl, inr, none, not, refl,
  some, true, ℕ, ◌++◌, ◌∷◌, ◌≡◌, ◌⊎◌,
}
use nexus_gateway.Base.Int.{ℤ}

-- What the calls of `nexus_acceptor_listen` answer: the descriptor of `socket` if there is one, and
-- whether `bind` and `listen` succeed.
pub record ListenEnv : Type 0 where
  pub socket_fd : Option ℕ
  pub bind_ok : Bool
  pub listen_ok : Bool

-- A call on the socket, in order.
pub data SocketCall : Type 0 where
  reuse_addr : ℕ → SocketCall
  reuse_port : ℕ → SocketCall
  bind_to : ℕ → (any_address : Bool) → Bytes → ℤ → SocketCall
  listen_on : ℕ → SocketCall
  close_socket : ℕ → SocketCall
  nonblock : ℕ → SocketCall

-- `bind` and what follows it.
unfoldable pub bind_and_listen : Bool → Bool → ℕ → Option ℕ × List SocketCall
bind_and_listen bind_ok listen_ok fd =
    if not bind_ok
    then (none, close_socket fd ∷ [])
    else if not listen_ok
    then (none, listen_on fd ∷ close_socket fd ∷ [])
    else (some fd, listen_on fd ∷ nonblock fd ∷ [])

-- `nexus_acceptor_listen`: the descriptor, `none` for -1, and the calls. `htons` keeps
-- the last 16 bits of the port.
unfoldable pub acceptor_listen : Bytes → ℤ → Bool → ListenEnv → Option ℕ × List SocketCall
acceptor_listen bind_ip port reuse env = elim env.socket_fd [
  | none ↦ (none, [])
  | some fd ↦
      let (r, calls) = bind_and_listen env.bind_ok env.listen_ok fd in
      (
        r,
        reuse_addr fd ∷ (if reuse then reuse_port fd ∷ [] else [])
            ++ bind_to fd (bytes_eq bind_ip (codes "0.0.0.0")) bind_ip port ∷ calls,
      )
]

-- A peer of `accept4`: its descriptor, address and port in host order.
pub record Peer4 : Type 0 where
  pub fd : ℕ
  pub ip : Bytes
  pub port : ℕ

-- `nexus_acceptor_accept`
unfoldable pub acceptor_accept : Option Peer4 → Option ℕ
acceptor_accept none = none
acceptor_accept (some p) = some p.fd

-- The descriptors that the calls close.
unfoldable pub closed_by : List SocketCall → List ℕ
closed_by [] = []
closed_by (close_socket fd ∷ calls) = fd ∷ closed_by calls
closed_by (_ ∷ calls) = closed_by calls

-- The socket is returned, or it is closed.
abbrev ReturnsOrCloses : ℕ → Option ℕ × List SocketCall → Type 0
ReturnsOrCloses fd (r, calls) =
    ((r ≡ some fd) × (closed_by calls ≡ [])) ⊎ ((r ≡ none) × (closed_by calls ≡ fd ∷ []))

bind_and_listen-ReturnsOrCloses :
    (bind_ok listen_ok : Bool) (fd : ℕ) → ReturnsOrCloses fd (bind_and_listen bind_ok listen_ok fd)
unfolding bind_and_listen closed_by
bind_and_listen-ReturnsOrCloses false listen_ok fd = inr (refl, refl)
bind_and_listen-ReturnsOrCloses true false fd = inr (refl, refl)
bind_and_listen-ReturnsOrCloses true true fd = inl (refl, refl)

pub acceptor_listen-ReturnsOrCloses :
    (bind_ip : Bytes) (port : ℤ) (reuse : Bool) (env : ListenEnv) (fd : ℕ)
    → env.socket_fd ≡ some fd
    → ReturnsOrCloses fd (acceptor_listen bind_ip port reuse env)
unfolding acceptor_listen closed_by
acceptor_listen-ReturnsOrCloses bind_ip port true env fd e =
    rw (e, acceptor_listen) (bind_and_listen-ReturnsOrCloses env.bind_ok env.listen_ok fd)
acceptor_listen-ReturnsOrCloses bind_ip port false env fd e =
    rw (e, acceptor_listen) (bind_and_listen-ReturnsOrCloses env.bind_ok env.listen_ok fd)

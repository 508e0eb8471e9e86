-- ===== src/Acceptor/Peer.antt =====
-- src/acceptor.c: the address of an accepted client, and the flags of a socket. What the system
-- answers and `inet_ntop` are arguments.
use Prim.Native.Nat.{bit_or}
use nexus_gateway.Base.{Bytes, Option, arith, none, some, ℕ, ◌*◌, ◌+◌, ◌<◌, ◌^◌}

-- `struct sockaddr_in` as `accept4` fills it: four bytes, and the port in network order.
pub record SockAddr : Type 0 where
  pub octets : Bytes
  pub port_high : ℕ
  pub port_low : ℕ

-- `client_addr_t`
pub record ClientAddr : Type 0 where
  pub ip : Bytes
  pub port : ℕ

-- `ntohs`
unfoldable pub ntohs : ℕ → ℕ → ℕ
ntohs high low = high * 256 + low

-- `nexus_acceptor_accept_ext`: the descriptor, and what `client` points to, `none` for NULL.
unfoldable pub accept_ext :
    (inet_ntop : Bytes → Bytes)
    → Option (ℕ × SockAddr)
    → Option ClientAddr
    → Option ℕ × Option ClientAddr
accept_ext inet_ntop none client = (none, client)
accept_ext inet_ntop (some (fd, a)) none = (some fd, none)
accept_ext inet_ntop (some (fd, a)) (some client) =
    (some fd, some (record { ip = inet_ntop a.octets; port = ntohs a.port_high a.port_low }))

-- `O_NONBLOCK`
abbrev pub o_nonblock : ℕ
o_nonblock = 2048

-- `set_nonblock`: the flags that `F_SETFL` gets, from those that `F_GETFL` answers.
unfoldable pub set_nonblock : ℕ → ℕ
set_nonblock fl = bit_or fl o_nonblock

-- The port is a `uint16_t`.
pub ntohs-lt : (high low : ℕ) → high < 256 → low < 256 → ntohs high low < 2 ^ 16
unfolding ntohs
ntohs-lt high low h l = omega arith

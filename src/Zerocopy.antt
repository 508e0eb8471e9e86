-- ===== src/Zerocopy.antt =====
-- src/zerocopy.c: a file is moved to a socket through a pipe. The system's part is how many bytes each
-- `splice` is able to move; a call that fails moves none.
pub mod Conserve
pub mod Steady
use Prim.Native.Nat.{min}
use nexus_gateway.Base.{
  Bool, Bytes, Option, [], drop, if◌then◌else◌, length, none, some, suc, take, zero, ℕ, ◌++◌, ◌+◌,
  ◌-◌, ◌==◌,
}

-- What the system does in the round `t`: whether `pipe` opens one, and how many bytes it is able to
-- move into the pipe and out of it.
pub record Kernel : Type 0 where
  pub opens : ℕ → Bool
  pub reads : ℕ → ℕ
  pub writes : ℕ → ℕ

-- The bytes of the file that are not read yet, those in the pipe, those that the socket took, and the
-- number of rounds so far.
pub record Transfer : Type 0 where
  pub file : Bytes
  pub pipe : Bytes
  pub out : Bytes
  pub clock : ℕ

-- `n` of `splice(from_fd, NULL, pipefd[1], NULL, len, 0)`
unfoldable pub splice_in : Kernel → ℕ → Transfer → ℕ
splice_in k len s = min (k.reads s.clock) (min len (length s.file))

-- `m` of `splice(pipefd[0], NULL, to_fd, NULL, n, 0)`
unfoldable pub splice_out : Kernel → ℕ → Transfer → ℕ
splice_out k n s = min (k.writes s.clock) n

-- The bytes behind the two calls of a round.
unfoldable pub moved : ℕ → ℕ → Transfer → Transfer
moved n m s = record {
  file = drop n s.file;
  pipe = drop m (s.pipe ++ take n s.file);
  out = s.out ++ take m (s.pipe ++ take n s.file);
  clock = s.clock + 1;
}

-- The loop of `nexus_zc_splice`, with `total`. A round that goes on moves a byte, so `len` is fuel
-- enough.
unfoldable pub splice_loop : ℕ → Kernel → ℕ → Transfer → ℕ → Transfer × ℕ
splice_loop zero k len s total = (s, total)
splice_loop (suc fuel) k len s total =
    let n = splice_in k len s in
    let m = splice_out k n s in
    let rest = splice_loop fuel k (len - m) (moved n m s) (total + m) in
    if len == 0
    then (s, total)
    else if n == 0
    then (moved 0 0 s, total)
    else if m == 0
    then (moved n 0 s, total)
    else rest

-- `nexus_zc_splice`: what it moved, or `none` for -1. A new pipe is empty, and what is left in it
-- when it is closed is lost.
unfoldable pub zc_splice : Kernel → ℕ → Transfer → Transfer × Option ℕ
zc_splice k len s =
    if k.opens s.clock
    then (let (s', total) = splice_loop len k len (record s { pipe = [] }) 0 in (s', some total))
    else (record s { clock = s.clock + 1 }, none)

-- `nexus_zc_sendfile`
abbrev pub zc_sendfile : Kernel → ℕ → Transfer → Transfer × Option ℕ
zc_sendfile = zc_splice

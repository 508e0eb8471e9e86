-- ===== src/Proxy.antt =====
-- src/proxy.c: the socket calls of the connection to a node. What each call answers is an argument.
pub mod Sent
use nexus_gateway.Base.{
  Bool, Bytes, List, Option, [], drop, false, if◌then◌else◌, none, some, suc, take, true, zero, ℕ,
  ◌++◌, ◌+◌, ◌-◌, ◌∷◌,
}

-- What one `write` answers: the bytes taken, EAGAIN or EWOULDBLOCK, or another error.
pub data WriteResult : Type 0 where
  wrote : ℕ → WriteResult
  would_block write_failed : WriteResult

-- What `connect` answers on a socket that does not block.
pub data ConnectResult : Type 0 where
  connected_now in_progress refused : ConnectResult

-- `nexus_proxy_connect_upstream`, given the descriptor of `socket` if there is one: what it returns
-- (`none` for -1), and the descriptors that it closes.
unfoldable pub connect_upstream : Option ℕ → ConnectResult → Option ℕ × List ℕ
connect_upstream none answer = (none, [])
connect_upstream (some fd) connected_now = (some fd, [])
connect_upstream (some fd) in_progress = (some fd, [])
connect_upstream (some fd) refused = (none, fd ∷ [])

-- `n` where it is not negative, and 0 for EAGAIN.
unfoldable pub bytes_taken : WriteResult → ℕ
bytes_taken (wrote n) = n
bytes_taken would_block = 0
bytes_taken write_failed = 0

unfoldable pub is_failure : WriteResult → Bool
is_failure (wrote n) = false
is_failure would_block = false
is_failure write_failed = true

-- The loop of `nexus_proxy_forward_request` from the call `t` on: `out` is what was taken, `rest` what
-- is left. It is `none` where the fuel, the number of calls, ends first: the loop waits for as long as
-- the socket takes nothing.
unfoldable pub forward_loop : ℕ → (ℕ → WriteResult) → ℕ → Bytes → Bytes → Option (Bytes × Bool)
forward_loop fuel writes t out [] = some (out, true)
forward_loop zero writes t out (c ∷ rest) = none
forward_loop (suc fuel) writes t out (c ∷ rest) =
    let n = bytes_taken (writes t) in
    let next = forward_loop fuel writes (t + 1) (out ++ take n (c ∷ rest)) (drop n (c ∷ rest)) in
    if is_failure (writes t) then some (out, false) else next

-- `nexus_proxy_forward_request`; the flag says whether it returned 0.
unfoldable pub forward_request : ℕ → (ℕ → WriteResult) → Bytes → Option (Bytes × Bool)
forward_request fuel writes req = forward_loop fuel writes 0 [] req

-- `nexus_proxy_read_response`: the bytes in the buffer, or `none` for -1; `read` gives at most
-- `cap - 1` of those that have come.
unfoldable pub read_response : ℕ → Option Bytes → Option Bytes
read_response cap none = none
read_response cap (some come) = some (take (cap - 1) come)

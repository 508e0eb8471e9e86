-- ===== src/Bench.antt =====
-- bench/upstream_server.c: the server that stands for a node in the benchmarks. What the system
-- answers is an argument; the calls that other processes can see are listed in order.
pub mod Server
use nexus_gateway.Base.{
  Bool, Bytes, List, Option, [], codes, false, if◌then◌else◌, none, replicate, some, true, ℕ, ◌++◌,
  ◌∷◌,
}
use nexus_gateway.Parser.Loop.{rounds}

-- `RESP_1KB`
abbrev pub resp_1kb : Bytes
resp_1kb =
    codes "HTTP/1.1 200 OK\r\n"
    ++ (codes "Content-Length: 1023\r\n" ++ (codes "Connection: close\r\n" ++ codes "\r\n"))

-- `payload`, which `memset` fills, less its terminator.
abbrev pub payload : Bytes
payload = replicate 1023 b'A'

pub data ServerCall : Type 0 where
  set_reuse : ℕ → ServerCall
  bind_any : ℕ → ℕ → ServerCall
  start_listening : ℕ → ServerCall
  fork_child : ServerCall
  pause_us : ℕ → ServerCall
  close_fd_of : ℕ → ServerCall
  write_to : ℕ → Bytes → ServerCall
  exit_with : ℕ → ServerCall

-- What `accept` answers: a descriptor, EINTR, EAGAIN, or another error.
pub data Acceptance : Type 0 where
  client_fd : ℕ → Acceptance
  interrupted no_client_yet not_accepted : Acceptance

-- The child: `read` gives bytes, none at the end, or it fails.
unfoldable pub serve_child : ℕ → ℕ → Option Bytes → List ServerCall
serve_child srv cli none = close_fd_of srv ∷ close_fd_of cli ∷ exit_with 0 ∷ []
serve_child srv cli (some []) = close_fd_of srv ∷ close_fd_of cli ∷ exit_with 0 ∷ []
serve_child srv cli (some (b ∷ bs)) =
    close_fd_of srv
    ∷ write_to cli resp_1kb
    ∷ write_to cli payload
    ∷ close_fd_of cli
    ∷ exit_with 0
    ∷ []

-- A round of the loop: `running` at its start, and what `accept` answers.
pub record ServerRound : Type 0 where
  pub is_running : Bool
  pub acceptance : Acceptance

-- The parent's calls for an answer of `accept`, whatever `fork` returns to it, and whether the loop
-- goes on.
unfoldable pub accept_round : Acceptance → List ServerCall × Bool
accept_round (client_fd cli) = (fork_child ∷ close_fd_of cli ∷ [], true)
accept_round interrupted = ([], true)
accept_round no_client_yet = (pause_us 1000 ∷ [], true)
accept_round not_accepted = ([], false)

-- A round in front of what follows it.
unfoldable pub continue_with :
    List ServerCall × Bool → List ServerCall × Bool → List ServerCall × Bool
continue_with (calls, true) (more, over) = (calls ++ more, over)
continue_with (calls, false) rest = (calls, true)

-- The loop, up to where it ends, and whether it has ended.
unfoldable pub server_loop : List ServerRound → List ServerCall × Bool
server_loop [] = ([], false)
server_loop (r ∷ rs) =
    let rest = server_loop rs in
    if r.is_running then continue_with (accept_round r.acceptance) rest else ([], true)

-- Behind the loop: `close(srv); return 0;`.
unfoldable pub server_end : ℕ → List ServerCall × Bool → List ServerCall × Option ℕ
server_end srv (calls, over) =
    if over then (calls ++ close_fd_of srv ∷ [], some 0) else (calls, none)

-- `main`, given the listening descriptor and whether `bind` succeeds: the calls, and what it returns
-- if the loop ends.
unfoldable pub server_main : ℕ → Bool → List ServerRound → List ServerCall × Option ℕ
server_main srv bind_ok rounds =
    let (calls, result) = server_end srv (server_loop rounds) in
    if bind_ok
    then (set_reuse srv ∷ bind_any srv 19995 ∷ start_listening srv ∷ calls, result)
    else (set_reuse srv ∷ bind_any srv 19995 ∷ [], some 1)

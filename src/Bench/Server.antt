-- ===== src/Bench/Server.antt =====
-- bench/upstream_server.c: what a client of the server is sent, and what the server leaves open.
use nexus_gateway.Base.{
  Bool, Bool-cases, Bytes, List, [], ap, arith, codes, if◌then◌else◌, inl, inr, length, refl, some,
  true, ℕ, ◌++◌, ◌==◌, ◌∙◌, ◌∷◌, ◌≡◌,
}
use nexus_gateway.Bench.{
  Acceptance, ServerCall, ServerRound, accept_round, client_fd, close_fd_of, continue_with,
  interrupted, no_client_yet, not_accepted, payload, resp_1kb, serve_child, server_loop, write_to,
}
use nexus_gateway.Connection.Pool.{fds}
use nexus_gateway.Util.Decimal.{decimal}

-- What the calls write to a descriptor, in order.
abbrev pub written_to : ℕ → List ServerCall → Bytes
written_to fd [] = []
written_to fd (write_to g bytes ∷ cs) =
    let rest = written_to fd cs in if g == fd then bytes ++ rest else rest
written_to fd (_ ∷ cs) = written_to fd cs

-- The descriptors that the calls close, in order.
abbrev pub closed_fds : List ServerCall → List ℕ
closed_fds [] = []
closed_fds (close_fd_of fd ∷ cs) = fd ∷ closed_fds cs
closed_fds (_ ∷ cs) = closed_fds cs

-- The clients of a round in front of those of the rounds that follow.
abbrev with_client : Acceptance → List ℕ → List ℕ
with_client (client_fd cli) fds = cli ∷ fds
with_client not_accepted fds = []
with_client _ fds = fds

-- The clients that are accepted before the loop ends.
abbrev pub clients_of : List ServerRound → List ℕ
clients_of [] = []
clients_of (r ∷ rs) =
    let rest = clients_of rs in if r.is_running then with_client r.acceptance rest else []

closed_fds-round :
    (a : Acceptance) (more : List ServerCall) (over : Bool)
    → closed_fds (continue_with (accept_round a) (more, over)).0 ≡ with_client a (closed_fds more)
unfolding continue_with accept_round
closed_fds-round (client_fd cli) more over = refl
closed_fds-round interrupted more over = refl
closed_fds-round no_client_yet more over = refl
closed_fds-round not_accepted more over = refl

-- The parent closes every client that it accepts, once and in order.
pub server_loop-closed_fds : (rs : List ServerRound) → closed_fds (server_loop rs).0 ≡ clients_of rs
unfolding server_loop
server_loop-closed_fds [] = refl
server_loop-closed_fds (r ∷ rs) = elim (Bool-cases r.is_running) [
  | inl e ↦ rw e (
      closed_fds-round r.acceptance (server_loop rs).0 (server_loop rs).1
      ∙ ap (with_client r.acceptance) (server_loop-closed_fds rs))
  | inr e ↦ rw e refl
]

-- The head announces the length of the payload.
pub resp_1kb-payload :
    resp_1kb
    ≡ codes "HTTP/1.1 200 OK\r\nContent-Length: "
      ++ (decimal (length payload) ++ codes "\r\nConnection: close\r\n\r\n")
unfolding decimal
resp_1kb-payload = refl

-- A client that has sent a byte is sent the head and the payload.
pub serve_child-written_to :
    (srv cli b : ℕ) (bs : Bytes)
    → written_to cli (serve_child srv cli (some (b ∷ bs))) ≡ resp_1kb ++ payload
unfolding serve_child
serve_child-written_to srv cli b bs = let same : (cli == cli) ≡ true = ground arith in rw same refl

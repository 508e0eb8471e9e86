-- ===== src/Worker/Backend.antt =====
-- src/worker.c: the events of the connection to a node.
use nexus_gateway.Base.{
  Bool, Bytes, Option, [], if◌then◌else◌, length, none, some, suc, zero, ℕ, ◌++◌, ◌∷◌,
}
use nexus_gateway.Base.Int.{negsuc, pos, ℤ}
use nexus_gateway.Connection.{reading_upstream}
use nexus_gateway.Worker.{
  Out, ProxyConn, Worker, close_client_conn, close_fd, epoll_mod, log_request, proxy_free, put,
  readable, write,
}
use nexus_gateway.Worker.Client.{and_then}

-- Whether `write` took something; the state that the connection is in then.
unfoldable pub sent_request : Worker → ℕ → ProxyConn → ℕ → Option ℕ → Out
sent_request w i c ufd none = (w, write ufd c.req_buf ∷ [])
sent_request w i c ufd (some zero) = (w, write ufd c.req_buf ∷ [])
sent_request w i c ufd (some (suc n)) = (
  put w i (record c { state = reading_upstream }),
  write ufd c.req_buf ∷ epoll_mod ufd readable ∷ [],
)

-- `handle_upstream_writable`, given whether the socket has an error and how many bytes `write` took
-- (`none` for -1).
unfoldable pub upstream_writable : Worker → ℕ → ProxyConn → ℤ → Bool → Option ℕ → Out
upstream_writable w i c (negsuc _) failed taken = (w, [])
upstream_writable w i c (pos ufd) failed taken =
    if failed
    then and_then (close_fd ufd) (close_client_conn w i c)
    else sent_request w i c ufd taken

abbrev pub handle_upstream_writable : Worker → ℕ → ProxyConn → Bool → Option ℕ → Out
handle_upstream_writable w i c = upstream_writable w i c c.upstream_fd

-- What `read` gives: bytes, end of file, EAGAIN or EWOULDBLOCK, or another error.
pub data ReadResult : Type 0 where
  got : Bytes → ReadResult
  end_of_file again broken : ReadResult

-- `handle_upstream_readable`
unfoldable pub upstream_readable : Worker → ℕ → ProxyConn → ℤ → ReadResult → Out
upstream_readable w i c (negsuc _) r = (w, [])
upstream_readable w i c (pos ufd) (got bytes) =
    let c' = record c { resp_buf = bytes; status_code = 200 } in
    and_then
      (write c.fd bytes
        ∷ log_request c.client_ip c.client_port 200 (length bytes) c.req_id
        ∷ close_fd ufd)
      (close_client_conn w i c')
upstream_readable w i c (pos ufd) end_of_file = and_then (close_fd ufd) (close_client_conn w i c)
upstream_readable w i c (pos ufd) again = (w, [])
upstream_readable w i c (pos ufd) broken = (put w i (proxy_free c), close_fd ufd ++ close_fd c.fd)

abbrev pub handle_upstream_readable : Worker → ℕ → ProxyConn → ReadResult → Out
handle_upstream_readable w i c = upstream_readable w i c c.upstream_fd

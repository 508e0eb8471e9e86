-- ===== src/Worker/Delivered.antt =====
-- src/worker.c: what a node that parses requests as the gateway does reads from the bytes it is sent.
use nexus_gateway.Base.{Bytes, c_str, codes, length, refl, some, subst, sym, ◌≡◌}
use nexus_gateway.Headers.View.{IsValid}
use nexus_gateway.Parser.{Request, end_of_headers, feed, req_init}
use nexus_gateway.Parser.RoundTrip.{IsSendableRequest, feed-render, started}
use nexus_gateway.Parser.Sendable.{with_headers}
use nexus_gateway.Parser.Serialize.{render, serialize-fits}
use nexus_gateway.Rewrite.{rewrite_request}
use nexus_gateway.Rewrite.Script.{OnlyValue}
use nexus_gateway.Rewrite.Sound.{KeepsOwn, rewrite_headers-OnlyValue}
use nexus_gateway.Worker.{ProxyConn, Worker}
use nexus_gateway.Worker.Client.{ClientEnv}
use nexus_gateway.Worker.Guarded.{Forwarded}

-- A request that the node reads from the text: the client's method and path, and one value of the
-- gateway's or none under the names that tell who the client is.
pub record ReadByNode (ip : Bytes) (req : Request) (text : Bytes) : Type 0 where
  pub read : Request
  pub parsed : feed req_init text ≡ some (read, length text)
  pub same_method : read.method ≡ req.method
  pub same_path : read.path ≡ req.path
  pub real_ip : OnlyValue (codes "x-real-ip") (c_str ip) read.headers
  pub forwarded_for : OnlyValue (codes "x-forwarded-for") (c_str ip) read.headers

-- Where a read of a client's bytes connected a node, the client's headers were a valid table, the
-- configured headers leave the gateway's names alone and the rewritten request fits its lines, a
-- node that parses as the gateway does takes the whole of the text, with the client's method and
-- path, and reads as X-Real-IP and X-Forwarded-For the client's address or nothing.
pub Forwarded-ReadByNode :
    (w : Worker) (c c' : ProxyConn) (env : ClientEnv) (f : Forwarded w c env c')
    → IsValid f.req.headers
    → KeepsOwn (some w.cfg)
    → IsSendableRequest (
        rewrite_request f.req
          (some c.client_ip)
          (some (codes "1.0.0"))
          (some w.cfg)
          env.timestamp
          env.rand1
          env.rand2)
    → ReadByNode c.client_ip f.req c'.req_buf
unfolding end_of_headers rewrite_request
Forwarded-ReadByNode w c c' env f valid keeps sendable =
    let req' =
      rewrite_request f.req (some c.client_ip) (some (codes "1.0.0")) (some w.cfg) env.timestamp
        env.rand1 env.rand2 in
    let text : c'.req_buf ≡ render req' =
      (serialize-fits req' 4096 {out = c'.req_buf} f.sent_text).0 in
    let read = end_of_headers (with_headers (started req') req'.headers) in
    let only =
      rewrite_headers-OnlyValue f.req.headers (some c.client_ip) (some (codes "1.0.0")) (some w.cfg)
        env.timestamp env.rand1 env.rand2 valid keeps in
    record {
      read = read;
      parsed =
          subst (λ t. feed req_init t ≡ some (read, length t)) (sym text)
            (feed-render req' sendable);
      same_method = refl;
      same_path = refl;
      real_ip = only.0;
      forwarded_for = only.1;
    }

-- ===== src/Rewrite.antt =====
-- src/http_rewrite.c: the request id and the headers that the gateway sets before it forwards a
-- request. The clock's reading and the two results of `rand` are arguments.
pub mod Id
pub mod Script
pub mod Writes
pub mod Sound
use nexus_gateway.Base.{Bytes, List, Option, [], c_str, codes, none, some, take, ℕ, ◌++◌, ◌∷◌}
use nexus_gateway.Config.{Config, config_get_custom_headers, max_custom_headers}
use nexus_gateway.Headers.{Headers, headers_get, headers_remove, headers_set}
use nexus_gateway.Parser.{Request}
use nexus_gateway.Rewrite.Id.{generate_req_id}

-- `nexus_headers_set` where the caller ignores the result.
abbrev pub set_header : Headers → Bytes → Bytes → Headers
set_header h name value = (headers_set h name value).0

-- `a ? a : b`
abbrev pub or_default : Option Bytes → Bytes → Bytes
or_default none d = d
or_default (some s) d = s

-- Step 2: the headers that a client may not send.
unfoldable pub clean_headers : Headers → Headers
clean_headers h =
    headers_remove
      (headers_remove
        (headers_remove (headers_remove h (codes "X-Real-IP")) (codes "X-Forwarded-For"))
        (codes "X-Forwarded-Host"))
      (codes "X-Forwarded-Proto")

unfoldable pub forward_host : Headers → Headers
forward_host h = elim (headers_get h (codes "Host")) [
  | none ↦ h
  | some host ↦ set_header h (codes "X-Forwarded-Host") host
]

-- `snprintf(via, sizeof(via), "1.1 nexus-gateway/%s", …)`
unfoldable pub via_value : Option Bytes → Bytes
via_value version =
    take 63 (codes "1.1 nexus-gateway/" ++ c_str (or_default version (codes "1.0.0")))

-- Step 3.
unfoldable pub proxy_headers : Headers → Bytes → Option Bytes → Headers
proxy_headers h real_ip version =
    let h1 = set_header h (codes "X-Real-IP") real_ip in
    let h2 = set_header h1 (codes "X-Forwarded-For") real_ip in
    let h3 = forward_host h2 in
    let h4 = set_header h3 (codes "X-Forwarded-Proto") (codes "http") in
    set_header h4 (codes "Via") (via_value version)

-- Step 5.
unfoldable pub add_custom : Headers → List (Bytes × Bytes) → Headers
add_custom h [] = h
add_custom h ((name, value) ∷ cs) = add_custom (set_header h name value) cs

abbrev pub custom_of : Option Config → List (Bytes × Bytes)
custom_of none = []
custom_of (some cfg) = config_get_custom_headers cfg max_custom_headers

unfoldable pub rewrite_headers :
    Headers → Option Bytes → Option Bytes → Option Config → ℕ → ℕ → ℕ → Headers
rewrite_headers h client_ip version cfg timestamp rand1 rand2 =
    let real_ip = or_default client_ip (codes "unknown") in
    let h1 = proxy_headers (clean_headers h) real_ip version in
    let h2 = set_header h1 (codes "X-Gateway-Req-Id") (generate_req_id 16 timestamp rand1 rand2) in
    add_custom h2 (custom_of cfg)

-- `nexus_http_rewrite_request`
unfoldable pub rewrite_request :
    Request → Option Bytes → Option Bytes → Option Config → ℕ → ℕ → ℕ → Request
rewrite_request r client_ip version cfg timestamp rand1 rand2 = record r {
  headers = rewrite_headers r.headers client_ip version cfg timestamp rand1 rand2;
}

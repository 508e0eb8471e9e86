-- ===== src/Tests/Forwarded.antt =====
-- src/worker.c: a client's request that is passed to a node, from its bytes.
use nexus_gateway.Base.{
  All, Bytes, NoNul, [], ap, arith, bytes_eq, c_str, codes, false, get_elem?, if◌then◌else◌, inr,
  length, none, refl, some, split_at_byte, starts_with, true, ◌+◌, ◌<◌, ◌∷◌, ◌≡◌, ◌≢◌,
}
use nexus_gateway.Base.Int.{eq_ℤ, pos, ◌+ℤ◌, ◌-ℤ◌}
use nexus_gateway.Blacklist.{bl_check}
use nexus_gateway.Config.{config_get, config_get_custom_headers, copy_header, empty_config, find_kv}
use nexus_gateway.Connection.{reading_req}
use nexus_gateway.Headers.{
  find_hash, headers_add, headers_get, headers_remove, headers_set, matches, new_header,
  remove_loop,
}
use nexus_gateway.Headers.View.{IsValid, new_header-IsEntry}
use nexus_gateway.Parser.{
  Request, content_length, done, end_of_headers, feed, feed_line, feed_loop, feed_round, find_eol,
  header_line, line_buffer, line_round, line_size, parse_path, parse_request_line, parse_version,
  req_init, skip_blank,
}
use nexus_gateway.Parser.Lines.{NoLf}
use nexus_gateway.Parser.RoundTrip.{IsSendableRequest}
use nexus_gateway.Parser.Sendable.{IsSendable}
use nexus_gateway.Parser.Serialize.{header_bytes, headers_bytes, render, request_line, serialize}
use nexus_gateway.RateLimit.{
  check_entry, elapsed_ms, find_entry, find_or_create, new_entry, refill, rl_check, take_token,
}
use nexus_gateway.Rewrite.{
  add_custom, clean_headers, forward_host, proxy_headers, rewrite_headers, rewrite_request,
  via_value,
}
use nexus_gateway.Rewrite.Id.{digit, digits_loop, generate_req_id, id_of, random32}
use nexus_gateway.Rewrite.Script.{last_value}
use nexus_gateway.Tests.Events.{busy_worker}
use nexus_gateway.Upstream.{Node, best_loop, better, charge, debit, pick, pick_nodes, total_weight}
use nexus_gateway.Util.{fnv1a_from, fnv1a_round, hash_fnv1a, normalize_lower, to_lower}
use nexus_gateway.Worker.{ProxyConn, Worker, zero_conn}
use nexus_gateway.Worker.Client.{
  ClientEnv, admit, connect_node, forward, handle_client_read, handle_parsed, route, stored_id,
  to_node,
}
use nexus_gateway.Worker.Delivered.{Forwarded-ReadByNode, ReadByNode}
use nexus_gateway.Worker.Guarded.{Connects, Forwarded, handle_client_read-Forwarded}

-- A client that has been accepted, and a worker with it alone.
abbrev new_conn : ProxyConn
new_conn = record zero_conn { fd = 7; state = reading_req; client_ip = codes "10.0.0.1" }

abbrev reading_worker : Worker
reading_worker = record busy_worker { pool = new_conn ∷ [] }

-- The client's request comes, and the node can be connected.
abbrev pub asks : ClientEnv
asks = record {
  received = some (codes "GET / HTTP/1.1\r\nHost: a\r\nX-Real-IP: 6.6.6.6\r\n\r\n");
  now_ms = 5;
  rl_created_ms = 5;
  rl_now_ms = 5;
  timestamp = 5;
  rand1 = 1;
  rand2 = 2;
  connected = λ host port. if eq_ℤ port (pos 80) then some 9 else none;
}

abbrev connected_conn : ProxyConn
connected_conn = elim (get_elem? (handle_client_read reading_worker 0 new_conn asks).0.pool 0) [
  | none ↦ zero_conn
  | some c ↦ c
]

connected_conn-at :
    (get_elem? (handle_client_read reading_worker 0 new_conn asks).0.pool 0 ≡ some connected_conn)
    × (connected_conn.fd ≡ 7)
unfolding handle_client_read handle_parsed admit route to_node forward connect_node feed feed_loop
    feed_round line_round feed_line line_buffer find_eol parse_request_line parse_path parse_version
    header_line skip_blank headers_add new_header end_of_headers content_length headers_get
    find_hash c_str split_at_byte bytes_eq starts_with hash_fnv1a fnv1a_from fnv1a_round to_lower
    bl_check rl_check find_or_create find_entry check_entry new_entry take_token refill elapsed_ms
    pick pick_nodes charge total_weight best_loop better debit rewrite_request rewrite_headers
    proxy_headers clean_headers headers_set headers_remove remove_loop matches generate_req_id id_of
    digits_loop digit random32 via_value add_custom serialize render headers_bytes header_bytes
    stored_id config_get config_get_custom_headers copy_header forward_host request_line
connected_conn-at = (refl, refl)

handle_client_read-Forwarded_example :
    Connects reading_worker new_conn asks connected_conn
      (handle_client_read reading_worker 0 new_conn asks).1
handle_client_read-Forwarded_example =
    handle_client_read-Forwarded reading_worker 0 new_conn asks {c' = connected_conn}
      connected_conn-at.0 (omega (arith, connected_conn-at.1))

-- The request as it is parsed, and as it is rewritten.
abbrev asked_request : Request
asked_request = record req_init {
  state = done;
  method = codes "GET";
  path = codes "/";
  version = codes "HTTP/1.1";
  headers =
      new_header (codes "Host") (codes "a") ∷ new_header (codes "X-Real-IP") (codes "6.6.6.6") ∷ [];
}

abbrev rewritten_request : Request
rewritten_request =
    rewrite_request asked_request (some (codes "10.0.0.1")) (some (codes "1.0.0"))
      (some empty_config) 5 1 2

asked_parsed :
    feed req_init (codes "GET / HTTP/1.1\r\nHost: a\r\nX-Real-IP: 6.6.6.6\r\n\r\n")
    ≡ some (asked_request, 47)
unfolding feed feed_loop feed_round line_round feed_line line_buffer find_eol parse_request_line
    parse_path parse_version header_line skip_blank headers_add new_header end_of_headers
    content_length headers_get find_hash c_str split_at_byte bytes_eq starts_with hash_fnv1a
    fnv1a_from fnv1a_round to_lower
asked_parsed = refl

-- The node that is picked, behind the charge and the debit.
abbrev best_node : Node
best_node = record {
  host = codes "10.0.0.9";
  port = pos 80;
  weight = 1;
  healthy = true;
  active_conns = pos 0;
}

asked_admitted :
    (bl_check reading_worker.bl (codes "10.0.0.1") ≡ false)
    × ((rl_check reading_worker.rl (codes "10.0.0.1") 5 5).1 ≡ true)
    × (starts_with asked_request.path (codes "/static/") ≡ false)
    × ((pick reading_worker.upstream).1 ≡ some 0)
    × (get_elem? (pick reading_worker.upstream).0.nodes 0 ≡ some best_node)
unfolding ◌-ℤ◌ ◌+ℤ◌ bl_check rl_check find_or_create find_entry check_entry new_entry take_token
    refill elapsed_ms starts_with pick pick_nodes charge total_weight best_loop better debit c_str
    bytes_eq
asked_admitted = (refl, refl, refl, refl, refl)

connected_conn-text :
    (connected_conn.upstream_fd ≡ pos 9)
    × (serialize rewritten_request 4096 ≡ some connected_conn.req_buf)
unfolding handle_client_read handle_parsed admit route to_node forward connect_node feed feed_loop
    feed_round line_round feed_line line_buffer find_eol parse_request_line parse_path parse_version
    header_line skip_blank headers_add new_header end_of_headers content_length headers_get
    find_hash c_str split_at_byte bytes_eq starts_with hash_fnv1a fnv1a_from fnv1a_round to_lower
    bl_check rl_check find_or_create find_entry check_entry new_entry take_token refill elapsed_ms
    pick pick_nodes charge total_weight best_loop better debit rewrite_request rewrite_headers
    proxy_headers clean_headers headers_set headers_remove remove_loop matches generate_req_id id_of
    digits_loop digit random32 via_value add_custom serialize render headers_bytes header_bytes
    stored_id config_get config_get_custom_headers copy_header forward_host request_line
connected_conn-text = (refl, refl)

abbrev asked_Forwarded : Forwarded reading_worker new_conn asks connected_conn
asked_Forwarded = record {
  bytes = codes "GET / HTTP/1.1\r\nHost: a\r\nX-Real-IP: 6.6.6.6\r\n\r\n";
  req = asked_request;
  consumed = 47;
  index = 0;
  node = best_node;
  node_fd = 9;
  received = refl;
  parsed = asked_parsed;
  whole = refl;
  unlisted = asked_admitted.0;
  passed = asked_admitted.1;
  dynamic = asked_admitted.2;
  picked = asked_admitted.3;
  at_index = asked_admitted.4;
  connected = refl;
  on_node = connected_conn-text.0;
  sent_text = connected_conn-text.1;
}

-- A header that is short and has no byte that a line may not have.
sendable :
    (name value : Bytes)
    → NoNul name
    → (0 < length (normalize_lower name))
      × All (λ c. c ≢ b':') (normalize_lower name)
      × NoLf (normalize_lower name)
      × NoNul value
      × NoLf value
      × (length (normalize_lower name) + length value + 2 < line_size)
    → skip_blank value ≡ value
    → IsSendable (new_header name value)
unfolding new_header
sendable name value clean (some_name, no_colon, name_lf, value_nul, value_lf, short) no_blank =
    record {
      entry = new_header-IsEntry name value clean;
      named = λ q. absurd (omega (arith, some_name, ap length q));
      no_colon = no_colon;
      name_lf = name_lf;
      value_nul = value_nul;
      value_lf = value_lf;
      no_blank = no_blank;
      short = short;
    }

rewritten_headers :
    rewritten_request.headers
    ≡ new_header (codes "Host") (codes "a")
      ∷ new_header (codes "X-Real-IP") (codes "10.0.0.1")
      ∷ new_header (codes "X-Forwarded-For") (codes "10.0.0.1")
      ∷ new_header (codes "X-Forwarded-Host") (codes "a")
      ∷ new_header (codes "X-Forwarded-Proto") (codes "http")
      ∷ new_header (codes "Via") (codes "1.1 nexus-gateway/1.0.0")
      ∷ new_header (codes "X-Gateway-Req-Id") (generate_req_id 16 5 1 2)
      ∷ []
unfolding rewrite_request rewrite_headers proxy_headers clean_headers headers_set headers_remove
    remove_loop matches generate_req_id id_of digits_loop digit random32 via_value add_custom
    config_get_custom_headers copy_header forward_host headers_add new_header headers_get find_hash
    c_str bytes_eq hash_fnv1a fnv1a_from fnv1a_round to_lower find_kv config_get
rewritten_headers = refl

rewritten_request-IsSendable : IsSendableRequest rewritten_request
unfolding rewrite_request to_lower skip_blank generate_req_id id_of digits_loop digit random32
rewritten_request-IsSendable = record {
  method_ok = omega arith;
  method_fits = omega arith;
  path_ok = omega arith;
  path_fits = omega arith;
  line_fits = omega arith;
  version_ok = inr refl;
  headers_ok = rw rewritten_headers (
    sendable (codes "Host") (codes "a") (omega arith) (omega arith) refl,
    (
      sendable (codes "X-Real-IP") (codes "10.0.0.1") (omega arith) (omega arith) refl,
      (
        sendable (codes "X-Forwarded-For") (codes "10.0.0.1") (omega arith) (omega arith) refl,
        (
          sendable (codes "X-Forwarded-Host") (codes "a") (omega arith) (omega arith) refl,
          (
            sendable (codes "X-Forwarded-Proto") (codes "http") (omega arith) (omega arith) refl,
            (
              sendable (codes "Via") (codes "1.1 nexus-gateway/1.0.0") (omega arith) (omega arith)
                  refl,
              (
                sendable (codes "X-Gateway-Req-Id") (generate_req_id 16 5 1 2) (omega arith)
                    (omega arith) refl,
                tt,
              ),
            ),
          ),
        ),
      ),
    ),
  );
  headers_fit = rw rewritten_headers (omega arith);
}

asked_request-IsValid : IsValid asked_request.headers
asked_request-IsValid = record {
  entries = (
    new_header-IsEntry (codes "Host") (codes "a") (omega arith),
    (new_header-IsEntry (codes "X-Real-IP") (codes "6.6.6.6") (omega arith), tt),
  );
  fits = omega arith;
}

Forwarded-ReadByNode_example : ReadByNode (codes "10.0.0.1") asked_request connected_conn.req_buf
unfolding last_value config_get_custom_headers
Forwarded-ReadByNode_example =
    Forwarded-ReadByNode reading_worker new_conn connected_conn asks asked_Forwarded
      asked_request-IsValid (refl, (refl, (refl, (refl, (refl, tt))))) rewritten_request-IsSendable

-- ===== src/Tests/Files.antt =====
-- src/static_file.c, src/zerocopy.c and src/log.c at concrete inputs.
use nexus_gateway.Base.{
  Bytes, [], arith, bytes_eq, c_str, codes, false, none, refl, some, suc, take, true, zero, ℕ, ◌++◌,
  ◌+◌, ◌≡◌,
}
use nexus_gateway.Base.Int.{pos}
use nexus_gateway.Log.{
  AccessLine, Logs, access_parts, concat_parts, log_access_full, log_error, log_init, no_logs,
  or_dash, print_to, tag_of,
}
use nexus_gateway.Log.Lines.{file_lines, line_ends, log_access_full-lines, text_ends}
use nexus_gateway.Static.{
  content_type, file_header, full_path, has_dots, last_dot, send_loop, serve_file, type_of_suffix,
}
use nexus_gateway.Static.Jail.{climbs, components, full_path-climbs}
use nexus_gateway.Static.Whole.{serve_file-whole}
use nexus_gateway.Util.Decimal.{decimal, decimal_loop}
use nexus_gateway.Zerocopy.{Kernel, moved, splice_in, splice_loop, splice_out, zc_splice}

-- A system that opens every pipe, and moves four bytes at a time.
abbrev four_bytes : Kernel
four_bytes = record { opens = λ t. true; reads = λ t. 4; writes = λ t. 4 }

abbrev letters : Bytes
letters = codes "abcdefghijkl"

full_path_test : full_path (codes "/srv") (codes "/a.txt") ≡ some (codes "/srv/a.txt")
unfolding full_path has_dots c_str
full_path_test = refl

refused_test : full_path (codes "/srv") (codes "/../a.txt") ≡ none
unfolding full_path has_dots c_str
refused_test = refl

full_path-climbs_example :
    (p : Bytes) × (codes "/srv/a.txt" ≡ take 1023 (c_str (codes "/srv")) ++ p)
    × (climbs 0 (components p) ≡ false)
full_path-climbs_example =
    full_path-climbs (codes "/srv") (codes "/a.txt") {full = codes "/srv/a.txt"} full_path_test

serve_file-whole_example : (serve_file four_bytes (codes "/a.txt") (some letters)).body ≡ letters
serve_file-whole_example =
    serve_file-whole four_bytes (codes "/a.txt") letters (λ t. omega arith)
      (λ t. (refl, omega arith))

header_test :
    file_header (codes "/a.txt") 12
    ≡ codes
        "HTTP/1.1 200 OK\r\nContent-Type: text/plain\r\nContent-Length: 12\r\nConnection: close\r\n\r\n"
unfolding file_header content_type last_dot type_of_suffix decimal decimal_loop c_str bytes_eq
header_test = refl

-- A socket that is full in the first rounds: three bytes that were read never reach it.
abbrev slow_writes : ℕ → ℕ
slow_writes zero = 1
slow_writes (suc zero) = 0
slow_writes (suc (suc t)) = 4

hole_test :
    (serve_file
      (record { opens = λ t. true; reads = λ t. 4; writes = slow_writes })
      (codes "/a.txt")
      (some letters)).body
    ≡ codes "aijkl"
unfolding serve_file send_loop zc_splice splice_loop splice_in splice_out moved
hole_test = refl

-- A log that is open, and the line of a request.
abbrev open_logs : Logs
open_logs = (log_init no_logs (pos 1) true true).0

abbrev request_line_of : Bytes → AccessLine
request_line_of path = record {
  ip = some (codes "10.0.0.1");
  port = 4000;
  method = some (codes "GET");
  path = some path;
  version = some (codes "HTTP/1.1");
  status = 200;
  bytes_sent = 19;
  user_agent = some (codes "-");
  id = some (codes "0123");
  upstream_addr = some (codes "127.0.0.1:19998");
  duration = codes "1.5";
}

log_access_full-lines_example :
    file_lines (log_access_full open_logs (codes "[now]") (request_line_of (codes "/a"))).access_log
    ≡ line_ends [] + 1 + text_ends (request_line_of (codes "/a"))
unfolding log_init line_ends
log_access_full-lines_example =
    log_access_full-lines open_logs (codes "[now]") (request_line_of (codes "/a")) {written = []}
      refl refl refl

-- A path with an end of line makes two lines.
forged_test :
    file_lines
      (log_access_full open_logs (codes "[now]") (request_line_of (codes "/a\nb"))).access_log
    ≡ 2
unfolding log_access_full log_init print_to file_lines line_ends access_parts concat_parts or_dash
    decimal decimal_loop c_str
forged_test = refl

log_line_test :
    (log_access_full open_logs (codes "[now]") (request_line_of (codes "/a"))).access_log
    ≡ some (
        codes
          "10.0.0.1:4000 - - [now] \"GET /a HTTP/1.1\" 200 19 \"-\" \"-\" req_id=0123 upstream=127.0.0.1:19998 duration=1.5ms\n")
unfolding log_access_full log_init print_to access_parts concat_parts or_dash decimal decimal_loop
    c_str
log_line_test = refl

-- The level filters, and tags.
log_error_test :
    ((log_error open_logs (codes "now") (pos 0) (codes "x")).error_log ≡ some [])
    × ((log_error open_logs (codes "now") (pos 2) (codes "x")).error_log
        ≡ some (codes "[now] [WARN ] x\n"))
unfolding log_error log_init print_to tag_of
log_error_test = (refl, refl)

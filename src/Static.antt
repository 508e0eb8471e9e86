-- ===== src/Static.antt =====
-- src/static_file.c: the file that a path names, and what the client is sent.
pub mod Jail
pub mod Whole
use nexus_gateway.Base.{
  Bool, Bytes, Option, [], bytes_eq, c_str, codes, false, if◌then◌else◌, length, none, some, suc,
  take, true, zero, ℕ, ◌&&◌, ◌++◌, ◌-◌, ◌==◌, ◌||◌, ◌∷◌,
}
use nexus_gateway.Parser.{body}
use nexus_gateway.Util.Decimal.{decimal}
use nexus_gateway.Zerocopy.{Kernel, Transfer, zc_sendfile}

-- `strstr(path, "..") != NULL`
unfoldable pub has_dots : Bytes → Bool
has_dots [] = false
has_dots (c ∷ []) = false
has_dots (c ∷ d ∷ rest) = (c == b'.' && d == b'.') || has_dots (d ∷ rest)

-- `strrchr(path, '.')`
unfoldable pub last_dot : Bytes → Option Bytes
last_dot [] = none
last_dot (c ∷ cs) = elim (last_dot cs) [
  | some s ↦ some s
  | none ↦ if c == b'.' then some (c ∷ cs) else none
]

unfoldable pub type_of_suffix : Option Bytes → Bytes
type_of_suffix none = codes "application/octet-stream"
type_of_suffix (some dot) =
    if bytes_eq dot (codes ".html")
    then codes "text/html"
    else if bytes_eq dot (codes ".txt")
    then codes "text/plain"
    else if bytes_eq dot (codes ".css")
    then codes "text/css"
    else if bytes_eq dot (codes ".js")
    then codes "application/javascript"
    else if bytes_eq dot (codes ".png")
    then codes "image/png"
    else if bytes_eq dot (codes ".jpg")
    then codes "image/jpeg"
    else codes "application/octet-stream"

-- `content_type`
unfoldable pub content_type : Bytes → Bytes
content_type path = type_of_suffix (last_dot (c_str path))

-- `snprintf(full, sizeof(full), "%s%s", root, path)`, unless the path is refused.
unfoldable pub full_path : Bytes → Bytes → Option Bytes
full_path root path =
    if has_dots (c_str path) then none else some (take 1023 (c_str root ++ c_str path))

abbrev pub not_found : Bytes
not_found = codes "HTTP/1.1 404 Not Found\r\nContent-Length: 0\r\n\r\n"

-- `hdr`, for a file of the size; every text of it is short.
unfoldable pub file_header : Bytes → ℕ → Bytes
file_header path size =
    codes "HTTP/1.1 200 OK\r\nContent-Type: "
    ++ (content_type path
        ++ (codes "\r\nContent-Length: "
            ++ (decimal size ++ codes "\r\nConnection: close\r\n\r\n")))

-- The loop over `remaining`; a round that goes on sends a byte, so the size is fuel enough.
unfoldable pub send_loop : ℕ → Kernel → ℕ → Transfer → Transfer
send_loop zero k remaining s = s
send_loop (suc fuel) k remaining s =
    let (s', n) = zc_sendfile k remaining s in
    let rest = λ (m : ℕ). send_loop fuel k (remaining - m) s' in
    if remaining == 0
    then s
    else elim n [ none ↦ s' | some zero ↦ s' | some (suc m) ↦ rest (suc m) ]

-- What the client is sent: an answer that is written, and the bytes of a file.
pub record Reply : Type 0 where
  pub written : Bytes
  pub body : Bytes
  pub returned : Bool

-- Behind `open`: the file's bytes, or `none`. `st_size` is its length.
unfoldable pub serve_file : Kernel → Bytes → Option Bytes → Reply
serve_file k path none = record { written = not_found; body = []; returned = false }
serve_file k path (some file) =
    let start : Transfer = record { file = file; pipe = []; out = []; clock = 0 } in
    let s = send_loop (length file) k (length file) start in
    record { written = file_header path (length file); body = s.out; returned = true }

-- `nexus_static_serve`, on the files that `open` finds; the flag says whether it returned 0.
unfoldable pub static_serve : Kernel → (Bytes → Option Bytes) → Bytes → Bytes → Reply
static_serve k files root path = elim (full_path root path) [
  | none ↦ record { written = []; body = []; returned = false }
  | some full ↦ serve_file k path (files full)
]

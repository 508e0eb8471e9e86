-- ===== src/Blacklist.antt =====
-- src/blacklist.c: the list of refused addresses, and the comma-separated value that worker.c fills
-- it from.
use nexus_gateway.Base.{
  Bool, Bytes, List, Option, [], arith, bytes_eq, c_str, false, if◌then◌else◌, leb, length,
  length-append, none, some, true, ℕ, ◌++◌, ◌+◌, ◌<◌, ◌==◌, ◌||◌, ◌∷◌, ◌≡◌, ◌≤◌,
}

-- BL_MAX
abbrev pub bl_max : ℕ
bl_max = 1024

-- `nexus_blacklist_t`; `nexus_bl_init` and `nexus_bl_free` leave none.
abbrev pub Blacklist : Type 0
Blacklist = List Bytes

-- `nexus_bl_add`; the flag says whether it returned 0.
unfoldable pub bl_add : Blacklist → Bytes → Blacklist × Bool
bl_add bl ip = if leb bl_max (length bl) then (bl, false) else (bl ++ c_str ip ∷ [], true)

-- `nexus_bl_check`
unfoldable pub bl_check : Blacklist → Bytes → Bool
bl_check [] ip = false
bl_check (b ∷ bl) ip = let rest = bl_check bl ip in if bytes_eq b (c_str ip) then true else rest

-- The loop of `strtok(tmp, ", ")`: `tok` is what was read of the current token.
unfoldable pub tokens_loop : Bytes → Bytes → List Bytes
tokens_loop tok [] = if bytes_eq tok [] then [] else tok ∷ []
tokens_loop tok (c ∷ cs) =
    let longer = tokens_loop (tok ++ c ∷ []) cs in
    let next = tokens_loop [] cs in
    if c == b',' || c == b' ' then (if bytes_eq tok [] then next else tok ∷ next) else longer

unfoldable pub add_all : Blacklist → List Bytes → Blacklist
add_all bl [] = bl
add_all bl (t ∷ ts) = add_all (bl_add bl t).0 ts

-- The part of `nexus_worker_run` that fills the list from `[security] blacklist`.
unfoldable pub load_blacklist : Option Bytes → Blacklist
load_blacklist none = []
load_blacklist (some csv) = add_all [] (tokens_loop [] (c_str csv))

bl_check-append :
    (bl : Blacklist) (b ip : Bytes)
    → bl_check (bl ++ b ∷ []) ip ≡ (bl_check bl ip || bytes_eq b (c_str ip))
unfolding bl_check
bl_check-append [] b ip = ground arith
bl_check-append (c ∷ bl) b ip = ground (arith, bl_check-append bl b ip)

-- While there is room, an address is refused exactly if it was refused before or is the one added.
pub bl_check-bl_add :
    (bl : Blacklist) (b ip : Bytes)
    → length bl < bl_max
    → bl_check (bl_add bl b).0 ip ≡ (bl_check bl ip || bytes_eq (c_str b) (c_str ip))
unfolding bl_add
bl_check-bl_add bl b ip room = ground (arith, bl_check-append bl (c_str b) ip)

-- A full list stays as it is, and the caller is told.
pub bl_add_full : (bl : Blacklist) (b : Bytes) → bl_max ≤ length bl → bl_add bl b ≡ (bl, false)
unfolding bl_add
bl_add_full bl b full = ground arith

-- The test of membership in a list of tokens.
unfoldable pub listed : Bytes → List Bytes → Bool
listed ip [] = false
listed ip (t ∷ ts) = bytes_eq (c_str t) (c_str ip) || listed ip ts

length-bl_add : (bl : Blacklist) (b : Bytes) → length (bl_add bl b).0 ≤ length bl + 1
unfolding bl_add
length-bl_add bl b = ground (arith, length-append bl (c_str b ∷ []))

bl_check-add_all :
    (ts : List Bytes) (bl : Blacklist) (ip : Bytes)
    → length bl + length ts ≤ bl_max
    → bl_check (add_all bl ts) ip ≡ (bl_check bl ip || listed ip ts)
unfolding add_all listed
bl_check-add_all [] bl ip room = ground arith
bl_check-add_all (t ∷ ts) bl ip room = ground (
  arith,
  bl_check-add_all ts (bl_add bl t).0 ip (omega (arith, length-bl_add bl t)),
  bl_check-bl_add bl t ip (omega arith),
)

-- A configured list of at most 1024 tokens refuses exactly the addresses that are its tokens.
pub bl_check-load_blacklist :
    (csv ip : Bytes)
    → length (tokens_loop [] (c_str csv)) ≤ bl_max
    → bl_check (load_blacklist (some csv)) ip ≡ listed ip (tokens_loop [] (c_str csv))
unfolding load_blacklist bl_check
bl_check-load_blacklist csv ip room =
    bl_check-add_all (tokens_loop [] (c_str csv)) [] ip (omega arith)

-- ===== src/Log.antt =====
-- src/log.c: the three log files. A file is `none` while it is closed, and else what was appended to
-- it since it was opened. The text of the time, that of a message behind its format, and the process
-- are arguments; the duration is the text that `%.1f` makes of it.
pub mod Lines
use nexus_gateway.Base.{
  Bool, Bytes, List, Option, [], c_str, codes, if◌then◌else◌, ltb, none, not, some, ℕ, ◌&&◌, ◌++◌,
  ◌∷◌,
}
use nexus_gateway.Base.Int.{eq_ℤ, ltb_ℤ, pos, ℤ}
use nexus_gateway.Util.Decimal.{decimal}

-- The file's static variables: `g_access_fp`, `g_error_fp`, `g_master_fp`, `g_log_level`.
pub record Logs : Type 0 where
  pub access_log : Option Bytes
  pub error_log : Option Bytes
  pub master_log : Option Bytes
  pub log_level : ℤ

-- The variables when the process starts.
abbrev pub no_logs : Logs
no_logs = record { access_log = none; error_log = none; master_log = none; log_level = pos 1 }

-- `fopen(path, "a")`, given whether it succeeds.
abbrev pub fopen_append : Bool → Option Bytes
fopen_append opens = if opens then some [] else none

-- `nexus_log_init`, given which files can be opened; the flag says whether it returned 0.
unfoldable pub log_init : Logs → ℤ → (access_opens error_opens : Bool) → Logs × Bool
log_init l level access_opens error_opens = (
  record l {
    access_log = fopen_append access_opens;
    error_log = fopen_append error_opens;
    log_level = level;
  },
  access_opens && error_opens,
)

-- `nexus_log_init_master`
unfoldable pub log_init_master : Logs → Bool → Logs × Bool
log_init_master l opens = (record l { master_log = fopen_append opens }, opens)

-- `nexus_log_close`
abbrev pub log_close : Logs → Logs
log_close l = record l { access_log = none; error_log = none; master_log = none }

-- `nexus_log_reset`
abbrev pub log_reset : Logs → Logs
log_reset l = record l { access_log = none; error_log = none }

-- `tag`
unfoldable pub tag_of : ℤ → Bytes
tag_of level =
    if not (ltb_ℤ level (pos 3))
    then codes "ERROR"
    else if eq_ℤ level (pos 2)
    then codes "WARN "
    else codes "INFO "

-- What is printed to an open file; a closed one stays closed.
unfoldable pub print_to : Option Bytes → Bytes → Option Bytes
print_to none text = none
print_to (some written) text = some (written ++ text)

-- `nexus_log_master`
unfoldable pub log_master : Logs → Bytes → ℕ → ℤ → Bytes → Logs
log_master l ts pid level text =
    let line =
      codes "["
      ++ (ts
          ++ (codes "] ["
              ++ (tag_of level
                  ++ (codes "] [master pid="
                      ++ (decimal pid ++ (codes "] " ++ (text ++ b'\n' ∷ []))))))) in
    if ltb_ℤ level l.log_level then l else record l { master_log = print_to l.master_log line }

-- `struct tm`, with the year and the month as `%Y` and `%m` print them.
pub record Time : Type 0 where
  pub year : ℕ
  pub month : ℕ
  pub day : ℕ
  pub hour : ℕ
  pub minute : ℕ
  pub second : ℕ

-- `%m`, `%d`, `%H`, `%M` and `%S` of `strftime`.
unfoldable pub two_digits : ℕ → Bytes
two_digits n = if ltb n 10 then b'0' ∷ decimal n else decimal n

-- `format_ts`, from what `localtime_r` makes of the time: "%Y-%m-%d %H:%M:%S".
unfoldable pub format_ts : Time → Bytes
format_ts t =
    decimal t.year
    ++ (b'-' ∷ two_digits t.month
        ++ (b'-' ∷ two_digits t.day
            ++ (b' ' ∷ two_digits t.hour
                ++ (b':' ∷ two_digits t.minute ++ b':' ∷ two_digits t.second))))

-- `nexus_log_access`
unfoldable pub log_access_line : Logs → Bytes → Bytes → Logs
log_access_line l ts text = record l {
  access_log = print_to l.access_log (codes "[" ++ (ts ++ (codes "] " ++ (text ++ b'\n' ∷ []))));
}

-- `nexus_log_error`
unfoldable pub log_error : Logs → Bytes → ℤ → Bytes → Logs
log_error l ts level text =
    let line =
      codes "["
      ++ (ts ++ (codes "] [" ++ (tag_of level ++ (codes "] " ++ (text ++ b'\n' ∷ []))))) in
    if ltb_ℤ level l.log_level then l else record l { error_log = print_to l.error_log line }

-- The arguments of `nexus_log_access_full`.
pub record AccessLine : Type 0 where
  pub ip : Option Bytes
  pub port : ℕ
  pub method : Option Bytes
  pub path : Option Bytes
  pub version : Option Bytes
  pub status : ℕ
  pub bytes_sent : ℕ
  pub user_agent : Option Bytes
  pub id : Option Bytes
  pub upstream_addr : Option Bytes
  pub duration : Bytes

-- `s ? s : "-"`, printed by `%s`.
unfoldable pub or_dash : Option Bytes → Bytes
or_dash none = codes "-"
or_dash (some s) = c_str s

-- What `fprintf` prints, part by part.
unfoldable pub access_parts : AccessLine → Bytes → List Bytes
access_parts a ts =
    or_dash a.ip
    ∷ codes ":"
    ∷ decimal a.port
    ∷ codes " - - "
    ∷ ts
    ∷ codes " \""
    ∷ or_dash a.method
    ∷ codes " "
    ∷ or_dash a.path
    ∷ codes " "
    ∷ or_dash a.version
    ∷ codes "\" "
    ∷ decimal a.status
    ∷ codes " "
    ∷ decimal a.bytes_sent
    ∷ codes " \"-\" \""
    ∷ or_dash a.user_agent
    ∷ codes "\" req_id="
    ∷ or_dash a.id
    ∷ codes " upstream="
    ∷ or_dash a.upstream_addr
    ∷ codes " duration="
    ∷ a.duration
    ∷ codes "ms\n"
    ∷ []

unfoldable pub concat_parts : List Bytes → Bytes
concat_parts [] = []
concat_parts (s ∷ ss) = s ++ concat_parts ss

-- `nexus_log_access_full`
unfoldable pub log_access_full : Logs → Bytes → AccessLine → Logs
log_access_full l ts a = record l {
  access_log = print_to l.access_log (concat_parts (access_parts a ts));
}

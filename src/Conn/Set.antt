-- ===== src/Conn/Set.antt =====
-- `conn_set` of src/conn.c: an address from the text of a URL.
pub mod Login
pub mod Port
pub mod Parts
pub mod Pieces
pub mod Printed
use hyperflux.Common.{
  Bool, true, false, Option, none, some, [], ◌∷◌, ◌++◌, ◌==◌, if◌then◌else◌, drop,
}
use hyperflux.Libc.{Text, after_prefix, cut_at, cut_at_last, span_until, find_text, fitted}
use hyperflux.Libc.Int.{ℤ, pos, ltb_ℤ}
use hyperflux.Libc.Number.{scan_based}
use hyperflux.Conn.{
  max_string, Proto, proto_ftp, proto_ftps, proto_http, proto_https, proto_is_ftp, proto_port,
  Address,
}

-- `strncmp(set_url, word, proto_len) == 0`, where the bytes before "://" are `name`.
abbrev pub starts_word : Text → Text → Bool
starts_word name word = elim (after_prefix name word) [ none ↦ false | some rest ↦ true ]

unfoldable pub proto_named : Text → Option Proto
proto_named name =
    if starts_word name (b'f' ∷ b't' ∷ b'p' ∷ [])
    then some proto_ftp
    else if starts_word name (b'h' ∷ b't' ∷ b't' ∷ b'p' ∷ [])
    then some proto_http
    else if starts_word name (b'f' ∷ b't' ∷ b'p' ∷ b's' ∷ [])
    then some proto_ftps
    else if starts_word name (b'h' ∷ b't' ∷ b't' ∷ b'p' ∷ b's' ∷ [])
    then some proto_https
    else none

-- The protocol and what stands behind "://"; `none` for one that is not supported.
unfoldable pub split_proto : Text → Option (Proto × Text)
split_proto set_url = elim (find_text (b':' ∷ b'/' ∷ b'/' ∷ []) set_url) [
  | none ↦ some (proto_http, fitted max_string set_url)
  | some p ↦ elim (proto_named p.0) [
    | none ↦ none
    | some proto ↦ some (proto, fitted max_string (drop 3 p.1))
  ]
]

-- The host and the path, "/" without one.
unfoldable pub split_path : Text → Text × Text
split_path url = elim (cut_at b'/' url) [
  | none ↦ (url, b'/' ∷ [])
  | some p ↦ (p.0, fitted max_string (b'/' ∷ p.1))
]

-- A path into directory and file: at its last '/' before a '?'.
unfoldable pub split_file : Text → Text × Text
split_file dir =
    let cut = span_until (λ c. c == b'?') dir in
    elim (cut_at_last b'/' cut.0) [
      | none ↦ (b'/' ∷ [], fitted max_string dir)
      | some p ↦ (fitted max_string (p.0 ++ (b'/' ∷ [])), fitted max_string (p.1 ++ cut.1))
    ]

-- User and password for a protocol without a login in the URL.
unfoldable pub default_login : Bool → Text × Text
default_login true = (
  b'a' ∷ b'n' ∷ b'o' ∷ b'n' ∷ b'y' ∷ b'm' ∷ b'o' ∷ b'u' ∷ b's' ∷ [],
  b'm' ∷ b'a' ∷ b'i' ∷ b'l' ∷ b't' ∷ b'o' ∷ b':' ∷ b'f' ∷ b'l' ∷ b'u' ∷ b'x' ∷ b'@' ∷ b'f' ∷ b'l'
      ∷ b'u' ∷ b'x' ∷ b'.' ∷ b'p' ∷ b'r' ∷ b'o' ∷ b'j' ∷ b'e' ∷ b'c' ∷ b't' ∷ [],
)
default_login false = ([], [])

-- `user` before its first ':', and the password behind it.
unfoldable pub split_pass : Text × Text → Text × Text
split_pass (user, pass) = elim (cut_at b':' user) [ none ↦ (user, pass) | some p ↦ (p.0, p.1) ]

-- What is left of the host, and user and password.
unfoldable pub split_login : Proto → Text → Text × (Text × Text)
split_login proto url = elim (cut_at_last b'@' url) [
  | none ↦ (url, split_pass (default_login (proto_is_ftp proto)))
  | some p ↦ (p.1, split_pass (p.0, []))
]

-- The host, and what stands behind it; `none` for a '[' that is not closed.
unfoldable pub split_port : Text → Option (Text × Text)
split_port [] = some ([], [])
split_port (c ∷ s) =
    if c == b'[' then cut_at_last b']' s else some (span_until (λ x. x == b':') (c ∷ s))

-- `sscanf(i + 1, "%i", &conn->port)`, if a ':' stands there.
unfoldable pub read_port : Text → ℤ → ℤ
read_port [] port = port
read_port (c ∷ s) port =
    if c == b':' then elim (scan_based s) [ none ↦ port | some n ↦ n ] else port

-- What `conn` has of them, also when the '[' is not closed and 0 is returned.
unfoldable pub host_of : Option (Text × Text) → Text → Text
host_of none url = drop 1 url
host_of (some h) url = h.0

unfoldable pub port_of : Option (Text × Text) → ℤ → ℤ
port_of none port = port
port_of (some h) port = read_port h.1 port

unfoldable pub accepted : Option (Text × Text) → ℤ → Bool
accepted none port = false
accepted (some h) port = ltb_ℤ (pos 0) port

-- From the host part of the URL on.
unfoldable pub set_host : Proto → Text → Text → Text → Bool × Address
set_host proto dir file url =
    let login = split_login proto url in
    let h = split_port login.0 in
    let port = port_of h (pos (proto_port proto)) in
    (
      accepted h port,
      record {
        proto = proto;
        port = port;
        host = host_of h login.0;
        dir = dir;
        file = file;
        user = login.1.0;
        pass = login.1.1;
      },
    )

-- The return value, and what is left in `conn`.
unfoldable pub conn_set : Address → Text → Bool × Address
conn_set conn set_url = elim (split_proto set_url) [
  | none ↦ (false, conn)
  | some p ↦
      let path = split_path p.1 in
      let place = split_file path.1 in set_host p.0 place.0 place.1 path.0
]

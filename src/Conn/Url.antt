-- ===== src/Conn/Url.antt =====
-- `scheme_from_proto` and `conn_url` of src/conn.c: the text of a URL from an address.
use hyperflux.Common.{ℕ, suc, ◌-◌, Bool, not, ◌&&◌, [], ◌∷◌, ◌++◌, ltb, if◌then◌else◌, length}
use hyperflux.Libc.{Text, same, is_empty, fitted}
use hyperflux.Libc.Int.{ℤ, pos, negsuc}
use hyperflux.UrlGlob.Number.{decimal}
use hyperflux.Conn.{Proto, proto_ftp, proto_ftps, proto_http, proto_https, Address}

unfoldable pub scheme_from_proto : Proto → Text
scheme_from_proto proto_ftp = b'f' ∷ b't' ∷ b'p' ∷ b':' ∷ b'/' ∷ b'/' ∷ []
scheme_from_proto proto_ftps = b'f' ∷ b't' ∷ b'p' ∷ b's' ∷ b':' ∷ b'/' ∷ b'/' ∷ []
scheme_from_proto proto_http = b'h' ∷ b't' ∷ b't' ∷ b'p' ∷ b':' ∷ b'/' ∷ b'/' ∷ []
scheme_from_proto proto_https = b'h' ∷ b't' ∷ b't' ∷ b'p' ∷ b's' ∷ b':' ∷ b'/' ∷ b'/' ∷ []

-- "%i"
unfoldable pub print_int : ℤ → Text
print_int (pos n) = decimal n
print_int (negsuc n) = b'-' ∷ decimal (suc n)

abbrev pub anonymous : Text
anonymous = b'a' ∷ b'n' ∷ b'o' ∷ b'n' ∷ b'y' ∷ b'm' ∷ b'o' ∷ b'u' ∷ b's' ∷ []

-- "%s:%s@", or nothing without a user.
unfoldable pub login_text : Address → Text
login_text a =
    if not (is_empty a.user) && not (same a.user anonymous)
    then a.user ++ (b':' ∷ (a.pass ++ (b'@' ∷ [])))
    else []

-- `is_ipv6_addr` asks inet_pton, so it is an argument.
unfoldable pub place_text : (Text → Bool) → Address → Text
place_text is_ipv6_addr a =
    let after = b':' ∷ (print_int a.port ++ (a.dir ++ a.file)) in
    if is_ipv6_addr a.host then b'[' ∷ (a.host ++ (b']' ∷ after)) else a.host ++ after

-- What a call does: it returns -1, it writes behind the buffer, or it leaves a text in it and returns
-- a length, which is the text's if the text was not cut.
pub data Outcome : Type 0 where
  failed : Outcome
  overrun : Outcome
  printed : Text → ℕ → Outcome

-- The second `snprintf`. With no more than `len` bytes for the login, `len - plen` does not wrap.
unfoldable pub conn_url : (Text → Bool) → ℕ → Address → Outcome
conn_url is_ipv6_addr len a =
    let scheme = scheme_from_proto a.proto in
    let login = login_text a in
    let place = place_text is_ipv6_addr a in
    if ltb len (length scheme)
    then failed
    else if ltb (len - length scheme) (length login)
    then overrun
    else printed (fitted len (scheme ++ (login ++ place))) (length place)

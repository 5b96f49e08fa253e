-- ===== src/Conn/Redirect/Alike.antt =====
-- What `urlseq_check_loop` takes for a loop. `conn_url` returns the length of the part behind the login,
-- and that many bytes from the start of the whole URL are hashed.
use hyperflux.Common.{◌+◌, ◌≤◌, Bool, ◌++◌, length}
use hyperflux.Libc.{Text}
use hyperflux.Conn.{max_string, Address}
use hyperflux.Conn.Url.{scheme_from_proto, login_text, place_text}

-- The whole URL of an address.
unfoldable pub url_of : (Text → Bool) → Address → Text
url_of v6 a = scheme_from_proto a.proto ++ (login_text a ++ place_text v6 a)

-- The address has room for its scheme and its login in a buffer of MAX_STRING bytes.
unfoldable pub LoginFits : Address → Type 0
LoginFits a = length (scheme_from_proto a.proto) + length (login_text a) ≤ max_string

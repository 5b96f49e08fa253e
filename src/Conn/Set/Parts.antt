-- ===== src/Conn/Set/Parts.antt =====
-- An address in parts, and the text that `conn_url` prints for them.
use hyperflux.Common.{
  ℕ, ◌^◌, ◌<◌, ◌≡◌, refl, sym, ap, Bool, true, false, not, ◌&&◌, Option, none, some, [], ◌∷◌, ◌++◌,
  ◌==◌, if◌then◌else◌, append_assoc,
}
use hyperflux.Libc.{Text, same, is_empty}
use hyperflux.Libc.Int.{pos}
use hyperflux.Libc.Cuts.{Free, Starts}
use hyperflux.UrlGlob.Number.{decimal}
use hyperflux.Conn.{Proto, proto_ftp, proto_ftps, proto_http, proto_https, proto_is_ftp, Address}
use hyperflux.Conn.Set.{default_login}
use hyperflux.Conn.Url.{print_int, login_text, anonymous, place_text}

-- The parts of an address.
pub record Parts : Type 0 where
  pub proto : Proto
  pub login : Option (Text × Text)
  pub host : Text
  pub number : ℕ
  pub folder : Text
  pub name : Text
  pub query : Text

unfoldable pub login_of : Proto → Option (Text × Text) → Text × Text
login_of proto none = default_login (proto_is_ftp proto)
login_of proto (some login) = login

unfoldable pub address_of : Parts → Address
address_of p = record {
  proto = p.proto;
  port = pos p.number;
  host = p.host;
  dir = p.folder ++ (b'/' ∷ []);
  file = p.name ++ p.query;
  user = (login_of p.proto p.login).0;
  pass = (login_of p.proto p.login).1;
}

abbrev pub is_byte : ℕ → ℕ → Bool
is_byte b c = c == b

-- A user that is printed, without ':' and '/', and a password without '/'.
unfoldable pub IsLogin : Option (Text × Text) → Type 0
IsLogin none = Unit {0}
IsLogin (some login) =
    ((is_empty login.0 ≡ false) × (same login.0 anonymous ≡ false))
    × ((Free (is_byte b':') login.0 × Free (is_byte b'/') login.0) × Free (is_byte b'/') login.1)

-- A host that goes into brackets has no ']', and another one no ':' and no '[' in front.
unfoldable pub IsHost : Bool → Text → Type 0
IsHost true host = Free (is_byte b']') host
IsHost false host = (Free (is_byte b':') host × Free (is_byte b'[') host)

unfoldable pub IsFolder : Text → Type 0
IsFolder [] = Unit {0}
IsFolder (c ∷ folder) = (c ≡ b'/') × Free (is_byte b'?') folder

unfoldable pub IsPrintable : (Text → Bool) → Parts → Type 0
IsPrintable is_ipv6_addr p =
    (IsLogin p.login
      × (IsHost (is_ipv6_addr p.host) p.host
          × (Free (is_byte b'/') p.host × Free (is_byte b'@') p.host)))
    × (((0 < p.number) × (p.number < 2 ^ 31))
        × ((IsFolder p.folder × Free (is_byte b'?') p.name)
            × (Free (is_byte b'/') p.name × Starts (is_byte b'?') p.query)))

-- The login, the host with its port, and the path, as they are printed.
unfoldable pub login_part : Option (Text × Text) → Text
login_part none = []
login_part (some login) = login.0 ++ (b':' ∷ (login.1 ++ (b'@' ∷ [])))

unfoldable pub port_part : ℕ → Text
port_part n = b':' ∷ decimal n

unfoldable pub host_part : Bool → Text → ℕ → Text
host_part true host n = b'[' ∷ (host ++ (b']' ∷ port_part n))
host_part false host n = host ++ port_part n

unfoldable pub path_part : Parts → Text
path_part p = (p.folder ++ (b'/' ∷ [])) ++ (p.name ++ p.query)

shown_login : Text × Text → Text
shown_login login =
    if not (is_empty login.0) && not (same login.0 anonymous)
    then login.0 ++ (b':' ∷ (login.1 ++ (b'@' ∷ [])))
    else []

shown_login-login_of :
    (proto : Proto) (o : Option (Text × Text))
    → IsLogin o
    → shown_login (login_of proto o) ≡ login_part o
unfolding shown_login login_of login_part IsLogin default_login proto_is_ftp same
shown_login-login_of proto_ftp none h = refl
shown_login-login_of proto_ftps none h = refl
shown_login-login_of proto_http none h = refl
shown_login-login_of proto_https none h = refl
shown_login-login_of proto (some login) h = rw (h.0.0, h.0.1) refl

pub login_text-login_part :
    (p : Parts) → IsLogin p.login → login_text (address_of p) ≡ login_part p.login
unfolding login_text address_of shown_login
login_text-login_part p h = shown_login-login_of p.proto p.login h

host_part-append :
    (v6 : Bool) (host : Text) (n : ℕ) (after : Text)
    → (if v6
        then b'[' ∷ (host ++ (b']' ∷ (b':' ∷ (decimal n ++ after))))
        else host ++ (b':' ∷ (decimal n ++ after)))
      ≡ host_part v6 host n ++ after
unfolding host_part port_part
host_part-append true host n after =
    ap (◌∷◌ b'[') (sym (append_assoc host (b']' ∷ b':' ∷ decimal n) after))
host_part-append false host n after = sym (append_assoc host (b':' ∷ decimal n) after)

pub place_text-parts :
    (is_ipv6_addr : Text → Bool) (p : Parts)
    → place_text is_ipv6_addr (address_of p)
      ≡ host_part (is_ipv6_addr p.host) p.host p.number ++ path_part p
unfolding place_text address_of path_part print_int
place_text-parts is_ipv6_addr p =
    host_part-append (is_ipv6_addr p.host) p.host p.number (path_part p)

-- ===== src/Conn/Set/Printed.antt =====
-- `conn_set` reads back what `conn_url` prints.
use hyperflux.Common.{
  ℕ, ◌-◌, ◌^◌, ◌<◌, ◌≡◌, refl, sym, ap, ap₂, ◌∙◌, Bool, true, false, Option, none, some, [], ◌∷◌,
  ◌++◌, arith, ltb, length, length-append, append_assoc,
}
use hyperflux.Libc.{Text}
use hyperflux.Libc.Int.{ℤ, pos, ltb_ℤ}
use hyperflux.Libc.Cuts.{Free, Free-append, fitted-short}
use hyperflux.Conn.{max_string, proto_port, Address}
use hyperflux.Conn.Set.{
  split_proto, split_path, split_file, split_port, host_of, port_of, accepted, set_host, conn_set,
}
use hyperflux.Conn.Set.Login.{conn_set-some}
use hyperflux.Conn.Set.Port.{read_port-decimal}
use hyperflux.Conn.Url.{scheme_from_proto, login_text, place_text, printed, conn_url}
use hyperflux.Conn.Set.Parts.{
  Parts, login_of, address_of, is_byte, IsLogin, IsHost, IsPrintable, login_part, port_part,
  host_part, path_part, login_text-login_part, place_text-parts,
}
use hyperflux.Conn.Set.Pieces.{
  host_part-Free, split_login-part, split_port-part, path_part-slash, split_path-part,
  split_file-part, split_proto-scheme,
}

set_host-parts :
    (p : Parts) (v6 : Bool) (dir file : Text)
    → IsLogin p.login
    → IsHost v6 p.host
    → Free (is_byte b'@') p.host
    → (0 < p.number) × (p.number < 2 ^ 31)
    → set_host p.proto dir file (login_part p.login ++ host_part v6 p.host p.number) ≡ (
      true,
      record {
        proto = p.proto;
        port = pos p.number;
        host = p.host;
        dir = dir;
        file = file;
        user = (login_of p.proto p.login).0;
        pass = (login_of p.proto p.login).1;
      },
    )
unfolding set_host host_of port_of accepted port_part
set_host-parts p v6 dir file login host free number =
    let rest = host_part v6 p.host p.number in
    let address : ℤ → Text → Text × Text → Address = λ port name both. record {
      proto = p.proto;
      port = port;
      host = name;
      dir = dir;
      file = file;
      user = both.0;
      pass = both.1;
    } in
    let default = pos (proto_port p.proto) in
    let both = login_of p.proto p.login in
    let at = host_part-Free b'@' v6 p.host p.number number.1 refl (refl, (refl, refl)) free in
    ap
      (λ l.
        let h = split_port l.0 in
        let port = port_of h default in (accepted h port, address port (host_of h l.0) l.1))
      (split_login-part p.proto p.login rest login at)
    ∙ ap
        (λ h. let port = port_of h default in (accepted h port, address port (host_of h rest) both))
        (split_port-part v6 p.host p.number host number.1)
    ∙ ap (λ port. (ltb_ℤ (pos 0) port, address port p.host both))
        (read_port-decimal p.number default number.0 number.1)
    ∙ ap (λ b. (b, address (pos p.number) p.host both)) (ground (arith, number.0))

login_part-Free : (o : Option (Text × Text)) → IsLogin o → Free (is_byte b'/') (login_part o)
unfolding IsLogin login_part Free
login_part-Free none h = tt
login_part-Free (some login) h =
    Free-append (is_byte b'/') login.0 (b':' ∷ (login.1 ++ (b'@' ∷ []))) h.1.0.1
      (refl, Free-append (is_byte b'/') login.1 (b'@' ∷ []) h.1.1 (refl, tt))

url_text : (Text → Bool) → Address → Text
url_text is_ipv6_addr a = scheme_from_proto a.proto ++ (login_text a ++ place_text is_ipv6_addr a)

conn_url-printed :
    (is_ipv6_addr : Text → Bool) (a : Address)
    → length (url_text is_ipv6_addr a) < max_string
    → conn_url is_ipv6_addr max_string a
      ≡ printed (url_text is_ipv6_addr a) (length (place_text is_ipv6_addr a))
unfolding conn_url url_text
conn_url-printed is_ipv6_addr a short =
    let scheme = scheme_from_proto a.proto in
    let login = login_text a in
    let place = place_text is_ipv6_addr a in
    let whole = length-append scheme (login ++ place) in
    let rest = length-append login place in
    let fits : ltb max_string (length scheme) ≡ false = ground (arith, short, whole) in
    let room : ltb (max_string - length scheme) (length login) ≡ false =
      ground (arith, short, whole, rest) in
    rw (fits, room)
      (ap (λ t. printed t (length place))
        (fitted-short max_string (scheme ++ (login ++ place)) short))

conn_set-rest :
    (is_ipv6_addr : Text → Bool) (p : Parts) (conn : Address) (rest : Text)
    → IsPrintable is_ipv6_addr p
    → length rest < max_string
    → rest ≡ (login_part p.login ++ host_part (is_ipv6_addr p.host) p.host p.number) ++ path_part p
    → conn_set conn (scheme_from_proto p.proto ++ rest) ≡ (true, address_of p)
unfolding IsPrintable address_of
conn_set-rest is_ipv6_addr p conn rest h short e =
    let v6 = is_ipv6_addr p.host in
    let front = login_part p.login ++ host_part v6 p.host p.number in
    let path = path_part p in
    let free =
      Free-append (is_byte b'/') (login_part p.login) (host_part v6 p.host p.number)
        (login_part-Free p.login h.0.0)
        (host_part-Free b'/' v6 p.host p.number h.1.0.1 refl (refl, (refl, refl)) h.0.1.1.0) in
    let (t, slash) = path_part-slash p.folder (p.name ++ p.query) h.1.1.0.0 in
    let path_short : length path < max_string =
      omega (arith, short, ap length e, length-append front path) in
    let read : split_proto (scheme_from_proto p.proto ++ rest) ≡ some (p.proto, rest) =
      split_proto-scheme p.proto rest
      ∙ ap (λ r. some (p.proto, r)) (fitted-short max_string rest short) in
    conn_set-some conn (scheme_from_proto p.proto ++ rest) (p.proto, rest) read
    ∙ ap (λ q. set_host p.proto (split_file q.1).0 (split_file q.1).1 q.0)
        (ap split_path e ∙ split_path-part front path t free (unfold path_part in slash) path_short)
    ∙ ap (λ f. set_host p.proto f.0 f.1 front) (split_file-part p h.1.1 path_short)
    ∙ set_host-parts p v6 _ _ h.0.0 h.0.1.0 h.0.1.1.1 h.1.0

-- An address without bytes that its parts are told apart by, and with a URL of fewer than MAX_STRING
-- bytes: `conn_set` of what `conn_url` prints gives the address back. A host in brackets is one that
-- inet_pton takes for IPv6; without a user the address has the login that `conn_set` fills in.
pub conn_set-conn_url :
    (is_ipv6_addr : Text → Bool) (p : Parts) (conn : Address)
    → IsPrintable is_ipv6_addr p
    → length (
        scheme_from_proto p.proto
        ++ (login_text (address_of p) ++ place_text is_ipv6_addr (address_of p)))
      < max_string
    → (text : Text) × ((n : ℕ) × ((conn_url is_ipv6_addr max_string (address_of p) ≡ printed text n)
          × (conn_set conn text ≡ (true, address_of p))))
unfolding IsPrintable url_text address_of
conn_set-conn_url is_ipv6_addr p conn h short =
    let a = address_of p in
    let rest = login_text a ++ place_text is_ipv6_addr a in
    let shape =
      ap₂ ◌++◌ (login_text-login_part p h.0.0) (place_text-parts is_ipv6_addr p)
      ∙ sym (
          append_assoc (login_part p.login) (host_part (is_ipv6_addr p.host) p.host p.number)
            (path_part p)) in
    let rest_short : length rest < max_string =
      omega (arith, short, length-append (scheme_from_proto p.proto) rest) in
    (
      url_text is_ipv6_addr a,
      (
        length (place_text is_ipv6_addr a),
        (
          conn_url-printed is_ipv6_addr a short,
          conn_set-rest is_ipv6_addr p conn rest h rest_short shape,
        ),
      ),
    )

-- ===== src/Conn/Set/Pieces.antt =====
-- The cuts of `conn_set` on a text that is put together from the parts of an address.
use hyperflux.Common.{
  ℕ, ◌^◌, ◌<◌, ◌≡◌, refl, sym, ap, ap₂, ◌∙◌, Bool, true, false, Option, none, some, [], ◌∷◌, ◌++◌,
  arith, ◌==◌, length, length-append, append_assoc,
}
use hyperflux.Libc.{Text, after_prefix, cut_at, cut_at_last, span_until, find_text, fitted}
use hyperflux.Libc.Cuts.{
  Free, Starts, Free-append, cut_at-append, cut_at_last-append, cut_at_last-none, span_until-append,
  fitted-short,
}
use hyperflux.Libc.Number.{is_digit}
use hyperflux.UrlGlob.Number.{decimal}
use hyperflux.UrlGlob.Number.Value.{AreDigits}
use hyperflux.Conn.{max_string, Proto, proto_ftp, proto_ftps, proto_http, proto_https, proto_is_ftp}
use hyperflux.Conn.Set.{
  proto_named, split_proto, split_path, split_file, default_login, split_pass, split_login,
  split_port,
}
use hyperflux.Conn.Set.Port.{decimal-AreDigits}
use hyperflux.Conn.Url.{scheme_from_proto}
use hyperflux.Conn.Set.Parts.{
  Parts, login_of, is_byte, IsLogin, IsHost, IsFolder, login_part, port_part, host_part, path_part,
}

-- No byte of a number is one that an address is cut at.
digits-Free : (b : ℕ) (s : Text) → AreDigits s → (is_digit b ≡ false) → Free (is_byte b) s
unfolding Free
digits-Free b [] h no_digit = tt
digits-Free b (c ∷ s) h no_digit = (ground (arith, h.0, no_digit), digits-Free b s h.1 no_digit)

port_part-Free :
    (b n : ℕ)
    → n < 2 ^ 31
    → is_digit b ≡ false
    → (b':' == b) ≡ false
    → Free (is_byte b) (port_part n)
unfolding port_part Free
port_part-Free b n h no_digit no_colon =
    (no_colon, digits-Free b (decimal n) (decimal-AreDigits n h) no_digit)

pub host_part-Free :
    (b : ℕ) (v6 : Bool) (host : Text) (n : ℕ)
    → n < 2 ^ 31
    → is_digit b ≡ false
    → ((b':' == b) ≡ false) × (((b'[' == b) ≡ false) × ((b']' == b) ≡ false))
    → Free (is_byte b) host
    → Free (is_byte b) (host_part v6 host n)
unfolding host_part Free
host_part-Free b true host n h no_digit others free = (
  others.1.0,
  Free-append (is_byte b) host (b']' ∷ port_part n) free
      (others.1.1, port_part-Free b n h no_digit others.0),
)
host_part-Free b false host n h no_digit others free =
    Free-append (is_byte b) host (port_part n) free (port_part-Free b n h no_digit others.0)

split_pass-default : (ftp : Bool) → split_pass (default_login ftp) ≡ default_login ftp
unfolding split_pass default_login cut_at
split_pass-default true = refl
split_pass-default false = refl

split_pass-some :
    (user pass old : Text)
    → Free (is_byte b':') user
    → split_pass (user ++ (b':' ∷ pass), old) ≡ (user, pass)
unfolding split_pass
split_pass-some user pass old free = rw (cut_at-append b':' user pass free, split_pass) refl

split_login-none :
    (proto : Proto) (url : Text)
    → cut_at_last b'@' url ≡ none
    → split_login proto url ≡ (url, split_pass (default_login (proto_is_ftp proto)))
unfolding split_login
split_login-none proto url e = rw (e, split_login) refl

split_login-some :
    (proto : Proto) (url : Text) (p : Text × Text)
    → cut_at_last b'@' url ≡ some p
    → split_login proto url ≡ (p.1, split_pass (p.0, []))
unfolding split_login
split_login-some proto url p e = rw (e, split_login) refl

login_part-append :
    (user pass rest : Text)
    → (user ++ (b':' ∷ (pass ++ (b'@' ∷ [])))) ++ rest ≡ (user ++ (b':' ∷ pass)) ++ (b'@' ∷ rest)
login_part-append [] pass rest = ap (◌∷◌ b':') (append_assoc pass (b'@' ∷ []) rest)
login_part-append (c ∷ user) pass rest = ap (◌∷◌ c) (login_part-append user pass rest)

pub split_login-part :
    (proto : Proto) (o : Option (Text × Text)) (rest : Text)
    → IsLogin o
    → Free (is_byte b'@') rest
    → split_login proto (login_part o ++ rest) ≡ (rest, login_of proto o)
unfolding login_part IsLogin login_of
split_login-part proto none rest h free =
    split_login-none proto rest (cut_at_last-none b'@' rest free)
    ∙ ap (λ l. (rest, l)) (split_pass-default (proto_is_ftp proto))
split_login-part proto (some login) rest h free =
    ap (split_login proto) (login_part-append login.0 login.1 rest)
    ∙ split_login-some proto _ (login.0 ++ (b':' ∷ login.1), rest)
        (cut_at_last-append b'@' _ rest free)
    ∙ ap (λ l. (rest, l)) (split_pass-some login.0 login.1 [] h.1.0.0)

split_port-plain :
    (c : ℕ) (s : Text)
    → (c == b'[') ≡ false
    → split_port (c ∷ s) ≡ some (span_until (is_byte b':') (c ∷ s))
unfolding split_port
split_port-plain c s e = rw e refl

pub split_port-part :
    (v6 : Bool) (host : Text) (n : ℕ)
    → IsHost v6 host
    → n < 2 ^ 31
    → split_port (host_part v6 host n) ≡ some (host, port_part n)
unfolding host_part IsHost port_part Starts Free
split_port-part true host n h small =
    unfold split_port in
    cut_at_last-append b']' host (port_part n) (port_part-Free b']' n small refl refl)
split_port-part false [] n h small =
    split_port-plain b':' (decimal n) refl
    ∙ ap some (span_until-append (is_byte b':') [] (port_part n) tt refl)
split_port-part false (c ∷ host) n h small =
    split_port-plain c (host ++ port_part n) h.1.0
    ∙ ap some (span_until-append (is_byte b':') (c ∷ host) (port_part n) h.0 refl)

pub path_part-slash :
    (folder rest : Text)
    → IsFolder folder
    → (t : Text) × ((folder ++ (b'/' ∷ [])) ++ rest ≡ b'/' ∷ t)
unfolding IsFolder
path_part-slash [] rest h = (rest, refl)
path_part-slash (c ∷ folder) rest h =
    ((folder ++ (b'/' ∷ [])) ++ rest, ap (λ x. x ∷ ((folder ++ (b'/' ∷ [])) ++ rest)) h.0)

folder-Free : (folder : Text) → IsFolder folder → Free (is_byte b'?') (folder ++ (b'/' ∷ []))
unfolding IsFolder Free
folder-Free [] h = (refl, tt)
folder-Free (c ∷ folder) h =
    (ground (arith, h.0), Free-append (is_byte b'?') folder (b'/' ∷ []) h.1 (refl, tt))

split_path-some :
    (url : Text) (q : Text × Text)
    → cut_at b'/' url ≡ some q
    → split_path url ≡ (q.0, fitted max_string (b'/' ∷ q.1))
unfolding split_path
split_path-some url q e = rw (e, split_path) refl

pub split_path-part :
    (before path t : Text)
    → Free (is_byte b'/') before
    → path ≡ b'/' ∷ t
    → length path < max_string
    → split_path (before ++ path) ≡ (before, path)
split_path-part before path t free e short =
    let whole : fitted max_string (b'/' ∷ t) ≡ b'/' ∷ t =
      fitted-short max_string (b'/' ∷ t) (omega (arith, short, ap length e)) in
    ap (λ s. split_path (before ++ s)) e
    ∙ split_path-some (before ++ (b'/' ∷ t)) (before, t) (cut_at-append b'/' before t free)
    ∙ ap (λ s. (before, s)) (whole ∙ sym e)

split_file-some :
    (dir path query : Text) (q : Text × Text)
    → span_until (λ c. c == b'?') dir ≡ (path, query)
    → cut_at_last b'/' path ≡ some q
    → split_file dir ≡ (fitted max_string (q.0 ++ (b'/' ∷ [])), fitted max_string (q.1 ++ query))
unfolding split_file
split_file-some dir path query q e e' =
    ap
      (λ c. elim (cut_at_last b'/' c.0) [
        | none ↦ (b'/' ∷ [], fitted max_string dir)
        | some p ↦ (fitted max_string (p.0 ++ (b'/' ∷ [])), fitted max_string (p.1 ++ c.1))
      ])
      e
    ∙ rw e' refl

pub split_file-part :
    (p : Parts)
    → (IsFolder p.folder × Free (is_byte b'?') p.name)
      × (Free (is_byte b'/') p.name × Starts (is_byte b'?') p.query)
    → length (path_part p) < max_string
    → split_file (path_part p) ≡ (p.folder ++ (b'/' ∷ []), p.name ++ p.query)
unfolding path_part
split_file-part p h short =
    let dir = p.folder ++ (b'/' ∷ []) in
    let file = p.name ++ p.query in
    let shape : dir ++ file ≡ (dir ++ p.name) ++ p.query = sym (append_assoc dir p.name p.query) in
    let free = Free-append (is_byte b'?') dir p.name (folder-Free p.folder h.0.0) h.0.1 in
    let cut : span_until (λ c. c == b'?') (dir ++ file) ≡ (dir ++ p.name, p.query) =
      ap (span_until (is_byte b'?')) shape
      ∙ span_until-append (is_byte b'?') (dir ++ p.name) p.query free h.1.1 in
    let last : cut_at_last b'/' (dir ++ p.name) ≡ some (p.folder, p.name) =
      ap (cut_at_last b'/') (append_assoc p.folder (b'/' ∷ []) p.name)
      ∙ cut_at_last-append b'/' p.folder p.name h.1.0 in
    let dir_fits = fitted-short max_string dir (omega (arith, short, length-append dir file)) in
    let file_fits = fitted-short max_string file (omega (arith, short, length-append dir file)) in
    split_file-some (dir ++ file) (dir ++ p.name) p.query (p.folder, p.name) cut last
    ∙ ap₂ (λ d f. (d, f)) dir_fits file_fits

pub split_proto-scheme :
    (proto : Proto) (rest : Text)
    → split_proto (scheme_from_proto proto ++ rest) ≡ some (proto, fitted max_string rest)
unfolding split_proto scheme_from_proto find_text after_prefix proto_named
split_proto-scheme proto_ftp rest = refl
split_proto-scheme proto_ftps rest = refl
split_proto-scheme proto_http rest = refl
split_proto-scheme proto_https rest = refl

-- ===== src/Conn/Set/Login.antt =====
-- The user and the password that `conn_set` takes from a URL are no longer than the URL.
use hyperflux.Common.{
  ℕ, ◌+◌, ◌-◌, ◌≤◌, ◌≡◌, refl, sym, ◌∙◌, ◌⊎◌, inl, inr, Bool, true, false, some, [], ◌∷◌, ◌++◌,
  arith, ltb, Option-cases, length, drop, length-append, length-take, length-drop,
}
use hyperflux.Libc.{Text, after_prefix, cut_at, cut_at_last, find_text, fitted, same_refl}
use hyperflux.Libc.Cuts.{cut_at-length, cut_at_last-length}
use hyperflux.Conn.{
  max_string, Proto, proto_ftp, proto_ftps, proto_http, proto_https, proto_is_ftp, Address,
}
use hyperflux.Conn.Set.{
  proto_named, split_proto, split_path, split_file, default_login, split_pass, split_login,
  set_host, conn_set,
}
use hyperflux.Conn.Url.{scheme_from_proto, login_text, anonymous, place_text, printed, conn_url}

-- A login that `conn_url` does not print, or one of `n` bytes at most.
Short : ℕ → Text × Text → Type 0
Short n login = (login.0 ≡ anonymous) ⊎ (length login.0 + length login.1 ≤ n)

default_login-Short : (ftp : Bool) (n : ℕ) → Short n (split_pass (default_login ftp))
unfolding Short split_pass default_login cut_at
default_login-Short true n = inl refl
default_login-Short false n = inr (omega arith)

split_pass-Short : (user : Text) (n : ℕ) → length user ≤ n → Short n (split_pass (user, []))
unfolding Short split_pass
split_pass-Short user n h = elim (Option-cases (cut_at b':' user)) [
  | inl e ↦ rw (e, split_pass) (inr (ground (arith, h)))
  | inr (p, e) ↦ rw (e, split_pass) (inr (ground (arith, h, cut_at-length b':' user p e)))
]

split_login-Short : (proto : Proto) (url : Text) → Short (length url) (split_login proto url).1
unfolding split_login
split_login-Short proto url = elim (Option-cases (cut_at_last b'@' url)) [
  | inl e ↦ rw (e, split_login) (default_login-Short (proto_is_ftp proto) (length url))
  | inr (p, e) ↦
      rw (e, split_login)
        (split_pass-Short p.0 (length url) (ground (arith, cut_at_last-length b'@' url p e)))
]

set_host-Short :
    (proto : Proto) (dir file url : Text)
    → Short
        (length url)
        ((set_host proto dir file url).1.user, (set_host proto dir file url).1.pass)
unfolding set_host
set_host-Short proto dir file url = split_login-Short proto url

split_path_le : (url : Text) → length (split_path url).0 ≤ length url
unfolding split_path
split_path_le url = elim (Option-cases (cut_at b'/' url)) [
  | inl e ↦ rw (e, split_path) (omega arith)
  | inr (p, e) ↦ rw (e, split_path) (omega (arith, cut_at-length b'/' url p e))
]

abbrev separator : Text
separator = b':' ∷ b'/' ∷ b'/' ∷ []

find_text_le :
    (needle s : Text) (p : Text × Text) → find_text needle s ≡ some p → length p.1 ≤ length s
unfolding find_text
find_text_le [] [] p h = ground (arith, h)
find_text_le (n ∷ needle) [] p h = ground (arith, h)
find_text_le needle (c ∷ s) p h = elim (Option-cases (after_prefix needle (c ∷ s))) [
  | inr (rest, e) ↦ ground (arith, h, e)
  | inl e ↦ elim (Option-cases (find_text needle s)) [
    | inl e' ↦ ground (arith, h, e, e')
    | inr (q, e') ↦ ground (arith, h, e, e', find_text_le needle s q e')
  ]
]

split_proto_le :
    (set_url : Text) (p : Proto × Text) → split_proto set_url ≡ some p → length p.1 ≤ length set_url
unfolding split_proto
split_proto_le set_url p h = elim (Option-cases (find_text separator set_url)) [
  | inl e ↦ ground (arith, h, e, length-take (max_string - 1) set_url)
  | inr (q, e) ↦ elim (Option-cases (proto_named q.0)) [
    | inl e' ↦ ground (arith, h, e, e')
    | inr (proto, e') ↦
        let cut = length-take (max_string - 1) (drop 3 q.1) in
        ground (arith, h, e, e', cut, length-drop 3 q.1, find_text_le separator set_url q e)
  ]
]

Short-le : {n m : ℕ} (login : Text × Text) → n ≤ m → Short n login → Short m login
unfolding Short
Short-le login h (inl e) = inl e
Short-le login h (inr e) = inr (omega (arith, h, e))

pub conn_set-some :
    (conn : Address) (set_url : Text) (p : Proto × Text)
    → split_proto set_url ≡ some p
    → conn_set conn set_url
      ≡ set_host p.0
          (split_file (split_path p.1).1).0
          (split_file (split_path p.1).1).1
          (split_path p.1).0
unfolding conn_set
conn_set-some conn set_url p e = rw (e, conn_set) refl

conn_set-Short :
    (conn : Address) (set_url : Text) (a : Address)
    → conn_set conn set_url ≡ (true, a)
    → Short (length set_url) (a.user, a.pass)
unfolding conn_set
conn_set-Short conn set_url a h = elim (Option-cases (split_proto set_url)) [
  | inl e ↦ absurd (ground (arith, h, e))
  | inr (p, e) ↦
      let path = split_path p.1 in
      let place = split_file path.1 in
      let set : set_host p.0 place.0 place.1 path.0 ≡ (true, a) =
        sym (conn_set-some conn set_url p e) ∙ h in
      let short = set_host-Short p.0 place.0 place.1 path.0 in
      Short-le (a.user, a.pass) (omega (arith, split_path_le p.1, split_proto_le set_url p e))
        (rw set at short)
]

login_text-Short : (n : ℕ) (a : Address) → Short n (a.user, a.pass) → length (login_text a) ≤ n + 2
unfolding Short login_text
login_text-Short n a (inl e) = rw (e, same_refl anonymous) (omega arith)
login_text-Short n a (inr e) = ground (
  arith,
  e,
  length-append a.user (b':' ∷ (a.pass ++ (b'@' ∷ []))),
  length-append a.pass (b'@' ∷ []),
)

length-scheme : (proto : Proto) → length (scheme_from_proto proto) ≤ 8
unfolding scheme_from_proto
length-scheme proto_ftp = omega arith
length-scheme proto_ftps = omega arith
length-scheme proto_http = omega arith
length-scheme proto_https = omega arith

-- `conn_url` writes inside a buffer of MAX_STRING bytes, and reports no error, for every address that
-- `conn_set` takes from a URL of at most 1004 bytes, which is as long as the text of a
-- redirect's URL can be.
pub conn_url-conn_set :
    (is_ipv6_addr : Text → Bool) (conn : Address) (set_url : Text) (a : Address)
    → length set_url ≤ 1004
    → conn_set conn set_url ≡ (true, a)
    → (text : Text) × ((n : ℕ) × (conn_url is_ipv6_addr max_string a ≡ printed text n))
unfolding conn_url
conn_url-conn_set is_ipv6_addr conn set_url a long h =
    let short = login_text-Short (length set_url) a (conn_set-Short conn set_url a h) in
    let scheme : ltb max_string (length (scheme_from_proto a.proto)) ≡ false =
      ground (arith, length-scheme a.proto) in
    let room : ltb (max_string - length (scheme_from_proto a.proto)) (length (login_text a))
        ≡ false =
      ground (arith, length-scheme a.proto, short) in
    let place = place_text is_ipv6_addr a in
    let whole = scheme_from_proto a.proto ++ (login_text a ++ place) in
    (fitted max_string whole, (length place, rw (scheme, room) refl))

-- ===== src/Tests/ConnTests.antt =====
-- Addresses and redirects on small inputs.
use hyperflux.Common.{
  ℕ, ◌+◌, ◌*◌, ◌≤◌, ◌<◌, max, ◌≡◌, refl, ◌≢◌, inl, Bool, true, false, none, some, [], ◌∷◌, ◌++◌,
  arith, length,
}
use Prim.Native.Char.{code}
use Prim.Native.String.{String}
use hyperflux.Libc.{
  Text, same, cut_at, cut_at_last, span_until, after_prefix, after_prefix_nocase, find_text,
}
use hyperflux.Libc.Int.{pos, to_int32}
use hyperflux.Libc.Number.{scan_based, read_based, read_zero, read_octal, skip_space}
use hyperflux.Libc.Cuts.{Free, Starts}
use hyperflux.UrlGlob.Number.{decimal, decimal_digits}
use hyperflux.Http.Header.{http_header, header_from, past_line}
use hyperflux.Conn.{max_string, proto_http, proto_is_ftp, proto_port, Address}
use hyperflux.Conn.Set.{
  conn_set, proto_named, split_proto, split_path, split_file, default_login, split_pass,
  split_login, split_port, read_port, host_of, port_of, accepted, set_host,
}
use hyperflux.Conn.Set.Login.{conn_url-conn_set}
use hyperflux.Conn.Set.Parts.{Parts, IsPrintable, IsLogin, IsHost, IsFolder, address_of, login_of}
use hyperflux.Conn.Set.Printed.{conn_set-conn_url}
use hyperflux.Conn.Url.{
  scheme_from_proto, print_int, login_text, place_text, overrun, printed, conn_url,
}
use hyperflux.Conn.Redirect.{
  Reply, urlseq_check_loop, next_url, Round, next, follow, follow_url, follow_next, follow_location,
  after_check, check_url, is_among, read_word, word_or, behind_url, no_fuel, conn_info,
}
use hyperflux.Conn.Redirect.Limits.{
  conn_info_ends, begin, redirected, HasRoom, visits, Reached-HasRoom,
}

abbrev codes : String → Text
codes String.[] = []
codes (String.◌∷◌ c s) = code c ∷ codes s

abbrev no_v6 : Text → Bool
no_v6 host = false

abbrev blank : Address
blank = record {
  proto = proto_http;
  port = pos 80;
  host = [];
  dir = [];
  file = [];
  user = [];
  pass = [];
}

abbrev parts : Parts
parts = record {
  proto = proto_http;
  login = some (codes "me", codes "pw");
  host = codes "h.org";
  number = 8080;
  folder = codes "/a";
  name = codes "b";
  query = codes "?c/d";
}

parts-IsPrintable : IsPrintable no_v6 parts
unfolding IsPrintable IsLogin IsHost IsFolder Free Starts same
parts-IsPrintable = ground arith

parts_short :
    length (
      scheme_from_proto parts.proto
      ++ (login_text (address_of parts) ++ place_text no_v6 (address_of parts)))
    < max_string
unfolding scheme_from_proto login_text address_of login_of place_text print_int decimal
    decimal_digits same
parts_short = ground arith

conn_set-conn_url_example :
    (text : Text) × ((n : ℕ) × ((conn_url no_v6 max_string (address_of parts) ≡ printed text n)
        × (conn_set blank text ≡ (true, address_of parts))))
conn_set-conn_url_example = conn_set-conn_url no_v6 parts blank parts-IsPrintable parts_short

abbrev page : Text → Address
page file = record {
  proto = proto_http;
  port = pos 80;
  host = codes "h";
  dir = codes "/";
  file = file;
  user = [];
  pass = [];
}

set_page : conn_set blank (codes "http://h/1") ≡ (true, page (codes "1"))
unfolding conn_set split_proto proto_named split_path split_file default_login split_pass
    split_login split_port read_port host_of port_of accepted set_host find_text after_prefix cut_at
    cut_at_last span_until proto_is_ftp proto_port
set_page = refl

conn_url-conn_set_example :
    (text : Text) × ((n : ℕ) × (conn_url no_v6 max_string (page (codes "1")) ≡ printed text n))
conn_url-conn_set_example =
    conn_url-conn_set no_v6 blank (codes "http://h/1") (page (codes "1")) (ground arith) set_page

-- A prefix of a scheme passes for the scheme, and a port in octal is read as one.
set_prefix : conn_set blank (codes "h://h:0120/1") ≡ (true, page (codes "1"))
unfolding conn_set split_proto proto_named split_path split_file default_login split_pass
    split_login split_port read_port host_of port_of accepted set_host find_text after_prefix cut_at
    cut_at_last span_until proto_is_ftp proto_port scan_based read_based read_zero read_octal
    skip_space to_int32
set_prefix = refl

-- A login that is longer than the buffer runs over its end.
abbrev with_user : Text → Address
with_user user = record {
  proto = proto_http;
  port = pos 80;
  host = codes "h";
  dir = codes "/";
  file = [];
  user = user;
  pass = [];
}

url_overrun : conn_url no_v6 16 (with_user (codes "a_long_user")) ≡ overrun
unfolding conn_url scheme_from_proto login_text same
url_overrun = refl

abbrev first_bytes : Text → ℕ
first_bytes [] = 0
first_bytes (c ∷ s) = c + 256 * length s

-- A relative redirect is put behind the whole URL, the file's name included.
relative_redirect :
    next_url no_v6 1024 (page (codes "a.html")) (codes "b.html")
    ≡ some (codes "http://h:80/a.htmlb.html")
unfolding next_url behind_url conn_url scheme_from_proto login_text place_text print_int decimal
    decimal_digits find_text after_prefix
relative_redirect = refl

conn_info_ends_example :
    ((conn_info no_v6 first_bytes
        (λ i. false)
        2
        (λ i. 1024)
        (pos 0)
        (λ i a. none)
        (some [])
        []
        blank).0
      ≢ no_fuel)
    × ((conn_info no_v6 first_bytes
          (λ i. false)
          2
          (λ i. 1024)
          (pos 0)
          (λ i a. none)
          (some [])
          []
          blank).1
        ≤ max 1 2)
conn_info_ends_example =
    conn_info_ends no_v6 first_bytes (λ i. false) 2 (λ i. 1024) (pos 0) (λ i a. none) [] blank

abbrev first_round : Round
first_round = record { i = 0; visited = some []; s = []; address = blank }

first_round-HasRoom : HasRoom 2 first_round
unfolding HasRoom visits
first_round-HasRoom = (omega arith, inl refl)

abbrev redirect : Reply
redirect = record { status = 302; headers = codes "HTTP/1.1 302\nLocation: http://h/1\n" }

abbrev second_round : Round
second_round = record {
  i = 1;
  visited = some (1384 ∷ []);
  s = codes "http://h/1";
  address = page (codes "1");
}

second_round-follow :
    follow no_v6 first_bytes (λ i. false) 2 (λ i. 1024) redirect first_round ≡ next second_round
unfolding follow follow_location follow_next follow_url after_check urlseq_check_loop check_url
    is_among next_url word_or read_word http_header header_from past_line after_prefix_nocase
    conn_url scheme_from_proto login_text place_text print_int decimal decimal_digits conn_set
    split_proto proto_named split_path split_file default_login split_pass split_login split_port
    read_port host_of port_of accepted set_host find_text after_prefix cut_at cut_at_last span_until
    proto_is_ftp proto_port skip_space
second_round-follow = refl

Reached-HasRoom_example : HasRoom 2 second_round
Reached-HasRoom_example =
    Reached-HasRoom no_v6 first_bytes (λ i. false) 2 (λ i. 1024) first_round second_round
      first_round-HasRoom (redirected redirect begin second_round-follow)

abbrev partial : Reply
partial = record { status = 206; headers = codes "HTTP/1.1 206 OK\n" }

-- ===== src/Tests/HttpTests.antt =====
-- HTTP headers and names on small inputs.
use hyperflux.Common.{◌≡◌, refl, none, List, [], ◌∷◌, arith, Every}
use Prim.Native.Char.{code}
use Prim.Native.String.{String}
use hyperflux.Libc.{Text, cut_at, after_prefix_nocase}
use hyperflux.Libc.Int.{pos}
use hyperflux.Libc.Number.{strtol, read_signed, read_number, read_digits, skip_space}
use hyperflux.Libc.Cuts.{Free, text_of}
use hyperflux.Http.Header.{http_header, http_size_from_range, header_from, past_line}
use hyperflux.Http.Header.Lines.{first_line, http_header-first_line}
use hyperflux.Http.Decode.{http_decode, decode_byte, decode_nibble}
use hyperflux.Http.Exec.{Headers, copy_status}
use hyperflux.Http.Proxy.{conn_init_proxy, http_fetch_proxy}
use hyperflux.Http.Proxy.Alike.{row, IsEntry, proxy_for, conn_init_proxy-http_fetch_proxy}

abbrev codes : String → Text
codes String.[] = []
codes (String.◌∷◌ c s) = code c ∷ codes s

abbrev status_line : Text
status_line = codes "HTTP/1.1 302 Found"

abbrev fields : List Text
fields = codes "Location: http://h/x" ∷ codes "Content-Range: bytes 0-1/20" ∷ []

http_header-first_line_example :
    http_header (text_of (status_line ∷ fields)) (codes "location:")
    ≡ first_line (codes "location:") (status_line ∷ fields)
unfolding Free Every
http_header-first_line_example =
    http_header-first_line (codes "location:") status_line fields (ground arith) (ground arith)

size_of_range : http_size_from_range (text_of (status_line ∷ fields)) ≡ pos 20
unfolding http_size_from_range http_header header_from past_line after_prefix_nocase text_of cut_at
    strtol read_signed read_number read_digits skip_space
size_of_range = refl

decode_upper_lower : http_decode (codes "%4a%4A%") ≡ codes "JJ"
unfolding http_decode decode_byte decode_nibble
decode_upper_lower = refl

abbrev empty_headers : Headers
empty_headers = record { text = []; len = 1024 }

-- A status line that is longer than the buffer is written behind it.
copy_status_overrun : copy_status 2 2 (codes "OK\n") ≡ none
unfolding copy_status cut_at
copy_status_overrun = refl

abbrev entries : List Text
entries = codes "lan" ∷ codes ".local" ∷ []

conn_init_proxy-http_fetch_proxy_example :
    (conn_init_proxy (codes "p:1") (row entries) (codes "a.local")
      ≡ proxy_for (codes "a.local") entries (codes "p:1"))
    × (http_fetch_proxy (codes "p:1") (row entries) (codes "a.local")
        ≡ proxy_for (codes "a.local") entries (codes "p:1"))
unfolding Every IsEntry Free
conn_init_proxy-http_fetch_proxy_example =
    conn_init_proxy-http_fetch_proxy (codes "p:1") (codes "a.local") entries (ground arith)

-- ===== src/Conn/Redirect.antt =====
-- `urlseq_check_loop` and the part of `conn_info` of src/conn.c that speaks HTTP.
pub mod Limits
pub mod Size
pub mod Alike
use hyperflux.Common.{
  ℕ, zero, suc, ◌-◌, ◌/◌, ◌^◌, ◌⊎◌, inl, inr, Bool, true, false, not, ◌&&◌, ◌||◌, Option, none,
  some, List, [], ◌∷◌, ◌++◌, leb, ◌==◌, if◌then◌else◌, set, take,
}
use hyperflux.Libc.{Text, find_text, fitted, span_until}
use hyperflux.Libc.Int.{ℤ, pos, ltb_ℤ}
use hyperflux.Libc.Number.{is_space, skip_space}
use hyperflux.Http.Header.{http_header, http_size, http_size_from_range}
use hyperflux.Conn.{max_string, proto_is_ftp, Address}
use hyperflux.Conn.Set.{conn_set}
use hyperflux.Conn.Url.{scheme_from_proto, print_int, Outcome, failed, overrun, printed, conn_url}

-- What a request comes to, with the headers as they are read.
pub record Reply : Type 0 where
  pub status : ℕ
  pub headers : Text

unfoldable pub is_among : ℕ → List ℕ → Bool
is_among h [] = false
is_among h (v ∷ visited) = h == v || is_among h visited

pub data Check : Type 0 where
  undefined : Check
  looped : Check
  fresh : Option (List ℕ) → Check

-- The hash of `flux_hash32` under the secret of this sequence is an argument.
unfoldable pub check_url : (Text → ℕ) → List ℕ → Outcome → Check
check_url hash visited failed = fresh (some visited)
check_url hash visited overrun = undefined
check_url hash visited (printed text n) =
    let h = hash (take n text) in
    if n == 0
    then fresh (some visited)
    else if is_among h visited
    then looped
    else fresh (some (visited ++ (h ∷ [])))

-- `none` where `urlseq_init` has failed.
unfoldable pub urlseq_check_loop : (Text → Bool) → (Text → ℕ) → Option (List ℕ) → Address → Check
urlseq_check_loop is_ipv6_addr hash none a = fresh none
urlseq_check_loop is_ipv6_addr hash (some visited) a =
    check_url hash visited (conn_url is_ipv6_addr max_string a)

-- `sscanf(t, "%1000s", s)`
unfoldable pub read_word : Text → Option Text
read_word t = elim (take 1000 (span_until is_space (skip_space t)).0) [
  | [] ↦ none
  | c ∷ s ↦ some (c ∷ s)
]

-- A word without "://", behind the whole URL of the address, in the buffer of the headers.
unfoldable pub behind_url : ℕ → Text → Outcome → Option Text
behind_url len s failed = none
behind_url len s overrun = none
behind_url len s (printed text n) = some (fitted 1005 (fitted len (text ++ s)))

-- The text of the next URL, from the word in `s`; `none` for a write behind a buffer. `len` is the length
-- of the buffer of the headers.
unfoldable pub next_url : (Text → Bool) → ℕ → Address → Text → Option Text
next_url is_ipv6_addr len a [] = behind_url len [] (conn_url is_ipv6_addr len a)
next_url is_ipv6_addr len a (c ∷ s) =
    if c == b'/'
    then some (
        fitted 1005
          (scheme_from_proto a.proto ++ (a.host ++ (b':' ∷ (print_int a.port ++ (c ∷ s))))))
    else elim (find_text (b':' ∷ b'/' ∷ b'/' ∷ []) (c ∷ s)) [
      | some p ↦ some (c ∷ s)
      | none ↦ behind_url len (c ∷ s) (conn_url is_ipv6_addr len a)
    ]

-- The variables of the loop.
pub record Round : Type 0 where
  pub i : ℕ
  pub visited : Option (List ℕ)
  pub s : Text
  pub address : Address

pub data Followed : Type 0 where
  bad : Followed
  refused : Followed
  to_ftp : Address → Followed
  next : Round → Followed

unfoldable pub after_check : ℕ → Text → Address → Check → Followed
after_check i s a undefined = bad
after_check i s a looped = refused
after_check i s a (fresh visited) = next (record { i = i; visited = visited; s = s; address = a })

-- From the call of `conn_set` on. `proxy` says whether `conn_init` chose one in the request of a round.
unfoldable pub follow_url : (Text → Bool) → (Text → ℕ) → (ℕ → Bool) → ℕ → Round → Text → Followed
follow_url is_ipv6_addr hash proxy max_redirect r s =
    let set = conn_set r.address s in
    let i = suc r.i in
    if not set.0
    then refused
    else if proto_is_ftp set.1.proto && not (proxy r.i)
    then to_ftp set.1
    else if leb max_redirect i
    then refused
    else after_check i s set.1 (urlseq_check_loop is_ipv6_addr hash r.visited set.1)

unfoldable pub word_or : Text → Option Text → Text
word_or before none = before
word_or before (some word) = word

unfoldable pub follow_next :
    (Text → Bool) → (Text → ℕ) → (ℕ → Bool) → ℕ → Round → Option Text → Followed
follow_next is_ipv6_addr hash proxy max_redirect r none = bad
follow_next is_ipv6_addr hash proxy max_redirect r (some url) =
    follow_url is_ipv6_addr hash proxy max_redirect r url

-- From what stands behind the header on. `len` gives the length of the buffer of the headers after the
-- request of a round. Without a word there, `s` is what it was.
unfoldable pub follow_location :
    (Text → Bool) → (Text → ℕ) → (ℕ → Bool) → ℕ → (ℕ → ℕ) → Round → Option Text → Followed
follow_location is_ipv6_addr hash proxy max_redirect len r none = refused
follow_location is_ipv6_addr hash proxy max_redirect len r (some t) =
    follow_next is_ipv6_addr hash proxy max_redirect r
      (next_url is_ipv6_addr (len r.i) r.address (word_or r.s (read_word t)))

-- A reply with a status of 3xx.
unfoldable pub follow :
    (Text → Bool) → (Text → ℕ) → (ℕ → Bool) → ℕ → (ℕ → ℕ) → Reply → Round → Followed
follow is_ipv6_addr hash proxy max_redirect len reply r =
    follow_location is_ipv6_addr hash proxy max_redirect len r (
      http_header reply.headers (b'l' ∷ b'o' ∷ b'c' ∷ b'a' ∷ b't' ∷ b'i' ∷ b'o' ∷ b'n' ∷ b':' ∷ []))

-- LLONG_MAX
abbrev pub llong_max : ℤ
llong_max = pos (2 ^ 63 - 1)

abbrev pub max_ℤ : ℤ → ℤ → ℤ
max_ℤ a b = if ltb_ℤ a b then b else a

-- The end of `conn_info`: the size and whether ranges are supported; `none` for 0.
unfoldable pub info_of : ℤ → Reply → Option (ℤ × Bool)
info_of arbitrary reply =
    let range = http_size_from_range reply.headers in
    let size = max_ℤ range (http_size arbitrary reply.headers) in
    let ranged = ltb_ℤ (pos 0) range in
    let plain = reply.status == 200 || reply.status == 416 in
    let supported = if ranged then true else reply.status == 206 in
    if not (reply.status == 416) && not (reply.status / 100 == 2)
    then none
    else if not ranged && not (plain || reply.status == 206)
    then none
    else if ltb_ℤ (pos 0) size
    then some (size, supported)
    else some (llong_max, false)

pub data Info : Type 0 where
  no_fuel : Info
  undefined_info : Info
  no_info : Info
  ftp_info : Address → Info
  info : Address → ℤ → Bool → Info

unfoldable pub info_from : Address → Option (ℤ × Bool) → Info
info_from a none = no_info
info_from a (some p) = info a p.0 p.1

-- One request and what follows from it: the end, with what it gives, or the next round.
unfoldable pub after_follow : Followed → Info ⊎ Round
after_follow bad = inl undefined_info
after_follow refused = inl no_info
after_follow (to_ftp a) = inl (ftp_info a)
after_follow (next q) = inr q

unfoldable pub after_reply :
    (Text → Bool) → (Text → ℕ) → (ℕ → Bool) → ℕ → (ℕ → ℕ) → ℤ → Round → Option Reply → Info ⊎ Round
after_reply is_ipv6_addr hash proxy max_redirect len arbitrary r none = inl no_info
after_reply is_ipv6_addr hash proxy max_redirect len arbitrary r (some reply) =
    if reply.status / 100 == 3
    then after_follow (follow is_ipv6_addr hash proxy max_redirect len reply r)
    else inl (info_from r.address (info_of arbitrary reply))

-- The loop, with the number of requests. `ask` is the network: what the request of a round comes to.
unfoldable pub conn_info_from :
    (Text → Bool)
    → (Text → ℕ)
    → (ℕ → Bool)
    → ℕ
    → (ℕ → ℕ)
    → ℤ
    → (ℕ → Address → Option Reply)
    → ℕ
    → Round
    → Info × ℕ
conn_info_from is_ipv6_addr hash proxy max_redirect len arbitrary ask zero r = (no_fuel, r.i)
conn_info_from is_ipv6_addr hash proxy max_redirect len arbitrary ask (suc fuel) r =
    elim (after_reply is_ipv6_addr hash proxy max_redirect len arbitrary r (ask r.i r.address)) [
      | inl end ↦ (end, suc r.i)
      | inr q ↦ conn_info_from is_ipv6_addr hash proxy max_redirect len arbitrary ask fuel q
    ]

-- `conn_info` for an address that is not FTP without a proxy. One round more than redirects is enough.
unfoldable pub conn_info :
    (Text → Bool)
    → (Text → ℕ)
    → (ℕ → Bool)
    → ℕ
    → (ℕ → ℕ)
    → ℤ
    → (ℕ → Address → Option Reply)
    → Option (List ℕ)
    → Text
    → Address
    → Info × ℕ
conn_info is_ipv6_addr hash proxy max_redirect len arbitrary ask start garbage a =
    conn_info_from is_ipv6_addr hash proxy max_redirect len arbitrary ask (suc max_redirect)
      (record { i = 0; visited = start; s = garbage; address = a })

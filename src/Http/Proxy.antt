-- ===== src/Http/Proxy.antt =====
-- Whether a proxy is used for a host: in `conn_init` of src/conn.c and in `http_fetch_proxy` of src/http.c.
-- `no_proxy` is a row of texts that end in 0, with one more 0 at its end.
pub mod Alike
use hyperflux.Common.{
  ℕ, zero, suc, Bool, true, false, Option, none, some, List, [], ◌∷◌, ◌==◌, if◌then◌else◌, length,
}
use hyperflux.Libc.{Text, cut_at, find_text}

-- `strstr(host, entry) != NULL`
unfoldable pub contains : Text → Text → Bool
contains host entry = elim (find_text entry host) [ none ↦ false | some p ↦ true ]

abbrev pub is_end : List ℕ → Bool
is_end [] = true
is_end (c ∷ s) = c == 0

-- The loop of `conn_init`, one entry per unit of fuel.
unfoldable pub conn_init_from : ℕ → Text → Option Text → List ℕ → Option Text
conn_init_from zero host proxy buf = proxy
conn_init_from (suc fuel) host proxy buf = elim (cut_at 0 buf) [
  | none ↦ proxy
  | some p ↦
      let kept = if contains host p.0 then none else proxy in
      let rest = conn_init_from fuel host kept p.1 in if is_end p.1 then kept else rest
]

unfoldable pub conn_init_proxy : Text → List ℕ → Text → Option Text
conn_init_proxy http_proxy no_proxy host =
    if is_end http_proxy
    then none
    else if is_end no_proxy
    then some http_proxy
    else conn_init_from (length no_proxy) host (some http_proxy) no_proxy

-- The loop of `http_fetch_proxy`.
unfoldable pub http_fetch_from : ℕ → Text → Option Text → List ℕ → Option Text
http_fetch_from zero host proxy entry = proxy
http_fetch_from (suc fuel) host proxy entry = elim (cut_at 0 entry) [
  | none ↦ proxy
  | some p ↦
      let rest = http_fetch_from fuel host proxy p.1 in
      if is_end entry then proxy else if contains host p.0 then none else rest
]

unfoldable pub http_fetch_proxy : Text → List ℕ → Text → Option Text
http_fetch_proxy http_proxy no_proxy host =
    if is_end http_proxy
    then none
    else if is_end no_proxy
    then some http_proxy
    else http_fetch_from (suc (length no_proxy)) host (some http_proxy) no_proxy

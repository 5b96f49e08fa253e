-- ===== src/Http/Proxy/Alike.antt =====
-- The two loops over `no_proxy` agree.
use hyperflux.Common.{
  ℕ, zero, suc, ◌<◌, ◌≡◌, refl, ap, ◌∙◌, Bool, true, false, ◌||◌, Option, none, some, List, [], ◌∷◌,
  ◌++◌, arith, ◌==◌, if◌then◌else◌, length, length-append, Every,
}
use hyperflux.Libc.{Text, cut_at}
use hyperflux.Libc.Cuts.{Free, cut_at-append}
use hyperflux.Http.Proxy.{
  contains, is_end, conn_init_from, conn_init_proxy, http_fetch_from, http_fetch_proxy,
}

-- The row of entries as it lies in memory.
unfoldable pub row : List Text → List ℕ
row [] = 0 ∷ []
row (entry ∷ entries) = entry ++ (0 ∷ row entries)

-- An entry has a byte, and none is 0.
unfoldable pub IsEntry : Text → Type 0
IsEntry entry = (is_end entry ≡ false) × Free (λ c. c == 0) entry

unfoldable pub any_in : Text → List Text → Bool
any_in host [] = false
any_in host (entry ∷ entries) = contains host entry || any_in host entries

-- What both mean: the proxy, unless an entry is a part of the host's name.
unfoldable pub proxy_for : Text → List Text → Text → Option Text
proxy_for host entries http_proxy =
    if is_end http_proxy then none else if any_in host entries then none else some http_proxy

if_or :
    {A : Type 0} (a b : Bool) (x y : A)
    → (if b then x else if a then x else y) ≡ (if a || b then x else y)
if_or true true x y = refl
if_or true false x y = refl
if_or false true x y = refl
if_or false false x y = refl

row-found :
    (entry : Text) (entries : List Text)
    → IsEntry entry
    → cut_at 0 (row (entry ∷ entries)) ≡ some (entry, row entries)
unfolding row IsEntry
row-found entry entries h = cut_at-append 0 entry (row entries) h.1

is_end-row :
    (entry : Text) (entries : List Text) → IsEntry entry → is_end (row (entry ∷ entries)) ≡ false
unfolding row IsEntry
is_end-row [] entries h = absurd (ground (arith, h.0))
is_end-row (c ∷ entry) entries h = h.0

conn_init_from-step :
    (fuel : ℕ) (host : Text) (proxy : Option Text) (buf : List ℕ) (p : Text × List ℕ)
    → cut_at 0 buf ≡ some p
    → conn_init_from (suc fuel) host proxy buf ≡ (
        if is_end p.1
        then if contains host p.0 then none else proxy
        else conn_init_from fuel host (if contains host p.0 then none else proxy) p.1)
unfolding conn_init_from
conn_init_from-step fuel host proxy buf p e = rw (e, conn_init_from) refl

conn_init_from-row :
    (fuel : ℕ) (host : Text) (proxy : Option Text) (entry : Text) (entries : List Text)
    → Every IsEntry (entry ∷ entries)
    → length entries < fuel
    → conn_init_from fuel host proxy (row (entry ∷ entries))
      ≡ (if any_in host (entry ∷ entries) then none else proxy)
unfolding Every any_in
conn_init_from-row zero host proxy entry entries h enough = absurd (omega (arith, enough))
conn_init_from-row (suc fuel) host proxy entry [] h enough =
    conn_init_from-step fuel host proxy _ (entry, row []) (row-found entry [] h.0)
    ∙ (unfold row in if_or (contains host entry) false none proxy)
conn_init_from-row (suc fuel) host proxy entry (next ∷ entries) h enough =
    let kept : Option Text = if contains host entry then none else proxy in
    let more = is_end-row next entries h.1.0 in
    conn_init_from-step fuel host proxy _ (entry, row (next ∷ entries))
      (row-found entry (next ∷ entries) h.0)
    ∙ ap (λ b. if b then kept else conn_init_from fuel host kept (row (next ∷ entries))) more
    ∙ conn_init_from-row fuel host kept next entries h.1 (omega (arith, enough))
    ∙ if_or (contains host entry) (any_in host (next ∷ entries)) none proxy

http_fetch_from-step :
    (fuel : ℕ) (host : Text) (proxy : Option Text) (buf : List ℕ) (p : Text × List ℕ)
    → cut_at 0 buf ≡ some p
    → http_fetch_from (suc fuel) host proxy buf ≡ (
        if is_end buf
        then proxy
        else if contains host p.0
        then none
        else http_fetch_from fuel host proxy p.1)
unfolding http_fetch_from
http_fetch_from-step fuel host proxy buf p e = rw (e, http_fetch_from) refl

if_or_else :
    {A : Type 0} (a b : Bool) (x y : A)
    → (if a then x else if b then x else y) ≡ (if a || b then x else y)
if_or_else true b x y = refl
if_or_else false b x y = refl

cut_end : cut_at 0 (row []) ≡ some ([], [])
unfolding cut_at row
cut_end = refl

http_fetch_from-row :
    (fuel : ℕ) (host : Text) (proxy : Option Text) (entries : List Text)
    → Every IsEntry entries
    → length entries < fuel
    → http_fetch_from fuel host proxy (row entries) ≡ (if any_in host entries then none else proxy)
unfolding Every any_in
http_fetch_from-row zero host proxy entries h enough = absurd (omega (arith, enough))
http_fetch_from-row (suc fuel) host proxy [] h enough =
    http_fetch_from-step fuel host proxy (row []) ([], []) cut_end ∙ (unfold row in refl)
http_fetch_from-row (suc fuel) host proxy (entry ∷ entries) h enough =
    let hit = contains host entry in
    http_fetch_from-step fuel host proxy _ (entry, row entries) (row-found entry entries h.0)
    ∙ ap
        (λ b.
          if b then proxy else if hit then none else http_fetch_from fuel host proxy (row entries))
        (is_end-row entry entries h.0)
    ∙ ap (λ r. if hit then none else r)
        (http_fetch_from-row fuel host proxy entries h.1 (omega (arith, enough)))
    ∙ if_or_else hit (any_in host entries) none proxy

length-row : (entries : List Text) → length entries < length (row entries)
unfolding row
length-row [] = omega arith
length-row (entry ∷ entries) =
    omega (arith, length-row entries, length-append entry (0 ∷ row entries))

-- The page fetcher and the downloader choose the same proxy for every host and every list of entries:
-- the one that is configured, unless an entry is a part of the host's name. No entry is empty or holds
-- a 0.
pub conn_init_proxy-http_fetch_proxy :
    (http_proxy host : Text) (entries : List Text)
    → Every IsEntry entries
    → (conn_init_proxy http_proxy (row entries) host ≡ proxy_for host entries http_proxy)
      × (http_fetch_proxy http_proxy (row entries) host ≡ proxy_for host entries http_proxy)
unfolding conn_init_proxy http_fetch_proxy proxy_for row any_in
conn_init_proxy-http_fetch_proxy http_proxy host [] h = (refl, refl)
conn_init_proxy-http_fetch_proxy http_proxy host (entry ∷ entries) h =
    let all = entry ∷ entries in
    let more = is_end-row entry entries (unfold Every in h.0) in
    let enough = length-row all in
    (
      rw
          (
            more,
            conn_init_from-row (length (row all)) host (some http_proxy) entry entries h
                (omega (arith, enough)),
          )
          refl,
      rw
          (
            more,
            http_fetch_from-row (suc (length (row all))) host (some http_proxy) all h
                (omega (arith, enough)),
          )
          refl,
    )

-- ===== src/Conn/Redirect/Limits.antt =====
-- The loop over redirects ends, and its table of hashes is large enough.
use hyperflux.Common.{
  ℕ, zero, suc, ◌+◌, ◌/◌, ◌≤◌, ◌<◌, max, ◌≡◌, refl, ◌≢◌, ◌⊎◌, inl, inr, Bool, not, ◌&&◌, Option,
  none, some, List, [], ◌∷◌, arith, leb, ◌==◌, Bool-cases, Sum-cases, length, take, length-append,
}
use hyperflux.Libc.{Text}
use hyperflux.Libc.Int.{ℤ}
use hyperflux.Conn.{proto_is_ftp, Address}
use hyperflux.Conn.Set.{conn_set}
use hyperflux.Conn.Url.{Outcome, failed, overrun, printed}
use hyperflux.Conn.Redirect.{
  Reply, is_among, Check, undefined, looped, fresh, check_url, urlseq_check_loop, Round, Followed,
  bad, refused, to_ftp, next, after_check, follow_url, follow_next, follow_location, follow,
  after_follow, after_reply, Info, no_fuel, info_from, conn_info_from, conn_info,
}

unfoldable pub visits : Option (List ℕ) → ℕ
visits none = 0
visits (some visited) = length visited

-- One more request than redirects that were followed, and the table holds no more hashes than these.
unfoldable pub HasRoom : ℕ → Round → Type 0
HasRoom max_redirect r = (visits r.visited ≤ r.i) × ((r.i ≡ 0) ⊎ (r.i < max_redirect))

-- The round after `r` has the next number, no more than one new hash, and is below the limit.
unfoldable pub Follows : ℕ → Round → Followed → Type 0
Follows max_redirect r bad = Unit {0}
Follows max_redirect r refused = Unit {0}
Follows max_redirect r (to_ftp a) = Unit {0}
Follows max_redirect r (next q) =
    (q.i ≡ suc r.i) × ((visits q.visited ≤ suc (visits r.visited)) × (suc r.i < max_redirect))

AddsOne : Option (List ℕ) → Check → Type 0
AddsOne before undefined = Unit {0}
AddsOne before looped = Unit {0}
AddsOne before (fresh visited) = visits visited ≤ suc (visits before)

check_url-AddsOne :
    (hash : Text → ℕ) (visited : List ℕ) (o : Outcome)
    → AddsOne (some visited) (check_url hash visited o)
unfolding AddsOne check_url visits
check_url-AddsOne hash visited failed = omega arith
check_url-AddsOne hash visited overrun = tt
check_url-AddsOne hash visited (printed text n) = elim (Bool-cases (n == 0)) [
  | inl e ↦ rw e (omega arith)
  | inr e ↦ elim (Bool-cases (is_among (hash (take n text)) visited)) [
    | inl e' ↦ rw (e, e') tt
    | inr e' ↦ rw (e, e') (omega (arith, length-append visited (hash (take n text) ∷ [])))
  ]
]

urlseq_check_loop-AddsOne :
    (v6 : Text → Bool) (hash : Text → ℕ) (before : Option (List ℕ)) (a : Address)
    → AddsOne before (urlseq_check_loop v6 hash before a)
unfolding AddsOne urlseq_check_loop
urlseq_check_loop-AddsOne v6 hash none a = omega arith
urlseq_check_loop-AddsOne v6 hash (some visited) a = check_url-AddsOne hash visited _

after_check-Follows :
    (max_redirect : ℕ) (r : Round) (s : Text) (a : Address) (c : Check)
    → AddsOne r.visited c
    → suc r.i < max_redirect
    → Follows max_redirect r (after_check (suc r.i) s a c)
unfolding Follows after_check AddsOne
after_check-Follows max_redirect r s a undefined h room = tt
after_check-Follows max_redirect r s a looped h room = tt
after_check-Follows max_redirect r s a (fresh visited) h room = (refl, (h, room))

module _ (v6 : Text → Bool) (hash : Text → ℕ) (proxy : ℕ → Bool) (max_redirect : ℕ)
    (len : ℕ → ℕ) where
  follow_url-Follows :
      (r : Round) (s : Text) → Follows max_redirect r (follow_url v6 hash proxy max_redirect r s)
  unfolding follow_url
  follow_url-Follows r s = elim (Bool-cases (not (conn_set r.address s).0)) [
    | inl e ↦ rw e (unfold Follows in tt)
    | inr e ↦ elim (Bool-cases (proto_is_ftp (conn_set r.address s).1.proto && not (proxy r.i))) [
      | inl e' ↦ rw (e, e') (unfold Follows in tt)
      | inr e' ↦ elim (Bool-cases (leb max_redirect (suc r.i))) [
        | inl e'' ↦ rw (e, e', e'') (unfold Follows in tt)
        | inr e'' ↦
            rw (e, e', e'')
              (after_check-Follows max_redirect r s _ _
                (urlseq_check_loop-AddsOne v6 hash r.visited _) (ground (arith, e'')))
      ]
    ]
  ]

  follow_next-Follows :
      (r : Round) (url : Option Text)
      → Follows max_redirect r (follow_next v6 hash proxy max_redirect r url)
  unfolding follow_next
  follow_next-Follows r none = unfold Follows in tt
  follow_next-Follows r (some url) = follow_url-Follows r url

  follow_location-Follows :
      (r : Round) (t : Option Text)
      → Follows max_redirect r (follow_location v6 hash proxy max_redirect len r t)
  unfolding follow_location
  follow_location-Follows r none = unfold Follows in tt
  follow_location-Follows r (some t) = follow_next-Follows r _

  -- The same of the loop's step.
  Goes : Round → Info ⊎ Round → Type 0
  Goes r (inl end) = end ≢ no_fuel
  Goes r (inr q) = Follows max_redirect r (next q)

  after_follow-Goes :
      (r : Round) (f : Followed) → Follows max_redirect r f → Goes r (after_follow f)
  unfolding Goes after_follow
  after_follow-Goes r bad h = λ e. absurd (cc)
  after_follow-Goes r refused h = λ e. absurd (cc)
  after_follow-Goes r (to_ftp a) h = λ e. absurd (cc)
  after_follow-Goes r (next q) h = h

  info_from_ends : (a : Address) (o : Option (ℤ × Bool)) → info_from a o ≢ no_fuel
  unfolding info_from
  info_from_ends a none = λ e. absurd (cc)
  info_from_ends a (some p) = λ e. absurd (cc)

  after_reply-Goes :
      (arbitrary : ℤ) (r : Round) (o : Option Reply)
      → Goes r (after_reply v6 hash proxy max_redirect len arbitrary r o)
  unfolding after_reply
  after_reply-Goes arbitrary r none = unfold Goes in λ e. absurd (cc)
  after_reply-Goes arbitrary r (some reply) = elim (Bool-cases (reply.status / 100 == 3)) [
    | inl e ↦ rw e (after_follow-Goes r _ (unfold follow in follow_location-Follows r _))
    | inr e ↦ rw e (unfold Goes in info_from_ends r.address _)
  ]

  room_max : (r : Round) → HasRoom max_redirect r → suc r.i ≤ max 1 max_redirect
  unfolding HasRoom
  room_max r (visits, inl e) = omega (arith, e)
  room_max r (visits, inr e) = omega (arith, e)

  conn_info_from-end :
      (arbitrary : ℤ) (ask : ℕ → Address → Option Reply) (fuel : ℕ) (r : Round) (end : Info)
      → after_reply v6 hash proxy max_redirect len arbitrary r (ask r.i r.address) ≡ inl end
      → conn_info_from v6 hash proxy max_redirect len arbitrary ask (suc fuel) r ≡ (end, suc r.i)
  unfolding conn_info_from
  conn_info_from-end arbitrary ask fuel r end e = rw (e, conn_info_from) refl

  conn_info_from-next :
      (arbitrary : ℤ) (ask : ℕ → Address → Option Reply) (fuel : ℕ) (r q : Round)
      → after_reply v6 hash proxy max_redirect len arbitrary r (ask r.i r.address) ≡ inr q
      → conn_info_from v6 hash proxy max_redirect len arbitrary ask (suc fuel) r
        ≡ conn_info_from v6 hash proxy max_redirect len arbitrary ask fuel q
  unfolding conn_info_from
  conn_info_from-next arbitrary ask fuel r q e = rw (e, conn_info_from) refl

  conn_info_from-ends :
      (arbitrary : ℤ) (ask : ℕ → Address → Option Reply) (fuel : ℕ) (r : Round)
      → HasRoom max_redirect r
      → max_redirect < r.i + fuel
      → (0 < fuel)
      → ((conn_info_from v6 hash proxy max_redirect len arbitrary ask fuel r).0 ≢ no_fuel)
        × ((conn_info_from v6 hash proxy max_redirect len arbitrary ask fuel r).1
            ≤ max 1 max_redirect)
  unfolding HasRoom Follows
  conn_info_from-ends arbitrary ask zero r room enough some_fuel = absurd (omega (arith, some_fuel))
  conn_info_from-ends arbitrary ask (suc fuel) r room enough some_fuel =
      let goes = after_reply-Goes arbitrary r (ask r.i r.address) in
      elim (Sum-cases
        (after_reply v6 hash proxy max_redirect len arbitrary r (ask r.i r.address))) [
          | inl (end, e) ↦
              rw (conn_info_from-end arbitrary ask fuel r end e)
                ((unfold Goes in rw e at goes), room_max r room)
          | inr (q, e) ↦
              let (number, (one, below)) : Follows max_redirect r (next q) =
                unfold Goes in rw e at goes in
              rw (conn_info_from-next arbitrary ask fuel r q e) (
                conn_info_from-ends arbitrary ask fuel q
                  (omega (arith, room, one, number), inr (omega (arith, number, below)))
                  (omega (arith, enough, number)) (omega (arith, enough, below)))
        ]

-- Whatever the network answers, `conn_info` ends: one round more than redirects are allowed is enough, and
-- it sends no more requests than redirects are allowed, or one if none is.
pub conn_info_ends :
    (v6 : Text → Bool) (hash : Text → ℕ) (proxy : ℕ → Bool) (max_redirect : ℕ) (len : ℕ → ℕ)
    (arbitrary : ℤ) (ask : ℕ → Address → Option Reply) (garbage : Text) (a : Address)
    → ((conn_info v6 hash proxy max_redirect len arbitrary ask (some []) garbage a).0 ≢ no_fuel)
      × ((conn_info v6 hash proxy max_redirect len arbitrary ask (some []) garbage a).1
          ≤ max 1 max_redirect)
unfolding conn_info HasRoom visits
conn_info_ends v6 hash proxy max_redirect len arbitrary ask garbage a =
    conn_info_from-ends v6 hash proxy max_redirect len arbitrary ask (suc max_redirect) _
      (omega arith, inl refl) (omega arith) (omega arith)

-- The rounds that are reached from the first one, whatever the network answers.
pub data Reached (v6 : Text → Bool) (hash : Text → ℕ) (proxy : ℕ → Bool) (max_redirect : ℕ)
    (len : ℕ → ℕ) (start : Round) : Round → Type 0 where
  begin : Reached v6 hash proxy max_redirect len start start
  redirected :
      {r q : Round} (reply : Reply)
      → Reached v6 hash proxy max_redirect len start r
      → follow v6 hash proxy max_redirect len reply r ≡ next q
      → Reached v6 hash proxy max_redirect len start q

-- In every round that is reached the table of hashes, which was made for `max_redirect` of them, has room,
-- and holds no more than one for each redirect; and the number of redirects is below the limit.
pub Reached-HasRoom :
    (v6 : Text → Bool) (hash : Text → ℕ) (proxy : ℕ → Bool) (max_redirect : ℕ) (len : ℕ → ℕ)
    (start r : Round)
    → HasRoom max_redirect start
    → Reached v6 hash proxy max_redirect len start r
    → HasRoom max_redirect r
unfolding HasRoom Follows
Reached-HasRoom v6 hash proxy max_redirect len start r h begin = h
Reached-HasRoom v6 hash proxy max_redirect len start q h (redirected {r = r} reply reached e) =
    let (visits, place) = Reached-HasRoom v6 hash proxy max_redirect len start r h reached in
    let follows : Follows max_redirect r (follow v6 hash proxy max_redirect len reply r) =
      unfold follow in follow_location-Follows v6 hash proxy max_redirect len r _ in
    let (number, (one, below)) = rw e at follows in
    (omega (arith, visits, one, number), inr (omega (arith, number, below)))

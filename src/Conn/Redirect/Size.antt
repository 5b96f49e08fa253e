-- ===== src/Conn/Redirect/Size.antt =====
-- The size that `conn_info` gives.
use hyperflux.Common.{
  ℕ, ◌/◌, ◌≡◌, refl, ◌⊎◌, inl, inr, Bool, true, false, not, ◌&&◌, ◌||◌, Option, none, some, arith,
  ◌==◌, if◌then◌else◌, Bool-cases,
}
use hyperflux.Libc.Int.{ℤ, pos, ltb_ℤ}
use hyperflux.Http.Header.{http_size, http_size_from_range}
use hyperflux.Conn.Redirect.{Reply, info_of, max_ℤ}

abbrev pub is_positive : ℤ → Bool
is_positive z = ltb_ℤ (pos 0) z

-- A size above 0. Ranges are supported only after 206 or a Content-Range with a size above 0, and the status
-- is 416 or 2xx.
unfoldable pub IsUsable : Reply → Option (ℤ × Bool) → Type 0
IsUsable reply none = Unit {0}
IsUsable reply (some p) =
    (is_positive p.0 ≡ true)
    × (((p.1 ≡ false)
          ⊎ ((reply.status ≡ 206) ⊎ (is_positive (http_size_from_range reply.headers) ≡ true)))
        × ((reply.status ≡ 416) ⊎ (reply.status / 100 ≡ 2)))

may_range :
    (reply : Reply) (ranged : Bool)
    → is_positive (http_size_from_range reply.headers) ≡ ranged
    → ((if ranged then true else reply.status == 206) ≡ false)
      ⊎ ((reply.status ≡ 206) ⊎ (is_positive (http_size_from_range reply.headers) ≡ true))
may_range reply true e = inr (inr e)
may_range reply false e = elim (Bool-cases (reply.status == 206)) [
  | inl is ↦ inr (inl (ground (arith, is)))
  | inr is ↦ inl is
]

good_status :
    (status : ℕ)
    → (not (status == 416) && not (status / 100 == 2)) ≡ false
    → (status ≡ 416) ⊎ (status / 100 ≡ 2)
good_status status e = elim (Bool-cases (status == 416)) [
  | inl is ↦ inl (ground (arith, is))
  | inr is ↦ inr (ground (arith, e, is))
]

-- What `conn_info` reports is usable, whatever the headers say: the size is above 0, ranges are taken to be
-- supported only after a status of 206 or a Content-Range with a size above 0, and the status is 416 or 2xx.
pub info_of-IsUsable : (arbitrary : ℤ) (reply : Reply) → IsUsable reply (info_of arbitrary reply)
unfolding info_of IsUsable
info_of-IsUsable arbitrary reply =
    let range = http_size_from_range reply.headers in
    let size = max_ℤ range (http_size arbitrary reply.headers) in
    let plain = reply.status == 200 || reply.status == 416 in
    elim (Bool-cases (not (reply.status == 416) && not (reply.status / 100 == 2))) [
      | inl e ↦ rw e tt
      | inr e ↦ elim (Bool-cases (not (is_positive range) && not (plain || reply.status == 206))) [
        | inl e' ↦ rw (e, e') tt
        | inr e' ↦ elim (Bool-cases (is_positive size)) [
          | inl e'' ↦
              rw (e, e', e'')
                (e'', (may_range reply (is_positive range) refl, good_status reply.status e))
          | inr e'' ↦ rw (e, e', e'') (refl, (inl refl, good_status reply.status e))
        ]
      ]
    ]

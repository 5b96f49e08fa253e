-- ===== src/Flux/Loop/Throttle.antt =====
-- The speed limit in `flux_do` of src/flux.c: the pause after a round is made longer or shorter.
use hyperflux.Common.{
  ℕ, ◌+◌, ◌-◌, ◌*◌, ◌/◌, ◌≤◌, ◌<◌, ◌≡◌, ◌↔◌, arith, dec_lt, ltb, leb, if◌then◌else◌,
}

-- `delay_time`, a `struct timespec`.
pub record Delay : Type 0 where
  pub sec : ℕ
  pub nsec : ℕ

-- `bytes_per_second` against `max_speed`, which is not 0.
unfoldable pub adjust : ℕ → ℕ → Delay → Delay
adjust max_speed bytes_per_second d =
    let ratio = 1000 * bytes_per_second / max_speed in
    if ltb 1050 ratio
    then (if leb 1000000000 (d.nsec + 10000000)
        then record d { sec = d.sec + 1; nsec = d.nsec + 10000000 - 1000000000 }
        else record d { nsec = d.nsec + 10000000 })
    else if ltb ratio 950
    then (if leb 10000000 d.nsec
        then record d { nsec = d.nsec - 10000000 }
        else if ltb 0 d.sec
        then record d { sec = d.sec - 1; nsec = d.nsec + 999000000 }
        else record { sec = 0; nsec = 0 })
    else d

-- What `nanosleep` accepts.
abbrev pub IsTimespec : Delay → Type 0
IsTimespec d = d.nsec < 1000000000

-- The pause as one number.
abbrev pub total_nsec : Delay → ℕ
total_nsec d = d.sec * 1000000000 + d.nsec

abbrev pub ratio_of : ℕ → ℕ → ℕ
ratio_of max_speed bytes_per_second = 1000 * bytes_per_second / max_speed

-- From a valid pause the adjusted one is a valid `timespec`, except where the download is too slow
-- for the limit, the pause has whole seconds, and its nanoseconds are at least 1 ms and below
-- 10 ms; there it never is.
pub adjust-IsTimespec :
    (max_speed bps : ℕ) (d : Delay)
    → IsTimespec d
    → IsTimespec (adjust max_speed bps d)
      ↔ ¬ ((ratio_of max_speed bps < 950) × (0 < d.sec) × (1000000 ≤ d.nsec) × (d.nsec < 10000000))
unfolding adjust
adjust-IsTimespec max_speed bps d h = (
  λ fits slow. ground (arith, slow.0, slow.1, slow.2, slow.3),
  λ other. elim (dec_lt (adjust max_speed bps d).nsec 1000000000) [
    | yes fits ↦ fits
    | no over ↦ absurd (other (ground arith, ground arith, ground arith, ground arith))
  ],
)

-- A download above the limit by more than 5% pauses 10 ms longer; one that is below it by more
-- pauses no longer than before.
pub adjust_direction :
    (max_speed bps : ℕ) (d : Delay)
    → IsTimespec d
    → (1050 < ratio_of max_speed bps
        → total_nsec (adjust max_speed bps d) ≡ total_nsec d + 10000000)
      × (ratio_of max_speed bps < 950 → total_nsec (adjust max_speed bps d) ≤ total_nsec d)
unfolding adjust
adjust_direction max_speed bps d h = (λ f. ground arith, λ s. ground arith)

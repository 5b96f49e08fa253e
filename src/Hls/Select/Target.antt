-- ===== src/Hls/Select/Target.antt =====
-- The second loop of `hls_select_variant`, for a target height.
use hyperflux.Common.{
  ℕ, suc, ◌≡◌, refl, ◌∙◌, inl, inr, Bool, true, false, not, ◌&&◌, ◌||◌, Option, none, some, List,
  [], ◌∷◌, ◌++◌, arith, if◌then◌else◌, Bool-cases, get_elem?, drop, append_assoc, append_nil, Every,
  Every-append, Every-weaken, drop-head,
}
use hyperflux.Libc.Int.{ℤ, pos, ltb_ℤ}
use hyperflux.Hls.{Variant}
use hyperflux.Hls.Select.{
  Pick, choose, better, smaller, fits_better, TargetScan, target_step, target_from,
}
use hyperflux.Hls.Select.Rank.{better_refl, better-asymm, better_trans}

-- Whether a variant carries a resolution, and whether it is not above the target.
abbrev pub is_tall : Variant → Bool
is_tall v = ltb_ℤ (pos 0) v.height

abbrev pub fits : ℤ → Variant → Bool
fits target v = not (ltb_ℤ target v.height)

unfoldable pub has_tall : List Variant → Bool
has_tall [] = false
has_tall (v ∷ vs) = is_tall v || has_tall vs

pub smallest-choose :
    (target : ℤ) (i : ℕ) (vs : List Variant) (t : TargetScan)
    → (target_from target i vs t).smallest ≡ choose smaller i vs t.smallest
unfolding target_from target_step choose
smallest-choose target i [] t = refl
smallest-choose target i (c ∷ vs) t = smallest-choose target (suc i) vs (target_step target i c t)

pub any_resolution-has_tall :
    (target : ℤ) (i : ℕ) (vs : List Variant) (t : TargetScan)
    → (target_from target i vs t).any_resolution ≡ (has_tall vs || t.any_resolution)
unfolding target_from target_step has_tall
any_resolution-has_tall target i [] t = refl
any_resolution-has_tall target i (c ∷ vs) t =
    any_resolution-has_tall target (suc i) vs (target_step target i c t) ∙ ground arith

-- What `best_le` is after the variants `vs`.
unfoldable pub BestFit : ℤ → Option Pick → List Variant → Type 0
BestFit target none vs = Every (λ w. fits target w ≡ false) vs
BestFit target (some b) vs =
    (fits target b.1 ≡ true) × Every (λ w. (fits target w && better w b.1) ≡ false) vs

fits_better-better : (c : Variant) (b : Pick) → fits_better c (some b) ≡ better c b.1
unfolding fits_better better
fits_better-better c b = ground arith

BestFit-none :
    (target : ℤ) (i : ℕ) (c : Variant) (seen : List Variant)
    → fits target c ≡ true
    → Every (λ w. fits target w ≡ false) seen
    → BestFit target (some (i, c)) (seen ++ (c ∷ []))
unfolding BestFit Every
BestFit-none target i c seen e h = (
  e,
  Every-append _ seen (c ∷ []) (Every-weaken _ seen (λ w h'. ground (arith, h')) h)
      (ground (arith, better_refl c), tt),
)

BestFit-better :
    (target : ℤ) (i : ℕ) (c : Variant) (b : Pick) (seen : List Variant)
    → fits target c ≡ true
    → better c b.1 ≡ true
    → BestFit target (some b) seen
    → BestFit target (some (i, c)) (seen ++ (c ∷ []))
unfolding BestFit Every
BestFit-better target i c b seen e e' h =
    let kept : (w : Variant)
        → (fits target w && better w b.1) ≡ false
        → (fits target w && better w c) ≡ false =
      λ w h'. ground (arith, h', better_trans c b.1 w (better-asymm c b.1 e')) in
    (
      e,
      Every-append _ seen (c ∷ []) (Every-weaken _ seen kept h.1)
          (ground (arith, better_refl c), tt),
    )

BestFit-kept :
    (target : ℤ) (c : Variant) (o : Option Pick) (seen : List Variant)
    → (fits target c && fits_better c o) ≡ false
    → BestFit target o seen
    → BestFit target o (seen ++ (c ∷ []))
unfolding BestFit Every fits_better
BestFit-kept target c none seen e h = Every-append _ seen (c ∷ []) h (ground (arith, e), tt)
BestFit-kept target c (some b) seen e h =
    (h.0, Every-append _ seen (c ∷ []) h.1 (ground (arith, e, fits_better-better c b), tt))

next_fit : ℤ → ℕ → Variant → Option Pick → Option Pick
next_fit target i c o = if fits target c && fits_better c o then some (i, c) else o

fit_new :
    (target : ℤ) (i : ℕ) (c : Variant) (o : Option Pick) (seen : List Variant)
    → (fits target c && fits_better c o) ≡ true
    → BestFit target o seen
    → BestFit target (some (i, c)) (seen ++ (c ∷ []))
unfolding BestFit
fit_new target i c none seen e h = BestFit-none target i c seen (ground (arith, e)) h
fit_new target i c (some b) seen e h =
    BestFit-better target i c b seen (ground (arith, e)) (ground (arith, e, fits_better-better c b))
      h

next_fit-BestFit :
    (target : ℤ) (i : ℕ) (c : Variant) (o : Option Pick) (seen : List Variant)
    → BestFit target o seen
    → BestFit target (next_fit target i c o) (seen ++ (c ∷ []))
unfolding next_fit
next_fit-BestFit target i c o seen h = elim (Bool-cases (fits target c && fits_better c o)) [
  | inl e ↦ rw e (fit_new target i c o seen e h)
  | inr e ↦ rw e (BestFit-kept target c o seen e h)
]

pub best_le-BestFit :
    (target : ℤ) (i : ℕ) (vs seen : List Variant) (t : TargetScan)
    → BestFit target t.best_le seen
    → BestFit target (target_from target i vs t).best_le (seen ++ vs)
unfolding target_from target_step next_fit
best_le-BestFit target i [] seen t h = rw (append_nil seen) h
best_le-BestFit target i (c ∷ vs) seen t h = rw (← append_assoc seen (c ∷ []) vs) (
    best_le-BestFit target (suc i) vs (seen ++ (c ∷ [])) (target_step target i c t)
      (next_fit-BestFit target i c t.best_le seen h))

unfoldable pub IsAt : List Variant → Option Pick → Type 0
IsAt all none = Unit {0}
IsAt all (some b) = get_elem? all b.0 ≡ some b.1

next_fit_index :
    (target : ℤ) (i : ℕ) (c : Variant) (all : List Variant) (o : Option Pick)
    → get_elem? all i ≡ some c
    → IsAt all o
    → IsAt all (next_fit target i c o)
unfolding next_fit IsAt
next_fit_index target i c all o here at = elim (Bool-cases (fits target c && fits_better c o)) [
  | inl e ↦ rw e here
  | inr e ↦ rw e at
]

pub best_le_index :
    (target : ℤ) (i : ℕ) (vs all : List Variant) (t : TargetScan)
    → drop i all ≡ vs
    → IsAt all t.best_le
    → IsAt all (target_from target i vs t).best_le
unfolding target_from target_step next_fit
best_le_index target i [] all t rest at = at
best_le_index target i (c ∷ vs) all t rest at =
    let (here, later) = drop-head i all c vs rest in
    best_le_index target (suc i) vs all (target_step target i c t) later
      (next_fit_index target i c all t.best_le here at)

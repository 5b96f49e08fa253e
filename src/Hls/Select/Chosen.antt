-- ===== src/Hls/Select/Chosen.antt =====
-- Which variant `hls_select_variant` gives.
use mathlib.Core.Path.{fun_ext}
use hyperflux.Common.{
  ℕ, ◌||◌, Bool-cases, leb, leb→le, ◌≤◌, ◌==◌, ◌≡◌, refl, sym, ap, ◌∙◌, ◌⊎◌, inl, inr, Bool, true,
  false, not, ◌&&◌, Option, none, some, List, [], ◌∷◌, arith, if◌then◌else◌, get_elem?, Every,
}
use hyperflux.Libc.{Text, to_lower, same_nocase}
use hyperflux.Libc.Int.{ℤ, pos, ltb_ℤ, eq_ℤ}
use hyperflux.Libc.Number.{is_digit, is_space, strtol, read_signed, read_number, skip_space}
use hyperflux.Hls.{Variant, Master}
use hyperflux.Hls.Select.{
  Wanted, want_best, want_worst, target_height, wanted, Pick, choose, better, smaller, TargetScan,
  target_from, target_choice, select_wanted, hls_select_variant,
}
use hyperflux.Hls.Select.Rank.{better_refl, better-asymm, better_trans, smaller-better}
use hyperflux.Hls.Select.Best.{choose-Every, choose_index}
use hyperflux.Hls.Select.Target.{
  fits, has_tall, smallest-choose, any_resolution-has_tall, BestFit, best_le-BestFit, IsAt,
  best_le_index,
}

-- `v` beats `w`: it is higher, or as high with more bandwidth.
unfoldable pub beats : Variant → Variant → Bool
beats v w = ltb_ℤ w.height v.height || (eq_ℤ v.height w.height && ltb_ℤ w.bandwidth v.bandwidth)

better-beats : better ≡ beats
unfolding better beats
better-beats = fun_ext (λ v. fun_ext (λ w. ground arith))

-- What a quality asks for. `strtol` is the C library's.
pub data Means (quality : Text) : Wanted → Type 0 where
  nothing : quality ≡ [] → Means quality want_best
  best : same_nocase quality (b'b' ∷ b'e' ∷ b's' ∷ b't' ∷ []) ≡ true → Means quality want_best
  worst :
      same_nocase quality (b'w' ∷ b'o' ∷ b'r' ∷ b's' ∷ b't' ∷ []) ≡ true → Means quality want_worst
  height :
      (h : ℤ) → strtol quality ≡ (h, []) → ltb_ℤ (pos 0) h ≡ true → Means quality (target_height h)

module _ (better : Variant → Variant → Bool) where
  unfoldable pub IsLowest : Variant → List Variant → Type 0
  IsLowest v vs = Every (λ w. better v w ≡ false) vs

  -- `v` is what is wanted from `vs`. For a target height it is the best of those that are not above it; the
  -- lowest of all where no variant has a resolution, or where all of them are above.
  unfoldable pub IsWanted : Wanted → List Variant → Variant → Type 0
  IsWanted want_best vs v = Every (λ w. better w v ≡ false) vs
  IsWanted want_worst vs v = IsLowest v vs
  IsWanted (target_height h) vs v =
      ((has_tall vs ≡ true)
        × ((fits h v ≡ true) × Every (λ w. (fits h w && better w v) ≡ false) vs))
      ⊎ (((has_tall vs ≡ false) ⊎ Every (λ w. fits h w ≡ false) vs) × IsLowest v vs)

  unfoldable pub IsChoice : Wanted → List Variant → ℕ → Type 0
  IsChoice want vs i = (v : Variant) × ((get_elem? vs i ≡ some v) × IsWanted want vs v)

choose_best :
    (v : Variant) (vs : List Variant)
    → IsChoice better want_best (v ∷ vs) (choose better 1 vs (0, v)).0
unfolding IsChoice IsWanted
choose_best v vs = (
  _,
  (
    choose_index better 1 vs (v ∷ vs) (0, v) refl refl,
    choose-Every better (λ u w. better w u ≡ false) better_refl
        (λ u w x h h'. better_trans u w x h h') (λ u w h. better-asymm u w h) (λ u w h. h) v vs,
  ),
)

choose_worst :
    (v : Variant) (vs : List Variant)
    → IsChoice better want_worst (v ∷ vs) (choose (λ c b. not (better c b)) 1 vs (0, v)).0
unfolding IsChoice IsWanted IsLowest
choose_worst v vs = (
  _,
  (
    choose_index (λ c b. not (better c b)) 1 vs (v ∷ vs) (0, v) refl refl,
    choose-Every (λ c b. not (better c b)) (λ u w. better u w ≡ false) better_refl
        (λ u w x h h'. better_trans x w u h' h) (λ u w h. ground (arith, h))
        (λ u w h. better-asymm u w (ground (arith, h))) v vs,
  ),
)

choose_first :
    (v : Variant) (vs : List Variant)
    → choose smaller 0 (v ∷ vs) (0, v) ≡ choose smaller 1 vs (0, v)
unfolding choose
choose_first v vs =
    ap (λ b. choose smaller 1 vs (if b then (0, v) else (0, v)))
      (smaller-better v v ∙ better_refl v)

choose_smallest :
    (v : Variant) (vs : List Variant)
    → IsLowest better (choose smaller 0 (v ∷ vs) (0, v)).1 (v ∷ vs)
unfolding IsLowest
choose_smallest v vs = rw (choose_first v vs) (
    choose-Every smaller (λ u w. better u w ≡ false) better_refl
      (λ u w x h h'. better_trans x w u h' h)
      (λ u w h. better-asymm w u (sym (smaller-better u w) ∙ h))
      (λ u w h. sym (smaller-better u w) ∙ h) v vs)

choose_smallest_index :
    (v : Variant) (vs : List Variant)
    → get_elem? (v ∷ vs) (choose smaller 0 (v ∷ vs) (0, v)).0
      ≡ some (choose smaller 0 (v ∷ vs) (0, v)).1
choose_smallest_index v vs = choose_index smaller 0 (v ∷ vs) (v ∷ vs) (0, v) refl refl

-- From what the second loop has found.
target_choice_lem :
    (h : ℤ) (all : List Variant) (any : Bool) (o : Option Pick) (s : Pick)
    → any ≡ has_tall all
    → BestFit h o all
    → IsAt all o
    → get_elem? all s.0 ≡ some s.1
    → IsLowest better s.1 all
    → IsChoice better
        (target_height h)
        all
        (target_choice (record { any_resolution = any; best_le = o; smallest = s }))
unfolding IsChoice IsWanted target_choice BestFit IsAt
target_choice_lem h all false o s tall fit at_best at_low low =
    (s.1, (at_low, inr (inl (sym tall), low)))
target_choice_lem h all true none s tall fit at_best at_low low =
    (s.1, (at_low, inr (inr fit, low)))
target_choice_lem h all true (some b) s tall fit at_best at_low low =
    (b.1, (at_best, inl (sym tall, fit)))

select_wanted_lem :
    (want : Wanted) (v : Variant) (vs : List Variant)
    → IsChoice better want (v ∷ vs) (select_wanted want v vs)
unfolding select_wanted BestFit IsAt Every
select_wanted_lem want_best v vs = choose_best v vs
select_wanted_lem want_worst v vs = choose_worst v vs
select_wanted_lem (target_height h) v vs =
    let all = v ∷ vs in
    let start : TargetScan = record { best_le = none; smallest = (0, v); any_resolution = false } in
    let low = smallest-choose h 0 all start in
    let t = target_from h 0 all start in
    target_choice_lem h all t.any_resolution t.best_le t.smallest
      (any_resolution-has_tall h 0 all start ∙ ground arith) (best_le-BestFit h 0 all [] start tt)
      (best_le_index h 0 all all start refl tt) (rw low (choose_smallest_index v vs))
      (rw low (choose_smallest v vs))

-- A text that starts with a letter is no number.
letter-strtol : (c : ℕ) (s : Text) → 65 ≤ c → strtol (c ∷ s) ≡ (pos 0, c ∷ s)
unfolding strtol read_signed read_number skip_space
letter-strtol c s l =
    let no_space : is_space c ≡ false = ground (arith, l) in
    let no_minus : (c == b'-') ≡ false = ground (arith, l) in
    let no_plus : (c == b'+') ≡ false = ground (arith, l) in
    let no_digit : is_digit c ≡ false = ground (arith, l) in
    rw (no_space, strtol) (rw (no_minus, no_plus, no_digit) refl)

letter-not_number : (c : ℕ) (s : Text) (h : ℤ) → 65 ≤ c → strtol (c ∷ s) ≡ (h, []) → ⊥
letter-not_number c s h l e =
    let left : c ∷ s ≡ [] = ap (λ p. p.1) (sym (letter-strtol c s l) ∙ e) in cc

word-not_number :
    (c w : ℕ) (s ws : Text) (h : ℤ)
    → 97 ≤ w
    → strtol (c ∷ s) ≡ (h, [])
    → same_nocase (c ∷ s) (w ∷ ws) ≡ false
unfolding same_nocase
word-not_number c w s ws h l e = elim (Bool-cases (leb 65 c)) [
  | inl k ↦ absurd (letter-not_number c s h (leb→le 65 c k) e)
  | inr k ↦
      let other : (to_lower c == to_lower w) ≡ false = ground (arith, k, l) in
      ap (λ b. b && same_nocase s ws) other
]

nothing-strtol : (h : ℤ) → strtol [] ≡ (h, []) → ltb_ℤ (pos 0) h ≡ true → ⊥
unfolding strtol read_signed skip_space
nothing-strtol h e k =
    let zero_read : h ≡ pos 0 = ap (λ p. p.0) (sym e) in
    let positive : ltb_ℤ (pos 0) (pos 0) ≡ true = ap (ltb_ℤ (pos 0)) (sym zero_read) ∙ k in cc

number-wanted :
    (h : ℤ) (r : ℤ × Text)
    → r ≡ (h, [])
    → ltb_ℤ (pos 0) h ≡ true
    → elim r.1 as (λ _. Wanted) [
      | [] ↦ if ltb_ℤ (pos 0) r.0 then target_height r.0 else want_best
      | d ∷ rest ↦ want_best
    ]
      ≡ target_height h
number-wanted h (v, []) e k =
    let same_value : v ≡ h = ap (λ p. p.0) e in
    rw same_value (ap (λ b. if b then target_height h else want_best) k)
number-wanted h (v, d ∷ rest) e k = let empty : d ∷ rest ≡ [] = ap (λ p. p.1) e in cc

worst-not_best :
    (c : ℕ) (s : Text)
    → same_nocase (c ∷ s) (b'w' ∷ b'o' ∷ b'r' ∷ b's' ∷ b't' ∷ []) ≡ true
    → same_nocase (c ∷ s) (b'b' ∷ b'e' ∷ b's' ∷ b't' ∷ []) ≡ false
unfolding same_nocase
worst-not_best c s h = ground arith

-- The words and the numbers are told apart as the code does.
wanted-Means : (quality : Text) (want : Wanted) → Means quality want → wanted quality ≡ want
unfolding wanted
wanted-Means [] want (nothing e) = refl
wanted-Means [] want (best h) = refl
wanted-Means [] want (worst h) = absurd (unfold same_nocase in cc)
wanted-Means [] want (height h e k) = absurd (nothing-strtol h e k)
wanted-Means (c ∷ s) want (nothing e) = absurd (cc)
wanted-Means (c ∷ s) want (best h) = rw h refl
wanted-Means (c ∷ s) want (worst h) = rw (worst-not_best c s h, h) refl
wanted-Means (c ∷ s) want (height h e k) =
    rw (word-not_number c b'b' s _ h (omega arith) e, word-not_number c b'w' s _ h (omega arith) e)
      (number-wanted h (strtol (c ∷ s)) e k)

-- A playlist with a variant gives the index of one of its variants, and it is the one that the quality
-- asks for: for "best", in any case, or no quality no variant beats it, for "worst" it beats none, and for
-- a positive number it is the best of those that are not above it, or the lowest of all where none has a
-- resolution or all are above.
pub hls_select_variant_lem :
    (m : Master) (quality : Text) (want : Wanted) (v : Variant) (vs : List Variant)
    → Means quality want
    → m.variants ≡ v ∷ vs
    → (i : ℕ) × ((hls_select_variant m quality ≡ some i) × IsChoice beats want m.variants i)
unfolding hls_select_variant
hls_select_variant_lem m quality want v vs asks e = (
  select_wanted want v vs,
  (
    rw (e, hls_select_variant)
        (ap (λ w. some (select_wanted w v vs)) (wanted-Means quality want asks)),
    rw (e, ← better-beats) (select_wanted_lem want v vs),
  ),
)

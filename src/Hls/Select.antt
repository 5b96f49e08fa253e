-- ===== src/Hls/Select.antt =====
-- `hls_select_variant` of src/hls.c.
pub mod Rank
pub mod Best
pub mod Target
pub mod Chosen
use hyperflux.Common.{
  ℕ, suc, Bool, true, false, not, ◌&&◌, ◌||◌, Option, none, some, List, [], ◌∷◌, if◌then◌else◌,
}
use hyperflux.Libc.{Text, same_nocase}
use hyperflux.Libc.Int.{ℤ, pos, ltb_ℤ, eq_ℤ}
use hyperflux.Libc.Number.{strtol}
use hyperflux.Hls.{Variant, Master}

pub data Wanted : Type 0 where
  want_best : Wanted
  want_worst : Wanted
  target_height : ℤ → Wanted

-- NULL is the empty text here.
unfoldable pub wanted : Text → Wanted
wanted [] = want_best
wanted (c ∷ s) =
    if same_nocase (c ∷ s) (b'b' ∷ b'e' ∷ b's' ∷ b't' ∷ [])
    then want_best
    else if same_nocase (c ∷ s) (b'w' ∷ b'o' ∷ b'r' ∷ b's' ∷ b't' ∷ [])
    then want_worst
    else elim (strtol (c ∷ s)).1 [
      | [] ↦
          if ltb_ℤ (pos 0) (strtol (c ∷ s)).0 then target_height (strtol (c ∷ s)).0 else want_best
      | d ∷ rest ↦ want_best
    ]

unfoldable pub better : Variant → Variant → Bool
better c b =
    if not (eq_ℤ c.height b.height) then ltb_ℤ b.height c.height else ltb_ℤ b.bandwidth c.bandwidth

-- An index into the variants, with the variant that stands there.
abbrev pub Pick : Type 0
Pick = ℕ × Variant

-- The first loop, from index `i` on. `prefer` is the test on the variant at `i` and the chosen one.
unfoldable pub choose : (Variant → Variant → Bool) → ℕ → List Variant → Pick → Pick
choose prefer i [] chosen = chosen
choose prefer i (c ∷ vs) chosen =
    choose prefer (suc i) vs (if prefer c chosen.1 then (i, c) else chosen)

pub record TargetScan : Type 0 where
  best_le : Option Pick
  smallest : Pick
  any_resolution : Bool

unfoldable pub smaller : Variant → Variant → Bool
smaller c s =
    not (ltb_ℤ s.height c.height) && (ltb_ℤ c.height s.height || ltb_ℤ c.bandwidth s.bandwidth)

unfoldable pub fits_better : Variant → Option Pick → Bool
fits_better c none = true
fits_better c (some b) =
    ltb_ℤ b.1.height c.height || (eq_ℤ c.height b.1.height && ltb_ℤ b.1.bandwidth c.bandwidth)

unfoldable pub target_step : ℤ → ℕ → Variant → TargetScan → TargetScan
target_step target i c t = record {
  any_resolution = ltb_ℤ (pos 0) c.height || t.any_resolution;
  smallest = if smaller c t.smallest.1 then (i, c) else t.smallest;
  best_le =
      if not (ltb_ℤ target c.height) && fits_better c t.best_le then some (i, c) else t.best_le;
}

-- The second loop.
unfoldable pub target_from : ℤ → ℕ → List Variant → TargetScan → TargetScan
target_from target i [] t = t
target_from target i (c ∷ vs) t = target_from target (suc i) vs (target_step target i c t)

unfoldable pub target_choice : TargetScan → ℕ
target_choice t =
    if not t.any_resolution
    then t.smallest.0
    else elim t.best_le [ none ↦ t.smallest.0 | some b ↦ b.0 ]

unfoldable pub select_wanted : Wanted → Variant → List Variant → ℕ
select_wanted want_best v vs = (choose better 1 vs (0, v)).0
select_wanted want_worst v vs = (choose (λ c b. not (better c b)) 1 vs (0, v)).0
select_wanted (target_height h) v vs = target_choice (
    target_from h 0 (v ∷ vs) (record { best_le = none; smallest = (0, v); any_resolution = false }))

-- `none` for -1.
unfoldable pub hls_select_variant : Master → Text → Option ℕ
hls_select_variant m quality = elim m.variants [
  | [] ↦ none
  | v ∷ vs ↦ some (select_wanted (wanted quality) v vs)
]

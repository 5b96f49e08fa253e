-- ===== src/Hls/Select/Best.antt =====
-- The first loop of `hls_select_variant` settles on a variant that every other one is compared with.
use hyperflux.Common.{
  ℕ, suc, ◌≡◌, inl, inr, Bool, true, false, some, List, [], ◌∷◌, if◌then◌else◌, Bool-cases,
  get_elem?, drop, Every, drop-head,
}
use hyperflux.Hls.{Variant}
use hyperflux.Hls.Select.{Pick, choose}

pick_next : (Variant → Variant → Bool) → ℕ → Variant → Pick → Pick
pick_next prefer i c chosen = if prefer c chosen.1 then (i, c) else chosen

-- `Fine v w`: where `v` is chosen, `w` is no reason to change.
module _ (prefer : Variant → Variant → Bool) (Fine : Variant → Variant → Type 0)
    (fine_refl : (v : Variant) → Fine v v)
    (fine_trans : (u v w : Variant) → Fine u v → Fine v w → Fine u w)
    (fine_new : (v w : Variant) → prefer v w ≡ true → Fine v w)
    (fine_old : (v w : Variant) → prefer v w ≡ false → Fine w v) where
  step-Fine :
      (i : ℕ) (c : Variant) (chosen : Pick)
      → Fine (pick_next prefer i c chosen).1 chosen.1 × Fine (pick_next prefer i c chosen).1 c
  unfolding pick_next
  step-Fine i c chosen = elim (Bool-cases (prefer c chosen.1)) [
    | inl e ↦ rw e (fine_new c chosen.1 e, fine_refl c)
    | inr e ↦ rw e (fine_refl chosen.1, fine_old c chosen.1 e)
  ]

  choose-Fine :
      (i : ℕ) (vs : List Variant) (chosen : Pick)
      → Fine (choose prefer i vs chosen).1 chosen.1 × Every (Fine (choose prefer i vs chosen).1) vs
  unfolding choose Every pick_next
  choose-Fine i [] chosen = (fine_refl chosen.1, tt)
  choose-Fine i (c ∷ vs) chosen =
      let next = pick_next prefer i c chosen in
      let (old, new) = choose-Fine (suc i) vs next in
      let (from_old, from_c) = step-Fine i c chosen in
      (fine_trans _ next.1 chosen.1 old from_old, (fine_trans _ next.1 c old from_c, new))

  -- The one that is chosen from a list with a first element.
  pub choose-Every :
      (v : Variant) (vs : List Variant) → Every (Fine (choose prefer 1 vs (0, v)).1) (v ∷ vs)
  unfolding Every
  choose-Every v vs = choose-Fine 1 vs (0, v)

pick_next_index :
    (prefer : Variant → Variant → Bool) (i : ℕ) (c : Variant) (all : List Variant) (chosen : Pick)
    → get_elem? all i ≡ some c
    → get_elem? all chosen.0 ≡ some chosen.1
    → get_elem? all (pick_next prefer i c chosen).0 ≡ some (pick_next prefer i c chosen).1
unfolding pick_next
pick_next_index prefer i c all chosen here at = elim (Bool-cases (prefer c chosen.1)) [
  | inl e ↦ rw e here
  | inr e ↦ rw e at
]

-- The index that the loop gives is that of the variant it gives.
pub choose_index :
    (prefer : Variant → Variant → Bool) (i : ℕ) (vs all : List Variant) (chosen : Pick)
    → drop i all ≡ vs
    → get_elem? all chosen.0 ≡ some chosen.1
    → get_elem? all (choose prefer i vs chosen).0 ≡ some (choose prefer i vs chosen).1
unfolding choose pick_next
choose_index prefer i [] all chosen rest at = at
choose_index prefer i (c ∷ vs) all chosen rest at =
    let (here, later) = drop-head i all c vs rest in
    choose_index prefer (suc i) vs all _ later (pick_next_index prefer i c all chosen here at)

-- ===== src/Tui/Collect.antt =====
-- The indices of what is selected: `tui_collect` of src/tui.c.
use hyperflux.Common.{
  ℕ, zero, suc, ◌+◌, ◌≤◌, ◌<◌, ◌≡◌, refl, sym, ap, ◌∙◌, ◌⊎◌, inl, inr, Bool, true, false, ◌||◌,
  Option, none, some, List, [], ◌∷◌, arith, ◌==◌, if◌then◌else◌, Bool-cases, length, get_or,
}

-- `cnt`
unfoldable pub count_selected : List Bool → ℕ
count_selected [] = 0
count_selected (x ∷ sel) = if x then suc (count_selected sel) else count_selected sel

-- The loop that fills `idx`, from index `i` on.
unfoldable pub collect_from : ℕ → List Bool → List ℕ
collect_from i [] = []
collect_from i (x ∷ sel) = if x then i ∷ collect_from (i + 1) sel else collect_from (i + 1) sel

-- The count and `*out`, `none` for NULL.
unfoldable pub tui_collect : List Bool → ℕ × Option (List ℕ)
tui_collect sel =
    if count_selected sel == 0 then (0, none) else (count_selected sel, some (collect_from 0 sel))

-- The numbers ascend, from `i` on.
unfoldable pub Ascends : ℕ → List ℕ → Type 0
Ascends i [] = Unit {0}
Ascends i (n ∷ ns) = (i ≤ n) × Ascends (n + 1) ns

unfoldable pub is_member : ℕ → List ℕ → Bool
is_member n [] = false
is_member n (m ∷ ms) = m == n || is_member n ms

length-collect_from : (i : ℕ) (sel : List Bool) → length (collect_from i sel) ≡ count_selected sel
unfolding collect_from count_selected
length-collect_from i [] = refl
length-collect_from i (true ∷ sel) = ap suc (length-collect_from (i + 1) sel)
length-collect_from i (false ∷ sel) = length-collect_from (i + 1) sel

Ascends-weaken : (i j : ℕ) (ns : List ℕ) → j ≤ i → Ascends i ns → Ascends j ns
unfolding Ascends
Ascends-weaken i j [] h a = tt
Ascends-weaken i j (n ∷ ns) h (l, a) = (omega arith, a)

collect_from-Ascends : (i : ℕ) (sel : List Bool) → Ascends i (collect_from i sel)
unfolding collect_from Ascends
collect_from-Ascends i [] = tt
collect_from-Ascends i (true ∷ sel) = (omega arith, collect_from-Ascends (i + 1) sel)
collect_from-Ascends i (false ∷ sel) =
    Ascends-weaken (i + 1) i _ (omega arith) (collect_from-Ascends (i + 1) sel)

is_member_below : (i n : ℕ) (sel : List Bool) → n < i → is_member n (collect_from i sel) ≡ false
unfolding collect_from is_member
is_member_below i n [] h = refl
is_member_below i n (true ∷ sel) h = ground (arith, h, is_member_below (i + 1) n sel (omega arith))
is_member_below i n (false ∷ sel) h = is_member_below (i + 1) n sel (omega arith)

is_member-collect_from :
    (i n : ℕ) (sel : List Bool) → is_member (i + n) (collect_from i sel) ≡ get_or sel n false
unfolding collect_from is_member
is_member-collect_from i n [] = refl
is_member-collect_from i zero (true ∷ sel) = ground arith
is_member-collect_from i zero (false ∷ sel) = is_member_below (i + 1) (i + 0) sel (omega arith)
is_member-collect_from i (suc n) (true ∷ sel) =
    let next : (i + 1) + n ≡ i + suc n = omega arith in
    let later : (i == i + suc n) ≡ false = ground arith in
    rw later (
      ap (λ k. is_member k (collect_from (i + 1) sel)) (sym next)
      ∙ is_member-collect_from (i + 1) n sel)
is_member-collect_from i (suc n) (false ∷ sel) =
    ap (λ k. is_member k (collect_from (i + 1) sel)) (omega arith)
    ∙ is_member-collect_from (i + 1) n sel

-- `tui_collect` returns NULL with 0 when nothing is selected. Otherwise it returns the number of
-- entries that are set, one at least, with that many indices in ascending order, and an index is among
-- them exactly when its entry is set.
pub tui_collect_lem :
    (sel : List Bool)
    → ((count_selected sel ≡ 0) × (tui_collect sel ≡ (0, none)))
      ⊎ ((idx : List ℕ) × ((tui_collect sel ≡ (length idx, some idx))
            × ((0 < length idx)
                × (Ascends 0 idx × ((n : ℕ) → is_member n idx ≡ get_or sel n false)))))
unfolding tui_collect
tui_collect_lem sel = elim (Bool-cases (count_selected sel == 0)) [
  | inl e ↦ inl (ground (arith, e), rw e refl)
  | inr e ↦ inr (
    collect_from 0 sel,
    (
      rw e (ap (λ n. (n, some (collect_from 0 sel))) (sym (length-collect_from 0 sel))),
      (
        ground (arith, e, length-collect_from 0 sel),
        (
          collect_from-Ascends 0 sel,
          λ n.
              ap (λ k. is_member k (collect_from 0 sel)) (omega arith)
              ∙ is_member-collect_from 0 n sel,
        ),
      ),
    ),
  )
]

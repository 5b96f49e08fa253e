-- ===== src/Tests/TuiTests.antt =====
-- The selection lists on small inputs.
use hyperflux.Common.{
  ℕ, ◌<◌, ◌≡◌, refl, ◌⊎◌, Bool, true, false, none, some, List, [], ◌∷◌, length, get_or, arith,
}
use hyperflux.Libc.{same}
use hyperflux.Extractor.Episodes.{skip_blanks, mark}
use hyperflux.Extractor.Episodes.Ranges.{Range, one, between, IsRange, IsNumeral, AllDigits, number}
use hyperflux.Extractor.Episodes.Written.{table, covered, spec_text, AreRanges}
use hyperflux.Tui.Spec.{
  digits_up_to, spec_number, spec_end, skip_space, spec_range, spec_from, tui_apply_spec,
}
use hyperflux.Tui.Spec.Written.{tui_apply_spec-spec_text}
use hyperflux.Tui.Window.{visible_start}
use hyperflux.Tui.Collect.{
  count_selected, collect_from, tui_collect, Ascends, is_member, tui_collect_lem,
}

visible_start-middle : visible_start 5 10 4 ≡ 3
unfolding visible_start
visible_start-middle = refl

visible_start-end : visible_start 9 10 4 ≡ 6
unfolding visible_start
visible_start-end = refl

abbrev some_selected : List Bool
some_selected = true ∷ false ∷ true ∷ []

tui_collect-some : tui_collect some_selected ≡ (2, some (0 ∷ 2 ∷ []))
unfolding tui_collect count_selected collect_from
tui_collect-some = refl

tui_collect_lem_example :
    ((count_selected some_selected ≡ 0) × (tui_collect some_selected ≡ (0, none)))
    ⊎ ((idx : List ℕ) × ((tui_collect some_selected ≡ (length idx, some idx))
          × ((0 < length idx)
              × (Ascends 0 idx × ((n : ℕ) → is_member n idx ≡ get_or some_selected n false)))))
tui_collect_lem_example = tui_collect_lem some_selected

-- 1,2-3
abbrev typed_ranges : List Range
typed_ranges = one (b'1' ∷ []) ∷ between (b'2' ∷ []) (b'3' ∷ []) ∷ []

typed_ranges-AreRanges : AreRanges 3 typed_ranges
unfolding AreRanges IsRange IsNumeral AllDigits number
typed_ranges-AreRanges = (
  ((omega arith, (refl, tt)), (omega arith, omega arith)),
  (
    (
      ((omega arith, (refl, tt)), (omega arith, (refl, tt))),
      (omega arith, (omega arith, omega arith)),
    ),
    tt,
  ),
)

tui_apply_spec-spec_text_example :
    tui_apply_spec (spec_text typed_ranges) some_selected ≡ some (table (covered typed_ranges) 0 3)
tui_apply_spec-spec_text_example =
    tui_apply_spec-spec_text some_selected (one (b'1' ∷ [])) (between (b'2' ∷ []) (b'3' ∷ []) ∷ [])
      typed_ranges-AreRanges

-- " 3 ,1\r\n"
typed :
    tui_apply_spec (b' ' ∷ b'3' ∷ b' ' ∷ b',' ∷ b'1' ∷ b'\r' ∷ b'\n' ∷ []) some_selected
    ≡ some (true ∷ false ∷ true ∷ [])
unfolding tui_apply_spec spec_from spec_range spec_end spec_number digits_up_to skip_space
    skip_blanks mark same
typed = refl

typed_past : tui_apply_spec (b'2' ∷ b'-' ∷ b'4' ∷ []) some_selected ≡ none
unfolding tui_apply_spec spec_from spec_range spec_end spec_number digits_up_to skip_space
    skip_blanks mark same
typed_past = refl

typed_nothing : tui_apply_spec [] some_selected ≡ some (false ∷ false ∷ false ∷ [])
unfolding tui_apply_spec spec_from skip_blanks same
typed_nothing = refl

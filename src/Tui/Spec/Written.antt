-- ===== src/Tui/Spec/Written.antt =====
-- A selection as it is written, read by `tui_apply_spec` of src/tui.c.
use hyperflux.Common.{
  ℕ, zero, suc, ◌+◌, ◌-◌, ◌*◌, ◌≤◌, ◌<◌, ◌≡◌, refl, sym, ap, ◌∙◌, Bool, false, ◌||◌, none, some,
  List, [], ◌∷◌, ◌++◌, arith, ltb, length, length-append, append_assoc, append_nil,
}
use hyperflux.Libc.{Text, same}
use hyperflux.Extractor.Episodes.{skip_blanks, mark}
use hyperflux.Extractor.Episodes.Ranges.{
  Range, one, between, range_text, ends, IsRange, IsNumeral, AllDigits, Stops, Ends, number,
  number_grows, skip_blanks-numeral, Stops-Ends,
}
use hyperflux.Extractor.Episodes.Written.{
  table, covered, spec_text, AreRanges, mark-table, replicate-table, table_cong, or_false, or_assoc,
}
use hyperflux.Tui.Spec.{
  digits_up_to, spec_number, skip_space, spec_end, out_of_range, spec_range, spec_from, means_all,
  tui_apply_spec,
}

digits_up_to-number :
    (n v : ℕ) (s rest : Text)
    → AllDigits s
    → Stops rest
    → number v s ≤ n + 1
    → digits_up_to n v (s ++ rest) ≡ (number v s, rest)
unfolding digits_up_to number AllDigits Stops
digits_up_to-number n v [] [] d t h = refl
digits_up_to-number n v [] (c ∷ rest) d t h = rw t
digits_up_to-number n v (c ∷ s) rest (d, ds) t h =
    let v' = v * 10 + (c - b'0') in
    let small : ltb (n + 1) v' ≡ false = ground (arith, h, number_grows v' s) in
    rw (d, small) (digits_up_to-number n v' s rest ds t h)

spec_number-numeral :
    (n : ℕ) (s rest : Text)
    → IsNumeral s
    → Stops rest
    → number 0 s ≤ n
    → spec_number n (skip_blanks (s ++ rest)) ≡ some (number 0 s, rest)
unfolding IsNumeral spec_number AllDigits
spec_number-numeral n [] rest (l, d) t h = absurd (omega arith)
spec_number-numeral n (c ∷ s) rest (l, (d, ds)) t h =
    rw (skip_blanks-numeral (c ∷ s) rest (l, (d, ds)), spec_number, d)
      (ap some (digits_up_to-number n 0 (c ∷ s) rest (d, ds) t (omega (arith, h))))

spec_end-Ends :
    (n a : ℕ) (rest : Text) → Ends rest → spec_end n a (skip_blanks rest) ≡ some (a, rest)
unfolding spec_end Ends skip_blanks
spec_end-Ends n a [] e = refl
spec_end-Ends n a (c ∷ s) e = ground (arith, e)

skip_space-Ends : (s : Text) → Ends s → skip_space s ≡ s
unfolding skip_space Ends
skip_space-Ends [] e = refl
skip_space-Ends (c ∷ s) e = ground (arith, e)

spec_range_steps :
    (n a b : ℕ) (s s1 s2 : Text)
    → spec_number n (skip_blanks s) ≡ some (a, s1)
    → spec_end n a (skip_blanks s1) ≡ some (b, s2)
    → 1 ≤ a
    → a ≤ b
    → b ≤ n
    → Ends s2
    → spec_range n s ≡ some ((a, b), s2)
unfolding spec_range
spec_range_steps n a b s s1 s2 e f l h g k =
    let inside : out_of_range n a b ≡ false = ground (arith, l, h, g) in
    rw (e, spec_range) (rw f (rw inside (ap (λ u. some ((a, b), u)) (skip_space-Ends s2 k))))

spec_end-dash :
    (n a : ℕ) (s : Text) → spec_end n a (skip_blanks (b'-' ∷ s)) ≡ spec_number n (skip_blanks s)
unfolding spec_end skip_blanks
spec_end-dash n a s = refl

spec_range-range_text :
    (n : ℕ) (r : Range) (rest : Text)
    → IsRange n r
    → Ends rest
    → spec_range n (range_text r ++ rest) ≡ some (ends r, rest)
unfolding range_text ends IsRange Stops
spec_range-range_text n (one s) rest (num, (l, h)) e =
    let x = number 0 s in
    spec_range_steps n x x (s ++ rest) rest rest
      (spec_number-numeral n s rest num (Stops-Ends rest e) h) (spec_end-Ends n x rest e) l
      (omega arith) h e
spec_range-range_text n (between s t) rest ((num, num'), (l, (h, g))) e =
    let after = b'-' ∷ (t ++ rest) in
    rw (append_assoc s (b'-' ∷ t) rest) (
      spec_range_steps n (number 0 s) (number 0 t) (s ++ after) after rest
        (spec_number-numeral n s after num refl (omega (arith, h, g)))
        (spec_end-dash n (number 0 s) (t ++ rest)
          ∙ spec_number-numeral n t rest num' (Stops-Ends rest e) g)
        l h g e)

spec_range-nothing : (n : ℕ) → spec_range n [] ≡ none
unfolding spec_range spec_number skip_blanks
spec_range-nothing n = refl

spec_last :
    (fuel n a b : ℕ) (s : Text) (tmp : List Bool)
    → spec_range n s ≡ some ((a, b), [])
    → spec_from (suc fuel) n s tmp ≡ some (mark 0 a b tmp)
unfolding spec_from
spec_last fuel n a b [] tmp e = ground (arith, e, spec_range-nothing n)
spec_last fuel n a b (c ∷ s) tmp e = rw (e, spec_from) refl

spec_more :
    (fuel n a b : ℕ) (s after : Text) (tmp : List Bool)
    → spec_range n s ≡ some ((a, b), b',' ∷ after)
    → spec_from (suc fuel) n s tmp ≡ spec_from fuel n after (mark 0 a b tmp)
unfolding spec_from
spec_more fuel n a b [] after tmp e = ground (arith, e, spec_range-nothing n)
spec_more fuel n a b (c ∷ s) after tmp e = rw (e, spec_from) refl

spec_from-spec_text :
    (n fuel : ℕ) (r : Range) (rs : List Range) (f : ℕ → Bool)
    → AreRanges n (r ∷ rs)
    → length (spec_text (r ∷ rs)) < fuel
    → spec_from fuel n (spec_text (r ∷ rs)) (table f 0 n)
      ≡ some (table (λ j. f j || covered (r ∷ rs) j) 0 n)
unfolding AreRanges spec_text covered Ends
spec_from-spec_text n zero r rs f h l = absurd (omega arith)
spec_from-spec_text n (suc fuel) r [] f (h, hs) l =
    let read : spec_range n (range_text r) ≡ some (ends r, []) =
      ap (spec_range n) (sym (append_nil (range_text r))) ∙ spec_range-range_text n r [] h tt in
    spec_last fuel n (ends r).0 (ends r).1 (range_text r) (table f 0 n) read
    ∙ ap some (
        mark-table f 0 n (ends r).0 (ends r).1
        ∙ table_cong _ _ 0 n (λ j. ap (λ b. f j || b) (or_false _)))
spec_from-spec_text n (suc fuel) r (q ∷ rs) f (h, hs) l =
    let after = spec_text (q ∷ rs) in
    let l' : length after < fuel = omega (arith, l, length-append (range_text r) (b',' ∷ after)) in
    spec_more fuel n (ends r).0 (ends r).1 (range_text r ++ (b',' ∷ after)) after (table f 0 n)
      (spec_range-range_text n r (b',' ∷ after) h refl)
    ∙ ap (spec_from fuel n after) (mark-table f 0 n (ends r).0 (ends r).1)
    ∙ spec_from-spec_text n fuel q rs _ hs l'
    ∙ ap some (table_cong _ _ 0 n (λ j. or_assoc (f j) _ _))

-- A text that starts with a digit: no blanks to skip, and not one of the words for all.
numeral_start :
    (s rest : Text)
    → IsNumeral s
    → (skip_blanks (s ++ rest) ≡ s ++ rest) × (means_all (s ++ rest) ≡ false)
unfolding IsNumeral AllDigits same
numeral_start [] rest (l, d) = absurd (omega arith)
numeral_start (c ∷ s) rest (l, (d, ds)) =
    (skip_blanks-numeral (c ∷ s) rest (l, (d, ds)), ground (arith, d))

range_start :
    (n : ℕ) (r : Range) (rest : Text)
    → IsRange n r
    → (skip_blanks (range_text r ++ rest) ≡ range_text r ++ rest)
      × (means_all (range_text r ++ rest) ≡ false)
unfolding IsRange range_text
range_start n (one s) rest (num, h) = numeral_start s rest num
range_start n (between s t) rest ((num, num'), h) =
    rw (append_assoc s (b'-' ∷ t) rest) (numeral_start s (b'-' ∷ (t ++ rest)) num)

spec_text_start :
    (n : ℕ) (r : Range) (rs : List Range)
    → AreRanges n (r ∷ rs)
    → (skip_blanks (spec_text (r ∷ rs)) ≡ spec_text (r ∷ rs))
      × (means_all (spec_text (r ∷ rs)) ≡ false)
unfolding AreRanges spec_text
spec_text_start n r [] (h, hs) = rw (sym (append_nil (range_text r))) (range_start n r [] h)
spec_text_start n r (q ∷ rs) (h, hs) = range_start n r (b',' ∷ spec_text (q ∷ rs)) h

-- A typed selection of ranges such as "1,3-5,8", each of them within 1 to the number of items, is
-- accepted, and selects an item exactly when one of the ranges covers it, whatever was selected before.
pub tui_apply_spec-spec_text :
    (sel : List Bool) (r : Range) (rs : List Range)
    → AreRanges (length sel) (r ∷ rs)
    → tui_apply_spec (spec_text (r ∷ rs)) sel ≡ some (table (covered (r ∷ rs)) 0 (length sel))
unfolding tui_apply_spec
tui_apply_spec-spec_text sel r rs h =
    let n = length sel in
    let s = spec_text (r ∷ rs) in
    let start = spec_text_start n r rs h in
    rw (start.0, start.1)
      (ap (spec_from (length s + 1) n s) (replicate-table 0 n)
        ∙ spec_from-spec_text n (length s + 1) r rs (λ j. false) h (omega arith))

-- ===== src/Extractor/Series/Ending.antt =====
-- The loop of `regex_capture_all` ends.
use hyperflux.Common.{
  ℕ, zero, suc, ◌≤◌, ◌<◌, ◌≡◌, refl, ap, inl, inr, List, [], ◌∷◌, arith, ltb, Bool-cases,
  Option-cases, length, drop, ltb→lt, length-drop,
}
use hyperflux.Extractor.{Text}
use hyperflux.Extractor.Run.{Match, Regex}
use hyperflux.Extractor.Series.{keep_item, past_match, capture_from}

-- A match moves the loop by one byte or more.
past_match-shorter : (m : Match) (c : ℕ) (s : Text) → length (past_match m (c ∷ s)) ≤ length s
unfolding past_match
past_match-shorter m c s = elim (Bool-cases (ltb 0 m.end)) [
  | inl e ↦ rw e (rw (length-drop m.end (c ∷ s)) (omega (arith, ltb→lt 0 m.end e)))
  | inr e ↦ rw e (omega arith)
]

drop_nothing : (n : ℕ) → ◌≡◌ {A = Text} (drop n []) []
drop_nothing zero = refl
drop_nothing (suc n) = refl

past_match-nothing : (m : Match) → past_match m [] ≡ []
unfolding past_match
past_match-nothing m = elim (Bool-cases (ltb 0 m.end)) [
  | inl e ↦ rw e (drop_nothing m.end)
  | inr e ↦ rw e refl
]

-- Where a match leaves text, that is shorter than the text it was found in.
left_over-shorter :
    (m : Match) (p : Text) (c : ℕ) (s : Text) → past_match m p ≡ c ∷ s → length (c ∷ s) < length p
left_over-shorter m [] c s e = ground (arith, e, past_match-nothing m)
left_over-shorter m (d ∷ p) c s e = omega (arith, past_match-shorter m d p, ap length e)

alike_going_on :
    (q : Text) (arr : List Text) (go_on go_on' : Text → List Text)
    → ((c : ℕ) (s : Text) → q ≡ c ∷ s → go_on (c ∷ s) ≡ go_on' (c ∷ s))
    → (elim q [ [] ↦ arr | c ∷ s ↦ go_on (c ∷ s) ]) ≡ (elim q [ [] ↦ arr | c ∷ s ↦ go_on' (c ∷ s) ])
alike_going_on [] arr go_on go_on' h = refl
alike_going_on (c ∷ s) arr go_on go_on' h = h c s refl

-- One more step than the text has bytes is enough: with more steps the loop captures the same items.
pub capture_from_fuel :
    (fuel fuel' cap_max : ℕ) (re : Regex) (p : Text) (arr : List Text)
    → length p < fuel
    → length p < fuel'
    → capture_from fuel re cap_max p arr ≡ capture_from fuel' re cap_max p arr
unfolding capture_from
capture_from_fuel zero fuel' cap_max re p arr h k = absurd (omega arith)
capture_from_fuel (suc fuel) zero cap_max re p arr h k = absurd (omega arith)
capture_from_fuel (suc fuel) (suc fuel') cap_max re p arr h k =
    elim (Bool-cases (ltb (length arr) cap_max)) [
      | inr l ↦ rw (l, capture_from) refl
      | inl l ↦ elim (Option-cases (re.exec p)) [
        | inl e ↦ rw (l, capture_from) (rw e refl)
        | inr (m, e) ↦
            rw (l, capture_from)
              (rw e (
                alike_going_on (past_match m p) (keep_item p m arr)
                  (λ t. capture_from fuel re cap_max t (keep_item p m arr))
                  (λ t. capture_from fuel' re cap_max t (keep_item p m arr))
                  (λ c s g.
                    let l = left_over-shorter m p c s g in
                    capture_from_fuel fuel fuel' cap_max re (c ∷ s) (keep_item p m arr)
                      (omega (arith, l, h)) (omega (arith, l, k)))))
      ]
    ]

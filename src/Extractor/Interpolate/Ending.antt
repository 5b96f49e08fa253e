-- ===== src/Extractor/Interpolate/Ending.antt =====
-- The loop of `interpolate` ends.
use hyperflux.Common.{
  ℕ, zero, suc, ◌≤◌, ◌<◌, ◌≡◌, refl, ap, inl, inr, false, Option, none, some, [], ◌∷◌, arith, ◌==◌,
  Bool-cases, length,
}
use hyperflux.Extractor.{Text}
use hyperflux.Extractor.Store.{Store, store_get}
use hyperflux.Extractor.Interpolate.{buf_append, run_to, interpolate_from}

run_to-shorter : (c : ℕ) (s : Text) → length (run_to c s).1 ≤ length s
unfolding run_to
run_to-shorter c [] = omega arith
run_to-shorter c (x ∷ s) = elim (Bool-cases (x == c)) [
  | inl e ↦ rw (e, run_to) (omega arith)
  | inr e ↦ rw (e, run_to) (omega (arith, run_to-shorter c s))
]

run_to-moves : (c x : ℕ) (s : Text) → (x == c) ≡ false → length (run_to c (x ∷ s)).1 ≤ length s
unfolding run_to
run_to-moves c x s e = rw (e, run_to) (run_to-shorter c s)

-- What follows an append depends on the loop only.
append_alike :
    (o : Option Text) (go_on go_on' : Text → Option Text)
    → ((b : Text) → go_on b ≡ go_on' b)
    → (elim o [ none ↦ none | some b ↦ go_on b ]) ≡ (elim o [ none ↦ none | some b ↦ go_on' b ])
append_alike none go_on go_on' h = refl
append_alike (some b) go_on go_on' h = h b

closing_alike :
    (closing : Text) (k k' : Option Text) (v v' : Text → Option Text)
    → k ≡ k'
    → ((c : ℕ) (s : Text) → closing ≡ c ∷ s → v s ≡ v' s)
    → (elim closing [ [] ↦ k | c ∷ s ↦ v s ]) ≡ (elim closing [ [] ↦ k' | c ∷ s ↦ v' s ])
closing_alike [] k k' v v' e h = e
closing_alike (c ∷ s) k k' v v' e h = h c s refl

-- One more step than the template has bytes is enough: with more steps `interpolate` gives the same
-- result.
pub interpolate_from_fuel :
    (fuel fuel' : ℕ) (st : Store) (buf p : Text)
    → length p < fuel
    → length p < fuel'
    → interpolate_from fuel st buf p ≡ interpolate_from fuel' st buf p
unfolding interpolate_from
interpolate_from_fuel zero fuel' st buf p h k = absurd (omega arith)
interpolate_from_fuel (suc fuel) zero st buf p h k = absurd (omega arith)
interpolate_from_fuel (suc fuel) (suc fuel') st buf [] h k = refl
interpolate_from_fuel (suc fuel) (suc fuel') st buf (c ∷ cs) h k = elim (Bool-cases (c == b'{')) [
  | inr e ↦
      let l = run_to-moves b'{' c cs e in
      rw (e, interpolate_from)
        (append_alike (buf_append buf (run_to b'{' (c ∷ cs)).0)
          (λ b. interpolate_from fuel st b (run_to b'{' (c ∷ cs)).1)
          (λ b. interpolate_from fuel' st b (run_to b'{' (c ∷ cs)).1)
          (λ b.
            interpolate_from_fuel fuel fuel' st b (run_to b'{' (c ∷ cs)).1 (omega (arith, l, h))
              (omega (arith, l, k))))
  | inl e ↦
      let name = (run_to b'}' cs).0 in
      rw (e, interpolate_from)
        (closing_alike (run_to b'}' cs).1 _ _
          (λ s. elim (store_get st name) [
            | none ↦ none
            | some val ↦ elim (buf_append buf val) [
              | none ↦ none
              | some b ↦ interpolate_from fuel st b s
            ]
          ])
          (λ s. elim (store_get st name) [
            | none ↦ none
            | some val ↦ elim (buf_append buf val) [
              | none ↦ none
              | some b ↦ interpolate_from fuel' st b s
            ]
          ])
          (append_alike (buf_append buf (c ∷ [])) (λ b. interpolate_from fuel st b cs)
            (λ b. interpolate_from fuel' st b cs)
            (λ b. interpolate_from_fuel fuel fuel' st b cs (omega (arith, h)) (omega (arith, k))))
          (λ d s g.
            let l = run_to-shorter b'}' cs in
            let m : suc (length s) ≤ length cs = omega (arith, l, ap length g) in
            append_alike (store_get st name)
              (λ val. elim (buf_append buf val) [
                | none ↦ none
                | some b ↦ interpolate_from fuel st b s
              ])
              (λ val. elim (buf_append buf val) [
                | none ↦ none
                | some b ↦ interpolate_from fuel' st b s
              ])
              (λ val.
                append_alike (buf_append buf val) (λ b. interpolate_from fuel st b s)
                  (λ b. interpolate_from fuel' st b s)
                  (λ b.
                    interpolate_from_fuel fuel fuel' st b s (omega (arith, m, h))
                      (omega (arith, m, k))))))
]

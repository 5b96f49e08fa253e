-- ===== src/UrlGlob/Expand/Odometer.antt =====
-- One step of the odometer goes to the next position.
use hyperflux.Common.{
  ℕ, ◌+◌, ◌<◌, ◌≡◌, refl, inl, inr, Bool, true, false, List, [], ◌∷◌, arith, ltb, Bool-cases,
  length, ltb→lt,
}
use hyperflux.UrlGlob.{Bytes}
use hyperflux.UrlGlob.Expand.{product_of, advance, zeros}
use hyperflux.UrlGlob.Expand.Cartesian.{Valid, rank}

-- `next` says where the indices went, `last` that they were at the last position and are back at
-- the first.
pub data Advanced (ps : List (List Bytes)) (idx : List ℕ) : List ℕ × Bool → Type 0 where
  moved :
      (idx' : List ℕ)
      → Valid ps idx'
      → rank ps idx' ≡ rank ps idx + 1
      → Advanced ps idx (idx', false)
  wrapped :
      (idx' : List ℕ)
      → Valid ps idx'
      → rank ps idx' ≡ 0
      → rank ps idx + 1 ≡ product_of ps
      → Advanced ps idx (idx', true)

advance-cons-moved :
    (p : List Bytes) (ps : List (List Bytes)) (i : ℕ) (idx : List ℕ) (out : List ℕ × Bool)
    → i < length p
    → advance ps idx ≡ out
    → Advanced ps idx out
    → Advanced (p ∷ ps) (i ∷ idx) (advance (p ∷ ps) (i ∷ idx))
unfolding advance product_of
advance-cons-moved p ps i idx out h e (moved idx' v r) =
    rw (e, advance) (moved (i ∷ idx') (h, v) (omega (arith, r)))
advance-cons-moved p ps i idx out h e (wrapped idx' v r l) =
    elim (Bool-cases (ltb (i + 1) (length p))) [
      | inl more ↦
          rw (e, advance)
            (rw more (moved ((i + 1) ∷ idx') (ltb→lt _ _ more, v) (grind (arith, r, l))))
      | inr top ↦
          let full : length p ≡ i + 1 = ground arith in
          rw (e, advance)
            (rw top
              (wrapped (0 ∷ idx') (omega arith, v) (omega (arith, r)) (rw full (grind (arith, l)))))
    ]

pub advance-Advanced :
    (ps : List (List Bytes)) (idx : List ℕ) → Valid ps idx → Advanced ps idx (advance ps idx)
unfolding advance product_of
advance-Advanced [] [] v = wrapped [] tt refl refl
advance-Advanced [] (i ∷ idx) v = absurd v
advance-Advanced (p ∷ ps) [] v = absurd v
advance-Advanced (p ∷ ps) (i ∷ idx) v =
    advance-cons-moved p ps i idx (advance ps idx) v.0 refl (advance-Advanced ps idx v.1)

pub zeros-Valid : (ps : List (List Bytes)) → 0 < product_of ps → Valid ps (zeros ps)
unfolding zeros product_of
zeros-Valid [] h = tt
zeros-Valid (p ∷ ps) h = (grind arith, zeros-Valid ps (grind arith))

pub rank-zeros : (ps : List (List Bytes)) → rank ps (zeros ps) ≡ 0
unfolding zeros
rank-zeros [] = refl
rank-zeros (p ∷ ps) = omega (arith, rank-zeros ps)

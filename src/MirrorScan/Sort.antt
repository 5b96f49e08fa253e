-- ===== src/MirrorScan/Sort.antt =====
-- `sort_candidates` of src/scan.c: an insertion sort by descending score.
pub mod Order
use hyperflux.Common.{Bool, List, [], ◌∷◌, if◌then◌else◌}
use hyperflux.MirrorScan.{Candidate}

-- The second list, behind the first one turned around.
unfoldable pub turn_onto {ℓ} : {A : Type ℓ} → List A → List A → List A
turn_onto [] done = done
turn_onto (c ∷ cs) done = turn_onto cs (c ∷ done)

-- `below x y` is `x < y` on floating-point numbers.
module _ {Double : Type 0} (below : Double → Double → Bool) where
  -- The inner loop. The sorted part of the array stands here from its end to its start.
  unfoldable pub shift : Candidate Double → List (Candidate Double) → List (Candidate Double)
  shift key [] = key ∷ []
  shift key (c ∷ cs) = if below c.score key.score then c ∷ shift key cs else key ∷ c ∷ cs

  -- The outer loop, behind the sorted part `done`.
  unfoldable pub sort_from :
      List (Candidate Double) → List (Candidate Double) → List (Candidate Double)
  sort_from done [] = done
  sort_from done (c ∷ cs) = sort_from (shift c done) cs

  unfoldable pub sort_candidates : List (Candidate Double) → List (Candidate Double)
  sort_candidates cs = turn_onto (sort_from [] cs) []

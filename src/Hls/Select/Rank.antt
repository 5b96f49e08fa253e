-- ===== src/Hls/Select/Rank.antt =====
-- The orders that `hls_select_variant` compares variants by.
use hyperflux.Common.{◌≡◌, true, false, arith}
use hyperflux.Hls.{Variant}
use hyperflux.Hls.Select.{better, smaller}

pub better_refl : (v : Variant) → better v v ≡ false
unfolding better
better_refl v = ground arith

pub better-asymm : (v w : Variant) → better v w ≡ true → better w v ≡ false
unfolding better
better-asymm v w h = ground (arith, h)

pub better_trans : (u v w : Variant) → better v u ≡ false → better w v ≡ false → better w u ≡ false
unfolding better
better_trans u v w h h' = ground (arith, h, h')

-- The second loop compares the other way round by the same order.
pub smaller-better : (v w : Variant) → smaller v w ≡ better w v
unfolding better smaller
smaller-better v w = ground arith

-- ===== src/Flux/Open/Starts.antt =====
-- A download starts from a state that satisfies the loop's invariant.
use hyperflux.Common.{
  ℕ, ◌^◌, ◌≤◌, ◌<◌, ◌≡◌, refl, inl, inr, Bool, true, Option, none, some, List, [], ◌∷◌, arith,
  Bool-cases, length, take, length-take,
}
use hyperflux.Flux.{Conn, Flux}
use hyperflux.Flux.Segments.{
  Within, Consecutive, Consecutive-total, Consecutive-Within, Consecutive-owners,
}
use hyperflux.Flux.Divide.Partition.{divide-Consecutive}
use hyperflux.Flux.StateFile.{supported_first, save_state, Opened, opened, resize}
use hyperflux.Flux.StateFile.RoundTrip.{
  AreOffsets, with_ranges, length-resize, read_state-save_state,
}
use hyperflux.Flux.Loop.Invariant.{
  RangesInv, Written, Inv, SameRanges, SameRanges-Alike, Alike-RangesInv, Alike-Written,
}
use hyperflux.Flux.Open.{start_over, open_single, open_saved, flux_open}

-- What `flux_open` leaves is a start for the loop: with this output file, nothing is taken for done
-- that is not.
abbrev pub StartsInv : (ℕ → ℕ) → ℕ → (ℕ → Option ℕ) → Opened → Type 0
StartsInv content size file (opened cs done) = RangesInv size done cs × Written content size cs file
StartsInv content size file _ = ⊥

Consecutive-RangesInv : (size : ℕ) (cs : List Conn) → Consecutive 0 size cs → RangesInv size 0 cs
Consecutive-RangesInv size cs h = record {
  within = Consecutive-Within 0 size cs h;
  unique = λ p. ground (arith, Consecutive-owners 0 size cs h p);
  total = omega (arith, Consecutive-total 0 size cs h);
}

Consecutive-Written :
    (content : ℕ → ℕ) (size : ℕ) (file : ℕ → Option ℕ) (cs : List Conn)
    → Consecutive 0 size cs
    → Written content size cs file
Consecutive-Written content size file cs h p l e =
    absurd (ground (arith, Consecutive-owners 0 size cs h p))

module _ (content : ℕ → ℕ) (size : ℕ) (file : ℕ → Option ℕ) (has_bytes : 0 < size) where
  start_over-StartsInv :
      (cs : List Conn)
      → 0 < length cs
      → length cs ≤ 65535
      → StartsInv content size file (start_over size true cs)
  unfolding start_over
  start_over-StartsInv cs h k =
      let (ds, e, parts, len, least) = divide-Consecutive size cs has_bytes h k in
      rw (e, start_over)
        (Consecutive-RangesInv size ds parts, Consecutive-Written content size file ds parts)

  open_single-StartsInv :
      (cs : List Conn) → 0 < length cs → StartsInv content size file (open_single size true cs)
  unfolding open_single
  open_single-StartsInv cs h =
      let one : length (take 1 cs) ≡ 1 = omega (arith, length-take 1 cs) in
      let (ds, e, parts, len, least) =
        divide-Consecutive size (take 1 cs) has_bytes (omega arith) (omega arith) in
      rw (e, open_single) (start_over-StartsInv ds (omega arith) (omega arith))

with_ranges-SameRanges :
    (base cs : List Conn) → length base ≡ length cs → SameRanges cs (with_ranges base cs)
unfolding with_ranges
with_ranges-SameRanges [] [] e = tt
with_ranges-SameRanges [] (c ∷ cs) e = absurd (omega arith)
with_ranges-SameRanges (b ∷ base) [] e = absurd (omega arith)
with_ranges-SameRanges (b ∷ base) (c ∷ cs) e =
    (refl, refl, with_ranges-SameRanges base cs (omega arith))

Within-AreOffsets : (size : ℕ) (cs : List Conn) → size < 2 ^ 63 → Within size cs → AreOffsets cs
Within-AreOffsets size [] h w = tt
Within-AreOffsets size (c ∷ cs) h (a, b, w) =
    (omega arith, omega arith, Within-AreOffsets size cs h w)

pub flux_open-fresh :
    (content : ℕ → ℕ) (size : ℕ) (file : ℕ → Option ℕ) (conns : List Conn)
    → 0 < size
    → 0 < length conns
    → length conns ≤ 65535
    → StartsInv content size file (flux_open size conns none true true)
unfolding flux_open
flux_open-fresh content size file conns s h k = elim (Bool-cases (supported_first conns)) [
  | inl can ↦ rw can (start_over-StartsInv content size file s conns h k)
  | inr cannot ↦ rw cannot (open_single-StartsInv content size file s conns h)
]

-- A download that stopped in a state of the loop, and saved it, is resumed in a state that satisfies
-- the invariant, with the output file that it left.
pub flux_open-resumed :
    (content : ℕ → ℕ) (f : Flux) (conns : List Conn) (creates : Bool) (saved : List ℕ)
    → Inv content f
    → f.size < 2 ^ 63
    → 0 < length f.conns
    → length f.conns ≤ 65535
    → supported_first conns ≡ true
    → save_state true f.conns f.bytes_done ≡ some saved
    → StartsInv content f.size f.file (flux_open f.size conns (some saved) true creates)
unfolding flux_open open_saved
flux_open-resumed content f conns creates saved v s h k can e =
    let offsets = Within-AreOffsets f.size f.conns s v.ranges.within in
    let done : f.bytes_done < 2 ^ 63 = omega (arith, v.ranges.total) in
    let back = read_state-save_state f.size f.bytes_done conns f.conns saved h k done offsets e in
    let base = resize (length f.conns) conns in
    let a =
      SameRanges-Alike f.size f.conns (with_ranges base f.conns)
        (with_ranges-SameRanges base f.conns (length-resize (length f.conns) conns h)) in
    rw (can, back, open_saved)
      (
        Alike-RangesInv f.size f.bytes_done f.conns _ a v.ranges,
        Alike-Written content f.size f.conns _ f.file a v.written,
      )

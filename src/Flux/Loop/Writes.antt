-- ===== src/Flux/Loop/Writes.antt =====
-- What a write to the output file changes, and what taking bytes off a range changes.
use hyperflux.Common.{
  ℕ, zero, suc, ◌+◌, ◌≤◌, ◌<◌, ◌≡◌, refl, sym, ap, ◌∙◌, ◌⊎◌, inl, inr, true, Option, some, List, [],
  ◌∷◌, arith, dec_lt, dec_le, ℕ_discrete, ◌==◌, length, get_elem?, set, take,
}
use hyperflux.Flux.{Conn}
use hyperflux.Flux.Segments.{hit, total-set, owners-set, Within-get, Within-set}
use hyperflux.Flux.Reactivate.Steal.{modify-set}
use hyperflux.Flux.Loop.Handle.{write_at, advance}
use hyperflux.Flux.Loop.Invariant.{RangesInv, Written}

-- The bytes are those of the server's file from `off` on.
abbrev pub Agrees : (ℕ → ℕ) → ℕ → List ℕ → Type 0
Agrees content off [] = Unit {0}
Agrees content off (b ∷ bs) = (b ≡ content off) × Agrees content (off + 1) bs

pub Agrees-take :
    (content : ℕ → ℕ) (n off : ℕ) (bs : List ℕ)
    → Agrees content off bs
    → Agrees content off (take n bs)
Agrees-take content zero off bs h = tt
Agrees-take content (suc n) off [] h = tt
Agrees-take content (suc n) off (b ∷ bs) h = (h.0, Agrees-take content n (off + 1) bs h.1)

pub write_at_outside :
    (p off : ℕ) (bs : List ℕ) (file : ℕ → Option ℕ)
    → (p < off) ⊎ (off + length bs ≤ p)
    → write_at off bs file p ≡ file p
unfolding write_at
write_at_outside p off [] file h = refl
write_at_outside p off (b ∷ bs) file h =
    write_at_outside p (off + 1) bs _ (omega arith) ∙ ground arith

pub write_at_inside :
    (content : ℕ → ℕ) (p off : ℕ) (bs : List ℕ) (file : ℕ → Option ℕ)
    → Agrees content off bs
    → off ≤ p
    → p < off + length bs
    → write_at off bs file p ≡ some (content p)
unfolding write_at
write_at_inside content p off [] file a h k = absurd (omega arith)
write_at_inside content p off (b ∷ bs) file (e, a) h k = elim (ℕ_discrete p off) [
  | yes here ↦
      write_at_outside p (off + 1) bs _ (omega arith)
      ∙ (let t : (p == off) ≡ true = ground arith in rw t (ap some (e ∙ ap content (sym here))))
  | no later ↦ write_at_inside content p (off + 1) bs _ a (omega arith) (omega arith)
]

-- A write of the server's bytes spoils nothing that was right.
pub write_at-Written :
    (content : ℕ → ℕ) (size off : ℕ) (bs : List ℕ) (cs : List Conn) (file : ℕ → Option ℕ)
    → Agrees content off bs
    → Written content size cs file
    → Written content size cs (write_at off bs file)
write_at-Written content size off bs cs file a w p h e = elim (dec_le off p) [
  | yes low ↦ elim (dec_lt p (off + length bs)) [
    | yes high ↦ write_at_inside content p off bs file a low high
    | no above ↦ write_at_outside p off bs file (inr (omega arith)) ∙ w p h e
  ]
  | no below ↦ write_at_outside p off bs file (inl (omega arith)) ∙ w p h e
]

module _ (size n i : ℕ) (cs : List Conn) (c : Conn) (at : get_elem? cs i ≡ some c)
    (fits : c.currentbyte + n ≤ c.lastbyte) where
  abbrev moved : Conn
  moved = record c { currentbyte = c.currentbyte + n }

  advance-set : advance i n cs ≡ set cs i moved
  unfolding advance
  advance-set = modify-set i _ cs c at

  pub advance-RangesInv :
      (done : ℕ) → RangesInv size done cs → RangesInv size (done + n) (advance i n cs)
  advance-RangesInv done r =
      let (order, top) = Within-get size cs i c at r.within in
      rw advance-set (record {
        within = Within-set size cs i moved fits top r.within;
        unique = λ p.
            let fewer : hit p moved ≤ hit p c = ground arith in
            omega (arith, fewer, owners-set p cs i c moved at, r.unique p);
        total = omega (arith, total-set cs i c moved at, r.total);
      })

  -- Once `n` bytes at the front of the range are written, it may be cut by them.
  pub advance-Written :
      (content : ℕ → ℕ) (off : ℕ) (bs : List ℕ) (file : ℕ → Option ℕ)
      → off ≡ c.currentbyte
      → length bs ≡ n
      → Agrees content off bs
      → Written content size cs file
      → Written content size (advance i n cs) (write_at off bs file)
  advance-Written content off bs file e len a w = rw advance-set (λ p h none_left.
      let own = owners-set p cs i c moved at in
      elim (dec_le off p) [
        | yes low ↦ elim (dec_lt p (off + n)) [
          | yes high ↦ write_at_inside content p off bs file a low (omega arith)
          | no above ↦
              let same : hit p moved ≡ hit p c = ground arith in
              write_at_outside p off bs file (inr (omega arith)) ∙ w p h (omega (arith, same, own))
        ]
        | no below ↦
            let same : hit p moved ≡ hit p c = ground arith in
            write_at_outside p off bs file (inl (omega arith)) ∙ w p h (omega (arith, same, own))
      ])

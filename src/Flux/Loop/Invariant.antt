-- ===== src/Flux/Loop/Invariant.antt =====
-- The invariant of the download loop of src/flux.c.
use hyperflux.Common.{
  ℕ, zero, suc, ◌+◌, ◌≤◌, ◌<◌, ◌≡◌, refl, sym, ◌∙◌, Option, some, List, [], ◌∷◌, arith,
}
use hyperflux.Flux.{Conn, Flux}
use hyperflux.Flux.Segments.{total_remaining, owners, Within}
use hyperflux.Flux.Reactivate.{modify}
use hyperflux.Flux.Loop.Handle.{disconnect, touch}

-- The ranges lie inside the file, none of its bytes is to be fetched twice, and the bytes done and
-- to go make up its size.
pub record RangesInv (size bytes_done : ℕ) (cs : List Conn) : Type 0 where
  pub within : Within size cs
  pub unique : (p : ℕ) → owners p cs ≤ 1
  pub total : bytes_done + total_remaining cs ≡ size

-- What nobody is to fetch has been written, with the byte that the server has there.
abbrev pub Written : (ℕ → ℕ) → ℕ → List Conn → (ℕ → Option ℕ) → Type 0
Written content size cs file = (p : ℕ) → p < size → owners p cs ≡ 0 → file p ≡ some (content p)

pub record Inv (content : ℕ → ℕ) (f : Flux) : Type 0 where
  pub ranges : RangesInv f.size f.bytes_done f.conns
  pub written : Written content f.size f.conns f.file

-- The same ranges, whatever else differs.
abbrev pub SameRanges : List Conn → List Conn → Type 0
SameRanges [] [] = Unit {0}
SameRanges [] (d ∷ ds) = ⊥
SameRanges (c ∷ cs) [] = ⊥
SameRanges (c ∷ cs) (d ∷ ds) =
    (c.currentbyte ≡ d.currentbyte) × (c.lastbyte ≡ d.lastbyte) × SameRanges cs ds

pub SameRanges-total :
    (cs ds : List Conn) → SameRanges cs ds → total_remaining ds ≡ total_remaining cs
SameRanges-total [] [] s = refl
SameRanges-total [] (d ∷ ds) s = absurd s
SameRanges-total (c ∷ cs) [] s = absurd s
SameRanges-total (c ∷ cs) (d ∷ ds) (a, b, s) = omega (arith, SameRanges-total cs ds s)

pub SameRanges-owners : (cs ds : List Conn) → SameRanges cs ds → (p : ℕ) → owners p ds ≡ owners p cs
SameRanges-owners [] [] s p = refl
SameRanges-owners [] (d ∷ ds) s p = absurd s
SameRanges-owners (c ∷ cs) [] s p = absurd s
SameRanges-owners (c ∷ cs) (d ∷ ds) (a, b, s) p = ground (arith, SameRanges-owners cs ds s p)

pub SameRanges-Within :
    (size : ℕ) (cs ds : List Conn) → SameRanges cs ds → Within size cs → Within size ds
SameRanges-Within size [] [] s w = tt
SameRanges-Within size [] (d ∷ ds) s w = absurd s
SameRanges-Within size (c ∷ cs) [] s w = absurd s
SameRanges-Within size (c ∷ cs) (d ∷ ds) (a, b, s) (u, v, w) =
    (omega arith, omega arith, SameRanges-Within size cs ds s w)

pub SameRanges-refl : (cs : List Conn) → SameRanges cs cs
SameRanges-refl [] = tt
SameRanges-refl (c ∷ cs) = (refl, refl, SameRanges-refl cs)

-- A change that leaves both ends of a range alone.
pub modify-SameRanges :
    (i : ℕ) (g : Conn → Conn) (cs : List Conn)
    → ((c : Conn) → (c.currentbyte ≡ (g c).currentbyte) × (c.lastbyte ≡ (g c).lastbyte))
    → SameRanges cs (modify i g cs)
unfolding modify
modify-SameRanges i g [] h = tt
modify-SameRanges zero g (c ∷ cs) h = ((h c).0, (h c).1, SameRanges-refl cs)
modify-SameRanges (suc i) g (c ∷ cs) h = (refl, refl, modify-SameRanges i g cs h)

pub disconnect-SameRanges : (i : ℕ) (cs : List Conn) → SameRanges cs (disconnect i cs)
unfolding disconnect
disconnect-SameRanges i cs = modify-SameRanges i _ cs (λ c. (refl, refl))

pub touch-SameRanges : (i now : ℕ) (cs : List Conn) → SameRanges cs (touch i now cs)
unfolding touch
touch-SameRanges i now cs = modify-SameRanges i _ cs (λ c. (refl, refl))

-- Lists of connections that stand for the same bytes to fetch.
pub record Alike (size : ℕ) (cs ds : List Conn) : Type 0 where
  pub within : Within size cs → Within size ds
  pub same_owners : (p : ℕ) → owners p ds ≡ owners p cs
  pub same_total : total_remaining ds ≡ total_remaining cs

pub SameRanges-Alike : (size : ℕ) (cs ds : List Conn) → SameRanges cs ds → Alike size cs ds
SameRanges-Alike size cs ds s = record {
  within = SameRanges-Within size cs ds s;
  same_owners = SameRanges-owners cs ds s;
  same_total = SameRanges-total cs ds s;
}

pub Alike-trans :
    (size : ℕ) (cs ds es : List Conn) → Alike size cs ds → Alike size ds es → Alike size cs es
Alike-trans size cs ds es a b = record {
  within = λ w. b.within (a.within w);
  same_owners = λ p. b.same_owners p ∙ a.same_owners p;
  same_total = b.same_total ∙ a.same_total;
}

pub Alike-RangesInv :
    (size done : ℕ) (cs ds : List Conn)
    → Alike size cs ds
    → RangesInv size done cs
    → RangesInv size done ds
Alike-RangesInv size done cs ds a r = record {
  within = a.within r.within;
  unique = λ p. rw (a.same_owners p) (r.unique p);
  total = rw (a.same_total) r.total;
}

pub Alike-Written :
    (content : ℕ → ℕ) (size : ℕ) (cs ds : List Conn) (file : ℕ → Option ℕ)
    → Alike size cs ds
    → Written content size cs file
    → Written content size ds file
Alike-Written content size cs ds file a w p h e = w p h (sym (a.same_owners p) ∙ e)

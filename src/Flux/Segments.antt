-- ===== src/Flux/Segments.antt =====
-- What is still to be fetched: the byte ranges that the connections of src/flux.c stand for.
use hyperflux.Common.{
  ℕ, zero, suc, ◌+◌, ◌-◌, ◌≤◌, ◌<◌, ◌≡◌, refl, ◌&&◌, some, List, [], ◌∷◌, arith, ltb, leb,
  if◌then◌else◌, get_elem?, set,
}
use hyperflux.Flux.{Conn}

-- Bytes to go on one connection.
abbrev pub remaining : Conn → ℕ
remaining c = c.lastbyte - c.currentbyte

abbrev pub total_remaining : List Conn → ℕ
total_remaining [] = 0
total_remaining (c ∷ cs) = remaining c + total_remaining cs

-- Whether byte `p` is still to be fetched by this connection, as a number.
abbrev pub hit : ℕ → Conn → ℕ
hit p c = if leb c.currentbyte p && ltb p c.lastbyte then 1 else 0

-- The number of connections that byte `p` is still to be fetched by.
abbrev pub owners : ℕ → List Conn → ℕ
owners p [] = 0
owners p (c ∷ cs) = hit p c + owners p cs

-- Every range lies the right way round, inside the file.
abbrev pub Within : ℕ → List Conn → Type 0
Within size [] = Unit {0}
Within size (c ∷ cs) = (c.currentbyte ≤ c.lastbyte) × (c.lastbyte ≤ size) × Within size cs

-- The ranges follow one another from `lo` to `hi` with no gap and no overlap, none of them empty.
abbrev pub Consecutive : ℕ → ℕ → List Conn → Type 0
Consecutive lo hi [] = lo ≡ hi
Consecutive lo hi (c ∷ cs) = (c.currentbyte ≡ lo) × (lo < c.lastbyte) × Consecutive c.lastbyte hi cs

pub Consecutive-le : (lo hi : ℕ) (cs : List Conn) → Consecutive lo hi cs → lo ≤ hi
Consecutive-le lo hi [] h = omega arith
Consecutive-le lo hi (c ∷ cs) (a, b, h) = omega (arith, Consecutive-le c.lastbyte hi cs h)

pub Consecutive-total :
    (lo hi : ℕ) (cs : List Conn) → Consecutive lo hi cs → lo + total_remaining cs ≡ hi
Consecutive-total lo hi [] h = omega arith
Consecutive-total lo hi (c ∷ cs) (a, b, h) =
    omega (arith, Consecutive-total c.lastbyte hi cs h, Consecutive-le c.lastbyte hi cs h)

pub Consecutive-Within : (lo hi : ℕ) (cs : List Conn) → Consecutive lo hi cs → Within hi cs
Consecutive-Within lo hi [] h = tt
Consecutive-Within lo hi (c ∷ cs) (a, b, h) =
    (omega arith, Consecutive-le c.lastbyte hi cs h, Consecutive-Within c.lastbyte hi cs h)

-- Each byte between the ends has one owner, and no other byte has any.
pub Consecutive-owners :
    (lo hi : ℕ) (cs : List Conn)
    → Consecutive lo hi cs
    → (p : ℕ) → owners p cs ≡ (if leb lo p && ltb p hi then 1 else 0)
Consecutive-owners lo hi [] h p = ground arith
Consecutive-owners lo hi (c ∷ cs) (a, b, h) p =
    ground (arith, Consecutive-owners c.lastbyte hi cs h p, Consecutive-le c.lastbyte hi cs h)

-- Where no bytes are left, no byte has an owner.
pub owners-eq-zero : (p : ℕ) (cs : List Conn) → total_remaining cs ≡ 0 → owners p cs ≡ 0
owners-eq-zero p [] e = refl
owners-eq-zero p (c ∷ cs) e = ground (arith, owners-eq-zero p cs (omega arith))

-- One connection is given other bounds.
pub total-set :
    (cs : List Conn) (i : ℕ) (c d : Conn)
    → get_elem? cs i ≡ some c
    → total_remaining (set cs i d) + remaining c ≡ total_remaining cs + remaining d
total-set [] i c d e = cc
total-set (x ∷ xs) zero c d e = ground arith
total-set (x ∷ xs) (suc i) c d e = omega (arith, total-set xs i c d e)

pub owners-set :
    (p : ℕ) (cs : List Conn) (i : ℕ) (c d : Conn)
    → get_elem? cs i ≡ some c
    → owners p (set cs i d) + hit p c ≡ owners p cs + hit p d
owners-set p [] i c d e = cc
owners-set p (x ∷ xs) zero c d e = ground arith
owners-set p (x ∷ xs) (suc i) c d e = omega (arith, owners-set p xs i c d e)

pub Within-get :
    (size : ℕ) (cs : List Conn) (i : ℕ) (c : Conn)
    → get_elem? cs i ≡ some c
    → Within size cs
    → (c.currentbyte ≤ c.lastbyte) × (c.lastbyte ≤ size)
Within-get size [] i c e w = cc
Within-get size (x ∷ xs) zero c e w = ground arith
Within-get size (x ∷ xs) (suc i) c e w = Within-get size xs i c e w.2

pub Within-set :
    (size : ℕ) (cs : List Conn) (i : ℕ) (d : Conn)
    → d.currentbyte ≤ d.lastbyte
    → d.lastbyte ≤ size
    → Within size cs
    → Within size (set cs i d)
Within-set size [] i d a b w = tt
Within-set size (x ∷ xs) zero d a b w = (a, b, w.2)
Within-set size (x ∷ xs) (suc i) d a b w = (w.0, w.1, Within-set size xs i d a b w.2)

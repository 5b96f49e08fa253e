-- ===== src/Flux/StateFile/RoundTrip.antt =====
-- What `save_state` writes, `flux_open` reads back.
use hyperflux.Common.{
  ℕ, zero, suc, ◌+◌, ◌-◌, ◌*◌, ◌/◌, ◌^◌, ◌≤◌, ◌<◌, ◌≡◌, refl, sym, ap, ◌∙◌, true, false, some, List,
  [], ◌∷◌, ◌++◌, arith, ltb, length, take, drop, length-append, length-replicate,
  take-append_length, drop-append_length,
}
use native.Mathlib.Nat.{pow-suc, div-lt_iff_lt-mul}
use hyperflux.Flux.{Conn, zero_conn}
use hyperflux.Flux.StateFile.{
  to_le, from_le, save_conns, save_state, read_num, read_conns, opened, read_ranges, resize,
  read_state,
}

length-to_le : (w n : ℕ) → length (to_le w n) ≡ w
unfolding to_le
length-to_le zero n = refl
length-to_le (suc w) n = omega (arith, length-to_le w (n / 256))

from_le-to_le : (w n : ℕ) → n < 256 ^ w → from_le (to_le w n) ≡ n
unfolding to_le from_le
from_le-to_le zero n h = omega arith
from_le-to_le (suc w) n h =
    let small : n / 256 < 256 ^ w =
      (div-lt_iff_lt-mul {k = 256} {x = n} {y = 256 ^ w} (omega arith)).1 (rw pow-suc at h) in
    omega (arith, from_le-to_le w (n / 256) small)

read_num-to_le :
    (w n : ℕ) (rest : List ℕ) → n < 256 ^ w → read_num w (to_le w n ++ rest) ≡ some (n, rest)
unfolding read_num
read_num-to_le w n rest h =
    let len = length-to_le w n in
    let whole = length-append (to_le w n) rest in
    let front : take w (to_le w n ++ rest) ≡ to_le w n =
      ap (λ k. take k (to_le w n ++ rest)) (sym len) ∙ take-append_length (to_le w n) rest in
    let back : drop w (to_le w n ++ rest) ≡ rest =
      ap (λ k. drop k (to_le w n ++ rest)) (sym len) ∙ drop-append_length (to_le w n) rest in
    let enough : ltb (length (to_le w n ++ rest)) w ≡ false = ground (arith, len, whole) in
    rw (enough, front, back, from_le-to_le w n h)

length-save_conns : (cs : List Conn) → length (save_conns cs) ≡ 16 * length cs
unfolding save_conns
length-save_conns [] = refl
length-save_conns (c ∷ cs) = omega (
  arith,
  length-append (to_le 8 c.currentbyte) (to_le 8 c.lastbyte ++ save_conns cs),
  length-append (to_le 8 c.lastbyte) (save_conns cs),
  length-to_le 8 c.currentbyte,
  length-to_le 8 c.lastbyte,
  length-save_conns cs,
)

-- Offsets that an `off_t` holds.
abbrev pub AreOffsets : List Conn → Type 0
AreOffsets [] = Unit {0}
AreOffsets (c ∷ cs) = (c.currentbyte < 2 ^ 63) × (c.lastbyte < 2 ^ 63) × AreOffsets cs

-- The ranges of `cs`, on connections that are otherwise those of `base`.
unfoldable pub with_ranges : List Conn → List Conn → List Conn
with_ranges [] cs = []
with_ranges (b ∷ base) [] = b ∷ base
with_ranges (b ∷ base) (c ∷ cs) =
    record b { currentbyte = c.currentbyte; lastbyte = c.lastbyte } ∷ with_ranges base cs

read_conns-cons :
    (b : Conn) (base : List Conn) (file file' rest : List ℕ) (cur last : ℕ) (cs : List Conn)
    → read_num 8 file ≡ some (cur, file')
    → read_num 8 file' ≡ some (last, rest)
    → read_conns false base rest ≡ some cs
    → read_conns false (b ∷ base) file ≡ some (record b { currentbyte = cur; lastbyte = last } ∷ cs)
unfolding read_conns
read_conns-cons b base file file' rest cur last cs h k l = ground arith

read_conns-save_conns :
    (base cs : List Conn)
    → length base ≡ length cs
    → AreOffsets cs
    → read_conns false base (save_conns cs) ≡ some (with_ranges base cs)
unfolding read_conns save_conns with_ranges
read_conns-save_conns [] cs e h = refl
read_conns-save_conns (b ∷ base) [] e h = absurd (omega arith)
read_conns-save_conns (b ∷ base) (c ∷ cs) e h =
    read_conns-cons b base _ _ _ c.currentbyte c.lastbyte (with_ranges base cs)
      (read_num-to_le 8 c.currentbyte (to_le 8 c.lastbyte ++ save_conns cs) (omega arith))
      (read_num-to_le 8 c.lastbyte (save_conns cs) (omega arith))
      (read_conns-save_conns base cs (omega arith) h.2)

pub length-resize : (n : ℕ) (cs : List Conn) → 0 < n → length (resize n cs) ≡ n
unfolding resize
length-resize n [] h = length-replicate n zero_conn
length-resize n (c ∷ cs) h = omega (arith, length-replicate (n - 1) zero_conn)

read_ranges-save :
    (done : ℕ) (base cs : List Conn)
    → done < 2 ^ 63
    → length base ≡ length cs
    → AreOffsets cs
    → read_ranges false base (to_le 8 done ++ save_conns cs) ≡ opened (with_ranges base cs) done
unfolding read_ranges
read_ranges-save done base cs h e o =
    ground (
      arith,
      read_num-to_le 8 done (save_conns cs) (omega arith),
      read_conns-save_conns base cs e o,
    )

read_state-new :
    (size n : ℕ) (conns : List Conn) (file rest : List ℕ)
    → read_num 2 file ≡ some (n, rest)
    → 0 < n
    → 10 + 16 * n ≤ length file
    → read_state size conns file ≡ read_ranges false (resize n conns) rest
unfolding read_state
read_state-new size n conns file rest h k l = ground arith

saved_file : List Conn → ℕ → List ℕ
saved_file cs done = to_le 2 (length cs) ++ (to_le 8 done ++ save_conns cs)

save_state-eq :
    (cs : List Conn) (done : ℕ) (file : List ℕ)
    → save_state true cs done ≡ some file
    → file ≡ saved_file cs done
unfolding save_state saved_file
save_state-eq cs done file e = ground arith

length-saved_file : (cs : List Conn) (done : ℕ) → length (saved_file cs done) ≡ 10 + 16 * length cs
unfolding saved_file
length-saved_file cs done = omega (
  arith,
  length-append (to_le 2 (length cs)) (to_le 8 done ++ save_conns cs),
  length-append (to_le 8 done) (save_conns cs),
  length-to_le 2 (length cs),
  length-to_le 8 done,
  length-save_conns cs,
)

-- A download that is resumed from the state file that was saved for it has the saved number of
-- bytes done and the saved ranges, on as many connections: `flux_open` takes the file for neither
-- truncated nor old. The connections are otherwise new but for the first.
pub read_state-save_state :
    (size done : ℕ) (conns cs : List Conn) (file : List ℕ)
    → 0 < length cs
    → length cs ≤ 65535
    → done < 2 ^ 63
    → AreOffsets cs
    → save_state true cs done ≡ some file
    → read_state size conns file ≡ opened (with_ranges (resize (length cs) conns) cs) done
read_state-save_state size done conns cs file h u d o e =
    let n = length cs in
    rw (save_state-eq cs done file e) (
      read_state-new size n conns (saved_file cs done) (to_le 8 done ++ save_conns cs)
        (unfold saved_file in read_num-to_le 2 n (to_le 8 done ++ save_conns cs) (omega arith)) h
        (omega (arith, length-saved_file cs done))
      ∙ read_ranges-save done (resize n conns) cs d (length-resize n conns h) o)

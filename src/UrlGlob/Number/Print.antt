-- ===== src/UrlGlob/Number/Print.antt =====
-- A number that `build_range` prints is read back by `parse_uint`.
use hyperflux.Common.{
  ℕ, zero, suc, ◌+◌, ◌-◌, ◌*◌, ◌/◌, ◌%◌, ◌^◌, ◌≤◌, ◌<◌, ◌≡◌, refl, sym, ◌∙◌, inl, inr, true, some,
  [], ◌∷◌, ◌++◌, arith, ltb, Bool-cases, length, replicate, length-append, length-replicate,
}
use native.Mathlib.Nat.{pow-suc, div-lt_iff_lt-mul}
use hyperflux.UrlGlob.{Bytes}
use hyperflux.UrlGlob.Number.{long_max, parse_uint, decimal_digits, decimal, format_padded}
use hyperflux.UrlGlob.Number.Value.{AreDigits, value, parse_uint_iff}

value-append : (v : ℕ) (s t : Bytes) → value v (s ++ t) ≡ value (value v s) t
value-append v [] t = refl
value-append v (c ∷ s) t = value-append (v * 10 + (c - b'0')) s t

AreDigits-append : (s t : Bytes) → AreDigits s → AreDigits t → AreDigits (s ++ t)
AreDigits-append [] t a b = b
AreDigits-append (c ∷ s) t a b = (a.0, AreDigits-append s t a.1 b)

zeros-AreDigits : (k : ℕ) → AreDigits (replicate k b'0')
zeros-AreDigits zero = tt
zeros-AreDigits (suc k) = (refl, zeros-AreDigits k)

value-zeros : (k : ℕ) (s : Bytes) → value 0 (replicate k b'0' ++ s) ≡ value 0 s
value-zeros zero s = refl
value-zeros (suc k) s = value-zeros k s

-- The digits of `n`, at most `k` of them.
pub record Prints (k n : ℕ) (s : Bytes) : Type 0 where
  pub digits : AreDigits s
  pub stands_for : value 0 s ≡ n
  pub some_digits : 0 < length s
  pub short : length s ≤ k

Prints-snoc :
    (k n : ℕ) (front : Bytes)
    → Prints k (n / 10) front
    → Prints (suc k) n (front ++ ((b'0' + n % 10) ∷ []))
Prints-snoc k n front p =
    let last : Bytes = (b'0' + n % 10) ∷ [] in
    record {
      digits = AreDigits-append front last p.digits (ground arith, tt);
      stands_for = value-append 0 front last ∙ omega (arith, p.stands_for);
      some_digits = omega (arith, length-append front last);
      short = omega (arith, length-append front last, p.short);
    }

Prints-one : (k n : ℕ) → n < 10 → Prints (suc k) n ((b'0' + n) ∷ [])
Prints-one k n h = record {
  digits = (ground arith, tt);
  stands_for = omega arith;
  some_digits = omega arith;
  short = omega arith;
}

pub decimal_digits-Prints :
    (fuel n k : ℕ) → k < fuel → n < 10 ^ suc k → Prints (suc k) n (decimal_digits fuel n)
unfolding decimal_digits
decimal_digits-Prints zero n k f h = absurd (omega arith)
decimal_digits-Prints (suc fuel) n zero f h =
    let one : ltb n 10 ≡ true = ground arith in rw one (Prints-one 0 n (omega arith))
decimal_digits-Prints (suc fuel) n (suc k) f h = elim (Bool-cases (ltb n 10)) [
  | inl one ↦ rw one (Prints-one (suc k) n (ground arith))
  | inr more ↦
      let small : n / 10 < 10 ^ suc k =
        (div-lt_iff_lt-mul {k = 10} {x = n} {y = 10 ^ suc k} (omega arith)).1 (rw pow-suc at h) in
      rw more (Prints-snoc (suc k) n _ (decimal_digits-Prints fuel (n / 10) k (omega arith) small))
]

-- What `build_range` prints for a number, padded to the width of an end of the range, is read back
-- as that number.
pub parse_uint-format_padded :
    (width n : ℕ) → width ≤ 19 → n ≤ long_max → parse_uint (format_padded width n) ≡ some n
unfolding format_padded decimal
parse_uint-format_padded width n w h =
    let p = decimal_digits-Prints 20 n 18 (omega arith) (omega arith) in
    let d = decimal_digits 20 n in
    let pad = width - length d in
    let whole = length-append (replicate pad b'0') d in
    let zeros = length-replicate {A = ℕ} pad b'0' in
    (parse_uint_iff (replicate pad b'0' ++ d) n).1 (
      omega (arith, whole, p.some_digits),
      omega (arith, whole, zeros, p.short),
      AreDigits-append (replicate pad b'0') d (zeros-AreDigits pad) p.digits,
      sym (value-zeros pad d ∙ p.stands_for),
      h,
    )

pub length-format_padded :
    (width n : ℕ) → width ≤ 19 → n ≤ long_max → length (format_padded width n) ≤ 19
unfolding format_padded decimal
length-format_padded width n w h =
    let p = decimal_digits-Prints 20 n 18 (omega arith) (omega arith) in
    let d = decimal_digits 20 n in
    let pad = width - length d in
    omega (arith, length-append (replicate pad b'0') d, length-replicate {A = ℕ} pad b'0', p.short)

-- ===== src/UrlGlob/Number/Value.antt =====
-- `parse_uint` reads exactly the numbers of up to 19 digits that fit a `long`, and reads back what
-- is printed.
use hyperflux.Common.{
  ℕ, suc, ◌+◌, ◌-◌, ◌*◌, ◌%◌, ◌^◌, ◌≤◌, ◌<◌, ◌≡◌, refl, sym, ap, ◌∙◌, ◌↔◌, true, false, not, some,
  [], ◌∷◌, arith, ltb, length,
}
use native.Mathlib.Nat.{pow-suc, pow-le-pow_right}
use hyperflux.UrlGlob.{Bytes}
use hyperflux.UrlGlob.Number.{is_digit, long_max, parse_digits, parse_uint}

abbrev pub AreDigits : Bytes → Type 0
AreDigits [] = Unit {0}
AreDigits (c ∷ cs) = (is_digit c ≡ true) × AreDigits cs

-- The number that digits stand for, after `v`.
abbrev pub value : ℕ → Bytes → ℕ
value v [] = v
value v (c ∷ cs) = value (v * 10 + (c - b'0')) cs

pub value-le : (v : ℕ) (s : Bytes) → v ≤ value v s
value-le v [] = omega arith
value-le v (c ∷ cs) = omega (arith, value-le (v * 10 + (c - b'0')) cs)

-- With room for the digits to come below 2 ^ 64 the accumulator does not wrap.
parse_digits-value :
    (s : Bytes) (v k : ℕ)
    → AreDigits s
    → v < 10 ^ k
    → k + length s ≤ 19
    → value v s ≤ long_max
    → parse_digits v s ≡ some (value v s)
unfolding parse_digits
parse_digits-value [] v k d h l m = refl
parse_digits-value (c ∷ cs) v k d h l m =
    let v' = v * 10 + (c - b'0') in
    let grows : v' < 10 ^ suc k = rw pow-suc (ground (arith, d.0)) in
    let small : v' ≤ long_max = omega (arith, value-le v' cs) in
    let whole : v' % 2 ^ 64 ≡ v' = omega arith in
    let rest = parse_digits-value cs v' (suc k) d.1 grows (omega arith) m in
    let digit : not (is_digit c) ≡ false = ground (arith, d.0) in
    let fits : ltb long_max v' ≡ false = ground arith in rw (digit, whole, fits) rest

parse_digits-cons :
    (c : ℕ) (cs : Bytes) (v n : ℕ)
    → v < 10 ^ 18
    → parse_digits v (c ∷ cs) ≡ some n
    → (is_digit c ≡ true)
      × (v * 10 + (c - b'0') ≤ long_max)
      × (parse_digits (v * 10 + (c - b'0')) cs ≡ some n)
unfolding parse_digits
parse_digits-cons c cs v n h e =
    let digit : is_digit c ≡ true = ground arith in
    let whole : (v * 10 + (c - b'0')) % 2 ^ 64 ≡ v * 10 + (c - b'0') = ground (arith, digit) in
    (digit, ground (arith, whole), (ap (λ x. parse_digits x cs) (sym whole) ∙ ground arith))

parse_digits-some :
    (s : Bytes) (v k n : ℕ)
    → v < 10 ^ k
    → k + length s ≤ 19
    → v ≤ long_max
    → parse_digits v s ≡ some n
    → AreDigits s × (n ≡ value v s) × (n ≤ long_max)
parse_digits-some [] v k n h l m e = unfold parse_digits in (tt, ground arith, ground arith)
parse_digits-some (c ∷ cs) v k n h l m e =
    let bound : 10 ^ k ≤ 10 ^ 18 =
      pow-le-pow_right {n = 10} (omega arith) {i = k} {j = 18} (omega arith) in
    let (digit, fits, more) = parse_digits-cons c cs v n (omega arith) e in
    let grows : v * 10 + (c - b'0') < 10 ^ suc k = rw pow-suc (ground (arith, digit)) in
    let (digits, eq, small) =
      parse_digits-some cs (v * 10 + (c - b'0')) (suc k) n grows (omega arith) fits more in
    ((digit, digits), eq, small)

-- `parse_uint` accepts one to 19 digits that stand for a number which fits a `long`, returns that
-- number, and accepts nothing else.
pub parse_uint_iff :
    (s : Bytes) (n : ℕ)
    → (parse_uint s ≡ some n)
      ↔ ((0 < length s) × (length s ≤ 19) × AreDigits s × (n ≡ value 0 s) × (n ≤ long_max))
unfolding parse_uint
parse_uint_iff s n = (
  λ e.
      let some_digits : 0 < length s = ground arith in
      let few : length s ≤ 19 = ground arith in
      let (d, v, m) =
        parse_digits-some s 0 0 n (omega arith) (omega arith) (omega arith) (ground arith) in
      (some_digits, few, d, v, m),
  λ h. ground (arith, parse_digits-value s 0 0 h.2 (omega arith) (omega arith) (omega arith)),
)

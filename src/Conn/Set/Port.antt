-- ===== src/Conn/Set/Port.antt =====
-- A port number that "%i" prints is read back by "%i".
use hyperflux.Common.{
  ℕ, zero, suc, ◌+◌, ◌-◌, ◌*◌, ◌/◌, ◌%◌, ◌^◌, ◌<◌, ◌≡◌, refl, ap, ◌∙◌, inl, inr, true, false, some,
  [], ◌∷◌, ◌++◌, arith, ltb, ◌==◌, Bool-cases,
}
use native.Mathlib.Nat.{pow-suc, div-lt_iff_lt-mul}
use hyperflux.Libc.{Text}
use hyperflux.Libc.Int.{ℤ, pos, to_int32}
use hyperflux.Libc.Number.{
  is_digit, is_space, to_long, signed, skip_space, read_digits, read_based, scan_based,
}
use hyperflux.UrlGlob.Number.{decimal_digits, decimal}
use hyperflux.UrlGlob.Number.Value.{AreDigits, value}
use hyperflux.UrlGlob.Number.Print.{decimal_digits-Prints}
use hyperflux.Conn.Set.{read_port}

-- A number above 0 is not printed with a 0 in front, which would make it octal.
unfoldable pub Leads : Text → Type 0
Leads [] = ⊥
Leads (c ∷ s) = (c == b'0') ≡ false

Leads-append : (a b : Text) → Leads a → Leads (a ++ b)
unfolding Leads
Leads-append [] b h = absurd h
Leads-append (c ∷ a) b h = h

decimal_digits-Leads : (fuel n : ℕ) → 0 < n → n < 10 ^ fuel → Leads (decimal_digits fuel n)
unfolding decimal_digits Leads
decimal_digits-Leads zero n positive h = absurd (omega (arith, positive, h))
decimal_digits-Leads (suc fuel) n positive h = elim (Bool-cases (ltb n 10)) [
  | inl one ↦ rw one (ground (arith, positive, one))
  | inr more ↦
      let small : n / 10 < 10 ^ fuel =
        (div-lt_iff_lt-mul {k = 10} {x = n} {y = 10 ^ fuel} (omega arith)).1 (rw pow-suc at h) in
      rw more (
        Leads-append _ ((b'0' + n % 10) ∷ [])
          (decimal_digits-Leads fuel (n / 10) (ground (arith, more)) small))
]

read_digits-value : (v : ℕ) (s : Text) → AreDigits s → read_digits v s ≡ (value v s, [])
unfolding read_digits
read_digits-value v [] h = refl
read_digits-value v (c ∷ s) h = rw h.0 (read_digits-value (v * 10 + (c - b'0')) s h.1)

skip_space-stays : (c : ℕ) (s : Text) → is_space c ≡ false → skip_space (c ∷ s) ≡ c ∷ s
unfolding skip_space
skip_space-stays c s e = rw e refl

scan_based-first :
    (c : ℕ) (s : Text)
    → is_space c ≡ false
    → (c == b'-') ≡ false
    → (c == b'+') ≡ false
    → scan_based (c ∷ s) ≡ signed false (read_based (c ∷ s))
unfolding scan_based
scan_based-first c s space minus plus =
    rw (skip_space-stays c s space, scan_based) (rw (minus, plus) refl)

read_based-decimal :
    (c : ℕ) (s : Text)
    → (c == b'0') ≡ false
    → is_digit c ≡ true
    → read_based (c ∷ s) ≡ some (read_digits 0 (c ∷ s))
unfolding read_based
read_based-decimal c s zero_ digit = rw (zero_, digit) refl

to_int32-small : (n : ℕ) → n < 2 ^ 31 → to_int32 (to_long false n) ≡ pos n
unfolding to_int32
to_int32-small n h = ground (arith, h)

scan_based-digits :
    (s : Text) → AreDigits s → Leads s → value 0 s < 2 ^ 31 → scan_based s ≡ some (pos (value 0 s))
unfolding Leads
scan_based-digits [] h l small = absurd l
scan_based-digits (c ∷ s) h l small =
    scan_based-first c s (ground (arith, h.0)) (ground (arith, h.0)) (ground (arith, h.0))
    ∙ ap (signed false) (read_based-decimal c s l h.0 ∙ ap some (read_digits-value 0 (c ∷ s) h))
    ∙ ap some (to_int32-small (value 0 (c ∷ s)) small)

pub decimal-AreDigits : (n : ℕ) → n < 2 ^ 31 → AreDigits (decimal n)
unfolding decimal
decimal-AreDigits n h = (decimal_digits-Prints 20 n 9 (omega arith) (omega (arith, h))).digits

-- The port of a ':' and a number above 0 that an `int` holds.
pub read_port-decimal :
    (n : ℕ) (port : ℤ) → 0 < n → n < 2 ^ 31 → read_port (b':' ∷ decimal n) port ≡ pos n
unfolding read_port decimal
read_port-decimal n port positive h =
    let p = decimal_digits-Prints 20 n 9 (omega arith) (omega (arith, h)) in
    let leads = decimal_digits-Leads 20 n positive (omega (arith, h)) in
    let small : value 0 (decimal_digits 20 n) < 2 ^ 31 = rw p.stands_for h in
    rw (scan_based-digits (decimal_digits 20 n) p.digits leads small) (ap pos p.stands_for)

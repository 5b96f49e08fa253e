-- ===== src/Abuf/Append.antt =====
-- What `abuf_strcat` leaves in the buffer.
use hyperflux.Common.{
  ℕ, zero, suc, ◌+◌, ◌-◌, ◌≤◌, ◌<◌, ◌≡◌, refl, ap, ap₂, ◌∙◌, true, false, some, List, [], ◌∷◌, ◌++◌,
  arith, ltb, length, take, drop, take-append-drop, length-take, length-drop,
}
use hyperflux.Libc.{span_until}
use hyperflux.Libc.Cuts.{Free, Starts, span_until-append, take-all}
use hyperflux.Abuf.{is_nul, strlcat, strcat_behind, abuf_strcat}

drop-append : (a b : List ℕ) (m n : ℕ) → m ≡ length a + n → drop m (a ++ b) ≡ drop n b
drop-append [] b m n e = let same : m ≡ n = omega (arith, e) in rw same refl
drop-append (x ∷ a) b zero n e = absurd (omega (arith, e))
drop-append (x ∷ a) b (suc m) n e = drop-append a b m n (omega (arith, e))

take-append : (n : ℕ) (a b : List ℕ) → n ≤ length a → take n (a ++ b) ≡ take n a
take-append zero a b h = refl
take-append (suc n) [] b h = absurd (omega (arith, h))
take-append (suc n) (x ∷ a) b h = ap (◌∷◌ x) (take-append n a b (omega (arith, h)))

drop-append_le : (n : ℕ) (a b : List ℕ) → n ≤ length a → drop n (a ++ b) ≡ drop n a ++ b
drop-append_le zero a b h = refl
drop-append_le (suc n) [] b h = absurd (omega (arith, h))
drop-append_le (suc n) (x ∷ a) b h = drop-append_le n a b (omega (arith, h))

-- The text of a buffer that a NUL ends.
held : (text rest : List ℕ) → Free is_nul text → (span_until is_nul (text ++ (0 ∷ rest))).0 ≡ text
unfolding Starts
held text rest free = ap (λ p. p.0) (span_until-append is_nul text (0 ∷ rest) free refl)

strlcat-fits :
    (text rest src : List ℕ)
    → length text + length src < length (text ++ (0 ∷ rest))
    → strlcat text (text ++ (0 ∷ rest)) src ≡ text ++ (src ++ (0 ∷ drop (length src) rest))
unfolding strlcat
strlcat-fits text rest src fits =
    let mem = text ++ (0 ∷ rest) in
    let whole : take (length mem - 1 - length text) src ≡ src =
      take-all _ src (omega (arith, fits)) in
    ap (λ added. text ++ (added ++ (0 ∷ drop (suc (length text + length added)) mem))) whole
    ∙ ap (λ s. text ++ (src ++ (0 ∷ s)))
        (drop-append text (0 ∷ rest) (suc (length text + length src)) (suc (length src))
          (omega arith))

-- A text that fits behind the one in the buffer is put there whole, with a NUL, and the bytes behind it stay.
pub abuf_strcat-append :
    (text rest src : List ℕ)
    → Free is_nul text
    → length text + length src < length (text ++ (0 ∷ rest))
    → abuf_strcat (text ++ (0 ∷ rest)) src ≡ some (text ++ (src ++ (0 ∷ drop (length src) rest)))
unfolding abuf_strcat strcat_behind
abuf_strcat-append text rest src free fits =
    let mem = text ++ (0 ∷ rest) in
    let small : ltb (length mem) (length text + length src) ≡ false = ground (arith, fits) in
    ap (λ t. strcat_behind t mem src) (held text rest free)
    ∙ rw small (ap some (strlcat-fits text rest src fits))

take-front :
    (n : ℕ) (src after : List ℕ) → n ≤ length src → take n (take (n - 0) src ++ after) ≡ take n src
take-front n src after h =
    let same : n - 0 ≡ n = omega arith in
    let front = take n src in
    ap (λ k. take n (take k src ++ after)) same
    ∙ take-append n front after (omega (arith, length-take n src, h))
    ∙ take-all n front (omega (arith, length-take n src))

drop-end :
    (n : ℕ) (src : List ℕ)
    → n ≤ length src
    → take (0 + length src - n) (drop n (src ++ (0 ∷ []))) ≡ drop n src
drop-end n src h =
    let back = drop n src in
    let len = length-drop n src in
    ap (take (0 + length src - n)) (drop-append_le n src (0 ∷ []) h)
    ∙ take-append (0 + length src - n) back (0 ∷ []) (omega (arith, len))
    ∙ take-all (0 + length src - n) back (omega (arith, len))

-- A text that does not fit an empty buffer fills the memory that is made for it, and no NUL ends it.
pub abuf_strcat-unterminated :
    (rest src : List ℕ) → length (0 ∷ rest) < length src → abuf_strcat (0 ∷ rest) src ≡ some src
unfolding abuf_strcat strcat_behind strlcat span_until
abuf_strcat-unterminated rest src long =
    let mem : List ℕ = 0 ∷ rest in
    let done = length mem - 1 in
    let below : done ≤ length src = omega (arith, long) in
    let large : ltb (length mem) (0 + length src) ≡ true = ground (arith, long) in
    let inside : ltb (suc (length src)) (0 + length src) ≡ false = ground arith in
    let first : take done (
          take (length mem - 1 - 0) src
          ++ (0 ∷ drop (suc (0 + length (take (length mem - 1 - 0) src))) mem))
        ≡ take done src =
      take-front done src _ below in
    let second : take (0 + length src - done) (drop done (src ++ (0 ∷ []))) ≡ drop done src =
      drop-end done src below in
    rw (large, inside) (ap some (ap₂ ◌++◌ first second ∙ take-append-drop done src))

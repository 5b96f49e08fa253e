-- ===== src/DnMatch.antt =====
-- src/dn-match.c: a host's name against a name in a certificate. `pat` is the pattern up to its first NUL
-- and `pat_len` the length that the certificate gives.
pub mod Plain
use hyperflux.Common.{
  ℕ, ◌+◌, ◌-◌, ◌%◌, ◌^◌, Bool, true, false, ◌&&◌, ◌||◌, Option, none, some, [], ◌∷◌, ltb, ◌==◌,
  if◌then◌else◌, length, drop,
}
use hyperflux.Libc.{Text, same_nocase, after_prefix_nocase, span_until}

pub data Match : Type 0 where
  malformed : Match
  matched : Match
  not_matched : Match

-- Subtraction of two `size_t`.
abbrev pub minus_size : ℕ → ℕ → ℕ
minus_size a b = (a + 2 ^ 64 - b) % 2 ^ 64

abbrev pub dot : ℕ → Bool
dot c = c == b'.'

abbrev pub dot_or_star : ℕ → Bool
dot_or_star c = c == b'.' || c == b'*'

abbrev pub starts_with_star : Text → Bool
starts_with_star [] = false
starts_with_star (c ∷ s) = c == b'*'

abbrev pub ace_prefix : Text
ace_prefix = b'x' ∷ b'n' ∷ b'-' ∷ b'-' ∷ []

-- The end: `right` is 0 without a wildcard.
unfoldable pub compare_right : Text → Text → ℕ → ℕ → Match
compare_right hostname pat pat_len right =
    if pat_len == minus_size right (length (drop right pat))
    then malformed
    else if same_nocase hostname pat
    then matched
    else not_matched

-- Behind the '*' of the pattern.
unfoldable pub compare_wildcard : Text → Text → ℕ → Match
compare_wildcard hostname pat pat_len =
    let right = length (span_until dot pat).0 in
    let rem = length (span_until dot hostname).0 in
    if ltb rem right
    then not_matched
    else compare_right (drop (rem - right) hostname) pat pat_len right

-- `pat` from its first wildcard or dot on, and the host behind the part before.
unfoldable pub compare_rest : Text → Text → ℕ → Match
compare_rest hostname [] pat_len = compare_right hostname [] pat_len 0
compare_rest hostname (c ∷ pat) pat_len =
    if c == b'*'
    then compare_wildcard hostname pat (minus_size pat_len 1)
    else compare_right hostname (c ∷ pat) pat_len 0

abbrev pub is_some_text : Option Text → Bool
is_some_text none = false
is_some_text (some t) = true

unfoldable pub dn_match : Text → Text → ℕ → Match
dn_match hostname pat pat_len =
    let parts = span_until dot_or_star pat in
    if starts_with_star parts.1 && is_some_text (after_prefix_nocase ace_prefix hostname)
    then not_matched
    else elim (after_prefix_nocase parts.0 hostname) [
      | none ↦ not_matched
      | some rest ↦ compare_rest rest parts.1 (minus_size pat_len (length parts.0))
    ]

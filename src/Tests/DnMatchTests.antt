-- ===== src/Tests/DnMatchTests.antt =====
-- Names of certificates and buffers on small inputs.
use hyperflux.Common.{◌≡◌, refl, true, none, some, [], ◌∷◌, ◌++◌, arith}
use Prim.Native.Char.{code}
use Prim.Native.String.{String}
use hyperflux.Libc.{Text, same_nocase, after_prefix_nocase, span_until}
use hyperflux.Libc.Cuts.{Free, Starts}
use hyperflux.DnMatch.{
  dn_match, matched, malformed, not_matched, compare_rest, compare_right, compare_wildcard,
}
use hyperflux.DnMatch.Plain.{dn_match-matched, dn_match-itself}
use hyperflux.Abuf.{abuf_strcat, strcat_behind, strlcat}

abbrev codes : String → Text
codes String.[] = []
codes (String.◌∷◌ c s) = code c ∷ codes s

upper_matches : dn_match (codes "H.ORG") (codes "h" ++ codes ".org") 5 ≡ matched
unfolding dn_match compare_rest compare_right span_until same_nocase after_prefix_nocase
upper_matches = refl

dn_match-matched_example : same_nocase (codes "H.ORG") (codes "h" ++ codes ".org") ≡ true
unfolding Free Starts
dn_match-matched_example =
    dn_match-matched (codes "H.ORG") (codes "h") (codes ".org") 5 (ground arith) refl upper_matches

-- The certificate's name is "h.org", a NUL and 20 more bytes.
dn_match-itself_example :
    dn_match (codes "h" ++ codes ".org") (codes "h" ++ codes ".org") 26 ≡ matched
unfolding Free
dn_match-itself_example =
    dn_match-itself (codes "h") (codes "org") 26 (ground arith) (omega arith) (omega arith)

wildcard : dn_match (codes "www.h.org") (codes "w*.h.org") 8 ≡ matched
unfolding dn_match compare_rest compare_wildcard compare_right span_until same_nocase
    after_prefix_nocase
wildcard = refl

wildcard_label : dn_match (codes "a.b.h.org") (codes "*.h.org") 7 ≡ not_matched
unfolding dn_match compare_rest compare_wildcard compare_right span_until same_nocase
    after_prefix_nocase
wildcard_label = refl

-- A length that is just the buffer's is not taken as too long: the last byte is lost.
strcat_cut : abuf_strcat (codes "ab" ++ (0 ∷ 0 ∷ [])) (codes "cd") ≡ some (codes "abc" ++ (0 ∷ []))
unfolding abuf_strcat strcat_behind strlcat span_until
strcat_cut = refl

-- Behind a text, the bytes are read from behind the end of the source.
strcat_overread : abuf_strcat (codes "ab" ++ (0 ∷ 0 ∷ [])) (codes "cdef") ≡ none
unfolding abuf_strcat strcat_behind strlcat span_until
strcat_overread = refl

dotless : dn_match (codes "localhost") (codes "localhost") 9 ≡ malformed
unfolding dn_match compare_rest compare_right span_until same_nocase after_prefix_nocase
dotless = refl

-- No NUL ends a text that fills an empty buffer.
strcat_unterminated : abuf_strcat (0 ∷ 0 ∷ []) (codes "abc") ≡ some (codes "abc")
unfolding abuf_strcat strcat_behind strlcat span_until
strcat_unterminated = refl

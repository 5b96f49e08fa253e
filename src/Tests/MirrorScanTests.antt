-- ===== src/Tests/MirrorScanTests.antt =====
-- The candidates of a page on small inputs; the scores are natural numbers here.
use hyperflux.Common.{
  ℕ, ◌⊎◌, ◌↔◌, ◌≡◌, refl, true, false, none, some, List, [], ◌∷◌, arith, ltb, ◌==◌, Every, Pairwise,
  map,
}
use hyperflux.Libc.{
  Text, same, same_nocase, after_prefix, after_prefix_nocase, cut_at, span_until, find_text,
}
use hyperflux.MirrorScan.{Candidate, unknown, player, file, hls}
use hyperflux.MirrorScan.Classify.{
  codes, url_host, scan_is_ad_host, classify_url_ext, classify_default, classify_custom, has_ext,
  dot_ext, is_ad_from, is_ad_entry, on_boundary, ad_hosts,
}
use hyperflux.MirrorScan.Classify.Ads.{Some, IsUnder, is_adservice, scan_is_ad_host_iff}
use hyperflux.MirrorScan.Table.{add_candidate, new_candidate}
use hyperflux.MirrorScan.Table.Valid.{IsValid, add_candidate-IsValid}
use hyperflux.MirrorScan.Sort.{sort_candidates, sort_from, shift, turn_onto}
use hyperflux.MirrorScan.Sort.Order.{IsDescending, keep, sort_candidates-sorted}

abbrev page : Text
page = codes "http://h.org/d/"

abbrev once : List (Candidate ℕ)
once = add_candidate 0 page none (codes "a.mp4") unknown []

add_candidate-IsValid_example :
    IsValid page none (add_candidate 0 page none (codes "http://h.org/d/a.mp4") player once)
unfolding IsValid Every Pairwise
add_candidate-IsValid_example =
    add_candidate-IsValid page none 0 (codes "http://h.org/d/a.mp4") player once
      (add_candidate-IsValid page none 0 (codes "a.mp4") unknown [] (omega arith, tt, tt))

abbrev scored : ℕ → ℕ → Candidate ℕ
scored depth score = record (new_candidate 0 (codes "u") (codes "u") file unknown) {
  score = score;
  depth = depth;
}

abbrev page_candidates : List (Candidate ℕ)
page_candidates = scored 1 5 ∷ scored 2 7 ∷ scored 3 5 ∷ scored 4 9 ∷ []

sort_candidates-sorted_example :
    IsDescending ltb (sort_candidates ltb page_candidates)
    × (keep (λ c. c.score == 5) (sort_candidates ltb page_candidates)
        ≡ keep (λ c. c.score == 5) page_candidates)
sort_candidates-sorted_example =
    sort_candidates-sorted ltb (λ a b h. ground arith) (λ a b c h k. ground arith) page_candidates
      (λ c. c.score == 5) (λ x y h k. ground arith)

scan_is_ad_host_iff_example : (scan_is_ad_host (codes "ads.DoubleClick.net") ≡ true) ↔ (
    Some (λ ad. IsUnder ad (codes "ads.DoubleClick.net")) ad_hosts
    ⊎ (is_adservice (codes "ads.DoubleClick.net") ≡ true))
scan_is_ad_host_iff_example = scan_is_ad_host_iff (codes "ads.DoubleClick.net") refl

under_advertiser : scan_is_ad_host (codes "ads.DoubleClick.net") ≡ true
unfolding scan_is_ad_host is_ad_from is_ad_entry on_boundary same same_nocase after_prefix_nocase
under_advertiser = refl

no_boundary : scan_is_ad_host (codes "notmgid.com") ≡ false
unfolding scan_is_ad_host is_ad_from is_ad_entry on_boundary same same_nocase after_prefix_nocase
no_boundary = refl

host_of_url : url_host (codes "http://Me@H.org:80/a?b") ≡ some (codes "h.org")
unfolding url_host find_text span_until cut_at after_prefix
host_of_url = refl

-- Of an address in brackets, the text up to its first ':' is taken as the host.
host_of_address : url_host (codes "http://[::1]/a") ≡ some (codes "[")
unfolding url_host find_text span_until cut_at after_prefix
host_of_address = refl

playlist_kind : classify_url_ext (codes "http://h/a.M3U8?x=1.mp4") none ≡ some hls
unfolding classify_url_ext classify_default has_ext dot_ext span_until after_prefix_nocase
playlist_kind = refl

custom_kind : classify_url_ext (codes "http://h/a.iso") (some ([] ∷ codes "iso" ∷ [])) ≡ some file
unfolding classify_url_ext classify_custom has_ext dot_ext span_until after_prefix_nocase
custom_kind = refl

sorted_depths : map (λ c. c.depth) (sort_candidates ltb page_candidates) ≡ 4 ∷ 2 ∷ 1 ∷ 3 ∷ []
unfolding sort_candidates sort_from shift turn_onto
sorted_depths = refl

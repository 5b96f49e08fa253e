-- ===== src/MirrorScan/Classify/Ads.antt =====
-- Which hosts `scan_is_ad_host` of src/scan.c calls an advertiser's.
use hyperflux.Common.{
  ℕ, zero, suc, ◌-◌, ◌≤◌, ◌≡◌, refl, sym, ap, ◌∙◌, ◌↔◌, ◌⊎◌, inl, inr, Bool, true, false, not, ◌&&◌,
  List, [], ◌∷◌, ◌++◌, arith, ltb, ◌==◌, if◌then◌else◌, Bool-cases, length, take, drop, tests,
  length-append, take-append-drop, drop-append_length, drop-head,
}
use hyperflux.Libc.{Text, same, same_refl, same_eq, is_empty, same_nocase, after_prefix_nocase}
use hyperflux.MirrorScan.Classify.{
  codes, ad_hosts, is_some_text, on_boundary, is_ad_entry, is_ad_from, scan_is_ad_host,
}

-- `host` is `ad` in some case, or ends in a dot and `ad`.
pub data IsUnder (ad host : Text) : Type 0 where
  itself : same_nocase host ad ≡ true → IsUnder ad host
  below :
      (sub tail : Text) → host ≡ sub ++ (b'.' ∷ tail) → same_nocase tail ad ≡ true → IsUnder ad host

-- `P` holds of some element.
pub data Some (P : Text → Type 0) : List Text → Type 0 where
  here : {x : Text} {xs : List Text} → P x → Some P (x ∷ xs)
  there : {x : Text} {xs : List Text} → Some P xs → Some P (x ∷ xs)

both_true : (a b : Bool) → a && b ≡ true → (a ≡ true) × (b ≡ true)
both_true true b h = (refl, h)
both_true false b h = cc

length-same_nocase : (s t : Text) → same_nocase s t ≡ true → length s ≡ length t
unfolding same_nocase
length-same_nocase [] [] h = refl
length-same_nocase [] (y ∷ t) h = cc
length-same_nocase (x ∷ s) [] h = cc
length-same_nocase (x ∷ s) (y ∷ t) h = ap suc (length-same_nocase s t (both_true _ _ h).1)

-- `o` stands from the byte before the suffix on.
dot-IsUnder :
    (ad host : Text) (n : ℕ) (o : Text)
    → drop n host ≡ o
    → same_nocase (drop (suc n) host) ad ≡ true
    → elim o as (λ _. Bool) [ [] ↦ false | c ∷ s ↦ c == b'.' ] ≡ true
    → IsUnder ad host
dot-IsUnder ad host n [] e h k = absurd (cc)
dot-IsUnder ad host n (c ∷ s) e h k =
    let dot : c ≡ b'.' = ground arith in
    let rest = (drop-head n host c s e).1 in
    below (take n host) s
      (sym (take-append-drop n host) ∙ ap (◌++◌ (take n host)) (e ∙ ap (λ d. d ∷ s) dot))
      (ap (λ t. same_nocase t ad) (sym rest) ∙ h)

-- From a suffix to the text before it.
on_boundary-IsUnder :
    (ad host : Text) (n : ℕ)
    → same_nocase (drop n host) ad ≡ true
    → on_boundary host n ≡ true
    → IsUnder ad host
unfolding on_boundary
on_boundary-IsUnder ad host zero h k = itself h
on_boundary-IsUnder ad host (suc n) h k = dot-IsUnder ad host n (drop n host) refl h k

-- What `is_ad_entry` tests behind its first test.
Ends : Text → Text → Type 0
Ends ad host =
    (length ad ≤ length host)
    × (same_nocase (drop (length host - length ad) host) ad ≡ true)
    × (on_boundary host (length host - length ad) ≡ true)

Ends-behind :
    (ad host tail : Text) (k n : ℕ)
    → n ≡ suc k
    → drop k host ≡ b'.' ∷ tail
    → same_nocase tail ad ≡ true
    → (same_nocase (drop n host) ad ≡ true) × (on_boundary host n ≡ true)
unfolding on_boundary
Ends-behind ad host tail k n e at_dot h =
    let behind = (drop-head k host b'.' tail at_dot).1 in
    (rw (e, behind) h, rw (e, on_boundary, at_dot) refl)

IsUnder-Ends : (ad host : Text) → IsUnder ad host → Ends ad host
unfolding on_boundary Ends
IsUnder-Ends ad host (itself h) =
    let same_length = length-same_nocase host ad h in
    let all : length host - length ad ≡ 0 = omega (arith, same_length) in
    (omega (arith, same_length), rw all h, rw all refl)
IsUnder-Ends ad host (below sub tail e h) =
    let same_length = length-same_nocase tail ad h in
    let size = ap length e ∙ length-append sub (b'.' ∷ tail) in
    let start : length host - length ad ≡ suc (length sub) = omega (arith, same_length, size) in
    let at_dot = ap (drop (length sub)) e ∙ drop-append_length sub (b'.' ∷ tail) in
    let found = Ends-behind ad host tail (length sub) (length host - length ad) start at_dot h in
    (omega (arith, same_length, size), found.0, found.1)

-- The name with the `*`, and the test for it.
abbrev pub any_adservice : Text
any_adservice = codes "adservice.google.com"

abbrev pub is_adservice : Text → Bool
is_adservice host = is_some_text (after_prefix_nocase (codes "adservice.") host)

-- `host` is under one of the names, or the name with the `*` is one of them and fits.
unfoldable pub IsAd : List Text → Text → Type 0
IsAd ads host =
    Some (λ ad. IsUnder ad host) ads
    ⊎ (Some (λ ad. ad ≡ any_adservice) ads × (is_adservice host ≡ true))

entry-there : (ad : Text) (ads : List Text) (host : Text) → IsAd ads host → IsAd (ad ∷ ads) host
unfolding IsAd
entry-there ad ads host (inl u) = inl (there u)
entry-there ad ads host (inr (a, b)) = inr (there a, b)

-- The tests of `is_ad_entry`, as truth values.
entry_cases :
    (a b c d : Bool)
    → (if a then true else if b then false else if not c then false else d) ≡ true
    → (a ≡ true) ⊎ ((b ≡ false) × (c ≡ true) × (d ≡ true))
entry_cases true b c d h = inl refl
entry_cases false false true d h = inr (refl, refl, h)
entry_cases false false false d h = cc
entry_cases false true c d h = cc

is_ad_entry-IsAd :
    (host ad : Text) (ads : List Text) → is_ad_entry host ad ≡ true → IsAd (ad ∷ ads) host
unfolding is_ad_entry IsAd
is_ad_entry-IsAd host ad ads h =
    let start = length host - length ad in
    elim (entry_cases (same ad any_adservice && is_adservice host) (ltb (length host) (length ad))
      (same_nocase (drop start host) ad) (on_boundary host start) h) [
        | inl e ↦
            let both = both_true (same ad any_adservice) (is_adservice host) e in
            inr (here (same_eq ad any_adservice both.0), both.1)
        | inr e ↦ inl (here (on_boundary-IsUnder ad host start e.1 e.2))
      ]

is_ad_entry-under : (host ad : Text) → IsUnder ad host → is_ad_entry host ad ≡ true
unfolding is_ad_entry Ends
is_ad_entry-under host ad u =
    let ends = IsUnder-Ends ad host u in
    let long : ltb (length host) (length ad) ≡ false = grind (tests, ends.0) in
    elim (Bool-cases (same ad any_adservice && is_adservice host)) [
      | inl e ↦ rw e refl
      | inr e ↦ rw (e, long, ends.1) ends.2
    ]

is_ad_entry-adservice :
    (host ad : Text) → ad ≡ any_adservice → is_adservice host ≡ true → is_ad_entry host ad ≡ true
unfolding is_ad_entry
is_ad_entry-adservice host ad e h =
    rw (ap (λ t. same t any_adservice) e ∙ same_refl any_adservice, h) refl

is_ad_from-IsAd : (host : Text) (ads : List Text) → is_ad_from host ads ≡ true → IsAd ads host
unfolding is_ad_from
is_ad_from-IsAd host [] h = cc
is_ad_from-IsAd host (ad ∷ ads) h = elim (Bool-cases (is_ad_entry host ad)) [
  | inl e ↦ is_ad_entry-IsAd host ad ads e
  | inr e ↦ entry-there ad ads host (is_ad_from-IsAd host ads (rw e at h))
]

later :
    (host ad : Text) (ads : List Text)
    → is_ad_from host ads ≡ true
    → is_ad_from host (ad ∷ ads) ≡ true
unfolding is_ad_from
later host ad ads h = elim (Bool-cases (is_ad_entry host ad)) [ inl e ↦ rw e refl | inr e ↦ rw e h ]

IsAd-is_ad_from : (host : Text) (ads : List Text) → IsAd ads host → is_ad_from host ads ≡ true
unfolding is_ad_from IsAd
IsAd-is_ad_from host [] (inl u) = elim u [ ]
IsAd-is_ad_from host [] (inr (a, b)) = elim a [ ]
IsAd-is_ad_from host (ad ∷ ads) (inl (here u)) = rw (is_ad_entry-under host ad u) refl
IsAd-is_ad_from host (ad ∷ ads) (inl (there u)) =
    later host ad ads (IsAd-is_ad_from host ads (inl u))
IsAd-is_ad_from host (ad ∷ ads) (inr (here e, h)) = rw (is_ad_entry-adservice host ad e h) refl
IsAd-is_ad_from host (ad ∷ ads) (inr (there a, h)) =
    later host ad ads (IsAd-is_ad_from host ads (inr (a, h)))

-- A host that is not empty is an advertiser's exactly if it is one of the names of the list, in some
-- case, or ends in a dot and one of them, or starts with "adservice.".
pub scan_is_ad_host_iff :
    (host : Text)
    → is_empty host ≡ false
    → (scan_is_ad_host host ≡ true)
      ↔ (Some (λ ad. IsUnder ad host) ad_hosts ⊎ (is_adservice host ≡ true))
unfolding scan_is_ad_host IsAd
scan_is_ad_host_iff host h =
    let named : Some (λ ad. ad ≡ any_adservice) ad_hosts =
      there (there (there (there (here refl)))) in
    rw h (
      λ k. elim (is_ad_from-IsAd host ad_hosts k) [ inl u ↦ inl u | inr b ↦ inr b.1 ],
      λ k. elim k [
        | inl u ↦ IsAd-is_ad_from host ad_hosts (inl u)
        | inr b ↦ IsAd-is_ad_from host ad_hosts (inr (named, b))
      ],
    )

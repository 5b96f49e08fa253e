-- ===== src/Extractor/Store/Lookup.antt =====
-- What the variable store gives back.
use hyperflux.Common.{
  ◌≤◌, ◌≡◌, refl, sym, ap, ◌≢◌, ◌↔◌, inl, inr, true, false, Option, none, some, [], ◌∷◌, ◌++◌,
  arith, ltb, if◌then◌else◌, Bool-cases, Option-cases, length,
}
use hyperflux.Extractor.{Text, same, same_refl, same_eq, extractor_max_vars}
use hyperflux.Extractor.Store.{Store, store_get, replaced, store_set}

same_off : (a n m : Text) → same a n ≡ true → same n m ≡ same a m
same_off a n m h = ap (λ x. same x m) (sym (same_eq a n h))

same_common : (a n m : Text) → same a m ≡ true → same n m ≡ true → same a n ≡ true
same_common a n m h k = rw (same_eq a m h, same_eq n m k) (same_refl m)

-- What a variable of another name shadows.
shadowed :
    (a n m : Text) (v x : Text) (below : Option Text)
    → same a n ≡ false
    → (if same a m then some x else if same n m then some v else below)
      ≡ (if same n m then some v else if same a m then some x else below)
shadowed a n m v x below h = elim (Bool-cases (same a m)) [
  | inl k ↦ elim (Bool-cases (same n m)) [
    | inl l ↦ ground (arith, h, same_common a n m k l)
    | inr l ↦ rw (k, l)
  ]
  | inr k ↦ rw k
]

get-append :
    (st : Store) (n m v : Text)
    → store_get st n ≡ none
    → store_get (st ++ (record { name = n; value = v } ∷ [])) m
      ≡ (if same n m then some v else store_get st m)
unfolding store_get
get-append [] n m v h = refl
get-append (x ∷ st) n m v h = elim (Bool-cases (same x.name n)) [
  | inl e ↦ ground (arith, h, e)
  | inr e ↦
      let off : store_get st n ≡ none = ground (arith, h, e) in
      rw (get-append st n m v off) (shadowed x.name n m v x.value (store_get st m) e)
]

replaced-get :
    (st s : Store) (n v m : Text)
    → replaced st n v ≡ some s
    → store_get s m ≡ (if same n m then some v else store_get st m)
unfolding store_get replaced
replaced-get [] s n v m h = ground arith
replaced-get (x ∷ st) s n v m h = elim (Bool-cases (same x.name n)) [
  | inl e ↦
      let got : (record x { value = v } ∷ st) ≡ s = ground (arith, h, e) in
      rw (sym got, same_off x.name n m e) (ground arith)
  | inr e ↦ elim (Option-cases (replaced st n v)) [
    | inl k ↦ ground (arith, h, e, k)
    | inr (s', k) ↦
        let got : (x ∷ s') ≡ s = ground (arith, h, e, k) in
        rw (sym got, replaced-get st s' n v m k) (shadowed x.name n m v x.value (store_get st m) e)
  ]
]

replaced-none : (st : Store) (n v : Text) → replaced st n v ≡ none → store_get st n ≡ none
unfolding store_get replaced
replaced-none [] n v h = refl
replaced-none (x ∷ st) n v h = elim (Bool-cases (same x.name n)) [
  | inl e ↦ ground (arith, h, e)
  | inr e ↦ elim (Option-cases (replaced st n v)) [
    | inl k ↦ ground (arith, h, e, k, replaced-none st n v k)
    | inr (s, k) ↦ ground (arith, h, e, k)
  ]
]

replaced-some : (st s : Store) (n v : Text) → replaced st n v ≡ some s → store_get st n ≢ none
unfolding store_get replaced
replaced-some [] s n v h = ground arith
replaced-some (x ∷ st) s n v h = elim (Bool-cases (same x.name n)) [
  | inl e ↦ ground (arith, e)
  | inr e ↦ elim (Option-cases (replaced st n v)) [
    | inl k ↦ ground (arith, h, e, k)
    | inr (s', k) ↦ ground (arith, h, e, k, replaced-some st s' n v k)
  ]
]

-- After a `store_set` that succeeds, its name has the new value and every other name has the one it
-- had before.
pub store_get-store_set :
    (st s : Store) (name value : Text)
    → store_set st name value ≡ some s
    → (other : Text)
    → store_get s other ≡ (if same name other then some value else store_get st other)
unfolding store_set
store_get-store_set st s name value h other = elim (Option-cases (replaced st name value)) [
  | inl k ↦ elim (Bool-cases (ltb (length st) extractor_max_vars)) [
    | inl l ↦
        let got : st ++ (record { name = name; value = value } ∷ []) ≡ s =
          ground (arith, h, k, l) in
        rw (sym got) (get-append st name other value (replaced-none st name value k))
    | inr l ↦ ground (arith, h, k, l)
  ]
  | inr (s', k) ↦
      let got : s' ≡ s = ground (arith, h, k) in
      rw (sym got) (replaced-get st s' name value other k)
]

-- `store_set` fails exactly when the name is new and the store holds 64 variables or more.
pub store_set-none_iff :
    (st : Store) (name value : Text)
    → (store_set st name value ≡ none) ↔ ((store_get st name ≡ none) × (64 ≤ length st))
unfolding store_set
store_set-none_iff st name value = elim (Option-cases (replaced st name value)) [
  | inl k ↦
      let absent : store_get st name ≡ none = replaced-none st name value k in
      (λ e. (absent, ground (arith, e, k)), λ (g, l). ground (arith, l, k))
  | inr (s', k) ↦ (λ e. ground (arith, e, k), λ (g, l). absurd (replaced-some st s' name value k g))
]

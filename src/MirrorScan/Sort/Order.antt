-- ===== src/MirrorScan/Sort/Order.antt =====
-- The order of the candidates of src/scan.c after `sort_candidates`.
use hyperflux.Common.{
  ◌≡◌, refl, ◌∙◌, inl, inr, Bool, true, false, List, [], ◌∷◌, ◌++◌, if◌then◌else◌, Bool-cases,
  append_nil, Every, Every-weaken, Pairwise,
}
use hyperflux.MirrorScan.{Candidate}
use hyperflux.MirrorScan.Sort.{shift, sort_from, turn_onto, sort_candidates}

-- The elements that pass a test, in their order.
unfoldable pub keep {ℓ} : {A : Type ℓ} → (A → Bool) → List A → List A
keep p [] = []
keep p (x ∷ xs) = if p x then x ∷ keep p xs else keep p xs

pub Every-both {ℓ κ} :
    {A : Type ℓ} (P Q : A → Type κ) (xs : List A)
    → Every P xs
    → Every Q xs
    → Every (λ x. P x × Q x) xs
unfolding Every
Every-both P Q [] h k = tt
Every-both P Q (x ∷ xs) h k = ((h.0, k.0), Every-both P Q xs h.1 k.1)

module _ {Double : Type 0} where
  -- No candidate is below one that follows it.
  unfoldable pub IsDescending : (Double → Double → Bool) → List (Candidate Double) → Type 0
  IsDescending below = Pairwise (λ x y. below x.score y.score ≡ false)

  pub keep-turn_onto :
      (p : Candidate Double → Bool) (xs ys : List (Candidate Double))
      → keep p (turn_onto xs ys) ≡ turn_onto (keep p xs) (keep p ys)
  unfolding keep turn_onto
  keep-turn_onto p [] ys = refl
  keep-turn_onto p (x ∷ xs) ys = elim (Bool-cases (p x)) [
    | inl e ↦ simp (keep-turn_onto p xs (x ∷ ys), e)
    | inr e ↦ simp (keep-turn_onto p xs (x ∷ ys), e)
  ]

  pub turn_onto_twice :
      (xs ys zs : List (Candidate Double))
      → turn_onto (turn_onto xs ys) zs ≡ turn_onto ys (xs ++ zs)
  unfolding turn_onto
  turn_onto_twice [] ys zs = refl
  turn_onto_twice (x ∷ xs) ys zs = turn_onto_twice xs (x ∷ ys) zs

  pub turn_onto-Pairwise :
      (R : Candidate Double → Candidate Double → Type 0) (xs ys : List (Candidate Double))
      → Pairwise (λ x y. R y x) xs
      → Pairwise R ys
      → Every (λ x. Every (R x) ys) xs
      → Pairwise R (turn_onto xs ys)
  unfolding Pairwise Every turn_onto
  turn_onto-Pairwise R [] ys h k l = k
  turn_onto-Pairwise R (x ∷ xs) ys h k l =
      turn_onto-Pairwise R xs (x ∷ ys) h.1 (l.0, k)
        (Every-both (λ z. R z x) (λ z. Every (R z) ys) xs h.0 l.1)

module _ {Double : Type 0} (below : Double → Double → Bool)
    (asymmetric : (a b : Double) → below a b ≡ true → below b a ≡ false)
    (transitive : (a b c : Double)
      → below a b ≡ false
      → below b c ≡ false
      → below a c ≡ false) where
  -- In the order that `shift` sees: from the end to the start.
  Rising : Candidate Double → Candidate Double → Type 0
  Rising x y = below y.score x.score ≡ false

  shift-Every :
      (x key : Candidate Double) (cs : List (Candidate Double))
      → Rising x key
      → Every (Rising x) cs
      → Every (Rising x) (shift below key cs)
  unfolding Every shift
  shift-Every x key [] h k = (h, tt)
  shift-Every x key (c ∷ cs) h k = elim (Bool-cases (below c.score key.score)) [
    | inl e ↦ rw e (k.0, shift-Every x key cs h k.1)
    | inr e ↦ rw e (h, k)
  ]

  shift-Pairwise :
      (key : Candidate Double) (cs : List (Candidate Double))
      → Pairwise Rising cs
      → Pairwise Rising (shift below key cs)
  unfolding Pairwise Every shift Rising
  shift-Pairwise key [] h = (tt, h)
  shift-Pairwise key (c ∷ cs) h = elim (Bool-cases (below c.score key.score)) [
    | inl e ↦
        rw e (shift-Every c key cs (asymmetric c.score key.score e) h.0, shift-Pairwise key cs h.1)
    | inr e ↦
        rw e
          ((e, Every-weaken (Rising c) cs (λ x k. transitive x.score c.score key.score k e) h.0), h)
  ]

  sort_from-Pairwise :
      (done cs : List (Candidate Double))
      → Pairwise Rising done
      → Pairwise Rising (sort_from below done cs)
  unfolding sort_from
  sort_from-Pairwise done [] h = h
  sort_from-Pairwise done (c ∷ cs) h =
      sort_from-Pairwise (shift below c done) cs (shift-Pairwise c done h)

  -- The candidates that pass a test of which none is below another.
  keep-shift :
      (p : Candidate Double → Bool) (key : Candidate Double) (cs : List (Candidate Double))
      → ((x y : Candidate Double) → p x ≡ true → p y ≡ true → below x.score y.score ≡ false)
      → keep p (shift below key cs) ≡ keep p (key ∷ cs)
  unfolding keep shift
  keep-shift p key [] alike = refl
  keep-shift p key (c ∷ cs) alike =
      let rest = keep-shift p key cs alike in
      let apart = alike c key in
      elim (Bool-cases (below c.score key.score)) [
        | inl e ↦ elim (Bool-cases (p c)) [
          | inl a ↦ elim (Bool-cases (p key)) [
            | inl b ↦ cc (e, apart a b)
            | inr b ↦ simp (e, a, b, rest)
          ]
          | inr a ↦ simp (e, a, rest)
        ]
        | inr e ↦ simp e
      ]

  keep-sort_from :
      (p : Candidate Double → Bool) (done cs : List (Candidate Double))
      → ((x y : Candidate Double) → p x ≡ true → p y ≡ true → below x.score y.score ≡ false)
      → keep p (sort_from below done cs) ≡ turn_onto (keep p cs) (keep p done)
  unfolding keep sort_from turn_onto
  keep-sort_from p done [] alike = refl
  keep-sort_from p done (c ∷ cs) alike = elim (Bool-cases (p c)) [
    | inl e ↦ keep-sort_from p (shift below c done) cs alike ∙ simp (keep-shift p c done alike, e)
    | inr e ↦ keep-sort_from p (shift below c done) cs alike ∙ simp (keep-shift p c done alike, e)
  ]

  Every-nil : {A : Type 0} (R : A → A → Type 0) (xs : List A) → Every (λ x. Every (R x) []) xs
  unfolding Every
  Every-nil R [] = tt
  Every-nil R (x ∷ xs) = (tt, Every-nil R xs)

  -- For a test on floating-point numbers without NaN, the sort leaves no candidate before a better
  -- one, and the candidates that pass a test of which none is below another keep their number and
  -- their order.
  pub sort_candidates-sorted :
      (cs : List (Candidate Double)) (p : Candidate Double → Bool)
      → ((x y : Candidate Double) → p x ≡ true → p y ≡ true → below x.score y.score ≡ false)
      → IsDescending below (sort_candidates below cs)
        × (keep p (sort_candidates below cs) ≡ keep p cs)
  unfolding sort_candidates IsDescending Pairwise keep turn_onto Rising
  sort_candidates-sorted cs p alike =
      let sorted = sort_from below [] cs in
      let R : Candidate Double → Candidate Double → Type 0 = λ x y. below x.score y.score ≡ false in
      (
        turn_onto-Pairwise R sorted [] (sort_from-Pairwise [] cs tt) tt (Every-nil R sorted),
        keep-turn_onto p sorted []
            ∙ rw (keep-sort_from p [] cs alike)
                (turn_onto_twice (keep p cs) [] [] ∙ append_nil (keep p cs)),
      )

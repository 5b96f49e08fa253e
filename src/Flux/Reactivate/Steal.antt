-- ===== src/Flux/Reactivate/Steal.antt =====
-- What `reactivate_connection` does to the ranges.
use hyperflux.Common.{
  ℕ, zero, suc, ◌+◌, ◌/◌, ◌≤◌, ◌<◌, ◌≡◌, refl, sym, ap, ◌∙◌, ◌≢◌, ◌⊎◌, inl, inr, false, Option,
  some, List, [], ◌∷◌, arith, dec_lt, ltb, length, get_elem?, set, lt→ltb, get_elem?-set_self,
  get_elem?-set_ne,
}
use hyperflux.Flux.{Conn}
use hyperflux.Flux.Segments.{remaining}
use hyperflux.Flux.Reactivate.{modify, pick, lastbyte_of, steal}

pub modify-set {ℓ} :
    {A : Type ℓ} (i : ℕ) (f : A → A) (xs : List A) (x : A)
    → get_elem? xs i ≡ some x
    → modify i f xs ≡ set xs i (f x)
unfolding modify
modify-set i f [] x e = refl
modify-set zero f (y ∷ ys) x e = ground arith
modify-set (suc i) f (y ∷ ys) x e = ap (◌∷◌ y) (modify-set i f ys x e)

le→ltb : (a b : ℕ) → b ≤ a → ltb a b ≡ false
le→ltb a b h = ground arith

pub get_elem?-modify {ℓ} :
    {A : Type ℓ} (i : ℕ) (f : A → A) (xs : List A) (x : A)
    → get_elem? xs i ≡ some x
    → get_elem? (modify i f xs) i ≡ some (f x)
unfolding modify
get_elem?-modify i f [] x e = cc
get_elem?-modify zero f (y ∷ ys) x e = ground arith
get_elem?-modify (suc i) f (y ∷ ys) x e = get_elem?-modify i f ys x e

-- No range is larger than the one found, and one that beats the minimum is found.
abbrev pub Largest : ℕ → List Conn → Type 0
Largest m [] = Unit {0}
Largest m (c ∷ cs) = (remaining c ≤ m) × Largest m cs

-- Connection `i`, with a range above `m`, is the one that the search settles on.
pub record Picked (m j : ℕ) (cs : List Conn) (out : ℕ × Option ℕ) : Type 0 where
  pub index : ℕ
  pub victim : Conn
  pub at_index : get_elem? cs index ≡ some victim
  pub above : m < remaining victim
  pub largest : Largest (remaining victim) cs
  pub is_out : out ≡ (remaining victim, some (j + index))

abbrev pub PickResult : ℕ → Option ℕ → ℕ → List Conn → Type 0
PickResult m o j cs = (pick m o j cs ≡ (m, o)) × Largest m cs ⊎ Picked m j cs (pick m o j cs)

pick-first :
    (c : Conn) (cs : List Conn) (m : ℕ) (o : Option ℕ) (j : ℕ)
    → m < remaining c
    → pick m o j (c ∷ cs) ≡ pick (remaining c) (some j) (j + 1) cs
unfolding pick
pick-first c cs m o j h = rw (lt→ltb m (remaining c) h)

pick-skip :
    (c : Conn) (cs : List Conn) (m : ℕ) (o : Option ℕ) (j : ℕ)
    → remaining c ≤ m
    → pick m o j (c ∷ cs) ≡ pick m o (j + 1) cs
unfolding pick
pick-skip c cs m o j h = rw (le→ltb m (remaining c) h)

pub pick-PickResult : (cs : List Conn) (m : ℕ) (o : Option ℕ) (j : ℕ) → PickResult m o j cs
unfolding pick
pick-PickResult [] m o j = inl (refl, tt)
pick-PickResult (c ∷ cs) m o j = elim (dec_lt m (remaining c)) [
  | yes up ↦ elim (pick-PickResult cs (remaining c) (some j) (j + 1)) [
    | inl (e, l) ↦ inr (record {
      index = 0;
      victim = c;
      at_index = refl;
      above = up;
      largest = (omega arith, l);
      is_out = pick-first c cs m o j up ∙ e ∙ ap (λ k. (remaining c, some k)) (omega arith);
    })
    | inr r ↦ inr (record {
      index = suc r.index;
      victim = r.victim;
      at_index = r.at_index;
      above = omega (arith, r.above);
      largest = (omega (arith, r.above), r.largest);
      is_out =
          pick-first c cs m o j up
          ∙ r.is_out
          ∙ ap (λ k. (remaining r.victim, some k)) (omega arith);
    })
  ]
  | no down ↦ elim (pick-PickResult cs m o (j + 1)) [
    | inl (e, l) ↦ inl (pick-skip c cs m o j (omega arith) ∙ e, (omega arith, l))
    | inr r ↦ inr (record {
      index = suc r.index;
      victim = r.victim;
      at_index = r.at_index;
      above = r.above;
      largest = (omega (arith, r.above), r.largest);
      is_out =
          pick-skip c cs m o j (omega arith)
          ∙ r.is_out
          ∙ ap (λ k. (remaining r.victim, some k)) (omega arith);
    })
  ]
]

set-set {ℓ} : {A : Type ℓ} (xs : List A) (t : ℕ) (a d : A) → set (set xs t a) t d ≡ set xs t d
set-set [] t a d = refl
set-set (x ∷ xs) zero a d = refl
set-set (x ∷ xs) (suc t) a d = ap (◌∷◌ x) (set-set xs t a d)

set-set_between {ℓ} :
    {A : Type ℓ} (xs : List A) (t i : ℕ) (a b d : A)
    → set (set (set xs t a) i b) t d ≡ set (set xs i b) t d
set-set_between [] t i a b d = refl
set-set_between (x ∷ xs) zero zero a b d = refl
set-set_between (x ∷ xs) zero (suc i) a b d = refl
set-set_between (x ∷ xs) (suc t) zero a b d = ap (◌∷◌ b) (set-set xs t a d)
set-set_between (x ∷ xs) (suc t) (suc i) a b d = ap (◌∷◌ x) (set-set_between xs t i a b d)

lt-length-get_elem? {ℓ} :
    {A : Type ℓ} (xs : List A) (i : ℕ) (x : A) → get_elem? xs i ≡ some x → i < length xs
lt-length-get_elem? [] i x e = cc
lt-length-get_elem? (y ∷ ys) zero x e = omega arith
lt-length-get_elem? (y ∷ ys) (suc i) x e = omega (arith, lt-length-get_elem? ys i x e)

lastbyte_of-eq :
    (cs : List Conn) (i : ℕ) (v : Conn) → get_elem? cs i ≡ some v → lastbyte_of i cs ≡ v.lastbyte
unfolding lastbyte_of
lastbyte_of-eq cs i v e = ground arith

-- The range of the largest connection is cut in two, and the upper part goes to `thread`.
pub steal-set :
    (cs : List Conn) (t i m : ℕ) (c v : Conn)
    → get_elem? cs t ≡ some c
    → get_elem? cs i ≡ some v
    → t ≢ i
    → steal t i m cs
      ≡ set
          (set cs i (record v { lastbyte = v.currentbyte + m / 2 }))
          t
          (record c { currentbyte = v.currentbyte + m / 2; lastbyte = v.lastbyte })
unfolding steal
steal-set cs t i m c v et ei ne =
    let c' = record c { lastbyte = v.lastbyte } in
    let v' = record v { lastbyte = v.currentbyte + m / 2 } in
    let ei' : get_elem? (set cs t c') i ≡ some v = get_elem?-set_ne cs c' ne ∙ ei in
    let ev : get_elem? (set (set cs t c') i v') i ≡ some v' =
      get_elem?-set_self (set cs t c') i v' (lt-length-get_elem? (set cs t c') i v ei') in
    let et' : get_elem? (set (set cs t c') i v') t ≡ some c' =
      get_elem?-set_ne (set cs t c') v' (λ e. ne (sym e))
      ∙ get_elem?-set_self cs t c' (lt-length-get_elem? cs t c et) in
    rw
      (
        lastbyte_of-eq cs i v ei,
        modify-set t (λ x. record x { lastbyte = v.lastbyte }) cs c et,
        modify-set i (λ x. record x { lastbyte = x.currentbyte + m / 2 }) (set cs t c') v ei',
        lastbyte_of-eq (set (set cs t c') i v') i v' ev,
        modify-set t (λ x. record x { currentbyte = v.currentbyte + m / 2 })
            (set (set cs t c') i v') c' et',
      )
      (set-set_between cs t i c' v' _)

-- ===== src/Flux/Divide/Partition.antt =====
-- `flux_divide` gives every byte of the file to exactly one connection.
use hyperflux.Common.{
  ℕ, ◌+◌, ◌*◌, ◌/◌, ◌%◌, ◌≤◌, ◌<◌, min, max, ◌≡◌, refl, ap, ◌∙◌, ◌↔◌, ◌⊎◌, inl, inr, none, some,
  List, [], ◌∷◌, arith, dec_lt, dec_le, length, length-take,
}
use native.Mathlib.Nat.{
  mul-div-le, le-div_iff_mul-le, div-add-mod, mod-lt, mod-eq_of_lt, mul-add-mod_self_left,
}
use hyperflux.Flux.{Conn, min_chunk_worth}
use hyperflux.Flux.Segments.{Consecutive}
use hyperflux.Flux.Divide.{assign, add_tail, distribute, limit, divide}

pub length-assign : (s i : ℕ) (cs : List Conn) → length (assign s i cs) ≡ length cs
unfolding assign
length-assign s i [] = refl
length-assign s i (c ∷ cs) = omega (arith, length-assign s (i + 1) cs)

pub length-add_tail : (t : ℕ) (cs : List Conn) → length (add_tail t cs) ≡ length cs
unfolding add_tail
length-add_tail t [] = refl
length-add_tail t (c ∷ []) = refl
length-add_tail t (c ∷ d ∷ cs) = omega (arith, length-add_tail t (d ∷ cs))

-- Equal segments from `lo = s * i` on, the last of them longer by `t`.
assign-Consecutive :
    (s t i : ℕ) (c : Conn) (cs : List Conn) (lo hi : ℕ)
    → 0 < s
    → lo ≡ s * i
    → hi ≡ s * (i + length (c ∷ cs)) + t
    → Consecutive lo hi (add_tail t (assign s i (c ∷ cs)))
unfolding assign add_tail
assign-Consecutive s t i c [] lo hi h a b = (grind arith, grind arith, grind arith)
assign-Consecutive s t i c (d ∷ cs) lo hi h a b = (
  omega arith,
  omega arith,
  assign-Consecutive s t (i + 1) d cs (s * i + s) hi h (grind arith) (grind arith),
)

-- Every segment but the last has the length `s`, and the last is not shorter.
abbrev pub AtLeast : ℕ → List Conn → Type 0
AtLeast s [] = Unit {0}
AtLeast s (c ∷ cs) = (c.currentbyte + s ≤ c.lastbyte) × AtLeast s cs

assign-AtLeast : (s t i : ℕ) (cs : List Conn) → AtLeast s (add_tail t (assign s i cs))
unfolding assign add_tail
assign-AtLeast s t i [] = tt
assign-AtLeast s t i (c ∷ []) = (omega arith, tt)
assign-AtLeast s t i (c ∷ d ∷ cs) = (omega arith, assign-AtLeast s t (i + 1) (d ∷ cs))

-- With fewer segments than bytes in a segment, what the division leaves over is the source's tail.
tail_lem : (size n s : ℕ) → 0 < n → n ≤ s → s ≡ size / n → size ≡ s * n + size % s
tail_lem size n s h k e =
    let split : size ≡ s * n + size % n = grind (arith, div-add-mod size n) in
    let left : size % s ≡ size % n =
      ap (λ k. k % s) split
      ∙ mul-add-mod_self_left s n (size % n)
      ∙ mod-eq_of_lt (omega (arith, mod-lt size h)) in
    omega (arith, split, left)

length-limit :
    (size : ℕ) (cs : List Conn)
    → length (limit size cs) ≡ min (length cs) (max 1 (size / min_chunk_worth))
unfolding limit
length-limit size cs = ground (arith, length-take (max 1 (size / min_chunk_worth)) cs)

-- The loops divide `size` bytes exactly where the segments make it up.
distribute-Consecutive :
    (size s : ℕ) (cs : List Conn)
    → 0 < s
    → 0 < length cs
    → size ≡ s * length cs + size % s
    → (ds : List Conn) × (distribute size s cs ≡ some ds)
      × Consecutive 0 size ds
      × (length ds ≡ length cs)
      × AtLeast s ds
unfolding distribute
distribute-Consecutive size s [] h k e = absurd (omega arith)
distribute-Consecutive size s (c ∷ cs) h k e = (
  add_tail (size % s) (assign s 0 (c ∷ cs)),
  ground arith,
  assign-Consecutive s (size % s) 0 c cs 0 size h (grind arith) (grind (arith, e)),
  omega (arith, length-add_tail (size % s) (assign s 0 (c ∷ cs)), length-assign s 0 (c ∷ cs)),
  assign-AtLeast s (size % s) 0 (c ∷ cs),
)

square-le : (size k : ℕ) → 0 < size → k ≤ 65535 → k ≤ max 1 (size / min_chunk_worth) → k * k ≤ size
square-le size k a b c = elim (dec_le k 1) [
  | yes one ↦ grind arith
  | no more ↦
      let few : k ≤ size / 102400 = omega arith in
      let room : k * k ≤ k * 102400 = grind arith in
      omega (arith, few, room, mul-div-le size 102400)
]

-- The number of segments after the limit leaves room for itself in one segment.
segments_fit :
    (size n k : ℕ)
    → 0 < size
    → 0 < n
    → n ≤ 65535
    → k ≡ min n (max 1 (size / min_chunk_worth))
    → (0 < k) × (k ≤ size / k)
segments_fit size n k a b c e =
    let pos : 0 < k = omega arith in
    (pos, (le-div_iff_mul-le pos).1 (square-le size k a (omega arith) (omega arith)))

divide-distribute :
    (size : ℕ) (cs : List Conn)
    → 0 < length (limit size cs)
    → 0 < size / length (limit size cs)
    → divide size cs ≡ distribute size (size / length (limit size cs)) (limit size cs)
unfolding divide
divide-distribute size cs h k = ground arith

module _ (size : ℕ) (cs : List Conn) (has_bytes : 0 < size) (some_conns : 0 < length cs)
    (u16 : length cs ≤ 65535) where
  pub divide-Consecutive :
      (ds : List Conn) × (divide size cs ≡ some ds)
      × Consecutive 0 size ds
      × (length ds ≡ min (length cs) (max 1 (size / min_chunk_worth)))
      × AtLeast (size / length ds) ds
  divide-Consecutive =
      let k = length (limit size cs) in
      let e = length-limit size cs in
      let (pos, fit) = segments_fit size (length cs) k has_bytes some_conns u16 e in
      let (ds, eq, parts, len, least) =
        distribute-Consecutive size (size / k) (limit size cs) (omega arith) pos
          (tail_lem size k (size / k) pos fit refl) in
      (ds, divide-distribute size cs pos (omega arith) ∙ eq, parts, omega arith, rw len least)

divide_nobody : (size : ℕ) (cs : List Conn) → length cs ≡ 0 → divide size cs ≡ none
unfolding divide
divide_nobody size cs e = ground (arith, length-limit size cs)

divide_nothing : (size : ℕ) (cs : List Conn) → size ≡ 0 → divide size cs ≡ none
unfolding divide distribute
divide_nothing size cs e =
    let none_each : size / length (limit size cs) ≡ 0 = omega arith in ground (arith, none_each)

-- `flux_divide` divides by zero exactly where the file is empty or no connection is configured.
pub divide-none :
    (size : ℕ) (cs : List Conn)
    → length cs ≤ 65535
    → (divide size cs ≡ none) ↔ ((size ≡ 0) ⊎ (length cs ≡ 0))
divide-none size cs u16 = elim (dec_lt 0 size) [
  | yes bytes ↦ elim (dec_lt 0 (length cs)) [
    | yes conns ↦
        let (ds, e, parts, len, least) = divide-Consecutive size cs bytes conns u16 in
        (λ n. absurd (cc), λ z. absurd (ground arith))
    | no nobody ↦ (λ n. inr (omega arith), λ z. divide_nobody size cs (omega arith))
  ]
  | no empty ↦ (λ n. inl (omega arith), λ z. divide_nothing size cs (omega arith))
]

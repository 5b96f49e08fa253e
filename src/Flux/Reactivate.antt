-- ===== src/Flux/Reactivate.antt =====
-- `reactivate_connection` of src/flux.c: a finished connection takes half of the largest range.
pub mod Steal
pub mod Keeps
use hyperflux.Common.{
  ℕ, zero, suc, ◌+◌, ◌-◌, ◌/◌, ◌||◌, Option, none, some, List, [], ◌∷◌, ltb, if◌then◌else◌,
  get_elem?,
}
use hyperflux.Flux.{Conn, min_chunk_worth}

-- The entry at an index is replaced by its image; an index out of range changes nothing.
unfoldable pub modify {ℓ} : {A : Type ℓ} → ℕ → (A → A) → List A → List A
modify i f [] = []
modify zero f (x ∷ xs) = f x ∷ xs
modify (suc i) f (x ∷ xs) = x ∷ modify i f xs

-- The search for the largest range, from connection `j` on: `max_remaining` and `idx` (`none` for
-- -1). A range that lies the wrong way round is negative in C and 0 here, and passes neither test.
unfoldable pub pick : ℕ → Option ℕ → ℕ → List Conn → ℕ × Option ℕ
pick max_remaining idx j [] = (max_remaining, idx)
pick max_remaining idx j (c ∷ cs) =
    let r = c.lastbyte - c.currentbyte in
    let larger = ltb max_remaining r in
    pick (if larger then r else max_remaining) (if larger then some j else idx) (j + 1) cs

unfoldable pub lastbyte_of : ℕ → List Conn → ℕ
lastbyte_of i cs = elim (get_elem? cs i) [ none ↦ 0 | some c ↦ c.lastbyte ]

-- The three assignments at the end.
unfoldable pub steal : ℕ → ℕ → ℕ → List Conn → List Conn
steal thread idx max_remaining cs =
    let taken = modify thread (λ c. record c { lastbyte = lastbyte_of idx cs }) cs in
    let cut = modify idx (λ c. record c { lastbyte = c.currentbyte + max_remaining / 2 }) taken in
    modify thread (λ c. record c { currentbyte = lastbyte_of idx cut }) cut

unfoldable pub steal_if : ℕ → ℕ × Option ℕ → List Conn → List Conn
steal_if thread (max_remaining, none) cs = cs
steal_if thread (max_remaining, some idx) cs = steal thread idx max_remaining cs

-- `thread` is the index of a connection in use.
unfoldable pub reactivate : ℕ → List Conn → List Conn
reactivate thread cs = elim (get_elem? cs thread) [
  | none ↦ cs
  | some c ↦
      if c.enabled || ltb c.currentbyte c.lastbyte
      then cs
      else steal_if thread (pick (min_chunk_worth - 1) none 0 cs) cs
]

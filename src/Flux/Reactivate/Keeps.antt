-- ===== src/Flux/Reactivate/Keeps.antt =====
-- `reactivate_connection` moves work and loses none.
use hyperflux.Common.{
  ℕ, ◌+◌, ◌-◌, ◌/◌, ◌≤◌, ◌≡◌, refl, sym, ap, ◌∙◌, ◌≢◌, ◌⊎◌, inl, inr, false, ◌||◌, Option, none,
  some, List, arith, ltb, Bool-cases, Option-cases, length, get_elem?, set, length-set,
  get_elem?-set_ne,
}
use native.Mathlib.Nat.{zero-add}
use hyperflux.Flux.{Conn, min_chunk_worth}
use hyperflux.Flux.Segments.{
  remaining, total_remaining, hit, owners, Within, total-set, owners-set, Within-get, Within-set,
}
use hyperflux.Flux.Reactivate.{pick, steal_if, reactivate}
use hyperflux.Flux.Reactivate.Steal.{Largest, Picked, pick-PickResult, steal-set}

-- Connection `thread` was idle, and takes the upper half of the largest range.
pub record Stolen (thread : ℕ) (cs out : List Conn) : Type 0 where
  pub thief : Conn
  pub index : ℕ
  pub victim : Conn
  pub idle : (thief.enabled ≡ false) × (thief.lastbyte ≤ thief.currentbyte)
  pub at_thread : get_elem? cs thread ≡ some thief
  pub at_index : get_elem? cs index ≡ some victim
  pub others : thread ≢ index
  pub worth : min_chunk_worth ≤ remaining victim
  pub largest : Largest (remaining victim) cs
  pub split :
      out
      ≡ set
          (set cs index (record victim { lastbyte = victim.currentbyte + remaining victim / 2 }))
          thread
          (record thief {
            currentbyte = victim.currentbyte + remaining victim / 2;
            lastbyte = victim.lastbyte;
          })

module _ (thread : ℕ) (cs : List Conn) where
  steal_if-Stolen :
      (c : Conn)
      → get_elem? cs thread ≡ some c
      → (c.enabled ≡ false) × (c.lastbyte ≤ c.currentbyte)
      → (out : ℕ × Option ℕ) → Picked (min_chunk_worth - 1) 0 cs out
      → Stolen thread cs (steal_if thread out cs)
  unfolding steal_if
  steal_if-Stolen c e idle out p =
      let other : thread ≢ p.index = λ same. ground (arith, p.above, p.at_index) in
      record {
        thief = c;
        index = p.index;
        victim = p.victim;
        idle = idle;
        at_thread = e;
        at_index = p.at_index;
        others = other;
        worth = omega (arith, p.above);
        largest = p.largest;
        split =
            rw (p.is_out, zero-add p.index)
              (steal-set cs thread p.index (remaining p.victim) c p.victim e p.at_index other);
      }

  reactivate-pick :
      (c : Conn)
      → get_elem? cs thread ≡ some c
      → c.enabled ≡ false
      → c.lastbyte ≤ c.currentbyte
      → reactivate thread cs ≡ steal_if thread (pick (min_chunk_worth - 1) none 0 cs) cs
  unfolding reactivate
  reactivate-pick c e d h = ground arith

  -- An idle connection takes the upper half of the largest range, if one is worth it; if none is,
  -- nothing changes.
  pub reactivate-Stolen :
      (c : Conn)
      → get_elem? cs thread ≡ some c
      → c.enabled ≡ false
      → c.lastbyte ≤ c.currentbyte
      → (reactivate thread cs ≡ cs) × Largest (min_chunk_worth - 1) cs
        ⊎ Stolen thread cs (reactivate thread cs)
  unfolding steal_if
  reactivate-Stolen c e d h =
      rw (reactivate-pick c e d h) (elim (pick-PickResult cs (min_chunk_worth - 1) none 0) [
        | inl (same, l) ↦ inl (rw same refl, l)
        | inr p ↦ inr (steal_if-Stolen c e (d, h) _ p)
      ])

  reactivate_cases : (reactivate thread cs ≡ cs) ⊎ Stolen thread cs (reactivate thread cs)
  reactivate_cases = elim (Option-cases (get_elem? cs thread)) [
    | inl gone ↦ inl (unfold reactivate in rw (gone, reactivate) refl)
    | inr (c, e) ↦ elim (Bool-cases (c.enabled || ltb c.currentbyte c.lastbyte)) [
      | inl busy ↦ inl (unfold reactivate in ground arith)
      | inr free ↦ elim (reactivate-Stolen c e (ground arith) (ground arith)) [
        | inl (same, _) ↦ inl same
        | inr st ↦ inr st
      ]
    ]
  ]

module _ (size thread : ℕ) (cs out : List Conn) (st : Stolen thread cs out) where
  open st use {thief as c, victim as v, index as i}

  -- The range that the victim keeps.
  abbrev kept : Conn
  kept = record v { lastbyte = v.currentbyte + remaining v / 2 }

  abbrev given : Conn
  given = record c { currentbyte = v.currentbyte + remaining v / 2; lastbyte = v.lastbyte }

  at_thread-set : get_elem? (set cs i kept) thread ≡ some c
  at_thread-set = get_elem?-set_ne cs kept (λ e. st.others (sym e)) ∙ st.at_thread

  Stolen-length : length out ≡ length cs
  Stolen-length =
      ap length st.split ∙ length-set (set cs i kept) thread given ∙ length-set cs i kept

  Stolen-total : total_remaining out ≡ total_remaining cs
  Stolen-total = rw st.split (
      omega (
        arith,
        total-set cs i v kept st.at_index,
        total-set (set cs i kept) thread c given at_thread-set,
        st.worth,
        st.idle.1,
      ))

  Stolen-owners : (p : ℕ) → owners p out ≡ owners p cs
  Stolen-owners p =
      let whole : hit p kept + hit p given ≡ hit p v + hit p c =
        ground (arith, st.idle.1, st.worth) in
      rw st.split (
        omega (
          arith,
          whole,
          owners-set p cs i v kept st.at_index,
          owners-set p (set cs i kept) thread c given at_thread-set,
        ))

  Stolen-Within : Within size cs → Within size out
  Stolen-Within w =
      let (order, top) = Within-get size cs i v st.at_index w in
      rw st.split (
        Within-set size (set cs i kept) thread given (omega arith) top
          (Within-set size cs i kept (omega arith) (omega arith) w))

-- `reactivate_connection` keeps the number of connections, the ranges inside the file, the number
-- of bytes to go, and for each byte the number of connections that are to fetch it.
pub reactivate_keeps :
    (size thread : ℕ) (cs : List Conn)
    → Within size cs
    → Within size (reactivate thread cs)
      × (length (reactivate thread cs) ≡ length cs)
      × (total_remaining (reactivate thread cs) ≡ total_remaining cs)
      × ((p : ℕ) → owners p (reactivate thread cs) ≡ owners p cs)
reactivate_keeps size thread cs w = elim (reactivate_cases thread cs) [
  | inl same ↦ rw same (w, refl, refl, λ p. refl)
  | inr st ↦ (
    Stolen-Within size thread cs _ st w,
    Stolen-length size thread cs _ st,
    Stolen-total size thread cs _ st,
    Stolen-owners size thread cs _ st,
  )
]

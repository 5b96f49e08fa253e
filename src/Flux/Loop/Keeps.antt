-- ===== src/Flux/Loop/Keeps.antt =====
-- Reading from a connection keeps the invariant.
use hyperflux.Common.{
  ℕ, zero, suc, ◌+◌, ◌-◌, ◌*◌, ◌/◌, ◌≤◌, min, ◌≡◌, refl, ◌⊎◌, inl, inr, Bool, true, false, some,
  List, [], ◌∷◌, arith, ltb, ◌==◌, if◌then◌else◌, Bool-cases, Option-cases, length, get_elem?, take,
  ltb→lt, length-take,
}
use hyperflux.Flux.{Conn, Ready, Flux, Conf}
use hyperflux.Flux.Segments.{Within, Within-get}
use hyperflux.Flux.Reactivate.{reactivate}
use hyperflux.Flux.Reactivate.Steal.{get_elem?-modify}
use hyperflux.Flux.Reactivate.Keeps.{reactivate_keeps}
use hyperflux.Flux.Loop.Handle.{
  Event, Pass, next, stop, fault, disconnect, touch, advance, finish_stream, write_bytes, store,
  attend, handle, handle_all,
}
use hyperflux.Flux.Loop.Invariant.{
  Inv, SameRanges-Alike, disconnect-SameRanges, touch-SameRanges, Alike, Alike-trans,
  Alike-RangesInv, Alike-Written,
}
use hyperflux.Flux.Loop.Writes.{
  Agrees, Agrees-take, write_at-Written, advance-RangesInv, advance-Written,
}

-- The bytes that an event delivers are those of the server's file from `off` on.
abbrev pub Delivers : (ℕ → ℕ) → ℕ → Event → Type 0
Delivers content off (Event.received bs writable) = Agrees content off bs
Delivers content off _ = Unit {0}

-- What a pass leaves: the invariant, and `ready` at -1 where it stops. It never faults.
abbrev pub PassInv : (ℕ → ℕ) → Pass → Type 0
PassInv content (next g) = Inv content g
PassInv content (stop g) = Inv content g × (g.ready ≡ Ready.failed)
PassInv content fault = ⊥

reactivate-Alike : (size i : ℕ) (cs : List Conn) → Within size cs → Alike size cs (reactivate i cs)
reactivate-Alike size i cs w =
    let (inside, len, total, own) = reactivate_keeps size i cs w in
    record { within = λ _. inside; same_owners = own; same_total = total }

disconnect-Alike : (size i : ℕ) (cs : List Conn) → Alike size cs (disconnect i cs)
disconnect-Alike size i cs = SameRanges-Alike size cs _ (disconnect-SameRanges i cs)

touch-Alike : (size i now : ℕ) (cs : List Conn) → Alike size cs (touch i now cs)
touch-Alike size i now cs = SameRanges-Alike size cs _ (touch-SameRanges i now cs)

-- Other connections that stand for the same bytes.
pub Alike-Inv :
    (content : ℕ → ℕ) (f : Flux) (ds : List Conn)
    → Alike f.size f.conns ds
    → Inv content f
    → Inv content (record f { conns = ds })
Alike-Inv content f ds a v = record {
  ranges = Alike-RangesInv f.size f.bytes_done f.conns ds a v.ranges;
  written = Alike-Written content f.size f.conns ds f.file a v.written;
}

finish_stream-Inv :
    (content : ℕ → ℕ) (i : ℕ) (f : Flux) → Inv content f → Inv content (finish_stream i f)
unfolding finish_stream
finish_stream-Inv content i f v =
    let off = disconnect-Alike f.size i f.conns in
    let on = reactivate-Alike f.size i (disconnect i f.conns) (off.within v.ranges.within) in
    let both = Alike-trans f.size f.conns _ _ off on in
    record {
      ranges = Alike-RangesInv f.size f.bytes_done f.conns _ both v.ranges;
      written = Alike-Written content f.size f.conns _ f.file both v.written;
    }

reactivate_if-Alike :
    (b : Bool) (size i : ℕ) (cs : List Conn)
    → Within size cs
    → Alike size cs (if b then reactivate i cs else cs)
reactivate_if-Alike true size i cs w = reactivate-Alike size i cs w
reactivate_if-Alike false size i cs w = record {
  within = λ x. x;
  same_owners = λ p. refl;
  same_total = refl;
}

module _ (content : ℕ → ℕ) (i : ℕ) (c : Conn) (bs : List ℕ)
    (served : Agrees content c.currentbyte bs) where
  write_bytes-PassInv :
      (writable size remaining : ℕ) (f : Flux) (d : Conn)
      → get_elem? f.conns i ≡ some d
      → c.currentbyte ≡ d.currentbyte
      → d.currentbyte + size ≤ d.lastbyte
      → size ≤ length bs
      → Inv content f
      → PassInv content (write_bytes i c bs writable size remaining f)
  unfolding write_bytes
  write_bytes-PassInv writable size remaining f d at same fits enough v =
      let bs' = take (min writable size) bs in
      let served' = Agrees-take content (min writable size) c.currentbyte bs served in
      elim (Bool-cases (min writable size == size)) [
        | inl all ↦
            let len : length bs' ≡ size = ground (arith, length-take (min writable size) bs) in
            let r = advance-RangesInv f.size size i f.conns d at fits f.bytes_done v.ranges in
            let w =
              advance-Written f.size size i f.conns d at fits content c.currentbyte bs' f.file same
                len served' v.written in
            let a =
              reactivate_if-Alike (remaining == size) f.size i (advance i size f.conns) r.within in
            rw all (record {
              ranges = Alike-RangesInv f.size (f.bytes_done + size) (advance i size f.conns) _ a r;
              written = Alike-Written content f.size (advance i size f.conns) _ _ a w;
            })
        | inr short ↦ rw short (
          record {
            ranges = v.ranges;
            written =
                write_at-Written content f.size c.currentbyte bs' f.conns f.file served' v.written;
          },
          refl,
        )
      ]

  store-PassInv :
      (writable : ℕ) (f : Flux) (d : Conn)
      → get_elem? f.conns i ≡ some d
      → c.currentbyte ≡ d.currentbyte
      → c.lastbyte ≡ d.lastbyte
      → Inv content f
      → PassInv content (store i c bs writable f)
  unfolding store disconnect
  store-PassInv writable f d at same last v =
      let (order, top) = Within-get f.size f.conns i d at v.ranges.within in
      let right : ltb c.lastbyte c.currentbyte ≡ false = ground arith in
      rw right (elim (Bool-cases (ltb (c.lastbyte - c.currentbyte) (length bs))) [
        | inl more ↦
            let off = disconnect-Alike f.size i f.conns in
            rw more (
              write_bytes-PassInv writable (c.lastbyte - c.currentbyte) (c.lastbyte - c.currentbyte)
                (record f { conns = disconnect i f.conns }) (record d { enabled = false })
                (get_elem?-modify i _ f.conns d at) same (omega arith)
                (omega (arith, ltb→lt _ _ more)) (Alike-Inv content f _ off v))
        | inr all ↦ rw all (
            write_bytes-PassInv writable (length bs) (c.lastbyte - c.currentbyte) f d at same
              (ground arith) (omega arith) v)
      ])

touch-Inv :
    (content : ℕ → ℕ) (i now : ℕ) (f : Flux)
    → Inv content f
    → Inv content (record f { conns = touch i now f.conns })
touch-Inv content i now f v = Alike-Inv content f _ (touch-Alike f.size i now f.conns) v

attend-PassInv :
    (content : ℕ → ℕ) (conf : Conf) (i : ℕ) (c : Conn) (now : ℕ) (event : Event) (f : Flux)
    → get_elem? f.conns i ≡ some c
    → Delivers content c.currentbyte event
    → Inv content f
    → PassInv content (attend conf i c now event f)
unfolding attend touch
attend-PassInv content conf i c now Event.locked f at h v = v
attend-PassInv content conf i c now Event.quiet f at h v =
    elim (Bool-cases (ltb ((c.last_transfer + conf.connection_timeout) * 1000000) now)) [
      | inl late ↦ rw late (Alike-Inv content f _ (disconnect-Alike f.size i f.conns) v)
      | inr soon ↦ rw soon v
    ]
attend-PassInv content conf i c now Event.broken f at h v =
    let g = record f { conns = touch i now f.conns } in
    Alike-Inv content g _ (disconnect-Alike f.size i g.conns) (touch-Inv content i now f v)
attend-PassInv content conf i c now (Event.received [] writable) f at h v =
    finish_stream-Inv content i _ (touch-Inv content i now f v)
attend-PassInv content conf i c now (Event.received (b ∷ bs) writable) f at h v =
    store-PassInv content i c (b ∷ bs) h writable (record f { conns = touch i now f.conns })
      (record c { last_transfer = now / 1000000 }) (get_elem?-modify i _ f.conns c at) refl refl
      (touch-Inv content i now f v)

pub if-PassInv :
    (content : ℕ → ℕ) (b : Bool) (x y : Pass)
    → PassInv content x
    → PassInv content y
    → PassInv content (if b then x else y)
if-PassInv content true x y h k = h
if-PassInv content false x y h k = k

-- What connection `i` gets from the server, if it is on, are the bytes at its `currentbyte`.
abbrev pub Served : (ℕ → ℕ) → ℕ → Event → Flux → Type 0
Served content i event f =
    (c : Conn) → get_elem? f.conns i ≡ some c → Delivers content c.currentbyte event

-- The body of the reading loop keeps the invariant, whatever the connection meets, if what it
-- receives is what the server has there. It never calls `write` with a negative number.
pub handle-PassInv :
    (content : ℕ → ℕ) (conf : Conf) (i now : ℕ) (event : Event) (f : Flux)
    → Served content i event f
    → Inv content f
    → PassInv content (handle conf i now event f)
unfolding handle
handle-PassInv content conf i now event f s v = elim (Option-cases (get_elem? f.conns i)) [
  | inl gone ↦ rw (gone, handle) v
  | inr (c, at) ↦
      rw (at, handle)
        (if-PassInv content c.enabled (attend conf i c now event f) (next f)
          (attend-PassInv content conf i c now event f at (s c at) v) v)
]

-- So along the whole loop.
abbrev pub AllServed : (ℕ → ℕ) → Conf → (ℕ → ℕ × Event) → ℕ → ℕ → Flux → Type 0
AllServed content conf events zero i f = Unit {0}
AllServed content conf events (suc rounds) i f =
    Served content i (events i).1 f
    × ((g : Flux)
        → handle conf i (events i).0 (events i).1 f ≡ next g
        → AllServed content conf events rounds (i + 1) g)

pub Pass-cases :
    (m : Pass) → ((g : Flux) × (m ≡ next g)) ⊎ ((g : Flux) × (m ≡ stop g)) ⊎ (m ≡ fault)
Pass-cases (next g) = inl (g, refl)
Pass-cases (stop g) = inr (inl (g, refl))
Pass-cases fault = inr (inr refl)

pub handle_all-PassInv :
    (content : ℕ → ℕ) (conf : Conf) (events : ℕ → ℕ × Event) (rounds i : ℕ) (f : Flux)
    → AllServed content conf events rounds i f
    → Inv content f
    → PassInv content (handle_all conf events rounds i f)
unfolding handle_all
handle_all-PassInv content conf events zero i f s v = v
handle_all-PassInv content conf events (suc rounds) i f s v =
    let m = handle conf i (events i).0 (events i).1 f in
    let h = handle-PassInv content conf i (events i).0 (events i).1 f s.0 v in
    elim (Pass-cases m) [
      | inl (g, e) ↦
          rw (e, handle_all)
            (handle_all-PassInv content conf events rounds (i + 1) g (s.1 g e) (rw e at h))
      | inr (inl (g, e)) ↦ rw (e, handle_all) (rw e at h)
      | inr (inr e) ↦ absurd (rw e at h)
    ]

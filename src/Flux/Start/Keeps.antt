-- ===== src/Flux/Start/Keeps.antt =====
-- Starting connections in src/flux.c leaves what is to be fetched as it is.
use hyperflux.Common.{
  ℕ, zero, suc, ◌+◌, ◌≡◌, refl, ◌∙◌, inl, inr, Bool, true, false, List, [], ◌∷◌, map, arith, ltb,
  if◌then◌else◌, Option-cases, length, get_elem?,
}
use hyperflux.Flux.{Conn, Ready, Flux}
use hyperflux.Flux.Segments.{Within}
use hyperflux.Flux.Reactivate.{reactivate}
use hyperflux.Flux.Reactivate.Keeps.{reactivate_keeps}
use hyperflux.Flux.StateFile.{supported_first}
use hyperflux.Flux.Loop.Invariant.{
  Inv, SameRanges, SameRanges-refl, SameRanges-Alike, modify-SameRanges, Alike, Alike-trans,
  Alike-RangesInv, Alike-Written,
}
use hyperflux.Flux.Loop.Round.Honest.{supported_first-modify, supported_first-reactivate, Honest}
use hyperflux.Flux.Start.{
  Setup, setup_thread, end_thread, as_supported, set_supported, start_conn, start_from, flux_start,
}

-- The connections may change, what they stand for may not.
Alike-Inv :
    (content : ℕ → ℕ) (f : Flux) (cs : List Conn) (ready : Ready)
    → Alike f.size f.conns cs
    → Inv content f
    → Inv content (record f { conns = cs; ready = ready })
Alike-Inv content f cs ready a v = record {
  ranges = Alike-RangesInv f.size f.bytes_done f.conns cs a v.ranges;
  written = Alike-Written content f.size f.conns cs f.file a v.written;
}

setup_thread-range :
    (t : Setup) (c : Conn)
    → (c.currentbyte ≡ (setup_thread t c).currentbyte) × (c.lastbyte ≡ (setup_thread t c).lastbyte)
unfolding setup_thread
setup_thread-range t c = ground arith

setup_thread-supported : (t : Setup) (c : Conn) → (setup_thread t c).supported ≡ c.supported
unfolding setup_thread
setup_thread-supported t c = ground arith

pub end_thread-Inv :
    (content : ℕ → ℕ) (i : ℕ) (t : Setup) (f : Flux)
    → Inv content f
    → Inv content (end_thread i t f)
unfolding end_thread
end_thread-Inv content i t f v =
    Alike-Inv content f _ f.ready
      (SameRanges-Alike f.size f.conns _
        (modify-SameRanges i (setup_thread t) f.conns (setup_thread-range t)))
      v

pub end_thread-Honest : (i : ℕ) (t : Setup) (f : Flux) → Honest f → Honest (end_thread i t f)
unfolding end_thread
end_thread-Honest i t f h = record {
  whole = h.whole;
  resumable = λ on.
      supported_first-modify i (setup_thread t) f.conns (setup_thread-supported t) ∙ h.resumable on;
}

as_supported-SameRanges : (cs : List Conn) → SameRanges cs (map as_supported cs)
as_supported-SameRanges [] = tt
as_supported-SameRanges (d ∷ ds) = (refl, refl, as_supported-SameRanges ds)

set_supported-SameRanges : (cs : List Conn) → SameRanges cs (set_supported cs)
unfolding set_supported
set_supported-SameRanges [] = tt
set_supported-SameRanges (c ∷ cs) = (refl, refl, as_supported-SameRanges cs)

set_supported-first : (cs : List Conn) → supported_first (set_supported cs) ≡ supported_first cs
unfolding set_supported supported_first
set_supported-first [] = refl
set_supported-first (c ∷ cs) = refl

reactivate-Alike : (size i : ℕ) (cs : List Conn) → Within size cs → Alike size cs (reactivate i cs)
reactivate-Alike size i cs w =
    let k = reactivate_keeps size i cs w in
    record { within = λ _. k.0; same_owners = k.3; same_total = k.2 }

if-Alike :
    (size : ℕ) (cs : List Conn) (b : Bool) (x y : List Conn)
    → Alike size cs x
    → Alike size cs y
    → Alike size cs (if b then x else y)
if-Alike size cs true x y h k = h
if-Alike size cs false x y h k = k

start_conn-Alike : (size i : ℕ) (cs : List Conn) → Within size cs → Alike size cs (start_conn i cs)
unfolding start_conn
start_conn-Alike size i cs w = elim (Option-cases (get_elem? cs i)) [
  | inl gone ↦ rw (gone, start_conn) (SameRanges-Alike size cs cs (SameRanges-refl cs))
  | inr (c, at) ↦
      rw (at, start_conn)
        (if-Alike size cs (ltb c.currentbyte c.lastbyte) _ _
          (SameRanges-Alike size cs _ (modify-SameRanges i _ cs (λ d. (refl, refl))))
          (reactivate-Alike size i cs w))
]

start_from-Alike :
    (size left i : ℕ) (cs : List Conn) → Within size cs → Alike size cs (start_from left i cs)
unfolding start_from
start_from-Alike size zero i cs w = SameRanges-Alike size cs cs (SameRanges-refl cs)
start_from-Alike size (suc left) i cs w =
    let a = start_conn-Alike size i cs w in
    Alike-trans size cs (start_conn i cs) _ a
      (start_from-Alike size left (i + 1) (start_conn i cs) (a.within w))

pub flux_start-Inv : (content : ℕ → ℕ) (f : Flux) → Inv content f → Inv content (flux_start f)
unfolding flux_start
flux_start-Inv content f v =
    let a =
      SameRanges-Alike f.size f.conns (set_supported f.conns) (set_supported-SameRanges f.conns) in
    let w = a.within v.ranges.within in
    Alike-Inv content f _ Ready.running
      (Alike-trans f.size f.conns (set_supported f.conns) _ a
        (start_from-Alike f.size (length f.conns) 0 (set_supported f.conns) w))
      v

if-supported :
    (b : Bool) (x y cs : List Conn)
    → supported_first x ≡ supported_first cs
    → supported_first y ≡ supported_first cs
    → supported_first (if b then x else y) ≡ supported_first cs
if-supported true x y cs h k = h
if-supported false x y cs h k = k

start_conn-supported :
    (i : ℕ) (cs : List Conn) → supported_first (start_conn i cs) ≡ supported_first cs
unfolding start_conn
start_conn-supported i cs = elim (Option-cases (get_elem? cs i)) [
  | inl gone ↦ rw (gone, start_conn) refl
  | inr (c, at) ↦
      rw (at, start_conn)
        (if-supported (ltb c.currentbyte c.lastbyte) _ _ cs
          (supported_first-modify i _ cs (λ d. refl)) (supported_first-reactivate i cs))
]

start_from-supported :
    (left i : ℕ) (cs : List Conn) → supported_first (start_from left i cs) ≡ supported_first cs
unfolding start_from
start_from-supported zero i cs = refl
start_from-supported (suc left) i cs =
    start_from-supported left (i + 1) (start_conn i cs) ∙ start_conn-supported i cs

pub flux_start-Honest : (f : Flux) → supported_first f.conns ≡ true → Honest (flux_start f)
unfolding flux_start
flux_start-Honest f h = record {
  whole = λ d. cc;
  resumable = λ on.
      start_from-supported (length f.conns) 0 (set_supported f.conns)
      ∙ set_supported-first f.conns
      ∙ h;
}

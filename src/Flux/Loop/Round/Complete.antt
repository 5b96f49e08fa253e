-- ===== src/Flux/Loop/Round/Complete.antt =====
-- A round of the main loop keeps the invariant, and a download that the loop declares complete is.
use hyperflux.Common.{
  ℕ, ◌+◌, ◌*◌, ◌≡◌, refl, inl, inr, Bool, true, false, Option, none, some, List, [], ◌∷◌, arith,
  ltb, ◌==◌, if◌then◌else◌, Bool-cases, length,
}
use hyperflux.Flux.{Conn, Ready, Flux, Conf}
use hyperflux.Flux.Loop.Handle.{Pass, next, stop, fault, handle_all}
use hyperflux.Flux.Loop.Invariant.{
  Inv, SameRanges, SameRanges-Alike, Alike-RangesInv, Alike-Written,
}
use hyperflux.Flux.Loop.Keeps.{PassInv, AllServed, handle_all-PassInv}
use hyperflux.Flux.Loop.Round.{
  Restart, Round, save_step, any_enabled, restart, restart_all, conn_check, finish_check,
  finish_round, pause, is_running, idle_phase, read_phase, rest_of_round, after_pass, flux_do,
}

-- The parts of the state that the invariant speaks of.
pub record SameData (f g : Flux) : Type 0 where
  pub conns : g.conns ≡ f.conns
  pub size : g.size ≡ f.size
  pub bytes_done : g.bytes_done ≡ f.bytes_done
  pub file : g.file ≡ f.file

SameData-Inv : (content : ℕ → ℕ) (f g : Flux) → SameData f g → Inv content f → Inv content g
SameData-Inv content f g s v = record {
  ranges = rw (s.conns, s.size, s.bytes_done) v.ranges;
  written = rw (s.conns, s.size, s.file) v.written;
}

pub save_step-SameData : (conf : Conf) (r : Round) (f : Flux) → SameData f (save_step conf r f)
unfolding save_step
save_step-SameData conf r f = elim (Bool-cases (ltb (f.next_state * 1000000) r.save_time)) [
  | inl t ↦ rw t (record { conns = refl; size = refl; bytes_done = refl; file = refl })
  | inr t ↦ rw t (record { conns = refl; size = refl; bytes_done = refl; file = refl })
]

pub finish_check-SameData : (f : Flux) → SameData f (finish_check f)
unfolding finish_check
finish_check-SameData f = elim (Bool-cases (f.bytes_done == f.size)) [
  | inl t ↦ rw t (record { conns = refl; size = refl; bytes_done = refl; file = refl })
  | inr t ↦ rw t (record { conns = refl; size = refl; bytes_done = refl; file = refl })
]

pub finish_round-SameData :
    (conf : Conf) (r : Round) (f : Flux) → SameData f (finish_round conf r f)
unfolding finish_round pause finish_check
finish_round-SameData conf r f = record {
  conns = ground arith;
  size = ground arith;
  bytes_done = ground arith;
  file = ground arith;
}

restart-range :
    (conf : Conf) (r : Restart) (c : Conn)
    → let d = (restart conf r c).0 in (c.currentbyte ≡ d.currentbyte) × (c.lastbyte ≡ d.lastbyte)
unfolding restart
restart-range conf r c = ground arith

restart_all-SameRanges :
    (conf : Conf) (rs : ℕ → Restart) (i : ℕ) (cs : List Conn)
    → SameRanges cs (restart_all conf rs i cs).0
unfolding restart_all
restart_all-SameRanges conf rs i [] = tt
restart_all-SameRanges conf rs i (c ∷ cs) =
    let (a, b) = restart-range conf (rs i) c in (a, b, restart_all-SameRanges conf rs (i + 1) cs)

pub conn_check-Inv :
    (content : ℕ → ℕ) (conf : Conf) (r : Round) (f : Flux)
    → Inv content f
    → Inv content (conn_check conf r f)
unfolding conn_check
conn_check-Inv content conf r f v =
    let a = SameRanges-Alike f.size f.conns _ (restart_all-SameRanges conf r.restarts 0 f.conns) in
    record {
      ranges = Alike-RangesInv f.size f.bytes_done f.conns _ a v.ranges;
      written = Alike-Written content f.size f.conns _ f.file a v.written;
    }

pub rest_of_round-Inv :
    (content : ℕ → ℕ) (conf : Conf) (r : Round) (f : Flux)
    → Inv content f
    → Inv content (rest_of_round conf r f)
rest_of_round-Inv content conf r f v =
    SameData-Inv content (conn_check conf r f) _
      (finish_round-SameData conf r (conn_check conf r f)) (conn_check-Inv content conf r f v)

-- What `flux_do` leaves: the invariant, and no fault.
abbrev pub RoundInv : (ℕ → ℕ) → Option Flux → Type 0
RoundInv content none = ⊥
RoundInv content (some g) = Inv content g

-- What each connection that is read from receives in the round is what the server has.
abbrev pub RoundServed : (ℕ → ℕ) → Conf → Round → Flux → Type 0
RoundServed content conf r f =
    AllServed content conf r.events (length (save_step conf r f).conns) 0 (save_step conf r f)

after_pass-RoundInv :
    (content : ℕ → ℕ) (conf : Conf) (r : Round) (m : Pass)
    → PassInv content m
    → RoundInv content (after_pass conf r m)
unfolding after_pass
after_pass-RoundInv content conf r (next g) v = elim (Bool-cases (is_running g.ready)) [
  | inl t ↦ rw t (rest_of_round-Inv content conf r g v)
  | inr t ↦ rw t v
]
after_pass-RoundInv content conf r (stop g) v = v.0
after_pass-RoundInv content conf r fault v = v

if-RoundInv :
    (content : ℕ → ℕ) (b : Bool) (x y : Option Flux)
    → RoundInv content x
    → RoundInv content y
    → RoundInv content (if b then x else y)
if-RoundInv content true x y h k = h
if-RoundInv content false x y h k = k

if-Inv :
    (content : ℕ → ℕ) (b : Bool) (x y : Flux)
    → Inv content x
    → Inv content y
    → Inv content (if b then x else y)
if-Inv content true x y h k = h
if-Inv content false x y h k = k

set_ready-Inv :
    (content : ℕ → ℕ) (f : Flux) (x : Ready) → Inv content f → Inv content (record f { ready = x })
set_ready-Inv content f x v = record { ranges = v.ranges; written = v.written }

idle_phase-Inv :
    (content : ℕ → ℕ) (conf : Conf) (r : Round) (f : Flux)
    → Inv content f
    → Inv content (idle_phase conf r f)
unfolding idle_phase
idle_phase-Inv content conf r f v =
    if-Inv content r.slept (rest_of_round conf r f) (record f { ready = Ready.failed })
      (rest_of_round-Inv content conf r f v) (set_ready-Inv content f Ready.failed v)

read_phase-RoundInv :
    (content : ℕ → ℕ) (conf : Conf) (r : Round) (f : Flux)
    → AllServed content conf r.events (length f.conns) 0 f
    → Inv content f
    → RoundInv content (read_phase conf r f)
unfolding read_phase
read_phase-RoundInv content conf r f s v =
    let m = handle_all conf r.events (length f.conns) 0 f in
    if-RoundInv content r.selected (after_pass conf r m) (some (record f { ready = Ready.failed }))
      (after_pass-RoundInv content conf r m
        (handle_all-PassInv content conf r.events (length f.conns) 0 f s v))
      (set_ready-Inv content f Ready.failed v)

-- A round of `flux_do` keeps the invariant, whatever the network, the file system and the clock do,
-- if what the connections receive is what the server has. It never writes a negative number of
-- bytes.
pub flux_do-RoundInv :
    (content : ℕ → ℕ) (conf : Conf) (r : Round) (f : Flux)
    → RoundServed content conf r f
    → Inv content f
    → RoundInv content (flux_do conf r f)
unfolding flux_do
flux_do-RoundInv content conf r f0 s v0 =
    let f = save_step conf r f0 in
    let same = save_step-SameData conf r f0 in
    let v = SameData-Inv content f0 f same v0 in
    if-RoundInv content (any_enabled r.free 0 f.conns) (read_phase conf r f)
      (some (idle_phase conf r f)) (read_phase-RoundInv content conf r f s v)
      (idle_phase-Inv content conf r f v)

-- ===== src/Flux/Loop/Round/Honest.antt =====
-- Over a connection that can be resumed, `flux_do` says "ready" only when all bytes are there.
use hyperflux.Common.{
  ℕ, zero, suc, ◌+◌, ◌-◌, ◌*◌, min, ◌≡◌, refl, ◌∙◌, inl, inr, Bool, true, false, not, Option, none,
  some, List, [], ◌∷◌, arith, ltb, ◌==◌, if◌then◌else◌, Bool-cases, Option-cases, length, get_elem?,
}
use hyperflux.Flux.{Conn, Ready, Flux, Conf}
use hyperflux.Flux.StateFile.{supported_first}
use hyperflux.Flux.Reactivate.{modify, steal, steal_if, reactivate, pick}
use hyperflux.Flux.Loop.Handle.{
  Event, Pass, next, stop, fault, disconnect, touch, advance, finish_stream, write_bytes, store,
  attend, handle, handle_all,
}
use hyperflux.Flux.Loop.Keeps.{Pass-cases}
use hyperflux.Flux.Loop.Round.{
  Restart, Round, save_step, any_enabled, restart, restart_all, conn_check, finish_check,
  finish_round, pause, is_running, rest_of_round, after_pass, idle_phase, read_phase, flux_do,
}

abbrev KeepsSupported : (Conn → Conn) → Type 0
KeepsSupported g = (c : Conn) → (g c).supported ≡ c.supported

pub supported_first-modify :
    (i : ℕ) (g : Conn → Conn) (cs : List Conn)
    → KeepsSupported g
    → supported_first (modify i g cs) ≡ supported_first cs
unfolding supported_first modify
supported_first-modify i g [] k = refl
supported_first-modify zero g (c ∷ cs) k = k c
supported_first-modify (suc i) g (c ∷ cs) k = refl

supported_first-steal :
    (t i m : ℕ) (cs : List Conn) → supported_first (steal t i m cs) ≡ supported_first cs
unfolding steal
supported_first-steal t i m cs =
    supported_first-modify t _ _ (λ c. refl)
    ∙ supported_first-modify i _ _ (λ c. refl)
    ∙ supported_first-modify t _ cs (λ c. refl)

supported_first-steal_if :
    (t : ℕ) (o : ℕ × Option ℕ) (cs : List Conn)
    → supported_first (steal_if t o cs) ≡ supported_first cs
unfolding steal_if
supported_first-steal_if t (m, none) cs = refl
supported_first-steal_if t (m, some i) cs = supported_first-steal t i m cs

pub supported_first-reactivate :
    (t : ℕ) (cs : List Conn) → supported_first (reactivate t cs) ≡ supported_first cs
unfolding reactivate
supported_first-reactivate t cs =
    ground (arith, supported_first-steal_if t (pick 102399 none 0 cs) cs)

supported_first-disconnect :
    (i : ℕ) (cs : List Conn) → supported_first (disconnect i cs) ≡ supported_first cs
unfolding disconnect
supported_first-disconnect i cs = supported_first-modify i _ cs (λ c. refl)

supported_first-touch :
    (i now : ℕ) (cs : List Conn) → supported_first (touch i now cs) ≡ supported_first cs
unfolding touch
supported_first-touch i now cs = supported_first-modify i _ cs (λ c. refl)

supported_first-advance :
    (i n : ℕ) (cs : List Conn) → supported_first (advance i n cs) ≡ supported_first cs
unfolding advance
supported_first-advance i n cs = supported_first-modify i _ cs (λ c. refl)

-- The download can be resumed, and goes on.
pub record Going (f : Flux) : Type 0 where
  pub supported : supported_first f.conns ≡ true
  pub running : f.ready ≡ Ready.running

abbrev GoingPass : Pass → Type 0
GoingPass (next g) = Going g
GoingPass (stop g) = g.ready ≡ Ready.failed
GoingPass fault = Unit {0}

if-GoingPass : (b : Bool) (x y : Pass) → GoingPass x → GoingPass y → GoingPass (if b then x else y)
if-GoingPass true x y h k = h
if-GoingPass false x y h k = k

with_conns-Going :
    (f : Flux) (cs : List Conn)
    → supported_first cs ≡ supported_first f.conns
    → Going f
    → Going (record f { conns = cs })
with_conns-Going f cs e g = record { supported = e ∙ g.supported; running = g.running }

finish_stream-Going : (i : ℕ) (f : Flux) → Going f → Going (finish_stream i f)
unfolding finish_stream
finish_stream-Going i f g = record {
  supported = supported_first-reactivate i _ ∙ supported_first-disconnect i f.conns ∙ g.supported;
  running = rw (g.supported) g.running;
}

write_bytes-GoingPass :
    (i : ℕ) (c : Conn) (bs : List ℕ) (w size rem : ℕ) (f : Flux)
    → Going f
    → GoingPass (write_bytes i c bs w size rem f)
unfolding write_bytes
write_bytes-GoingPass i c bs w size rem f g =
    if-GoingPass (not (min w size == size)) _ _ refl (record {
      supported = ground (
        arith,
        g.supported,
        supported_first-advance i size f.conns,
        supported_first-reactivate i (advance i size f.conns),
      );
      running = g.running;
    })

store-GoingPass :
    (i : ℕ) (c : Conn) (bs : List ℕ) (w : ℕ) (f : Flux) → Going f → GoingPass (store i c bs w f)
unfolding store
store-GoingPass i c bs w f g =
    let rem = c.lastbyte - c.currentbyte in
    if-GoingPass (ltb c.lastbyte c.currentbyte) fault _ tt (
      if-GoingPass (ltb rem (length bs)) _ _
        (write_bytes-GoingPass i c bs w rem rem _
          (with_conns-Going f (disconnect i f.conns) (supported_first-disconnect i f.conns) g))
        (write_bytes-GoingPass i c bs w (length bs) rem f g))

attend-GoingPass :
    (conf : Conf) (i : ℕ) (c : Conn) (now : ℕ) (event : Event) (f : Flux)
    → Going f
    → GoingPass (attend conf i c now event f)
unfolding attend
attend-GoingPass conf i c now Event.locked f g = g
attend-GoingPass conf i c now Event.quiet f g =
    if-GoingPass (ltb ((c.last_transfer + conf.connection_timeout) * 1000000) now) _ _
      (with_conns-Going f (disconnect i f.conns) (supported_first-disconnect i f.conns) g) g
attend-GoingPass conf i c now Event.broken f g =
    with_conns-Going f (disconnect i (touch i now f.conns))
      (supported_first-disconnect i _ ∙ supported_first-touch i now f.conns) g
attend-GoingPass conf i c now (Event.received [] w) f g =
    finish_stream-Going i _
      (with_conns-Going f (touch i now f.conns) (supported_first-touch i now f.conns) g)
attend-GoingPass conf i c now (Event.received (b ∷ bs) w) f g =
    store-GoingPass i c (b ∷ bs) w _
      (with_conns-Going f (touch i now f.conns) (supported_first-touch i now f.conns) g)

handle-GoingPass :
    (conf : Conf) (i now : ℕ) (event : Event) (f : Flux)
    → Going f
    → GoingPass (handle conf i now event f)
unfolding handle
handle-GoingPass conf i now event f g = elim (Option-cases (get_elem? f.conns i)) [
  | inl gone ↦ rw (gone, handle) g
  | inr (c, at) ↦
      rw (at, handle)
        (if-GoingPass c.enabled (attend conf i c now event f) (next f)
          (attend-GoingPass conf i c now event f g) g)
]

handle_all-GoingPass :
    (conf : Conf) (events : ℕ → ℕ × Event) (rounds i : ℕ) (f : Flux)
    → Going f
    → GoingPass (handle_all conf events rounds i f)
unfolding handle_all
handle_all-GoingPass conf events zero i f g = g
handle_all-GoingPass conf events (suc rounds) i f g =
    let h = handle-GoingPass conf i (events i).0 (events i).1 f g in
    elim (Pass-cases (handle conf i (events i).0 (events i).1 f)) [
      | inl (g', e) ↦
          rw (e, handle_all) (handle_all-GoingPass conf events rounds (i + 1) g' (rw e at h))
      | inr (inl (g', e)) ↦ rw (e, handle_all) (rw e at h)
      | inr (inr e) ↦ rw (e, handle_all) tt
    ]

-- "Ready" is said of a whole download only; one that goes on can still be resumed.
pub record Honest (f : Flux) : Type 0 where
  pub whole : f.ready ≡ Ready.done → f.bytes_done ≡ f.size
  pub resumable : f.ready ≡ Ready.running → supported_first f.conns ≡ true

failed-Honest : (f : Flux) → f.ready ≡ Ready.failed → Honest f
failed-Honest f e = record { whole = λ d. cc; resumable = λ d. cc }

finish_check-Honest : (f : Flux) → Honest f → Honest (finish_check f)
unfolding finish_check
finish_check-Honest f h = elim (Bool-cases (f.bytes_done == f.size)) [
  | inl t ↦ rw t (record { whole = λ d. ground arith; resumable = λ d. cc })
  | inr t ↦ rw t h
]

if-Honest : (b : Bool) (x y : Flux) → Honest x → Honest y → Honest (if b then x else y)
if-Honest true x y h k = h
if-Honest false x y h k = k

finish_round-Honest :
    (conf : Conf) (r : Round) (f : Flux) → Honest f → Honest (finish_round conf r f)
unfolding finish_round pause
finish_round-Honest conf r f h =
    let same : Honest (record f { bytes_per_second = r.speed }) = record {
      whole = h.whole;
      resumable = h.resumable;
    } in
    if-Honest (ltb 0 conf.max_speed) _ _
      (if-Honest (r.paused _) _ _
        (finish_check-Honest _ (record { whole = h.whole; resumable = h.resumable }))
        (failed-Honest _ refl))
      (finish_check-Honest _ same)

restart_all-supported :
    (conf : Conf) (rs : ℕ → Restart) (i : ℕ) (cs : List Conn)
    → supported_first (restart_all conf rs i cs).0 ≡ supported_first cs
unfolding restart_all restart supported_first
restart_all-supported conf rs i [] = refl
restart_all-supported conf rs i (c ∷ cs) = ground arith

conn_check-Honest : (conf : Conf) (r : Round) (f : Flux) → Going f → Honest (conn_check conf r f)
unfolding conn_check
conn_check-Honest conf r f g = record {
  whole = λ d. ground (arith, g.running);
  resumable = λ d. restart_all-supported conf r.restarts 0 f.conns ∙ g.supported;
}

rest_of_round-Honest :
    (conf : Conf) (r : Round) (f : Flux) → Going f → Honest (rest_of_round conf r f)
rest_of_round-Honest conf r f g = finish_round-Honest conf r _ (conn_check-Honest conf r f g)

abbrev pub RoundHonest : Option Flux → Type 0
RoundHonest none = Unit {0}
RoundHonest (some g) = Honest g

if-RoundHonest :
    (b : Bool) (x y : Option Flux)
    → RoundHonest x
    → RoundHonest y
    → RoundHonest (if b then x else y)
if-RoundHonest true x y h k = h
if-RoundHonest false x y h k = k

after_pass-RoundHonest :
    (conf : Conf) (r : Round) (m : Pass) → GoingPass m → RoundHonest (after_pass conf r m)
unfolding after_pass
after_pass-RoundHonest conf r (next g) h =
    let t : is_running g.ready ≡ true = ground (arith, h.running) in
    rw t (rest_of_round-Honest conf r g h)
after_pass-RoundHonest conf r (stop g) h = failed-Honest g h
after_pass-RoundHonest conf r fault h = tt

save_step-Going : (conf : Conf) (r : Round) (f : Flux) → Going f → Going (save_step conf r f)
unfolding save_step
save_step-Going conf r f g = elim (Bool-cases (ltb (f.next_state * 1000000) r.save_time)) [
  | inl t ↦ rw t (record { supported = g.supported; running = g.running })
  | inr t ↦ rw t g
]

-- After a round that starts with the download going on, over a first connection that can be
-- resumed, "ready" means that as many bytes have arrived as the file has, and if the download
-- still goes on then the first connection can still be resumed.
pub flux_do-RoundHonest :
    (conf : Conf) (r : Round) (f : Flux) → Going f → RoundHonest (flux_do conf r f)
unfolding flux_do idle_phase read_phase
flux_do-RoundHonest conf r f0 g0 =
    let f = save_step conf r f0 in
    let g = save_step-Going conf r f0 g0 in
    if-RoundHonest (any_enabled r.free 0 f.conns) (read_phase conf r f) (some (idle_phase conf r f))
      (if-RoundHonest r.selected _ _
        (after_pass-RoundHonest conf r _
          (handle_all-GoingPass conf r.events (length f.conns) 0 f g))
        (failed-Honest _ refl))
      (if-Honest r.slept _ _ (rest_of_round-Honest conf r f g) (failed-Honest _ refl))

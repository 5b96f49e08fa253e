-- ===== src/Flux/Loop/Progress.antt =====
-- Rounds of `flux_do` of src/flux.c in which the download goes on.
pub mod Ends
use hyperflux.Common.{
  ℕ, zero, suc, ◌+◌, ◌-◌, ◌*◌, ◌≤◌, ◌<◌, ◌≡◌, refl, sym, ap, ◌∙◌, inl, inr, Bool, true, false, some,
  List, [], ◌∷◌, arith, ltb, ◌==◌, if◌then◌else◌, Bool-cases, Option-cases, length, get_elem?,
}
use hyperflux.Flux.{Conn, Ready, Flux, Conf}
use hyperflux.Flux.Reactivate.{reactivate}
use hyperflux.Flux.Loop.Handle.{
  Event, next, write_at, touch, advance, write_bytes, store, attend, handle, handle_all,
}
use hyperflux.Flux.Loop.Keeps.{Served, AllServed}
use hyperflux.Flux.Loop.Round.{
  Restart, Round, save_step, any_enabled, restart, restart_all, conn_check, finish_check,
  finish_round, pause, is_running, idle_phase, read_phase, rest_of_round, after_pass, flux_do,
}
use hyperflux.Flux.Loop.Round.Complete.{finish_round-SameData}

-- No lock is held in the check of idle connections, the clock stands still, and threads can be started.
abbrev pub calm : Restart
calm = record { locked = false; now = 0; started = true }

abbrev pub round_of : (ℕ → Bool) → (ℕ → ℕ × Event) → Round
round_of free events = record {
  save_time = 0;
  saved_time = 0;
  writable = true;
  free = free;
  slept = true;
  selected = true;
  events = events;
  restarts = λ j. calm;
  speed = 0;
  paused = λ d. true;
}

pub handle-locked : (conf : Conf) (i now : ℕ) (f : Flux) → handle conf i now Event.locked f ≡ next f
unfolding handle attend
handle-locked conf i now f = elim (Option-cases (get_elem? f.conns i)) [
  | inl gone ↦ rw (gone, handle) refl
  | inr (c, at) ↦ rw (at, handle) (ground arith)
]

-- All connections but `i` are locked.
abbrev pub only : ℕ → Event → ℕ → ℕ × Event
only i event j = (0, if j == i then event else Event.locked)

handle_all-locked :
    (conf : Conf) (i : ℕ) (event : Event) (rounds j : ℕ) (f : Flux)
    → i < j
    → handle_all conf (only i event) rounds j f ≡ next f
unfolding handle_all
handle_all-locked conf i event zero j f h = refl
handle_all-locked conf i event (suc rounds) j f h =
    let other : (j == i) ≡ false = ground (arith, h) in
    rw (other, handle-locked conf j 0 f, handle_all)
      (handle_all-locked conf i event rounds (j + 1) f (omega (arith, h)))

pub handle_all-only :
    (conf : Conf) (i : ℕ) (event : Event) (rounds j : ℕ) (f g : Flux)
    → j ≤ i
    → i < j + rounds
    → handle conf i 0 event f ≡ next g
    → handle_all conf (only i event) rounds j f ≡ next g
unfolding handle_all
handle_all-only conf i event zero j f g h l e = absurd (omega (arith, h, l))
handle_all-only conf i event (suc rounds) j f g h l e = elim (Bool-cases (j == i)) [
  | inl k ↦
      let here : j ≡ i = ground (arith, k) in
      let e' : handle conf j 0 event f ≡ next g = rw here e in
      rw (k, e', handle_all) (handle_all-locked conf i event rounds (j + 1) g (omega (arith, here)))
  | inr k ↦
      let there : suc j ≤ i = ground (arith, k, h) in
      rw (k, handle-locked conf j 0 f, handle_all)
        (handle_all-only conf i event rounds (j + 1) f g (omega (arith, there)) (omega (arith, l))
          e)
]

AllServed-locked :
    (content : ℕ → ℕ) (conf : Conf) (i : ℕ) (event : Event) (rounds j : ℕ) (f : Flux)
    → i < j
    → AllServed content conf (only i event) rounds j f
AllServed-locked content conf i event zero j f h = tt
AllServed-locked content conf i event (suc rounds) j f h =
    let other : (j == i) ≡ false = ground (arith, h) in
    (
      λ c at. rw other tt,
      λ g e. AllServed-locked content conf i event rounds (j + 1) g (omega (arith, h)),
    )

pub AllServed-only :
    (content : ℕ → ℕ) (conf : Conf) (i : ℕ) (event : Event) (rounds j : ℕ) (f : Flux)
    → j ≤ i
    → Served content i event f
    → AllServed content conf (only i event) rounds j f
AllServed-only content conf i event zero j f h s = tt
AllServed-only content conf i event (suc rounds) j f h s = elim (Bool-cases (j == i)) [
  | inl k ↦
      let here : j ≡ i = ground (arith, k) in
      (
        λ c at. rw k (s c (ap (get_elem? f.conns) (sym here) ∙ at)),
        λ g e. AllServed-locked content conf i event rounds (j + 1) g (omega (arith, here)),
      )
  | inr k ↦
      let later : suc j ≤ i = ground (arith, k, h) in
      (
        λ c at. rw k tt,
        λ g e.
            let passed : next f ≡ next g =
              sym (handle-locked conf j 0 f)
              ∙ ap (λ b. handle conf j 0 (if b then event else Event.locked) f) (sym k)
              ∙ e in
            let same : f ≡ g = cc in
            rw (sym same)
              (AllServed-only content conf i event rounds (j + 1) f (omega (arith, later)) s),
      )
]

-- One byte, written whole.
abbrev pub byte_stored : ℕ → ℕ → Conn → Flux → Flux
byte_stored i b c f =
    let moved = advance i 1 (touch i 0 f.conns) in
    record f {
      file = write_at c.currentbyte (b ∷ []) f.file;
      bytes_done = f.bytes_done + 1;
      conns = if c.lastbyte - c.currentbyte == 1 then reactivate i moved else moved;
    }

pub handle-byte :
    (conf : Conf) (i b : ℕ) (c : Conn) (f : Flux)
    → get_elem? f.conns i ≡ some c
    → c.enabled ≡ true
    → c.currentbyte < c.lastbyte
    → handle conf i 0 (Event.received (b ∷ []) 1) f ≡ next (byte_stored i b c f)
unfolding handle attend store write_bytes
handle-byte conf i b c f at on more =
    let upright : ltb c.lastbyte c.currentbyte ≡ false = ground (arith, more) in
    let fits : ltb (c.lastbyte - c.currentbyte) 1 ≡ false = ground (arith, more) in
    rw (at, handle) (rw on (rw (upright, fits) refl))

restart-good : (conf : Conf) (c : Conn) → (restart conf calm c).1 ≡ true
unfolding restart
restart-good conf c = ground arith

restart_all-good :
    (conf : Conf) (j : ℕ) (cs : List Conn) → (restart_all conf (λ k. calm) j cs).1 ≡ true
unfolding restart_all
restart_all-good conf j [] = refl
restart_all-good conf j (c ∷ cs) = rw (restart-good conf c) (restart_all-good conf (j + 1) cs)

-- An idle connection with bytes to go has a setup thread after the check.
pub restart-state :
    (conf : Conf) (c : Conn)
    → c.currentbyte < c.lastbyte
    → c.enabled ≡ false
    → let d = (restart conf calm c).0 in
      (d.state ≡ true) × ((d.currentbyte ≡ c.currentbyte) × (d.lastbyte ≡ c.lastbyte))
unfolding restart
restart-state conf c more off = ground arith

pub get_elem?-restart_all :
    (conf : Conf) (i j : ℕ) (cs : List Conn) (c : Conn)
    → get_elem? cs i ≡ some c
    → get_elem? (restart_all conf (λ k. calm) j cs).0 i ≡ some (restart conf calm c).0
unfolding restart_all
get_elem?-restart_all conf i j [] c at = cc
get_elem?-restart_all conf zero j (d ∷ cs) c at =
    let same : d ≡ c = cc in ap (λ e. some (restart conf calm e).0) same
get_elem?-restart_all conf (suc i) j (d ∷ cs) c at = get_elem?-restart_all conf i (j + 1) cs c at

any_enabled-none : (j : ℕ) (cs : List Conn) → any_enabled (λ k. false) j cs ≡ false
unfolding any_enabled
any_enabled-none j [] = refl
any_enabled-none j (c ∷ cs) = any_enabled-none (j + 1) cs

any_enabled-some :
    (i j : ℕ) (cs : List Conn) (c : Conn)
    → get_elem? cs i ≡ some c
    → c.enabled ≡ true
    → any_enabled (λ k. true) j cs ≡ true
unfolding any_enabled
any_enabled-some i j [] c at on = cc
any_enabled-some zero j (d ∷ cs) c at on =
    let same : d.enabled ≡ true = ground (arith, at, on) in rw same refl
any_enabled-some (suc i) j (d ∷ cs) c at on = elim (Bool-cases (d.enabled)) [
  | inl e ↦ rw e refl
  | inr e ↦ rw e (any_enabled-some i (j + 1) cs c at on)
]

-- A state in which `ready` says whether all bytes are there.
abbrev pub Told : Flux → Type 0
Told f = f.ready ≡ (if f.bytes_done == f.size then Ready.done else Ready.running)

finish_check-Told : (f : Flux) → f.ready ≡ Ready.running → Told (finish_check f)
unfolding finish_check
finish_check-Told f on = elim (Bool-cases (f.bytes_done == f.size)) [
  | inl e ↦ rw e (sym (ap (λ b. if b then Ready.done else Ready.running) e))
  | inr e ↦ rw e (on ∙ sym (ap (λ b. if b then Ready.done else Ready.running) e))
]

if-Told : (b : Bool) (x y : Flux) → Told x → Told y → Told (if b then x else y)
if-Told true x y h k = h
if-Told false x y h k = k

conn_check-running :
    (conf : Conf) (free : ℕ → Bool) (events : ℕ → ℕ × Event) (f : Flux)
    → f.ready ≡ Ready.running
    → (conn_check conf (round_of free events) f).ready ≡ Ready.running
unfolding conn_check
conn_check-running conf free events f on =
    ap (λ b. if b then f.ready else Ready.failed) (restart_all-good conf 0 f.conns) ∙ on

pub rest_of_round-Told :
    (conf : Conf) (free : ℕ → Bool) (events : ℕ → ℕ × Event) (f : Flux)
    → f.ready ≡ Ready.running
    → Told (rest_of_round conf (round_of free events) f)
unfolding finish_round pause
rest_of_round-Told conf free events f on =
    let going = conn_check-running conf free events f on in
    if-Told (ltb 0 conf.max_speed) _ _ (finish_check-Told _ going) (finish_check-Told _ going)

pub flux_do-idle :
    (conf : Conf) (events : ℕ → ℕ × Event) (f : Flux)
    → flux_do conf (round_of (λ k. false) events) f
      ≡ some (rest_of_round conf (round_of (λ k. false) events) f)
unfolding flux_do save_step idle_phase
flux_do-idle conf events f =
    let early : ltb (f.next_state * 1000000) 0 ≡ false = ground arith in
    rw early (rw (any_enabled-none 0 f.conns) refl)

pub flux_do-byte :
    (conf : Conf) (i b : ℕ) (c : Conn) (f : Flux)
    → get_elem? f.conns i ≡ some c
    → i < length f.conns
    → c.enabled ≡ true
    → c.currentbyte < c.lastbyte
    → f.ready ≡ Ready.running
    → flux_do conf (round_of (λ k. true) (only i (Event.received (b ∷ []) 1))) f
      ≡ some (
          rest_of_round conf
            (round_of (λ k. true) (only i (Event.received (b ∷ []) 1)))
            (byte_stored i b c f))
unfolding flux_do save_step read_phase after_pass
flux_do-byte conf i b c f at inside on more running =
    let event = Event.received (b ∷ []) 1 in
    let early : ltb (f.next_state * 1000000) 0 ≡ false = ground arith in
    let pass =
      handle_all-only conf i event (length f.conns) 0 f (byte_stored i b c f) (omega arith)
        (omega (arith, inside)) (handle-byte conf i b c f at on more) in
    let going : is_running f.ready ≡ true = ap is_running running in
    rw early (rw (any_enabled-some i 0 f.conns c at on) (rw (pass, after_pass) (rw going refl)))

pub save_step-early :
    (conf : Conf) (free : ℕ → Bool) (events : ℕ → ℕ × Event) (f : Flux)
    → save_step conf (round_of free events) f ≡ f
unfolding save_step
save_step-early conf free events f =
    let early : ltb (f.next_state * 1000000) 0 ≡ false = ground arith in rw early refl

-- What the end of a round leaves as it is, and what the check makes of the connections.
pub rest_of_round-rest :
    (conf : Conf) (free : ℕ → Bool) (events : ℕ → ℕ × Event) (f : Flux)
    → let g = rest_of_round conf (round_of free events) f in
      (g.bytes_done ≡ f.bytes_done)
      × ((g.size ≡ f.size) × (g.conns ≡ (restart_all conf (λ k. calm) 0 f.conns).0))
unfolding conn_check
rest_of_round-rest conf free events f =
    let r = round_of free events in
    let same = finish_round-SameData conf r (conn_check conf r f) in
    (same.bytes_done, (same.size, same.conns))

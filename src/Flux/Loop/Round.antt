-- ===== src/Flux/Loop/Round.antt =====
-- `flux_do` of src/flux.c, put together from its parts. What the environment answers in one round
-- is a `Round`; clock readings are microseconds, as `gettimeofday` gives them.
pub mod Complete
pub mod Honest
pub mod Run
use hyperflux.Common.{
  ℕ, ◌+◌, ◌*◌, ◌/◌, Bool, true, false, not, ◌&&◌, ◌||◌, Option, none, some, List, [], ◌∷◌, ltb,
  ◌==◌, if◌then◌else◌, length,
}
use hyperflux.Flux.{Conn, Ready, Flux, Conf}
use hyperflux.Flux.StateFile.{save_state}
use hyperflux.Flux.Loop.Handle.{Event, Pass, next, stop, fault, handle_all}
use hyperflux.Flux.Loop.Throttle.{Delay, adjust}

-- What the check of an idle connection meets: whether its lock is held, the time, and whether the
-- setup thread can be started.
pub record Restart : Type 0 where
  pub locked : Bool
  pub now : ℕ
  pub started : Bool

pub record Round : Type 0 where
  -- the clock before and after the state file is written, and whether it can be opened
  pub save_time : ℕ
  pub saved_time : ℕ
  pub writable : Bool
  -- whose lock is free when the descriptors are collected; `flux_sleep` and `select` succeed
  pub free : ℕ → Bool
  pub slept : Bool
  pub selected : Bool
  pub events : ℕ → ℕ × Event
  pub restarts : ℕ → Restart
  -- the average speed, computed in floating point
  pub speed : ℕ
  -- `flux_sleep` with this pause succeeds
  pub paused : Delay → Bool

-- The state file is written once its time has come.
unfoldable pub save_step : Conf → Round → Flux → Flux
save_step conf r f =
    if ltb (f.next_state * 1000000) r.save_time
    then record f {
      saved = elim (save_state r.writable f.conns f.bytes_done) [
        | none ↦ f.saved
        | some s ↦ some s
      ];
      next_state = r.saved_time / 1000000 + conf.save_state_interval;
    }
    else f

-- `hifd != 0`: some connection is on and its lock is free.
unfoldable pub any_enabled : (ℕ → Bool) → ℕ → List Conn → Bool
any_enabled free i [] = false
any_enabled free i (c ∷ cs) = free i && c.enabled || any_enabled free (i + 1) cs

-- The check for a connection that is off and not at its end. `false` says that the setup thread
-- could not be started.
unfoldable pub restart : Conf → Restart → Conn → Conn × Bool
restart conf r c =
    if r.locked || c.enabled || not (ltb c.currentbyte c.lastbyte)
    then (c, true)
    else if not c.state
    then (if r.started
        then (record c { state = true; last_transfer = r.now / 1000000 }, true)
        else (record c { state = true }, false))
    else if ltb ((c.last_transfer + conf.reconnect_delay) * 1000000) r.now
    then (record c { state = false }, true)
    else (c, true)

-- The loop at `conn_check`.
unfoldable pub restart_all : Conf → (ℕ → Restart) → ℕ → List Conn → List Conn × Bool
restart_all conf restarts i [] = ([], true)
restart_all conf restarts i (c ∷ cs) =
    let (c', good) = restart conf (restarts i) c in
    let (cs', all_good) = restart_all conf restarts (i + 1) cs in (c' ∷ cs', good && all_good)

unfoldable pub conn_check : Conf → Round → Flux → Flux
conn_check conf r f =
    let (cs, good) = restart_all conf r.restarts 0 f.conns in
    record f { conns = cs; ready = if good then f.ready else Ready.failed }

unfoldable pub finish_check : Flux → Flux
finish_check f = if f.bytes_done == f.size then record f { ready = Ready.done } else f

-- The speed limit: the pause between rounds.
unfoldable pub pause : Conf → Round → Flux → Flux
pause conf r f =
    let d =
      adjust conf.max_speed f.bytes_per_second
        (record { sec = f.delay_sec; nsec = f.delay_nsec }) in
    let h = record f { delay_sec = d.sec; delay_nsec = d.nsec } in
    if r.paused d then finish_check h else record h { ready = Ready.failed }

unfoldable pub finish_round : Conf → Round → Flux → Flux
finish_round conf r f =
    let g = record f { bytes_per_second = r.speed } in
    if ltb 0 conf.max_speed then pause conf r g else finish_check g

pub is_running : Ready → Bool
is_running Ready.running = true
is_running _ = false

-- From the label `conn_check` on.
abbrev pub rest_of_round : Conf → Round → Flux → Flux
rest_of_round conf r f = finish_round conf r (conn_check conf r f)

-- Behind the reading loop.
unfoldable pub after_pass : Conf → Round → Pass → Option Flux
unfolding is_running
after_pass conf r (next g) = some (if is_running g.ready then rest_of_round conf r g else g)
after_pass conf r (stop g) = some g
after_pass conf r fault = none

-- With no connection on: a pause.
unfoldable pub idle_phase : Conf → Round → Flux → Flux
idle_phase conf r f = if r.slept then rest_of_round conf r f else record f { ready = Ready.failed }

-- `select`, and the reading loop over all connections.
unfoldable pub read_phase : Conf → Round → Flux → Option Flux
read_phase conf r f =
    if r.selected
    then after_pass conf r (handle_all conf r.events (length f.conns) 0 f)
    else some (record f { ready = Ready.failed })

-- `none` is a `write` of a negative number of bytes.
unfoldable pub flux_do : Conf → Round → Flux → Option Flux
flux_do conf r f0 =
    let f = save_step conf r f0 in
    if any_enabled r.free 0 f.conns then read_phase conf r f else some (idle_phase conf r f)

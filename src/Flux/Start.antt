-- ===== src/Flux/Start.antt =====
-- `flux_start` and `setup_thread` of src/flux.c: connections are started, and come to receive bytes.
pub mod Keeps
use hyperflux.Common.{
  ℕ, zero, suc, ◌+◌, ◌/◌, Bool, true, false, none, some, List, [], ◌∷◌, ltb, if◌then◌else◌, length,
  get_elem?, map,
}
use hyperflux.Flux.{Conn, Ready, Flux}
use hyperflux.Flux.Reactivate.{modify, reactivate}

-- What a setup thread meets: whether `conn_setup` and `conn_exec` succeed, and the clock behind each of
-- them, in microseconds.
pub record Setup : Type 0 where
  pub set_up : Bool
  pub set_up_time : ℕ
  pub executed : Bool
  pub executed_time : ℕ

-- The whole thread, as it leaves the connection when it releases the lock.
unfoldable pub setup_thread : Setup → Conn → Conn
setup_thread t c =
    if t.set_up
    then (if t.executed
        then record c { last_transfer = t.executed_time / 1000000; enabled = true; state = false }
        else record c { last_transfer = t.set_up_time / 1000000; enabled = false; state = false })
    else record c { enabled = false; state = false }

-- The thread of connection `i` ends.
unfoldable pub end_thread : ℕ → Setup → Flux → Flux
end_thread i t f = record f { conns = modify i (setup_thread t) f.conns }

abbrev pub as_supported : Conn → Conn
as_supported c = record c { supported = true }

-- The first loop: every connection but the first is taken to be one that can be resumed. (The URLs and
-- the interfaces that it sets are not part of this state.)
unfoldable pub set_supported : List Conn → List Conn
set_supported [] = []
set_supported (c ∷ cs) = c ∷ map as_supported cs

-- One turn of the second loop. `pthread_create` failing changes nothing else, since `ready` is set to 0
-- at the end.
unfoldable pub start_conn : ℕ → List Conn → List Conn
start_conn i cs = elim (get_elem? cs i) [
  | none ↦ cs
  | some c ↦
      if ltb c.currentbyte c.lastbyte
      then modify i (λ d. record d { state = true }) cs
      else reactivate i cs
]

-- The second loop, from connection `i` on, with `left` of them to go.
unfoldable pub start_from : ℕ → ℕ → List Conn → List Conn
start_from zero i cs = cs
start_from (suc left) i cs = start_from left (i + 1) (start_conn i cs)

unfoldable pub flux_start : Flux → Flux
flux_start f = record f {
  conns = start_from (length f.conns) 0 (set_supported f.conns);
  ready = Ready.running;
}

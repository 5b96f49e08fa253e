-- ===== src/Tests/FluxTests.antt =====
-- The download core on small downloads.
use hyperflux.Common.{
  ℕ, ◌+◌, ◌-◌, ◌≤◌, ◌<◌, ◌≡◌, refl, ◌↔◌, ◌⊎◌, true, false, none, some, List, [], ◌∷◌, arith, length,
}
use hyperflux.Flux.{Conn, Ready, Flux, Conf, zero_conn, min_chunk_worth}
use hyperflux.Flux.Segments.{Within, owners, total_remaining}
use hyperflux.Flux.Divide.{divide, distribute, limit, assign, add_tail}
use hyperflux.Flux.Divide.Partition.{divide-none}
use hyperflux.Flux.Reactivate.{reactivate, pick, steal, steal_if, modify, lastbyte_of}
use hyperflux.Flux.Reactivate.Steal.{Largest}
use hyperflux.Flux.Reactivate.Keeps.{reactivate_keeps, reactivate-Stolen, Stolen}
use hyperflux.Flux.StateFile.{
  save_state, save_conns, supported_first, to_le, from_le, read_state, read_num, read_conns,
  read_ranges, resize, Opened, opened,
}
use hyperflux.Flux.StateFile.RoundTrip.{read_state-save_state, with_ranges}
use hyperflux.Flux.Open.{flux_open, start_over}
use hyperflux.Flux.Start.{
  Setup, setup_thread, end_thread, set_supported, start_conn, start_from, flux_start,
}
use mathlib.Core.Path.{subst}
use hyperflux.Flux.Open.Starts.{flux_open-fresh, flux_open-resumed, StartsInv}
use hyperflux.Flux.Loop.Throttle.{Delay, adjust, adjust-IsTimespec, IsTimespec, ratio_of}
use hyperflux.Flux.Loop.Handle.{
  Event, write_at, handle_all, handle, attend, store, write_bytes, touch, advance,
}
use hyperflux.Flux.Loop.Invariant.{Inv}
use hyperflux.Flux.Loop.Round.{
  Round, save_step, any_enabled, restart, restart_all, conn_check, finish_check, finish_round,
  after_pass, idle_phase, read_phase, flux_do,
}
use hyperflux.Flux.Loop.Round.Complete.{RoundServed, RoundInv, flux_do-RoundInv}
use hyperflux.Flux.Loop.Round.Honest.{Going, Honest, RoundHonest, flux_do-RoundHonest}
use hyperflux.Flux.Loop.Progress.Ends.{download_can_end}
use hyperflux.Flux.Loop.Round.Run.{Run, here, round, thread, IsComplete, download-IsComplete}

-- A connection at the start of a three-byte file.
abbrev one : Conn
one = record zero_conn { lastbyte = 3; enabled = true; supported = true }

abbrev bytes : ℕ → ℕ
bytes p = p + 10

abbrev start : Flux
start = record {
  conns = one ∷ [];
  size = 3;
  bytes_done = 0;
  ready = Ready.running;
  next_state = 5;
  delay_sec = 0;
  delay_nsec = 0;
  bytes_per_second = 0;
  file = λ p. none;
  saved = none;
}

abbrev conf : Conf
conf = record {
  connection_timeout = 45;
  reconnect_delay = 20;
  save_state_interval = 10;
  max_speed = 0;
}

-- All three bytes arrive and are written.
abbrev only_round : Round
only_round = record {
  save_time = 1000000;
  saved_time = 1000000;
  writable = true;
  free = λ i. true;
  slept = true;
  selected = true;
  events = λ i. (2000000, Event.received (10 ∷ 11 ∷ 12 ∷ []) 8192);
  restarts = λ i. record { locked = false; now = 2000000; started = true };
  speed = 7;
  paused = λ d. true;
}

abbrev finished : Flux
finished = record start {
  conns = record one { currentbyte = 3; last_transfer = 2 } ∷ [];
  bytes_done = 3;
  ready = Ready.done;
  bytes_per_second = 7;
  file = write_at 0 (10 ∷ 11 ∷ 12 ∷ []) (λ p. none);
}

one_round : flux_do conf only_round start ≡ some finished
unfolding flux_do save_step any_enabled read_phase handle_all handle attend store write_bytes
    advance touch modify after_pass conn_check restart_all restart finish_round finish_check
    reactivate
one_round = refl

start-Inv : Inv bytes start
start-Inv = record {
  ranges = record { within = omega arith; unique = λ p. ground arith; total = refl };
  written = λ p h e. absurd (ground arith);
}

start-Honest : Honest start
unfolding supported_first
start-Honest = record { whole = λ d. cc; resumable = λ d. refl }

-- What the connection receives is what the server has.
start-RoundServed : RoundServed bytes conf only_round start
unfolding save_step
start-RoundServed = (
  λ c e.
      let z : c.currentbyte ≡ 0 = ground arith in (omega arith, (omega arith, (omega arith, tt))),
  λ g e. tt,
)

-- What `flux_open` leaves for three bytes over one connection.
abbrev unused : List Conn
unused = record zero_conn { supported = true } ∷ []

abbrev opened_flux : Flux
opened_flux = record start { conns = record zero_conn { lastbyte = 3; supported = true } ∷ [] }

flux_open-opened : flux_open 3 unused none true true ≡ opened opened_flux.conns 0
unfolding flux_open start_over supported_first divide distribute limit assign add_tail
flux_open-opened = refl

opened_flux-Inv : Inv bytes opened_flux
opened_flux-Inv =
    let starts : StartsInv bytes 3 opened_flux.file (opened opened_flux.conns 0) =
      subst (StartsInv bytes 3 opened_flux.file) flux_open-opened (
        flux_open-fresh bytes 3 opened_flux.file unused (omega arith) (omega arith)
          (omega arith)) in
    record { ranges = starts.0; written = starts.1 }

-- A round while the setup thread holds the lock, the end of the thread, and the round that reads.
abbrev waiting_round : Round
waiting_round = record only_round {
  free = λ i. false;
  restarts = λ i. record { locked = true; now = 1000000; started = true };
}

abbrev connected : Setup
connected = record {
  set_up = true;
  set_up_time = 1500000;
  executed = true;
  executed_time = 1700000;
}

abbrev waiting : Flux
waiting = record opened_flux {
  conns = record zero_conn { lastbyte = 3; supported = true; state = true } ∷ [];
  bytes_per_second = 7;
}

abbrev reading : Flux
reading = record waiting { conns = record one { last_transfer = 1 } ∷ [] }

wait : flux_do conf waiting_round (flux_start opened_flux) ≡ some waiting
unfolding flux_do save_step any_enabled idle_phase conn_check restart_all restart finish_round
    finish_check flux_start start_from start_conn set_supported modify
wait = refl

thread_ends : end_thread 0 connected waiting ≡ reading
unfolding end_thread setup_thread modify
thread_ends = refl

read_all : flux_do conf only_round (end_thread 0 connected waiting) ≡ some finished
unfolding flux_do save_step any_enabled read_phase handle_all handle attend store write_bytes
    advance touch modify after_pass conn_check restart_all restart finish_round finish_check
    reactivate end_thread setup_thread
read_all = refl

waiting-RoundServed : RoundServed bytes conf waiting_round (flux_start opened_flux)
unfolding save_step flux_start start_from start_conn set_supported modify
waiting-RoundServed = (
  λ c e.
      let z : c.currentbyte ≡ 0 = ground arith in (omega arith, (omega arith, (omega arith, tt))),
  λ g e. tt,
)

reading-RoundServed : RoundServed bytes conf only_round (end_thread 0 connected waiting)
unfolding save_step end_thread setup_thread modify
reading-RoundServed = (
  λ c e.
      let z : c.currentbyte ≡ 0 = ground arith in (omega arith, (omega arith, (omega arith, tt))),
  λ g e. tt,
)

opened-Run : Run bytes conf finished (flux_start opened_flux)
unfolding flux_start end_thread
opened-Run =
    round waiting_round refl waiting-RoundServed wait
      (thread 0 connected _ refl refl (round only_round refl reading-RoundServed read_all here))

opened_flux-supported : supported_first opened_flux.conns ≡ true
unfolding supported_first
opened_flux-supported = refl

download-IsComplete_example : IsComplete bytes finished
download-IsComplete_example =
    download-IsComplete bytes conf opened_flux finished opened_flux-Inv opened_flux-supported
      opened-Run refl

download_can_end_example :
    (h : Flux) × (Run bytes conf h (flux_start opened_flux)
      × ((h.ready ≡ Ready.done) × IsComplete bytes h))
download_can_end_example = download_can_end bytes conf opened_flux opened_flux-Inv

flux_do-RoundInv_example : RoundInv bytes (flux_do conf only_round start)
flux_do-RoundInv_example = flux_do-RoundInv bytes conf only_round start start-RoundServed start-Inv

start-Going : Going start
unfolding supported_first
start-Going = record { supported = refl; running = refl }

flux_do-RoundHonest_example : RoundHonest (flux_do conf only_round start)
flux_do-RoundHonest_example = flux_do-RoundHonest conf only_round start start-Going

-- Four connections for a file of two chunks and a half.
abbrev four : List Conn
four = one ∷ zero_conn ∷ zero_conn ∷ zero_conn ∷ []

divide-four :
    divide 256001 four
    ≡ some (
        record one { currentbyte = 0; lastbyte = 128000 }
        ∷ record zero_conn { currentbyte = 128000; lastbyte = 256001 }
        ∷ [])
unfolding divide distribute limit assign add_tail
divide-four = refl

-- An empty file, which an FTP server may well have, makes `flux_divide` divide by zero.
divide-none_example : (divide 0 four ≡ none) ↔ ((◌≡◌ {A = ℕ} 0 0) ⊎ (length four ≡ 0))
divide-none_example = divide-none 0 four (omega arith)

-- The first connection is at its end, the second has plenty to do.
abbrev uneven : List Conn
uneven =
    record zero_conn { currentbyte = 10; lastbyte = 10 }
    ∷ record zero_conn { currentbyte = 20; lastbyte = 300020; enabled = true }
    ∷ []

reactivate-uneven :
    reactivate 0 uneven
    ≡ record zero_conn { currentbyte = 150020; lastbyte = 300020 }
      ∷ record zero_conn { currentbyte = 20; lastbyte = 150020; enabled = true }
      ∷ []
unfolding reactivate pick steal_if steal modify lastbyte_of
reactivate-uneven = refl

reactivate_keeps_example :
    Within 300020 (reactivate 0 uneven)
    × (length (reactivate 0 uneven) ≡ length uneven)
    × (total_remaining (reactivate 0 uneven) ≡ total_remaining uneven)
    × ((p : ℕ) → owners p (reactivate 0 uneven) ≡ owners p uneven)
reactivate_keeps_example = reactivate_keeps 300020 0 uneven (omega arith)

reactivate-Stolen_example :
    (reactivate 0 uneven ≡ uneven) × Largest (min_chunk_worth - 1) uneven
    ⊎ Stolen 0 uneven (reactivate 0 uneven)
reactivate-Stolen_example =
    reactivate-Stolen 0 uneven (record zero_conn { currentbyte = 10; lastbyte = 10 }) refl refl
      (omega arith)

-- A download of three bytes, one of them done, is saved and resumed.
abbrev halfway : Flux
halfway = record start {
  conns = record one { currentbyte = 1 } ∷ [];
  bytes_done = 1;
  file = write_at 0 (10 ∷ []) (λ p. none);
}

abbrev halfway_file : List ℕ
halfway_file =
    1 ∷ 0 ∷ 1 ∷ 0 ∷ 0 ∷ 0 ∷ 0 ∷ 0 ∷ 0 ∷ 0 ∷ 1 ∷ 0 ∷ 0 ∷ 0 ∷ 0 ∷ 0 ∷ 0 ∷ 0 ∷ 3 ∷ 0 ∷ 0 ∷ 0 ∷ 0 ∷ 0
    ∷ 0 ∷ 0 ∷ []

save_halfway : save_state true halfway.conns 1 ≡ some halfway_file
unfolding save_state save_conns to_le supported_first
save_halfway = refl

read_halfway : read_state 3 (one ∷ []) halfway_file ≡ opened (record one { currentbyte = 1 } ∷ []) 1
unfolding read_state read_num read_conns read_ranges resize from_le
read_halfway = refl

-- A file cut off in the number of connections is refused.
read_truncated : read_state 3 (one ∷ []) (1 ∷ []) ≡ Opened.refused
unfolding read_state read_num
read_truncated = refl

read_state-save_state_example :
    read_state 3 (one ∷ []) halfway_file
    ≡ opened (with_ranges (resize 1 (one ∷ [])) halfway.conns) 1
read_state-save_state_example =
    read_state-save_state 3 1 (one ∷ []) halfway.conns halfway_file (omega arith) (omega arith)
      (omega arith) (omega arith) save_halfway

halfway-Inv : Inv bytes halfway
unfolding write_at
halfway-Inv = record {
  ranges = record { within = omega arith; unique = λ p. ground arith; total = refl };
  written = λ p h e. ground arith;
}

one-supported : supported_first (one ∷ []) ≡ true
unfolding supported_first
one-supported = refl

flux_open-resumed_example :
    StartsInv bytes 3 halfway.file (flux_open 3 (one ∷ []) (some halfway_file) true false)
flux_open-resumed_example =
    flux_open-resumed bytes halfway (one ∷ []) false halfway_file halfway-Inv (omega arith)
      (omega arith) (omega arith) one-supported save_halfway

-- A pause of one second and five milliseconds, on a download that is too slow for the limit.
abbrev pausing : Delay
pausing = record { sec = 1; nsec = 5000000 }

-- The pause after it has more than a second's nanoseconds, which `nanosleep` refuses.
adjust-pausing : adjust 1000 900 pausing ≡ record { sec = 0; nsec = 1004000000 }
unfolding adjust
adjust-pausing = refl

adjust-IsTimespec_example :
    IsTimespec (adjust 1000 900 pausing)
    ↔ ¬ ((ratio_of 1000 900 < 950) × (0 < 1) × (1000000 ≤ 5000000) × (5000000 < 10000000))
adjust-IsTimespec_example = adjust-IsTimespec 1000 900 pausing (omega arith)

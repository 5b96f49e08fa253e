-- ===== src/Flux.antt =====
-- The state of a download: the fields of `flux_t` (src/flux.h) and `conn_t` (src/conn.h) that the
-- download core in src/flux.c reads and writes.
pub mod Segments
pub mod Divide
pub mod Reactivate
pub mod StateFile
pub mod Loop
pub mod Open
pub mod Start
use hyperflux.Common.{ℕ, Bool, false, List, Option}

-- Offsets are `off_t` values; `last_transfer` is in seconds.
pub record Conn : Type 0 where
  pub currentbyte : ℕ
  pub lastbyte : ℕ
  pub enabled : Bool
  -- a setup thread is running
  pub state : Bool
  pub supported : Bool
  pub last_transfer : ℕ

-- MIN_CHUNK_WORTH
abbrev pub min_chunk_worth : ℕ
min_chunk_worth = 102400

-- What `calloc` and `memset` leave.
abbrev pub zero_conn : Conn
zero_conn = record {
  currentbyte = 0;
  lastbyte = 0;
  enabled = false;
  state = false;
  supported = false;
  last_transfer = 0;
}

-- `ready`: -1, 0 and 1.
pub data Ready : Type 0 where
  failed running done : Ready

-- `file` is the output file: the byte at an offset, where one has been written. `saved` is the
-- content of the state file, where there is one. `bytes_per_second` is the speed last computed.
pub record Flux : Type 0 where
  pub conns : List Conn
  pub size : ℕ
  pub bytes_done : ℕ
  pub ready : Ready
  pub next_state : ℕ
  pub delay_sec : ℕ
  pub delay_nsec : ℕ
  pub bytes_per_second : ℕ
  pub file : ℕ → Option ℕ
  pub saved : Option (List ℕ)

-- The fields of `conf_t` that the loop reads: seconds, and bytes a second (0 for no limit).
pub record Conf : Type 0 where
  pub connection_timeout : ℕ
  pub reconnect_delay : ℕ
  pub save_state_interval : ℕ
  pub max_speed : ℕ

-- ===== src/Flux/Open.antt =====
-- `flux_open` of src/flux.c: where a download starts.
pub mod Starts
use hyperflux.Common.{ℕ, Bool, not, Option, none, some, List, if◌then◌else◌, take}
use hyperflux.Flux.{Conn}
use hyperflux.Flux.Divide.{divide}
use hyperflux.Flux.StateFile.{supported_first, Opened, refused, aborted, opened, read_state}

-- The file is divided, and the output file is opened to be created: `creates` says whether it can
-- be. (What it holds, and the zeros written where the file system cannot seek past its end, are
-- part of the state that the download starts from.)
unfoldable pub start_over : ℕ → Bool → List Conn → Opened
start_over size creates conns = elim (divide size conns) [
  | none ↦ aborted
  | some cs ↦ if creates then opened cs 0 else refused
]

-- For a server that cannot resume: one connection. The file is divided here, and again where it is
-- started over.
unfoldable pub open_single : ℕ → Bool → List Conn → Opened
open_single size creates conns = elim (divide size (take 1 conns)) [
  | none ↦ aborted
  | some cs ↦ start_over size creates cs
]

-- From a state file with this content. `opens` says whether the output file can be opened.
unfoldable pub open_saved : ℕ → Bool → List Conn → List ℕ → Opened
open_saved size opens conns file = elim (read_state size conns file) [
  | opened cs bytes_done ↦ if opens then opened cs bytes_done else refused
  | refused ↦ refused
  | aborted ↦ aborted
]

-- `state_file` is the content of the state file, if it can be opened.
unfoldable pub flux_open : ℕ → List Conn → Option (List ℕ) → Bool → Bool → Opened
flux_open size conns state_file opens creates =
    if not (supported_first conns) then open_single size creates conns else elim state_file [
      | none ↦ start_over size creates conns
      | some file ↦ open_saved size opens conns file
    ]

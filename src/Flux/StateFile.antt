-- ===== src/Flux/StateFile.antt =====
-- The state file NAME.st of src/flux.c: `save_state`, and the part of `flux_open` that reads it.
-- Numbers are stored as they lie in memory, here least significant byte first: two bytes for
-- `num_connections` (uint16_t in src/conf.h), eight for an `off_t`.
pub mod RoundTrip
use hyperflux.Common.{
  ℕ, zero, suc, ◌+◌, ◌-◌, ◌*◌, ◌/◌, ◌%◌, Bool, true, false, not, Option, none, some, List, [], ◌∷◌,
  ◌++◌, map, ltb, if◌then◌else◌, length, take, drop, replicate,
}
use mathlib.Core.Option
use hyperflux.Flux.{Conn, zero_conn}
use hyperflux.Flux.Divide.{divide}

-- `w` bytes of a number.
unfoldable pub to_le : ℕ → ℕ → List ℕ
to_le zero n = []
to_le (suc w) n = n % 256 ∷ to_le w (n / 256)

unfoldable pub from_le : List ℕ → ℕ
from_le [] = 0
from_le (b ∷ bs) = b + 256 * from_le bs

unfoldable pub save_conns : List Conn → List ℕ
save_conns [] = []
save_conns (c ∷ cs) = to_le 8 c.currentbyte ++ (to_le 8 c.lastbyte ++ save_conns cs)

unfoldable pub supported_first : List Conn → Bool
supported_first [] = false
supported_first (c ∷ cs) = c.supported

-- `save_state`: the new content of the state file, if one is written. `writable` says whether the
-- file could be opened; what is written to it afterwards is asserted to arrive.
unfoldable pub save_state : Bool → List Conn → ℕ → Option (List ℕ)
save_state writable conns bytes_done =
    if not (supported_first conns)
    then none
    else if writable
    then some (to_le 2 (length conns) ++ (to_le 8 bytes_done ++ save_conns conns))
    else none

-- `read` of `w` bytes: the number and the rest of the file, or `none` for a short read.
unfoldable pub read_num : ℕ → List ℕ → Option (ℕ × List ℕ)
read_num w file = if ltb (length file) w then none else some (from_le (take w file), drop w file)

-- The loop that reads the ranges. `none` is a failed assertion.
unfoldable pub read_conns : Bool → List Conn → List ℕ → Option (List Conn)
read_conns old_format [] file = some []
read_conns old_format (c ∷ cs) file = elim (read_num 8 file) [
  | none ↦ none
  | some (cur, file') ↦
      if old_format
      then Option.map (◌∷◌ (record c { currentbyte = cur })) (read_conns old_format cs file')
      else elim (read_num 8 file') [
        | none ↦ none
        | some (last, rest) ↦
            Option.map (◌∷◌ (record c { currentbyte = cur; lastbyte = last }))
              (read_conns old_format cs rest)
      ]
]

-- `refused` stands for `return 0`, `aborted` for a failed assertion or a division by zero.
pub data Opened : Type 0 where
  refused aborted : Opened
  opened : List Conn → ℕ → Opened

unfoldable pub read_ranges : Bool → List Conn → List ℕ → Opened
read_ranges old_format cs file = elim (read_num 8 file) [
  | none ↦ aborted
  | some (bytes_done, rest) ↦ elim (read_conns old_format cs rest) [
    | none ↦ aborted
    | some cs' ↦ opened cs' bytes_done
  ]
]

-- `realloc` and `memset`: `n` connections, all but the first of them cleared.
unfoldable pub resize : ℕ → List Conn → List Conn
resize n [] = replicate n zero_conn
resize n (c ∷ cs) = c ∷ replicate (n - 1) zero_conn

-- `stsize` against the size that a file with both ends of each range has.
abbrev pub is_old_format : List ℕ → ℕ → Bool
is_old_format file n = ltb (length file) (2 + 8 + 2 * n * 8)

-- The branch of `flux_open` for a state file with this content.
unfoldable pub read_state : ℕ → List Conn → List ℕ → Opened
read_state size conns file = elim (read_num 2 file) [
  | none ↦ refused
  | some (n, rest) ↦
      if ltb n 1
      then refused
      else if is_old_format file n
      then elim (divide size (resize n conns)) [
        | none ↦ aborted
        | some cs ↦ read_ranges true cs rest
      ]
      else read_ranges false (resize n conns) rest
]

-- ===== src/Flux/Divide.antt =====
-- `flux_divide` of src/flux.c: the file is divided among the connections.
-- The list holds the `num_connections` entries of `flux->conn` that are in use, so the source's
-- assignments to `num_connections` shorten it.
pub mod Partition
use hyperflux.Common.{
  ℕ, ◌+◌, ◌*◌, ◌/◌, ◌%◌, max, List, [], ◌∷◌, Option, none, some, ltb, ◌==◌, if◌then◌else◌, length,
  take,
}
use hyperflux.Flux.{Conn, min_chunk_worth}

-- The loop that sets `currentbyte` and `lastbyte`, from connection `i` on.
unfoldable pub assign : ℕ → ℕ → List Conn → List Conn
assign seg_len i [] = []
assign seg_len i (c ∷ cs) =
    record c { currentbyte = seg_len * i; lastbyte = seg_len * i + seg_len }
    ∷ assign seg_len (i + 1) cs

-- `conn[num_connections - 1].lastbyte += tail`
unfoldable pub add_tail : ℕ → List Conn → List Conn
add_tail tail [] = []
add_tail tail (c ∷ []) = record c { lastbyte = c.lastbyte + tail } ∷ []
add_tail tail (c ∷ d ∷ cs) = c ∷ add_tail tail (d ∷ cs)

-- Both loops and the `%` between them. `none` is a division by zero.
unfoldable pub distribute : ℕ → ℕ → List Conn → Option (List Conn)
distribute size seg_len cs =
    if seg_len == 0 then none else some (add_tail (size % seg_len) (assign seg_len 0 cs))

-- The small-file limit on the number of connections.
unfoldable pub limit : ℕ → List Conn → List Conn
limit size cs =
    let maxconns = max 1 (size / min_chunk_worth) in
    if ltb maxconns (length cs) then take maxconns cs else cs

-- `none` is a division by zero.
unfoldable pub divide : ℕ → List Conn → Option (List Conn)
divide size conns =
    let cs = limit size conns in
    if length cs == 0
    then none
    else let seg_len = size / length cs in
      if seg_len == 0 then distribute size size (take 1 cs) else distribute size seg_len cs

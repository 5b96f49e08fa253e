-- ===== src/Flux/Loop/Handle.antt =====
-- The part of `flux_do` in src/flux.c that reads from the connections.
use hyperflux.Common.{
  ℕ, zero, suc, ◌+◌, ◌-◌, ◌*◌, ◌/◌, min, false, not, Option, none, some, List, [], ◌∷◌, ltb, ◌==◌,
  if◌then◌else◌, length, get_elem?, take,
}
use hyperflux.Flux.{Conn, Ready, Flux, Conf}
use hyperflux.Flux.Reactivate.{modify, reactivate}
use hyperflux.Flux.StateFile.{supported_first}

-- What a connection meets in one round: its lock is held by its setup thread; `select` reports
-- nothing for it; `tcp_read` fails; or `tcp_read` delivers these bytes (none at the end of the
-- stream), of which `write` can write so many.
pub data Event : Type 0 where
  locked quiet broken : Event
  received : List ℕ → ℕ → Event

-- The round goes on, or `flux_do` returns. `fault` is a `write` of a negative number of bytes.
pub data Pass : Type 0 where
  next : Flux → Pass
  stop : Flux → Pass
  fault : Pass

-- `lseek` and `write`: the bytes from an offset on.
unfoldable pub write_at : ℕ → List ℕ → (ℕ → Option ℕ) → ℕ → Option ℕ
write_at off [] file = file
write_at off (b ∷ bs) file = write_at (off + 1) bs (λ p. if p == off then some b else file p)

-- `conn_disconnect`, of which the loop sees that the connection is off.
unfoldable pub disconnect : ℕ → List Conn → List Conn
disconnect i = modify i (λ c. record c { enabled = false })

-- `last_transfer`, an `int` of seconds.
unfoldable pub touch : ℕ → ℕ → List Conn → List Conn
touch i now = modify i (λ c. record c { last_transfer = now / 1000000 })

-- `currentbyte += size`
unfoldable pub advance : ℕ → ℕ → List Conn → List Conn
advance i size = modify i (λ c. record c { currentbyte = c.currentbyte + size })

-- After `size == 0`: the stream is at its end.
unfoldable pub finish_stream : ℕ → Flux → Flux
finish_stream i f = record f {
  ready = if supported_first f.conns then f.ready else Ready.done;
  conns = reactivate i (disconnect i f.conns);
}

-- The write, and what follows it. `remaining` is the number of bytes to go before it.
unfoldable pub write_bytes : ℕ → Conn → List ℕ → ℕ → ℕ → ℕ → Flux → Pass
write_bytes i c bytes writable size remaining f =
    let wrote = min writable size in
    let file' = write_at c.currentbyte (take wrote bytes) f.file in
    if not (wrote == size)
    then stop (record f { file = file'; ready = Ready.failed })
    else let moved = advance i size f.conns in
      next (record f {
        file = file';
        bytes_done = f.bytes_done + size;
        conns = if remaining == size then reactivate i moved else moved;
      })

-- After `size > 0`.
unfoldable pub store : ℕ → Conn → List ℕ → ℕ → Flux → Pass
store i c bytes writable f =
    let remaining = c.lastbyte - c.currentbyte in
    if ltb c.lastbyte c.currentbyte
    then fault
    else if ltb remaining (length bytes)
    then write_bytes i c bytes writable remaining remaining
        (record f { conns = disconnect i f.conns })
    else write_bytes i c bytes writable (length bytes) remaining f

-- One connection that is enabled, at the time `now`.
unfoldable pub attend : Conf → ℕ → Conn → ℕ → Event → Flux → Pass
attend conf i c now Event.locked f = next f
attend conf i c now Event.quiet f =
    if ltb ((c.last_transfer + conf.connection_timeout) * 1000000) now
    then next (record f { conns = disconnect i f.conns })
    else next f
attend conf i c now Event.broken f = next (record f { conns = disconnect i (touch i now f.conns) })
attend conf i c now (Event.received [] writable) f =
    next (finish_stream i (record f { conns = touch i now f.conns }))
attend conf i c now (Event.received (b ∷ bs) writable) f =
    store i c (b ∷ bs) writable (record f { conns = touch i now f.conns })

-- The body of the loop for connection `i`.
unfoldable pub handle : Conf → ℕ → ℕ → Event → Flux → Pass
handle conf i now event f = elim (get_elem? f.conns i) [
  | none ↦ next f
  | some c ↦ if c.enabled then attend conf i c now event f else next f
]

-- The loop: `rounds` connections, from `i` on.
unfoldable pub handle_all : Conf → (ℕ → ℕ × Event) → ℕ → ℕ → Flux → Pass
handle_all conf events zero i f = next f
handle_all conf events (suc rounds) i f = elim (handle conf i (events i).0 (events i).1 f) [
  | next g ↦ handle_all conf events rounds (i + 1) g
  | stop g ↦ stop g
  | fault ↦ fault
]

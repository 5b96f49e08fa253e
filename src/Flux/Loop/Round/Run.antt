-- ===== src/Flux/Loop/Round/Run.antt =====
-- Whole downloads: rounds of `flux_do` one after another, as `download_one` in src/text.c makes
-- them while `ready` is 0, and between them the setup threads that end.
use hyperflux.Common.{ℕ, ◌<◌, ◌≡◌, true, some, arith, get_elem?}
use hyperflux.Flux.{Conn, Ready, Flux, Conf}
use hyperflux.Flux.StateFile.{supported_first}
use hyperflux.Flux.Start.{Setup, end_thread, flux_start}
use hyperflux.Flux.Start.Keeps.{
  end_thread-Inv, end_thread-Honest, flux_start-Inv, flux_start-Honest,
}
use hyperflux.Flux.Segments.{owners-eq-zero}
use hyperflux.Flux.Loop.Invariant.{Inv}
use hyperflux.Flux.Loop.Round.{Round, flux_do}
use hyperflux.Flux.Loop.Round.Complete.{RoundServed, flux_do-RoundInv}
use hyperflux.Flux.Loop.Round.Honest.{Honest, flux_do-RoundHonest}

-- From `f` to `h`: rounds, each of them served by a server that has `content`, and ends of setup threads.
-- A thread runs where `state` is set. It holds its connection's lock until it ends, so that what a round
-- does to the other connections comes before or behind.
pub data Run (content : ℕ → ℕ) (conf : Conf) (h : Flux) : Flux → Type 0 where
  here : Run content conf h h
  round :
      {f g : Flux} (r : Round)
      → f.ready ≡ Ready.running
      → RoundServed content conf r f
      → flux_do conf r f ≡ some g
      → Run content conf h g
      → Run content conf h f
  thread :
      {f : Flux} (i : ℕ) (t : Setup) (c : Conn)
      → get_elem? f.conns i ≡ some c
      → c.state ≡ true
      → Run content conf h (end_thread i t f)
      → Run content conf h f

-- The output file is the server's.
abbrev pub IsComplete : (ℕ → ℕ) → Flux → Type 0
IsComplete content f = (p : ℕ) → p < f.size → f.file p ≡ some (content p)

pub Inv-IsComplete :
    (content : ℕ → ℕ) (f : Flux) → Inv content f → f.bytes_done ≡ f.size → IsComplete content f
Inv-IsComplete content f v e p h =
    v.written p h (owners-eq-zero p f.conns (omega (arith, v.ranges.total)))

Run-IsComplete :
    (content : ℕ → ℕ) (conf : Conf) (h f : Flux)
    → Run content conf h f
    → Inv content f
    → Honest f
    → h.ready ≡ Ready.done
    → IsComplete content h
Run-IsComplete content conf h f here v t d = Inv-IsComplete content f v (t.whole d)
Run-IsComplete content conf h f (round {g = g} r on served e rest) v t d =
    let inv = flux_do-RoundInv content conf r f served v in
    let honest =
      flux_do-RoundHonest conf r f (record { supported = t.resumable on; running = on }) in
    Run-IsComplete content conf h g rest (rw e at inv) (rw e at honest) d
Run-IsComplete content conf h f (thread i t c at on rest) v k d =
    Run-IsComplete content conf h (end_thread i t f) rest (end_thread-Inv content i t f v)
      (end_thread-Honest i t f k) d

-- A download that `flux_start` begins from a state that satisfies the invariant, over a first connection
-- that can be resumed, goes on by rounds and by setup threads that end, in whatever order and with
-- whatever result. Wherever it ends with `ready` at 1, the output file is the server's.
pub download-IsComplete :
    (content : ℕ → ℕ) (conf : Conf) (f h : Flux)
    → Inv content f
    → supported_first f.conns ≡ true
    → Run content conf h (flux_start f)
    → h.ready ≡ Ready.done
    → IsComplete content h
download-IsComplete content conf f h v can run d =
    Run-IsComplete content conf h (flux_start f) run (flux_start-Inv content f v)
      (flux_start-Honest f can) d

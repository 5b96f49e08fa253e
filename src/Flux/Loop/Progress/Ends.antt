-- ===== src/Flux/Loop/Progress/Ends.antt =====
-- A download of src/flux.c can be completed: from every state that satisfies the invariant some run does it.
use hyperflux.Common.{
  ℕ, zero, suc, ◌+◌, ◌<◌, ◌≡◌, refl, ap, ◌∙◌, inl, inr, true, false, some, List, [], ◌∷◌, arith,
  ltb, ◌==◌, if◌then◌else◌, Bool-cases, length, get_elem?, ltb→lt,
}
use hyperflux.Flux.{Conn, Ready, Flux, Conf}
use hyperflux.Flux.Segments.{total_remaining}
use hyperflux.Flux.Reactivate.{modify}
use hyperflux.Flux.Start.{Setup, setup_thread, end_thread, flux_start}
use hyperflux.Flux.Start.Keeps.{end_thread-Inv, flux_start-Inv}
use hyperflux.Flux.Loop.Handle.{Event}
use hyperflux.Flux.Loop.Keeps.{Served}
use hyperflux.Flux.Loop.Invariant.{Inv}
use hyperflux.Flux.Loop.Round.{Round, restart, rest_of_round, flux_do}
use hyperflux.Flux.Loop.Round.Complete.{RoundServed, flux_do-RoundInv}
use hyperflux.Flux.Loop.Round.Run.{Run, here, round, thread, IsComplete, Inv-IsComplete}
use hyperflux.Flux.Loop.Progress.{
  calm, round_of, only, AllServed-only, byte_stored, restart-state, get_elem?-restart_all, Told,
  rest_of_round-Told, flux_do-idle, flux_do-byte, save_step-early, rest_of_round-rest,
}

get_elem?-inside {ℓ} :
    {A : Type ℓ} (xs : List A) (i : ℕ) (x : A) → get_elem? xs i ≡ some x → i < length xs
get_elem?-inside [] i x e = cc
get_elem?-inside (y ∷ xs) zero x e = omega arith
get_elem?-inside (y ∷ xs) (suc i) x e = omega (arith, get_elem?-inside xs i x e)

get_elem?-modify {ℓ} :
    {A : Type ℓ} (xs : List A) (i : ℕ) (g : A → A) (x : A)
    → get_elem? xs i ≡ some x
    → get_elem? (modify i g xs) i ≡ some (g x)
unfolding modify
get_elem?-modify [] i g x e = cc
get_elem?-modify (y ∷ xs) zero g x e = let same : y ≡ x = cc in ap (λ z. some (g z)) same
get_elem?-modify (y ∷ xs) (suc i) g x e = get_elem?-modify xs i g x e

-- Where bytes are left, some connection has bytes to go.
unfinished :
    (cs : List Conn)
    → 0 < total_remaining cs
    → (i : ℕ) × ((c : Conn) × ((get_elem? cs i ≡ some c) × (c.currentbyte < c.lastbyte)))
unfinished [] h = absurd (omega arith)
unfinished (c ∷ cs) h = elim (Bool-cases (ltb c.currentbyte c.lastbyte)) [
  | inl e ↦ (0, (c, (refl, ltb→lt _ _ e)))
  | inr e ↦
      let (i, (d, (at, more))) = unfinished cs (ground (arith, e, h)) in (suc i, (d, (at, more)))
]

module _ (content : ℕ → ℕ) (conf : Conf) where
  abbrev CanEnd : Flux → Type 0
  CanEnd f = (h : Flux) × (Run content conf h f × ((h.ready ≡ Ready.done) × IsComplete content h))

  -- What is to be shown of a state in which more bytes are there.
  abbrev Onward : Flux → Type 0
  Onward f =
      (g : Flux)
      → Inv content g
      → g.ready ≡ Ready.running
      → g.size ≡ f.size
      → g.bytes_done ≡ f.bytes_done + 1
      → CanEnd g

  Told-done : (g : Flux) → Told g → g.bytes_done ≡ g.size → g.ready ≡ Ready.done
  Told-done g t e =
      let whole : (g.bytes_done == g.size) ≡ true = ground (arith, e) in
      t ∙ ap (λ b. if b then Ready.done else Ready.running) whole

  Told-running : (g : Flux) → Told g → (g.bytes_done == g.size) ≡ false → g.ready ≡ Ready.running
  Told-running g t e = t ∙ ap (λ b. if b then Ready.done else Ready.running) e

  whole-IsComplete :
      (g : Flux) → Inv content g → (g.bytes_done == g.size) ≡ true → IsComplete content g
  whole-IsComplete g v e = Inv-IsComplete content g v (ground (arith, e))

  -- A round whose end is `g`, and what comes behind it.
  CanEnd-round :
      (r : Round) (f g : Flux)
      → f.ready ≡ Ready.running
      → RoundServed content conf r f
      → flux_do conf r f ≡ some g
      → CanEnd g
      → CanEnd f
  CanEnd-round r f g running served e (h, (run, end)) = (h, (round r running served e run, end))

  flux_do-Inv :
      (r : Round) (f g : Flux)
      → RoundServed content conf r f
      → flux_do conf r f ≡ some g
      → Inv content f
      → Inv content g
  flux_do-Inv r f g served e v = rw e at (flux_do-RoundInv content conf r f served v)

  -- The next byte of a connection that is on.
  read_step :
      (f : Flux) (i : ℕ) (c : Conn)
      → Inv content f
      → f.ready ≡ Ready.running
      → get_elem? f.conns i ≡ some c
      → c.enabled ≡ true
      → c.currentbyte < c.lastbyte
      → Onward f
      → CanEnd f
  read_step f i c v running at on more onward =
      let event = Event.received (content c.currentbyte ∷ []) 1 in
      let r = round_of (λ k. true) (only i event) in
      let b = byte_stored i (content c.currentbyte) c f in
      let g = rest_of_round conf r b in
      let e : flux_do conf r f ≡ some g =
        flux_do-byte conf i (content c.currentbyte) c f at (get_elem?-inside f.conns i c at) on more
          running in
      let bytes : Served content i event f = λ d at'. let same : d ≡ c = cc in rw same (refl, tt) in
      let served : RoundServed content conf r f =
        rw (save_step-early conf (λ k. true) (only i event) f)
          (AllServed-only content conf i event (length f.conns) 0 f (omega arith) bytes) in
      let inv = flux_do-Inv r f g served e v in
      let told = rest_of_round-Told conf (λ k. true) (only i event) b running in
      let kept = rest_of_round-rest conf (λ k. true) (only i event) b in
      CanEnd-round r f g running served e (elim (Bool-cases (g.bytes_done == g.size)) [
        | inl k ↦ (g, (here, (Told-done g told (ground (arith, k)), whole-IsComplete g inv k)))
        | inr k ↦ onward g inv (Told-running g told k) kept.1.0 kept.0
      ])

  -- A setup thread ends well, and its connection receives a byte.
  thread_step :
      (f : Flux) (i : ℕ) (c : Conn)
      → Inv content f
      → f.ready ≡ Ready.running
      → get_elem? f.conns i ≡ some c
      → c.state ≡ true
      → c.currentbyte < c.lastbyte
      → Onward f
      → CanEnd f
  unfolding end_thread setup_thread
  thread_step f i c v running at busy more onward =
      let t : Setup = record {
        set_up = true;
        set_up_time = 0;
        executed = true;
        executed_time = 0;
      } in
      let (h, (run, end)) =
        read_step (end_thread i t f) i (setup_thread t c) (end_thread-Inv content i t f v) running
          (get_elem?-modify f.conns i (setup_thread t) c at) refl more onward in
      (h, (thread i t c at busy run, end))

  abbrev idle_round : Round
  idle_round = round_of (λ k. false) (only 0 Event.locked)

  idle-RoundServed : (f : Flux) → RoundServed content conf idle_round f
  idle-RoundServed f =
      rw (save_step-early conf (λ k. false) (only 0 Event.locked) f)
        (AllServed-only content conf 0 Event.locked (length f.conns) 0 f (omega arith) (λ c at. tt))

  -- A connection that is off comes to have a setup thread.
  idle_step :
      (f : Flux) (i : ℕ) (c : Conn)
      → Inv content f
      → f.ready ≡ Ready.running
      → (f.bytes_done == f.size) ≡ false
      → get_elem? f.conns i ≡ some c
      → c.enabled ≡ false
      → c.currentbyte < c.lastbyte
      → Onward f
      → CanEnd f
  idle_step f i c v running left at off more onward =
      let g = rest_of_round conf idle_round f in
      let e = flux_do-idle conf (only 0 Event.locked) f in
      let served = idle-RoundServed f in
      let inv = flux_do-Inv idle_round f g served e v in
      let told = rest_of_round-Told conf (λ k. false) (only 0 Event.locked) f running in
      let kept = rest_of_round-rest conf (λ k. false) (only 0 Event.locked) f in
      let going : (g.bytes_done == g.size) ≡ false = ground (arith, left, kept.0, kept.1.0) in
      let d = (restart conf calm c).0 in
      let started = restart-state conf c more off in
      let at' : get_elem? g.conns i ≡ some d =
        ap (λ cs. get_elem? cs i) kept.1.1 ∙ get_elem?-restart_all conf i 0 f.conns c at in
      let more' : d.currentbyte < d.lastbyte = omega (arith, more, started.1.0, started.1.1) in
      CanEnd-round idle_round f g running served e (
        thread_step g i d inv (Told-running g told going) at' started.0 more'
          (λ k kv kr ks kb. onward k kv kr (ks ∙ kept.1.0) (omega (arith, kb, kept.0))))

  ends :
      (fuel : ℕ) (f : Flux)
      → Inv content f
      → f.ready ≡ Ready.running
      → f.size < f.bytes_done + fuel
      → CanEnd f
  ends zero f v running h = absurd (omega (arith, h, v.ranges.total))
  ends (suc fuel) f v running h = elim (Bool-cases (f.bytes_done == f.size)) [
    | inl whole ↦
        let g = rest_of_round conf idle_round f in
        let e = flux_do-idle conf (only 0 Event.locked) f in
        let served = idle-RoundServed f in
        let told = rest_of_round-Told conf (λ k. false) (only 0 Event.locked) f running in
        let kept = rest_of_round-rest conf (λ k. false) (only 0 Event.locked) f in
        let k : (g.bytes_done == g.size) ≡ true = ground (arith, whole, kept.0, kept.1.0) in
        CanEnd-round idle_round f g running served e (
          g,
          (
            here,
            (
              Told-done g told (ground (arith, k)),
              whole-IsComplete g (flux_do-Inv idle_round f g served e v) k,
            ),
          ),
        )
    | inr left ↦
        let (i, (c, (at, more))) = unfinished f.conns (ground (arith, left, v.ranges.total)) in
        let onward : Onward f = λ g gv gr gs gb. ends fuel g gv gr (omega (arith, h, gs, gb)) in
        elim (Bool-cases c.enabled) [
          | inl on ↦ read_step f i c v running at on more onward
          | inr off ↦ idle_step f i c v running left at off more onward
        ]
  ]

-- From every state that satisfies the invariant, a download that `flux_start` begins can be completed:
-- some run of rounds and setup threads, over a server that has the content, ends with `ready` at 1 and
-- the server's file.
pub download_can_end :
    (content : ℕ → ℕ) (conf : Conf) (f : Flux)
    → Inv content f
    → (h : Flux) × (Run content conf h (flux_start f)
        × ((h.ready ≡ Ready.done) × IsComplete content h))
unfolding flux_start
download_can_end content conf f v =
    ends content conf (suc f.size) (flux_start f) (flux_start-Inv content f v) refl (omega arith)

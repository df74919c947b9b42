-- ===== src/Example/Spectating.antt =====
-- The example program never adds a step of its own: src/examples/main.c.
use nimble_client_c.Client.{World, Received}
use nimble_client_c.Realize.{same_state, RealizeState}
use nimble_client_c.Prelude.{arith, ◌∙◌, false, sym, ◌^◌, [], ◌%◌, refl, ◌+◌, ◌≡◌, ◌≢◌, ◌∷◌, List}
use nimble_client_c.Example.{
  start, Memory, running, Program, update_and_read, rounds, round, ExamplePlatform, arrive,
}
use nimble_client_c.Platform.{Platform}

-- Rounds that only update the realizer and read a step.
unfoldable pub spectate :
    {P : Platform} → ExamplePlatform P → List (List Received) → Program P → Program P
unfolding arrive
spectate E [] p = p
spectate E (received ∷ later) p =
    let p' = arrive received p in
    spectate E later (update_and_read E (record p' { frame = (p'.frame + 1) % 2 ^ 32 }))

module _ {P : Platform} (E : ExamplePlatform P) where
  round_spectates :
      (p : Program P)
      → p.reported_state ≢ RealizeState.synced
      → round E p ≡ running (update_and_read E (record p { frame = (p.frame + 1) % 2 ^ 32 }))
  unfolding round
  round_spectates p h =
      let quiet : same_state p.reported_state RealizeState.synced ≡ false = ground arith in
      ground (arith, quiet)

  arrive_reported :
      (received : List Received) (p : Program P)
      → p.reported_state ≢ RealizeState.synced
      → (arrive received p).reported_state ≢ RealizeState.synced
  unfolding arrive
  arrive_reported received p h = h

  update_and_read-reported_state :
      (p : Program P) → (update_and_read E p).reported_state ≡ p.reported_state
  unfolding update_and_read
  update_and_read-reported_state p = refl

  rounds-spectate :
      (arrivals : List (List Received)) (p : Program P)
      → p.reported_state ≢ RealizeState.synced
      → rounds E arrivals p ≡ running (spectate E arrivals p)
  unfolding rounds spectate
  rounds-spectate [] p h = refl
  rounds-spectate (received ∷ later) p h =
      let p' = arrive received p in
      let h' = arrive_reported received p h in
      rw (round_spectates p' h', rounds)
        (rounds-spectate later (update_and_read E (record p' { frame = (p'.frame + 1) % 2 ^ 32 }))
          (λ e. h' (
            sym (update_and_read-reported_state (record p' { frame = (p'.frame + 1) % 2 ^ 32 }))
            ∙ e)))

  start-reported_state :
      (m : Memory P) (w : World P) (transport : P.Transport) (version : P.Version) (p : Program P)
      → start E m w transport version ≡ running p
      → p.reported_state ≡ RealizeState.init
  unfolding start
  start-reported_state m w transport version p h = ground arith

  -- Once it has started, the example program goes on for any number of rounds, whatever arrives
  -- between them, and never adds a predicted step: a round is no more than an update of the realizer
  -- and the reading of a step, since the state that its test looks at stays what it was at the start.
  pub rounds-start :
      (m : Memory P) (w : World P) (transport : P.Transport) (version : P.Version) (p : Program P)
      (arrivals : List (List Received))
      → start E m w transport version ≡ running p
      → rounds E arrivals p ≡ running (spectate E arrivals p)
  rounds-start m w transport version p arrivals h =
      rounds-spectate arrivals p
        (λ e. let first = start-reported_state m w transport version p h in cc)

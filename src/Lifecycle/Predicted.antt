-- ===== src/Lifecycle/Predicted.antt =====
-- The predicted steps, which wait in the client until the server has them: game_step_response.c and
-- send_steps.c, while client.c updates.
use nimble_client_c.Lifecycle.Left.{update-rest}
use nimble_client_c.Lifecycle.Buffers.{handled, reader, Reader}
use nimble_client_c.Lifecycle.Rule.{update_rule, IsHeard}
use nimble_client_c.Lifecycle.{read_step, update}
use nimble_client_c.Handlers.Steps.{server_received}
use nimble_client_c.Handlers.{
  on_join_game_participant_out_of_space_response, on_download_game_state_response,
  on_join_game_response, on_game_step_response, on_download_game_state_part, on_connect_response,
}
use nimble_client_c.Incoming.{dispatch}
use nimble_client_c.Client.{datagram, World, failure, NimbleClient, Received}
use nimble_client_c.Prelude.{
  All-append, All-parts, ◌∙◌, refl, ap, arith, inr, ◌≤◌, inl, ◌^◌, ◌%◌, ◌+◌, All, ℤ, ◌⊎◌, true, [],
  ◌≡◌, ◌++◌, Bool, ◌∷◌, ℕ, List,
}
use nimble_client_c.Platform.{
  unknown, out_of_participant_slots_response, game_state_response, join_game_response,
  server_out_blob_stream, connect_response, IncomingCommand, game_step_response, Platform,
}
use nimble_client_c.Lifecycle.Reading.{play, Play, update_at, read_into}
use nimble_client_c.Realize.Answers.{command_read, body}

-- What is relied on of nimble-steps: a buffer has steps with some ids; discarding up to an id leaves
-- all steps that are not before it, and writing the steps out leaves all.
pub record PredictedLaws (P : Platform) : Type 1 where
  pub has : P.Steps → ℕ → Bool
  pub before : ℕ → ℕ → Type 0
  pub discards :
      (b : P.Steps) (id k : ℕ)
      → has b id ≡ true
      → (has (P.steps_discard_up_to b k) id ≡ true) ⊎ before id k
  pub writes :
      (b : P.Steps) (out : P.OutStream) (id : ℕ)
      → has b id ≡ true
      → has (P.steps_out_serialize out b).2 id ≡ true

-- Octets with a step response, by which the server has the steps before an id.
abbrev pub Confirms : {P : Platform} → PredictedLaws P → ℕ → List ℕ → Type 0
Confirms {P} L id octets =
    (l : P.OrderedIn) × (P.command_of (command_read P l octets).1 ≡ game_step_response)
    × L.before id ((server_received P (body P l octets) + 1) % 2 ^ 32)

-- Octets with a game state response, at which prediction may start anew.
abbrev pub Restarts : Platform → List ℕ → Type 0
Restarts P octets =
    (l : P.OrderedIn) × (P.command_of (command_read P l octets).1 ≡ game_state_response)

abbrev pub IsAmong : List ℕ → List Received → Type 0
IsAmong octets [] = ⊥
IsAmong octets (failure n ∷ q) = IsAmong octets q
IsAmong octets (datagram octets' ∷ q) = (octets ≡ octets') ⊎ IsAmong octets q

-- All that arrives while a client plays.
abbrev pub arrivals : List Play → List Received
arrivals [] = []
arrivals (Play.arrive received ∷ more) = received ++ arrivals more
arrivals (update_at now ∷ more) = arrivals more
arrivals (read_into size ∷ more) = arrivals more

module _ {P : Platform} where
  -- What handling a message does to the predicted steps, unless it takes a block.
  dispatch-predicted :
      (cmd : IncomingCommand) (c : NimbleClient P) (w : World P) (s : P.InStream)
      → let o = dispatch cmd c w s in
        (w.next_block ≤ o.world.next_block)
        × (o.world.next_block ≡ w.next_block
            → (o.client.out_steps ≡ c.out_steps)
              ⊎ (cmd ≡ game_state_response)
              ⊎ ((cmd ≡ game_step_response)
                  × (o.client.out_steps
                      ≡ P.steps_discard_up_to c.out_steps ((server_received P s + 1) % 2 ^ 32))))
  unfolding dispatch on_connect_response on_download_game_state_part on_game_step_response
      on_join_game_response on_download_game_state_response
      on_join_game_participant_out_of_space_response
  dispatch-predicted connect_response c w s = (ground arith, λ e. inl (ground arith))
  dispatch-predicted server_out_blob_stream c w s = (ground arith, λ e. inl (ground arith))
  dispatch-predicted game_step_response c w s = (ground arith, λ e. inr (inr (refl, ground arith)))
  dispatch-predicted join_game_response c w s = (ground arith, λ e. inl (ground arith))
  dispatch-predicted game_state_response c w s = (ground arith, λ e. inr (inl refl))
  dispatch-predicted out_of_participant_slots_response c w s =
      (ground arith, λ e. inl (ground arith))
  dispatch-predicted unknown c w s = (ground arith, λ e. inl refl)

among-All :
    (H : List ℕ → Type 0) (q : List Received)
    → ((octets : List ℕ) → IsAmong octets q → H octets)
    → All (IsHeard H) q
among-All H [] among = tt
among-All H (failure n ∷ q) among = (tt, among-All H q among)
among-All H (datagram octets ∷ q) among =
    (among octets (inl refl), among-All H q (λ o m. among o (inr m)))

module _ {P : Platform} (L : PredictedLaws P) (id first_block : ℕ) (heard : List Received) where
  -- What ends the waiting of a step: a confirmation, or a new start, among what is heard.
  abbrev Ended : Type 0
  Ended = (octets : List ℕ) × IsAmong octets heard × (Confirms L id octets ⊎ Restarts P octets)

  -- The step is there as long as no block is taken, or its waiting has ended.
  abbrev Keeps : Reader P → Type 0
  Keeps x = (first_block ≤ x.2) × (x.2 ≡ first_block → (L.has x.1 id ≡ true) ⊎ Ended)

  abbrev Heard : List ℕ → Type 0
  Heard octets = IsAmong octets heard

  handled-Keeps :
      (octets : List ℕ) (l : P.OrderedIn) (c : NimbleClient P) (w : World P)
      → Heard octets
      → Keeps (reader c w)
      → let o = handled P octets l c w in Keeps (reader o.client o.world)
  handled-Keeps octets l c w among (up, keeps) =
      let cmd = P.command_of (command_read P l octets).1 in
      let s = body P l octets in
      let o = dispatch cmd c w s in
      let (up', changes) = dispatch-predicted cmd c w s in
      (
        omega arith,
        λ e. elim (keeps (omega arith)) [
          | inr ended ↦ inr ended
          | inl there ↦ elim (changes (omega arith)) [
            | inl same ↦ inl (ap (λ b. L.has b id) same ∙ there)
            | inr other ↦ elim other [
              | inl restarts ↦ inr (octets, among, inr (l, restarts))
              | inr (is, discarded) ↦
                  elim (L.discards c.out_steps id ((server_received P s + 1) % 2 ^ 32) there) [
                    | inl still ↦ inl (ap (λ b. L.has b id) discarded ∙ still)
                    | inr before ↦ inr (octets, among, inl (l, is, before))
                  ]
            ]
          ]
        ],
      )

  update-Keeps :
      (c : NimbleClient P) (w : World P) (now : ℤ)
      → All (IsHeard Heard) w.inbox
      → Keeps (reader c w)
      → let o = update c w now in Keeps (reader o.client o.world)
  update-Keeps c w now =
      update_rule Heard Keeps handled-Keeps
        (λ out read predicted n k. (
          k.0,
          λ e. elim (k.1 e) [
            | inl there ↦ inl (L.writes predicted out id there)
            | inr ended ↦ inr ended
          ],
        ))
        c w now

  play-Keeps :
      (calls : List Play) (c : NimbleClient P) (w : World P)
      → All (IsHeard Heard) w.inbox
      → All (IsHeard Heard) (arrivals calls)
      → Keeps (reader c w)
      → let (_, c', w') = play calls c w in Keeps (reader c' w')
  unfolding play read_step
  play-Keeps [] c w waiting later k = k
  play-Keeps (update_at now ∷ more) c w waiting later k =
      let o = update c w now in
      play-Keeps more o.client o.world (update-rest (IsHeard Heard) c w now waiting) later
        (update-Keeps c w now waiting k)
  play-Keeps (Play.arrive received ∷ more) c w waiting later k =
      let (now, then') = All-parts (IsHeard Heard) received (arrivals more) later in
      play-Keeps more c (record w { inbox = w.inbox ++ received })
        (All-append (IsHeard Heard) w.inbox received waiting now) then' k
  play-Keeps (read_into size ∷ more) c w waiting later k =
      play-Keeps more
        (record c { authoritative_steps = (P.steps_read c.authoritative_steps size).3 }) w waiting
        later k

-- Whatever updates the client makes, whatever arrives and however the application reads, a predicted
-- step that waits in the client is still there at the end; or, of the datagrams that waited at the
-- start or arrived, there is one whose octets are a step response by which the server has that step,
-- or a game state response, at which prediction starts anew. (No block is taken for a game state in
-- between, and the buffer of steps keeps its laws.)
pub play-predicted :
    {P : Platform} (L : PredictedLaws P) (id : ℕ) (calls : List Play) (c : NimbleClient P)
    (w : World P)
    → L.has c.out_steps id ≡ true
    → (play calls c w).2.next_block ≡ w.next_block
    → let (_, c', _) = play calls c w in
      (L.has c'.out_steps id ≡ true)
      ⊎ ((octets : List ℕ) × IsAmong octets (w.inbox ++ arrivals calls)
          × (Confirms L id octets ⊎ Restarts P octets))
play-predicted L id calls c w there none_taken =
    let heard = w.inbox ++ arrivals calls in
    let H : List ℕ → Type 0 = λ octets. IsAmong octets heard in
    let (waiting, later) =
      All-parts (IsHeard H) w.inbox (arrivals calls) (among-All H heard (λ octets m. m)) in
    (play-Keeps L id w.next_block heard calls c w waiting later (omega arith, λ e. inl there)).1
      none_taken

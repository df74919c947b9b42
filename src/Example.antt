-- ===== src/Example.antt =====
-- The example program, src/examples/main.c: it joins a game and then, frame after frame, updates the
-- realizer and reads a step. Its sleep, its log and the parsing of what it only logs are left out.
use nimble_client_c.Lifecycle
use nimble_client_c.Lifecycle.{InitSettings}
use nimble_client_c.Realize.{
  same_state, join_game, realize_re_init, RealizeState, realize_init, realize_update,
  NimbleClientRealize,
}
use nimble_client_c.Client.{Received, World, ParticipantEntry}
use nimble_client_c.Platform.{Platform}
use nimble_client_c.Prelude.{
  ◌&&◌, int_of_long, ◌^◌, [], ◌==◌, is_negative, ◌%◌, ◌++◌, ◌∷◌, suc, ℤ, ℕ, ◌+◌, Bool,
  if◌then◌else◌, List,
}
pub mod Spectating

-- What the program takes from elsewhere: the start of the UDP library, `nbsStepsAllowedToAdd`,
-- `nbsStepsWrite`, the text of a step with its terminator, `nbsStepsOutSerializeCombinedStep` for one
-- participant, and the writing of one player's local index into a join request.
pub record ExamplePlatform (P : Platform) : Type 0 where
  pub udp_startup : ℤ
  pub steps_allowed_to_add : P.Steps → Bool
  pub steps_write : P.Steps → ℕ → List ℕ → ℤ × P.Steps
  pub step_text : ℕ → List ℕ
  pub serialize_combined_step : ℕ → List ℕ → ℤ × List ℕ
  pub one_player : P.JoinContent → ℕ → P.JoinContent

-- The variables of `main` that its loop uses.
pub record Program (P : Platform) : Type 0 where
  pub frame : ℕ
  pub reported_state : RealizeState
  pub client_realize : NimbleClientRealize P
  pub world : World P

pub data Progress (P : Platform) : Type 0 where
  running : Program P → Progress P
  exited : ℤ → Progress P

-- What the memory of `main` holds before, where the program does not write it.
pub record Memory (P : Platform) : Type 0 where
  pub client_realize : NimbleClientRealize P
  pub settings : InitSettings P
  pub join_content : P.JoinContent

-- The participant id of the first entry.
abbrev first_participant_id : List ParticipantEntry → ℕ
first_participant_id [] = 0
first_participant_id (e ∷ es) = e.participant_id

module _ {P : Platform} (E : ExamplePlatform P) where
  -- `main` up to its loop, with the transport and the version that it sets.
  unfoldable pub start : Memory P → World P → P.Transport → P.Version → Progress P
  start m w transport version =
      let settings = record (m.settings) { transport = transport; application_version = version } in
      let (r1, w1) = realize_init m.client_realize w settings in
      let (r2, w2) = realize_re_init r1 w1 settings in
      let r3 = join_game r2 (E.one_player m.join_content 0xca) in
      if is_negative E.udp_startup
      then exited E.udp_startup
      else running (record {
        frame = 0;
        reported_state = RealizeState.init;
        client_realize = r3;
        world = w2;
      })

  -- The predicted step that a frame adds.
  pub add_step : Program P → Progress P
  add_step p =
      let r = p.client_realize in
      let c = r.client in
      let step_id = P.expected_write_id c.out_steps in
      let (octet_length, octets) =
        E.serialize_combined_step (first_participant_id c.local_participant_lookup)
          (E.step_text step_id) in
      let (error_code, steps) = E.steps_write c.out_steps step_id octets in
      if is_negative octet_length
      then exited (int_of_long octet_length)
      else if is_negative error_code
      then exited error_code
      else running
          (record p { client_realize = record r { client = record c { out_steps = steps } } })

  -- The rest of a frame: the clock, the update, and the step that is read.
  unfoldable pub update_and_read : Program P → Program P
  update_and_read p =
      let w = p.world in
      let (r, w') =
        realize_update p.client_realize (record w { clock_reads = suc w.clock_reads })
          (P.clock w.clock_reads) in
      let (_, _, _, c) = Lifecycle.read_step r.client 512 in
      record p { client_realize = record r { client = c }; world = w' }

  pub adds_step : Program P → Bool
  adds_step p =
      (p.frame % 2 == 0)
      && same_state p.reported_state RealizeState.synced
      && E.steps_allowed_to_add p.client_realize.client.out_steps

  -- One round of the loop.
  pub round : Program P → Progress P
  unfolding adds_step
  round p =
      let counted = record p { frame = (p.frame + 1) % 2 ^ 32 } in
      elim (if adds_step counted then add_step counted else running counted) [
        | running p' ↦ running (update_and_read p')
        | exited code ↦ exited code
      ]

-- What arrives between two rounds.
pub arrive : {P : Platform} → List Received → Program P → Program P
arrive received p = record p { world = record (p.world) { inbox = p.world.inbox ++ received } }

module _ {P : Platform} (E : ExamplePlatform P) where
  -- As many rounds as there are arrivals, each ahead of its round.
  pub rounds : List (List Received) → Program P → Progress P
  unfolding arrive
  rounds [] p = running p
  rounds (received ∷ later) p = elim (round E (arrive received p)) [
    | running p' ↦ rounds later p'
    | exited code ↦ exited code
  ]

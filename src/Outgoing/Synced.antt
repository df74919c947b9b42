-- ===== src/Outgoing/Synced.antt =====
-- What a synced client sends: its steps, and then the message of its joining phase: send_steps.c
-- and outgoing.c.
use nimble_client_c.Outgoing.Messages.{headed}
use nimble_client_c.Prelude.{
  refl, if◌then◌else◌, inr, inl, Bool-cases, sym, ap, ◌∙◌, ◌<◌, ◌≢◌, ◌≤◌, ℕ, arith, length, pos,
  suc, true, is_positive, ◌∷◌, false, ◌≡◌, is_negative, ℤ,
}
use nimble_client_c.Outgoing.{
  state_messages, handle_state, outgoing, send_state_message, send_steps_to_server,
}
use nimble_client_c.Client.{joining_participant, synced, Sent, World, NimbleClient}
use nimble_client_c.Platform.{game_step, Platform}

-- The stream of the steps: the header, the command, what the client waits for, and the steps.
abbrev steps_header : {P : Platform} → NimbleClient P → World P → ℤ × P.OutStream
steps_header {P} c w =
    let (mask, expected) = P.pending_receive_mask c.authoritative_pending_steps in
    P.pending_out_header (P.write_command (headed c w) game_step) expected mask

abbrev steps_written : {P : Platform} → NimbleClient P → World P → ℤ × P.OutStream × P.Steps
steps_written {P} c w = P.steps_out_serialize (steps_header c w).1 c.out_steps

-- The number of the next datagram once the current one is committed.
abbrev committed : (P : Platform) → P.OrderedOut → P.OrderedOut
committed P l = P.ordered_commit (P.ordered_prepare l (P.out_init P.datagram_max_size)).0

-- The steps are serialised and the transport takes them.
pub record StepsGo {P : Platform} (c : NimbleClient P) (w : World P) : Type 0 where
  pub headed_well : is_negative (steps_header c w).0 ≡ false
  pub some_steps : is_positive (steps_written c w).0 ≡ true
  pub taken : is_negative (P.send_result (length w.outbox)) ≡ false

abbrev pub steps_datagram : {P : Platform} → NimbleClient P → World P → Sent P
steps_datagram {P} c w = record {
  through = c.transport;
  octets = P.out_octets (steps_written c w).1;
}

module _ {P : Platform} (c : NimbleClient P) (w : World P) where
  send_steps_to_server_sends :
      StepsGo c w
      → let o = send_steps_to_server c w in
        (is_negative o.code ≡ false)
        × (o.world.outbox ≡ steps_datagram c w ∷ w.outbox)
        × (o.world.clock_reads ≡ suc w.clock_reads)
        × (o.client.ordered_datagram_out ≡ committed P c.ordered_datagram_out)
        × (o.client.wait_time ≡ pos 0)
        × (o.client.state ≡ c.state)
        × (o.client.join_participant_phase ≡ c.join_participant_phase)
        × (o.client.transport ≡ c.transport)
        × (o.client.join_game_request ≡ c.join_game_request)
  unfolding send_steps_to_server
  send_steps_to_server_sends k = ground (arith, k.headed_well, k.some_steps, k.taken)

-- A header alone is not worth a datagram.
abbrev pub ShortHeaders : Platform → Type 0
ShortHeaders P =
    (l : P.OrderedOut) (time : ℕ)
    → P.out_pos (P.write_u16 (P.ordered_prepare l (P.out_init P.datagram_max_size)).1 time).1 ≤ 10

abbrev join_stream : {P : Platform} → NimbleClient P → World P → P.OutStream
join_stream {P} c w =
    P.write_join_request (headed c w) c.join_game_request.nonce c.join_game_request.content

module _ {P : Platform} (c : NimbleClient P) (w : World P) where
  send_state_message_joined :
      ShortHeaders P
      → c.state ≡ synced
      → c.join_participant_phase ≢ joining_participant
      → let o = send_state_message c w in
        (o.code ≡ pos 0)
        × (o.world.outbox ≡ w.outbox)
        × (o.client.ordered_datagram_out ≡ committed P c.ordered_datagram_out)
  unfolding send_state_message
  send_state_message_joined short e j =
      ground (arith, short c.ordered_datagram_out (P.time_to_lower_bits (P.clock w.clock_reads)))

  send_state_message_joining :
      c.state ≡ synced
      → c.join_participant_phase ≡ joining_participant
      → 10 < P.out_pos (join_stream c w)
      → let o = send_state_message c w in
        (o.world.outbox
          ≡ record { through = c.transport; octets = P.out_octets (join_stream c w) } ∷ w.outbox)
        × (o.client.ordered_datagram_out ≡ committed P c.ordered_datagram_out)
        × (o.client.wait_time ≡ pos 4)
  unfolding send_state_message
  send_state_message_joining e j long = ground arith

-- A join request with its header has more than ten octets.
abbrev pub LongJoins : Platform → Type 0
LongJoins P =
    (out : P.OutStream) (nonce : ℕ) (content : P.JoinContent)
    → 10 < P.out_pos (P.write_join_request out nonce content)

-- Counting the frame changes nothing that a message has set.
outgoing_handled :
    {P : Platform} (c : NimbleClient P) (w : World P)
    → let o = handle_state c w in
      ((outgoing c w).world ≡ o.world)
      × ((outgoing c w).client.ordered_datagram_out ≡ o.client.ordered_datagram_out)
      × ((outgoing c w).client.wait_time ≡ o.client.wait_time)
unfolding outgoing
outgoing_handled c w = elim (Bool-cases (is_negative (handle_state c w).code)) [
  | inl n ↦ rw n (refl, refl, refl)
  | inr n ↦ rw n (refl, refl, refl)
]

module _ {P : Platform} (c : NimbleClient P) (w : World P) (at : c.state ≡ synced)
    (go : StepsGo c w) where
  -- Without a negative code of the steps there is the state's message behind them.
  handle_state_synced :
      let o = send_steps_to_server c w in handle_state c w ≡ send_state_message o.client o.world
  unfolding handle_state state_messages
  handle_state_synced =
      let o = send_steps_to_server c w in
      let (good, _, _, _, _, _, _, _, _) = send_steps_to_server_sends c w go in
      ap (λ s. state_messages s c w) at
      ∙ ap (λ b. if b then o else send_state_message o.client o.world) good

  outgoing_synced :
      let o = send_steps_to_server c w in
      let m = send_state_message o.client o.world in
      ((outgoing c w).world ≡ m.world)
      × ((outgoing c w).client.ordered_datagram_out ≡ m.client.ordered_datagram_out)
      × ((outgoing c w).client.wait_time ≡ m.client.wait_time)
  outgoing_synced =
      let (world, number, wait) = outgoing_handled c w in
      (
        world ∙ ap (λ o. o.world) handle_state_synced,
        number ∙ ap (λ o. o.client.ordered_datagram_out) handle_state_synced,
        wait ∙ ap (λ o. o.client.wait_time) handle_state_synced,
      )

  -- A synced client that is still joining, with steps that the transport takes, sends two datagrams:
  -- its steps, and behind the next number the join request. Both numbers are committed, and the next
  -- sending waits four updates. (A join request has more than ten octets.)
  pub outgoing_joining :
      LongJoins P
      → c.join_participant_phase ≡ joining_participant
      → let o = send_steps_to_server c w in
        ((outgoing c w).world.outbox
          ≡ record { through = c.transport; octets = P.out_octets (join_stream o.client o.world) }
            ∷ steps_datagram c w
            ∷ w.outbox)
        × ((outgoing c w).client.ordered_datagram_out
            ≡ committed P (committed P c.ordered_datagram_out))
        × ((outgoing c w).client.wait_time ≡ pos 4)
  outgoing_joining long j =
      let o = send_steps_to_server c w in
      let (_, box, _, order, _, state, phase, through, _) = send_steps_to_server_sends c w go in
      let (world, number, wait) = outgoing_synced in
      let (box', number', wait') =
        send_state_message_joining o.client o.world (state ∙ at) (phase ∙ j) (
          long (headed o.client o.world) o.client.join_game_request.nonce
            o.client.join_game_request.content) in
      (
        ap (λ x. x.outbox) world
            ∙ box'
            ∙ ap
                (λ t.
                  record { through = t; octets = P.out_octets (join_stream o.client o.world) }
                  ∷ o.world.outbox)
                through
            ∙ ap
                (λ b.
                  record {
                    through = c.transport;
                    octets = P.out_octets (join_stream o.client o.world);
                  }
                  ∷ b)
                box,
        number ∙ number' ∙ ap (committed P) order,
        wait ∙ wait',
      )

  -- A synced client that has joined or was refused, with steps that the transport takes, sends one
  -- datagram and uses two numbers: its steps go out, and the number of the header behind them is
  -- committed although that datagram, of at most ten octets, is not sent.
  pub outgoing_joined :
      ShortHeaders P
      → c.join_participant_phase ≢ joining_participant
      → ((outgoing c w).world.outbox ≡ steps_datagram c w ∷ w.outbox)
        × ((outgoing c w).client.ordered_datagram_out
            ≡ committed P (committed P c.ordered_datagram_out))
  outgoing_joined short j =
      let o = send_steps_to_server c w in
      let (_, box, _, order, _, state, phase, _, _) = send_steps_to_server_sends c w go in
      let (world, number, _) = outgoing_synced in
      let (_, box', number') =
        send_state_message_joined o.client o.world short (state ∙ at) (λ e. j (sym phase ∙ e)) in
      (ap (λ x. x.outbox) world ∙ box' ∙ box, number ∙ number' ∙ ap (committed P) order)

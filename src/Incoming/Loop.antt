-- ===== src/Incoming/Loop.antt =====
-- The `while (1)` of receive_transport.c as it is written, one call of the transport at a time, and
-- its end.
use nimble_client_c.Handlers.{on_download_game_state_part}
use nimble_client_c.Client.{datagram, failure, Outcome, Received, NimbleClient, World}
use nimble_client_c.Pong.{receive_pong}
use nimble_client_c.Incoming.{
  receive_all_datagrams_from_transport, IncomingCommand, note_usable, note_dropped,
  read_and_check_ordered_datagram, note_packet_in, dispatch, feed_ordered, feed, receive_from,
}
use nimble_client_c.Prelude.{
  ◌∙◌, inl, inr, Bool-cases, refl, [], zero, ◌<◌, suc, if◌then◌else◌, some, none, arith, ◌≡◌,
  Option, List, ℕ, ltb, ◌∷◌, inc_size, magnitude, negsuc, is_negative, length, to_int,
}
use nimble_client_c.Platform.{
  unknown, out_of_participant_slots_response, game_state_response, join_game_response,
  game_step_response, server_out_blob_stream, connect_response, Platform,
}

-- What one round makes of the loop's variables: it goes on, or returns.
pub data Round (P : Platform) : Type 0 where
  again : ℕ → NimbleClient P → World P → Round P
  return : Outcome P → Round P

-- What `datagramTransportReceive` gives: the first that waits, or nothing.
pub transport_receive : {P : Platform} → World P → Option Received × World P
transport_receive w = elim w.inbox [
  | [] ↦ (none, w)
  | r ∷ rest ↦ (some r, record w { inbox = rest })
]

module _ {P : Platform} where
  -- A round that got a datagram.
  pub take_datagram : List ℕ → ℕ → NimbleClient P → World P → Round P
  take_datagram octets count c w =
      let fed = feed (note_packet_in c) w octets in
      if is_negative fed.code
      then return fed
      else again (inc_size count) (note_usable fed.client) fed.world

  -- The tests on what the transport returned: positive, negative or zero.
  pub round : Option Received → ℕ → NimbleClient P → World P → Round P
  unfolding take_datagram
  round none count c w = return (record { code = to_int count; client = c; world = w })
  round (some (failure n)) count c w = return (record { code = negsuc n; client = c; world = w })
  round (some (datagram octets)) count c w =
      if ltb 0 (length octets)
      then take_datagram octets count c w
      else return (record { code = to_int count; client = c; world = w })

  -- The loop on fuel; `none` means that the fuel ran out.
  pub receive_loop : ℕ → ℕ → NimbleClient P → World P → Option (Outcome P)
  unfolding transport_receive
  receive_loop zero count c w = none
  receive_loop (suc fuel) count c w =
      let (r, w') = transport_receive w in
      elim (round r count c w') [
        | again count' c' w'' ↦ receive_loop fuel count' c' w''
        | return o ↦ some o
      ]

  dispatch-inbox :
      (cmd : IncomingCommand) (c : NimbleClient P) (w : World P) (s : P.InStream)
      → (dispatch cmd c w s).world.inbox ≡ w.inbox
  unfolding dispatch on_download_game_state_part
  dispatch-inbox connect_response c w s = refl
  dispatch-inbox server_out_blob_stream c w s = ground arith
  dispatch-inbox game_step_response c w s = refl
  dispatch-inbox join_game_response c w s = refl
  dispatch-inbox game_state_response c w s = refl
  dispatch-inbox out_of_participant_slots_response c w s = refl
  dispatch-inbox unknown c w s = refl

  receive_pong-inbox :
      (c : NimbleClient P) (w : World P) (s : P.InStream)
      → (receive_pong c w s).0.world.inbox ≡ w.inbox
  unfolding receive_pong
  receive_pong-inbox c w s = ground arith

  feed_ordered-inbox :
      (c : NimbleClient P) (w : World P) (s : P.InStream)
      → (feed_ordered c w s).world.inbox ≡ w.inbox
  unfolding feed_ordered
  feed_ordered-inbox c w s =
      let (p, s1) = receive_pong c w s in
      let cmd = P.read_u8 s1 in
      ground (
        arith,
        receive_pong-inbox c w s,
        dispatch-inbox (P.command_of cmd.1) p.client p.world cmd.2,
      )

  -- Feeding takes nothing from the transport and adds nothing to it.
  pub feed-inbox :
      (c : NimbleClient P) (w : World P) (octets : List ℕ) → (feed c w octets).world.inbox ≡ w.inbox
  unfolding feed
  feed-inbox c w octets =
      let d = read_and_check_ordered_datagram P c.ordered_datagram_in (P.in_init octets) in
      let ordered = record c { ordered_datagram_in = d.1 } in
      ground (arith, feed_ordered-inbox (note_dropped ordered (magnitude d.0)) w d.2)

  receive_loop_empty :
      (fuel count : ℕ) (c : NimbleClient P) (w : World P)
      → w.inbox ≡ []
      → receive_loop (suc fuel) count c w
        ≡ some (record { code = to_int count; client = c; world = record w { inbox = [] } })
  unfolding receive_loop round
  receive_loop_empty fuel count c w e = ground arith

  receive_loop_returns :
      (fuel count : ℕ) (c : NimbleClient P) (w : World P) (r : Received) (rest : List Received)
      (o : Outcome P)
      → w.inbox ≡ r ∷ rest
      → round (some r) count c (record w { inbox = rest }) ≡ return o
      → receive_loop (suc fuel) count c w ≡ some o
  unfolding receive_loop
  receive_loop_returns fuel count c w r rest o e h = ground arith

  receive_loop_goes_on :
      (fuel count count' : ℕ) (c c' : NimbleClient P) (w w' : World P) (r : Received)
      (rest : List Received)
      → w.inbox ≡ r ∷ rest
      → round (some r) count c (record w { inbox = rest }) ≡ again count' c' w'
      → receive_loop (suc fuel) count c w ≡ receive_loop fuel count' c' w'
  unfolding receive_loop
  receive_loop_goes_on fuel count count' c c' w w' r rest e h = ground arith

  receive_loop-receive_from :
      (inbox : List Received) (fuel count : ℕ) (c : NimbleClient P) (w : World P)
      → w.inbox ≡ inbox
      → length inbox < fuel
      → receive_loop fuel count c w ≡ some (receive_from inbox count c w)
  unfolding receive_from round
  receive_loop-receive_from inbox zero count c w e h = absurd (omega arith)
  receive_loop-receive_from [] (suc fuel) count c w e h = receive_loop_empty fuel count c w e
  receive_loop-receive_from (failure n ∷ rest) (suc fuel) count c w e h =
      receive_loop_returns fuel count c w (failure n) rest _ e refl
  receive_loop-receive_from (datagram octets ∷ rest) (suc fuel) count c w e h =
      let w' = record w { inbox = rest } in
      let fed = feed (note_packet_in c) w' octets in
      elim (Bool-cases (ltb 0 (length octets))) [
        | inr none_left ↦
            rw none_left
              (receive_loop_returns fuel count c w (datagram octets) rest _ e (rw none_left refl))
        | inl filled ↦ elim (Bool-cases (is_negative fed.code)) [
          | inl bad ↦
              rw (filled, bad)
                (receive_loop_returns fuel count c w (datagram octets) rest _ e
                  (rw (filled, bad) refl))
          | inr good ↦
              rw (filled, good)
                (receive_loop_goes_on fuel count (inc_size count) c (note_usable fed.client) w
                    fed.world (datagram octets) rest e (rw (filled, good) refl)
                  ∙ receive_loop-receive_from rest fuel (inc_size count) (note_usable fed.client)
                      fed.world (feed-inbox (note_packet_in c) w' octets) (omega arith))
        ]
      ]

  -- The loop ends: with more fuel than datagrams wait, it returns, and what it returns is what
  -- `receive_all_datagrams_from_transport` says, whatever the datagrams hold.
  pub receive_loop_ends :
      (fuel : ℕ) (c : NimbleClient P) (w : World P)
      → length w.inbox < fuel
      → receive_loop fuel 0 c w ≡ some (receive_all_datagrams_from_transport c w)
  unfolding receive_all_datagrams_from_transport
  receive_loop_ends fuel c w h = receive_loop-receive_from w.inbox fuel 0 c w refl h

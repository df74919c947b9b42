-- ===== src/Incoming.antt =====
-- src/lib/incoming.c and receive_transport.c: a datagram is checked, its pong read, and its message
-- dispatched; every datagram that waits is fed in this way.
pub mod Rejects
pub mod Receiving
pub mod Unchanged
pub mod Accounts
pub mod Loop
use nimble_client_c.Prelude.{
  [], inc_size, magnitude, negsuc, ◌∷◌, false, zero, ◌-◌, length, int_of_long, true, is_positive,
  is_negative, ltb, pos, to_int, Bool, if◌then◌else◌, suc, List, ℕ, ℤ,
}
use nimble_client_c.Client.{
  datagram, disconnected, failure, Outcome, Received, World, NimbleClient, ClientState,
}
use nimble_client_c.Platform.{
  unknown, out_of_participant_slots_response, game_state_response, join_game_response,
  game_step_response, server_out_blob_stream, connect_response, dropped, IncomingCommand, Platform,
}
use nimble_client_c.Quality
use nimble_client_c.Handlers.{
  on_connect_response, on_join_game_response, on_join_game_participant_out_of_space_response,
  on_download_game_state_response, on_download_game_state_part, on_game_step_response,
}
use nimble_client_c.Pong.{receive_pong}

abbrev pub is_disconnected : ClientState → Bool
is_disconnected disconnected = true
is_disconnected _ = false

unfoldable pub read_and_check_ordered_datagram :
    (P : Platform) → P.OrderedIn → P.InStream → ℤ × P.OrderedIn × P.InStream
read_and_check_ordered_datagram P in_logic stream =
    let (id_delta, logic, s) = P.ordered_receive in_logic stream in
    (if is_positive id_delta then id_delta else negsuc 90, logic, s)

unfoldable pub add_dropped_packets : (P : Platform) → ℕ → P.Lagometer → P.Lagometer
add_dropped_packets P zero l = l
add_dropped_packets P (suc n) l =
    add_dropped_packets P n
      (P.lagometer_add l (record { status = dropped; latency_ms = 0; octet_count = 0 }))

module _ {P : Platform} where
  open P use {
    InStream, OrderedIn, Lagometer, in_init, read_u8, ordered_receive, command_of, lagometer_add,
    per_second_add,
  }

  -- The datagrams that a positive delta shows to be missing.
  unfoldable pub note_dropped : NimbleClient P → ℕ → NimbleClient P
  unfolding Quality.dropped_datagrams
  note_dropped c delta =
      if ltb 1 delta
      then record c {
        lagometer = add_dropped_packets P (delta - 1) c.lagometer;
        quality = Quality.dropped_datagrams c.quality (delta - 1);
      }
      else c

  -- A handler that leaves the world alone.
  abbrev in_world : World P → ℤ × NimbleClient P → Outcome P
  in_world w (code, c) = record { code = code; client = c; world = w }

  -- The `switch` on the command.
  unfoldable pub dispatch : IncomingCommand → NimbleClient P → World P → InStream → Outcome P
  dispatch connect_response c w s = in_world w (on_connect_response c s)
  dispatch server_out_blob_stream c w s = on_download_game_state_part c w s
  dispatch game_step_response c w s =
      let (step_count, c') = on_game_step_response c s in in_world w (int_of_long step_count, c')
  dispatch join_game_response c w s = in_world w (on_join_game_response c s)
  dispatch game_state_response c w s = in_world w (on_download_game_state_response c s)
  dispatch out_of_participant_slots_response c w s =
      in_world w (on_join_game_participant_out_of_space_response c s)
  dispatch unknown c w s = in_world w (negsuc 0, c)

  -- The pong and the message of a datagram that is in order.
  unfoldable pub feed_ordered : NimbleClient P → World P → InStream → Outcome P
  feed_ordered c w stream =
      let (pong, s1) = receive_pong c w stream in
      let (_, cmd, s2) = read_u8 s1 in
      if is_negative pong.code then pong else dispatch (command_of cmd) pong.client pong.world s2

  unfoldable pub feed : NimbleClient P → World P → List ℕ → Outcome P
  unfolding read_and_check_ordered_datagram
  feed c w octets =
      let (delta, logic, s) =
        read_and_check_ordered_datagram P c.ordered_datagram_in (in_init octets) in
      let ordered = record c { ordered_datagram_in = logic } in
      if ltb (length octets) 1
      then in_world w (negsuc 0, c)
      else if is_disconnected c.state
      then in_world w (pos 0, c)
      else if is_negative delta
      then in_world w (delta, ordered)
      else feed_ordered (note_dropped ordered (magnitude delta)) w s

  -- The count of an arriving datagram, ahead of its feeding.
  unfoldable pub note_packet_in : NimbleClient P → NimbleClient P
  note_packet_in c =
      if c.use_stats
      then record c { packets_per_second_in = per_second_add c.packets_per_second_in (pos 1) }
      else c

  unfoldable pub note_usable : NimbleClient P → NimbleClient P
  note_usable c = record c { quality = Quality.received_usable_datagram c.quality }

  -- The loop, over the datagrams that wait; `count` have been fed.
  unfoldable pub receive_from : List Received → ℕ → NimbleClient P → World P → Outcome P
  receive_from [] count c w = record {
    code = to_int count;
    client = c;
    world = record w { inbox = [] };
  }
  receive_from (failure n ∷ rest) count c w = record {
    code = negsuc n;
    client = c;
    world = record w { inbox = rest };
  }
  receive_from (datagram octets ∷ rest) count c w =
      let w' = record w { inbox = rest } in
      let fed = feed (note_packet_in c) w' octets in
      let more = receive_from rest (inc_size count) (note_usable fed.client) fed.world in
      if ltb 0 (length octets)
      then if is_negative fed.code then fed else more
      else record { code = to_int count; client = c; world = w' }

  unfoldable pub receive_all_datagrams_from_transport : NimbleClient P → World P → Outcome P
  unfolding receive_from
  receive_all_datagrams_from_transport c w = receive_from w.inbox 0 c w

-- ===== src/Tests/Handshake.antt =====
-- The handshake and the whole session at a server that is slow with some answers.
use nimble_client_c.Realize.Session.{exchanges_join}
use nimble_client_c.Platform.{join_game_response}
use nimble_client_c.Realize.Answers.{body, Delivers}
use nimble_client_c.Lifecycle.{find_participant_id}
use nimble_client_c.Lifecycle.Participants.{first_with}
use nimble_client_c.Realize.Answers.{completes, connects, gives_state}
use nimble_client_c.Platform.{game_state_response, server_out_blob_stream, connect_response}
use nimble_client_c.Handlers.{
  on_download_game_state_part, on_download_game_state_response, on_connect_response,
}
use nimble_client_c.Pong.{receive_pong}
use nimble_client_c.Incoming.{
  dispatch, add_dropped_packets, note_dropped, feed_ordered, feed, note_usable, note_packet_in,
  receive_all_datagrams_from_transport,
}
use nimble_client_c.Outgoing.{send_steps_to_server, send_state_message, handle_state, outgoing}
use nimble_client_c.Client.{joined_participant, ClientState}
use nimble_client_c.Lifecycle
use nimble_client_c.Quality
use nimble_client_c.Realize.{RealizeState}
use nimble_client_c.Client.{ClientState, World}
use nimble_client_c.Prelude.{◌<◌, ◌≤◌, length, ◌≡◌, refl, arith, ◌++◌, ◌∷◌, List, [], pos, ℕ}
use nimble_client_c.Realize.{realize_update, NimbleClientRealize}
use nimble_client_c.Realize.Stages.{Stage}
use nimble_client_c.Realize.Handshake.{Answers, exchange, tick, await, Exchange}
use nimble_client_c.Tests.Fixture.{toy_world, toy_realize}
use nimble_client_c.Tests.Toy.{toy}

abbrev header : ℕ → List ℕ
header id = id ∷ 0xdd ∷ 3 ∷ 200 ∷ []

abbrev e1 : Exchange
e1 = record { silence = pos 1016 ∷ []; time = pos 1032; octets = header 1 ++ 1 ∷ 9 ∷ [] }

abbrev e2 : Exchange
e2 = record { silence = []; time = pos 1048; octets = header 2 ++ 5 ∷ 1 ∷ 40 ∷ 3 ∷ [] }

abbrev e3 : Exchange
e3 = record { silence = []; time = pos 1064; octets = header 3 ++ 2 ∷ 3 ∷ 5 ∷ 6 ∷ [] }

toy-Stage : (n : ℕ) → n < 60 → Stage n ClientState.idle toy_realize
toy-Stage n few = record {
  running = (refl, (λ e. cc), (λ e. cc), (λ e. cc));
  at = refl;
  joining = refl;
  bears = (refl, omega arith);
}

abbrev x0 : NimbleClientRealize toy × World toy
x0 = tick (pos 1000) (toy_realize, toy_world)

connect-Answers : Answers e1 x0 connect_response ClientState.connected
unfolding await realize_update Lifecycle.update Lifecycle.check_if_disconnect_is_needed
    Lifecycle.send_packets Lifecycle.show_stats Lifecycle.calc_stats outgoing handle_state
    send_state_message send_steps_to_server receive_all_datagrams_from_transport note_packet_in
    note_usable feed feed_ordered note_dropped add_dropped_packets dispatch receive_pong
    on_connect_response on_download_game_state_response Quality.update
    Quality.received_usable_datagram
connect-Answers = (
  record { filled = omega arith; newer = refl; timed = refl; is_command = refl },
  connects refl refl,
)

state-Answers :
    Answers e2 (exchange e1 x0) game_state_response ClientState.joining_downloading_state
unfolding await realize_update Lifecycle.update Lifecycle.check_if_disconnect_is_needed
    Lifecycle.send_packets Lifecycle.show_stats Lifecycle.calc_stats outgoing handle_state
    send_state_message send_steps_to_server receive_all_datagrams_from_transport note_packet_in
    note_usable feed feed_ordered note_dropped add_dropped_packets dispatch receive_pong
    on_connect_response on_download_game_state_response Quality.update
    Quality.received_usable_datagram
state-Answers = (
  record { filled = omega arith; newer = refl; timed = refl; is_command = refl },
  gives_state refl refl (omega arith),
)

part-Answers : Answers e3 (exchange e2 (exchange e1 x0)) server_out_blob_stream ClientState.synced
unfolding await realize_update Lifecycle.update Lifecycle.check_if_disconnect_is_needed
    Lifecycle.send_packets Lifecycle.show_stats Lifecycle.calc_stats outgoing handle_state
    send_state_message send_steps_to_server receive_all_datagrams_from_transport note_packet_in
    note_usable feed feed_ordered note_dropped add_dropped_packets dispatch receive_pong
    on_connect_response on_download_game_state_response Quality.update
    Quality.received_usable_datagram
part-Answers = (
  record { filled = omega arith; newer = refl; timed = refl; is_command = refl },
  completes refl refl refl (λ e. cc),
)

-- The answer to the join request: one participant for the device 1.
abbrev e4 : Exchange
e4 = record { silence = pos 1080 ∷ []; time = pos 1096; octets = header 4 ++ 4 ∷ 9 ∷ 1 ∷ 20 ∷ [] }

abbrev x3 : NimbleClientRealize toy × World toy
x3 = exchange e3 (exchange e2 (exchange e1 x0))

join-Delivers :
    Delivers toy (await e4.silence x3).0.client.ordered_datagram_in e4.octets join_game_response
unfolding await realize_update Lifecycle.update Lifecycle.check_if_disconnect_is_needed
    Lifecycle.send_packets Lifecycle.show_stats Lifecycle.calc_stats outgoing handle_state
    send_state_message send_steps_to_server receive_all_datagrams_from_transport note_packet_in
    note_usable feed feed_ordered note_dropped add_dropped_packets dispatch receive_pong
    on_connect_response on_download_game_state_response Quality.update
    Quality.received_usable_datagram Quality.should_disconnect on_download_game_state_part
join-Delivers = record { filled = omega arith; newer = refl; timed = refl; is_command = refl }

join_body : 9 ∷ 1 ∷ 20 ∷ [] ≡ body toy (await e4.silence x3).0.client.ordered_datagram_in e4.octets
unfolding await realize_update Lifecycle.update Lifecycle.check_if_disconnect_is_needed
    Lifecycle.send_packets Lifecycle.show_stats Lifecycle.calc_stats outgoing handle_state
    send_state_message send_steps_to_server receive_all_datagrams_from_transport note_packet_in
    note_usable feed feed_ordered note_dropped add_dropped_packets dispatch receive_pong
    on_connect_response on_download_game_state_response Quality.update
    Quality.received_usable_datagram Quality.should_disconnect on_download_game_state_part
join_body = refl

join_fits : 1 ≤ length x3.0.client.local_participant_lookup
unfolding await realize_update Lifecycle.update Lifecycle.check_if_disconnect_is_needed
    Lifecycle.send_packets Lifecycle.show_stats Lifecycle.calc_stats outgoing handle_state
    send_state_message send_steps_to_server receive_all_datagrams_from_transport note_packet_in
    note_usable feed feed_ordered note_dropped add_dropped_packets dispatch receive_pong
    on_connect_response on_download_game_state_response Quality.update
    Quality.received_usable_datagram Quality.should_disconnect on_download_game_state_part
join_fits = omega arith

exchanges_join_example :
    let (r, _) = exchange e4 x3 in
    (r.state ≡ RealizeState.synced)
    × (r.client.state ≡ ClientState.synced)
    × (r.client.join_participant_phase ≡ joined_participant)
    × (find_participant_id r.client 1 ≡ (pos 1, 20))
unfolding first_with
exchanges_join_example =
    exchanges_join (pos 1000) (toy_realize, toy_world) e1 e2 e3 e4 1 (9 ∷ 1 ∷ 20 ∷ [])
      (toy-Stage 2 (omega arith)) connect-Answers state-Answers part-Answers join-Delivers join_body
      refl join_fits

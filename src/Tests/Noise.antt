-- ===== src/Tests/Noise.antt =====
-- A whole session over a transport that fails and repeats datagrams.
use nimble_client_c.Platform.{
  game_state_response, join_game_response, connect_response, server_out_blob_stream,
}
use nimble_client_c.Handlers.{
  on_download_game_state_part, on_download_game_state_response, on_connect_response,
}
use nimble_client_c.Pong.{receive_pong}
use nimble_client_c.Incoming.{
  dispatch, add_dropped_packets, note_dropped, feed_ordered, feed, note_usable, note_packet_in,
  receive_all_datagrams_from_transport,
}
use nimble_client_c.Lifecycle.{find_participant_id}
use nimble_client_c.Tests.Fixture.{toy_world, toy_realize}
use nimble_client_c.Outgoing.{send_steps_to_server, send_state_message, handle_state, outgoing}
use nimble_client_c.Realize.{RealizeState, NimbleClientRealize, realize_update}
use nimble_client_c.Client.{joined_participant, World, ClientState, datagram, failure}
use nimble_client_c.Prelude.{
  length, ◌≤◌, refl, arith, false, ◌∷◌, ◌≡◌, pos, is_positive, ℕ, [], List,
}
use nimble_client_c.Lifecycle.Participants.{first_with}
use nimble_client_c.Tests.Toy.{toy}
use nimble_client_c.Lifecycle
use nimble_client_c.Quality
use nimble_client_c.Realize.Refusing.{LateLaw}
use nimble_client_c.Realize.Noise.{hear, updates_at}
use nimble_client_c.Realize.Noise.Handshake.{Exchange, exchange, finding, Answers, IsNoisy}
use nimble_client_c.Realize.Noise.Session.{exchanges_join_noisy}
use nimble_client_c.Realize.Answers.{Delivers, body, completes, connects, gives_state}
use nimble_client_c.Realize.Stages.{Stage}

-- The small ordering logic stays at its last number if a datagram is late.
toy_keeps :
    (l : ℕ) (s : List ℕ)
    → is_positive (toy.ordered_receive l s).0 ≡ false
    → (toy.ordered_receive l s).1 ≡ l
toy_keeps l [] h = ground arith
toy_keeps l (id ∷ s) h = ground arith

toy-LateLaw : LateLaw toy
toy-LateLaw = record { keeps = toy_keeps }

abbrev connect_octets : List ℕ
connect_octets = 1 ∷ 0xdd ∷ 3 ∷ 200 ∷ 1 ∷ 9 ∷ []

abbrev part_octets : List ℕ
part_octets = 3 ∷ 0xdd ∷ 3 ∷ 200 ∷ 2 ∷ 3 ∷ 5 ∷ 6 ∷ []

-- A failure and a datagram from before, of which one still waits when the answer arrives.
abbrev e1 : Exchange
e1 = record {
  noise = record { received = failure 3 ∷ datagram (0 ∷ 1 ∷ []) ∷ []; time = pos 1016 } ∷ [];
  octets = connect_octets;
  catch_up = pos 1032 ∷ [];
  time = pos 1048;
}

-- The first answer once more, ahead of the second.
abbrev e2 : Exchange
e2 = record {
  noise = record { received = datagram connect_octets ∷ []; time = pos 1064 } ∷ [];
  octets = 2 ∷ 0xdd ∷ 3 ∷ 200 ∷ 5 ∷ 1 ∷ 40 ∷ 3 ∷ [];
  catch_up = [];
  time = pos 1080;
}

abbrev e3 : Exchange
e3 = record { noise = []; octets = part_octets; catch_up = []; time = pos 1096 }

abbrev e4 : Exchange
e4 = record {
  noise = record { received = datagram part_octets ∷ failure 0 ∷ []; time = pos 1112 } ∷ [];
  octets = 4 ∷ 0xdd ∷ 3 ∷ 200 ∷ 4 ∷ 9 ∷ 1 ∷ 20 ∷ [];
  catch_up = pos 1128 ∷ [];
  time = pos 1144;
}

toy-Stage : Stage 2 ClientState.idle toy_realize
toy-Stage = record {
  running = (refl, (λ e. cc), (λ e. cc), (λ e. cc));
  at = refl;
  joining = refl;
  bears = (refl, omega arith);
}

abbrev x0 : NimbleClientRealize toy × World toy
x0 = realize_update toy_realize toy_world (pos 1000)

abbrev x3 : NimbleClientRealize toy × World toy
x3 = exchange e3 (exchange e2 (exchange e1 x0))

connect-Answers : Answers e1 x0 connect_response ClientState.connected
unfolding hear updates_at realize_update Lifecycle.update Lifecycle.check_if_disconnect_is_needed
    Lifecycle.send_packets Lifecycle.show_stats Lifecycle.calc_stats outgoing handle_state
    send_state_message send_steps_to_server receive_all_datagrams_from_transport note_packet_in
    note_usable feed feed_ordered note_dropped add_dropped_packets dispatch receive_pong
    on_connect_response on_download_game_state_response Quality.update
    Quality.received_usable_datagram Quality.should_disconnect on_download_game_state_part
connect-Answers = (
  record { refused = ((tt, ((omega arith, refl), tt)), tt); caught_up = refl },
  record { filled = omega arith; newer = refl; timed = refl; is_command = refl },
  connects refl refl,
)

state-Answers :
    Answers e2 (exchange e1 x0) game_state_response ClientState.joining_downloading_state
unfolding hear updates_at realize_update Lifecycle.update Lifecycle.check_if_disconnect_is_needed
    Lifecycle.send_packets Lifecycle.show_stats Lifecycle.calc_stats outgoing handle_state
    send_state_message send_steps_to_server receive_all_datagrams_from_transport note_packet_in
    note_usable feed feed_ordered note_dropped add_dropped_packets dispatch receive_pong
    on_connect_response on_download_game_state_response Quality.update
    Quality.received_usable_datagram Quality.should_disconnect on_download_game_state_part
state-Answers = (
  record { refused = (((omega arith, refl), tt), tt); caught_up = refl },
  record { filled = omega arith; newer = refl; timed = refl; is_command = refl },
  gives_state refl refl (omega arith),
)

part-Answers : Answers e3 (exchange e2 (exchange e1 x0)) server_out_blob_stream ClientState.synced
unfolding hear updates_at realize_update Lifecycle.update Lifecycle.check_if_disconnect_is_needed
    Lifecycle.send_packets Lifecycle.show_stats Lifecycle.calc_stats outgoing handle_state
    send_state_message send_steps_to_server receive_all_datagrams_from_transport note_packet_in
    note_usable feed feed_ordered note_dropped add_dropped_packets dispatch receive_pong
    on_connect_response on_download_game_state_response Quality.update
    Quality.received_usable_datagram Quality.should_disconnect on_download_game_state_part
part-Answers = (
  record { refused = tt; caught_up = refl },
  record { filled = omega arith; newer = refl; timed = refl; is_command = refl },
  completes refl refl refl (λ e. cc),
)

join-IsNoisy : IsNoisy e4 x3
unfolding hear updates_at realize_update Lifecycle.update Lifecycle.check_if_disconnect_is_needed
    Lifecycle.send_packets Lifecycle.show_stats Lifecycle.calc_stats outgoing handle_state
    send_state_message send_steps_to_server receive_all_datagrams_from_transport note_packet_in
    note_usable feed feed_ordered note_dropped add_dropped_packets dispatch receive_pong
    on_connect_response on_download_game_state_response Quality.update
    Quality.received_usable_datagram Quality.should_disconnect on_download_game_state_part
join-IsNoisy = record { refused = (((omega arith, refl), (tt, tt)), tt); caught_up = refl }

join-Delivers :
    Delivers toy (finding e4 x3).0.client.ordered_datagram_in e4.octets join_game_response
unfolding hear updates_at realize_update Lifecycle.update Lifecycle.check_if_disconnect_is_needed
    Lifecycle.send_packets Lifecycle.show_stats Lifecycle.calc_stats outgoing handle_state
    send_state_message send_steps_to_server receive_all_datagrams_from_transport note_packet_in
    note_usable feed feed_ordered note_dropped add_dropped_packets dispatch receive_pong
    on_connect_response on_download_game_state_response Quality.update
    Quality.received_usable_datagram Quality.should_disconnect on_download_game_state_part
join-Delivers = record { filled = omega arith; newer = refl; timed = refl; is_command = refl }

join_body : 9 ∷ 1 ∷ 20 ∷ [] ≡ body toy (finding e4 x3).0.client.ordered_datagram_in e4.octets
unfolding hear updates_at realize_update Lifecycle.update Lifecycle.check_if_disconnect_is_needed
    Lifecycle.send_packets Lifecycle.show_stats Lifecycle.calc_stats outgoing handle_state
    send_state_message send_steps_to_server receive_all_datagrams_from_transport note_packet_in
    note_usable feed feed_ordered note_dropped add_dropped_packets dispatch receive_pong
    on_connect_response on_download_game_state_response Quality.update
    Quality.received_usable_datagram Quality.should_disconnect on_download_game_state_part
join_body = refl

join_fits : 1 ≤ length x3.0.client.local_participant_lookup
unfolding hear updates_at realize_update Lifecycle.update Lifecycle.check_if_disconnect_is_needed
    Lifecycle.send_packets Lifecycle.show_stats Lifecycle.calc_stats outgoing handle_state
    send_state_message send_steps_to_server receive_all_datagrams_from_transport note_packet_in
    note_usable feed feed_ordered note_dropped add_dropped_packets dispatch receive_pong
    on_connect_response on_download_game_state_response Quality.update
    Quality.received_usable_datagram Quality.should_disconnect on_download_game_state_part
join_fits = omega arith

exchanges_join_noisy_example :
    let (r, _) = exchange e4 x3 in
    (r.state ≡ RealizeState.synced)
    × (r.client.state ≡ ClientState.synced)
    × (r.client.join_participant_phase ≡ joined_participant)
    × (find_participant_id r.client 1 ≡ (pos 1, 20))
unfolding first_with
exchanges_join_noisy_example =
    exchanges_join_noisy toy-LateLaw (pos 1000) toy_realize toy_world e1 e2 e3 e4 1
      (9 ∷ 1 ∷ 20 ∷ []) toy-Stage refl connect-Answers state-Answers part-Answers join-IsNoisy
      join-Delivers join_body refl join_fits

-- ===== src/Tests/Memory.antt =====
-- What a whole session leaves of its game state blocks, with a download that is completed twice.
use nimble_client_c.Realize.Streams.{events-Completes}
use nimble_client_c.Lifecycle.Streams.{Completes, Grown}
use nimble_client_c.Handlers.{
  on_download_game_state_part, on_download_game_state_response, write_participants,
  on_join_game_response, on_connect_response,
}
use nimble_client_c.Pong.{receive_pong}
use nimble_client_c.Incoming.{
  dispatch, add_dropped_packets, note_dropped, feed_ordered, feed, note_usable, note_packet_in,
  receive_all_datagrams_from_transport,
}
use nimble_client_c.Client.{ClientState, datagram}
use nimble_client_c.Outgoing.{send_steps_to_server, send_state_message, handle_state, outgoing}
use nimble_client_c.Tests.Toy.{toy}
use nimble_client_c.Realize.Validity.{arrive, event, Event, events}
use nimble_client_c.Tests.Fixture.{world_with_block, toy_realize}
use nimble_client_c.Realize.{realize_destroy, realize_update, join_game, realize_init}
use nimble_client_c.Realize.Memory.{events-realize_destroy, lost}
use nimble_client_c.Prelude.{◌⊎◌, ◌≢◌, refl, length, [], ◌++◌, ◌≡◌, pos, ℕ, ◌∷◌, List}
use nimble_client_c.Lifecycle
use nimble_client_c.Quality

-- A joining, and then the game state response again, with the part that it asks for.
abbrev session : List (Event toy)
session =
    Event.join_with 5
    ∷ Event.update_at (pos 1000)
    ∷ arrive (datagram (1 ∷ 0xdd ∷ 3 ∷ 200 ∷ 1 ∷ 9 ∷ []) ∷ [])
    ∷ Event.update_at (pos 1016)
    ∷ arrive (datagram (2 ∷ 0xdd ∷ 3 ∷ 200 ∷ 5 ∷ 1 ∷ 40 ∷ 3 ∷ []) ∷ [])
    ∷ Event.update_at (pos 1032)
    ∷ arrive (datagram (3 ∷ 0xdd ∷ 3 ∷ 200 ∷ 2 ∷ 3 ∷ 5 ∷ 6 ∷ []) ∷ [])
    ∷ Event.update_at (pos 1048)
    ∷ arrive (datagram (4 ∷ 0xdd ∷ 3 ∷ 200 ∷ 4 ∷ 9 ∷ 0 ∷ 10 ∷ []) ∷ [])
    ∷ Event.update_at (pos 1064)
    ∷ arrive (datagram (5 ∷ 0xdd ∷ 3 ∷ 200 ∷ 5 ∷ 1 ∷ 40 ∷ 3 ∷ []) ∷ [])
    ∷ Event.update_at (pos 1080)
    ∷ arrive (datagram (6 ∷ 0xdd ∷ 3 ∷ 200 ∷ 2 ∷ 3 ∷ 5 ∷ 6 ∷ []) ∷ [])
    ∷ Event.update_at (pos 1096)
    ∷ []

-- The first of the two blocks is lost.
lost_once :
    let (r0, w0) = realize_init toy_realize world_with_block toy_realize.settings in
    lost session r0 w0 ≡ 1
unfolding lost events realize_init event join_game realize_update Lifecycle.update
    Lifecycle.check_if_disconnect_is_needed Lifecycle.send_packets Lifecycle.show_stats
    Lifecycle.calc_stats outgoing handle_state send_state_message send_steps_to_server
    receive_all_datagrams_from_transport note_packet_in note_usable feed feed_ordered note_dropped
    add_dropped_packets dispatch receive_pong on_connect_response on_join_game_response
    write_participants on_download_game_state_response on_download_game_state_part Quality.update
    Quality.should_disconnect Quality.received_usable_datagram Lifecycle.prepare Lifecycle.init
    Lifecycle.re_init Lifecycle.reset Quality.reset Quality.init
lost_once = refl

events-realize_destroy_example :
    let (r0, w0) = realize_init toy_realize world_with_block toy_realize.settings in
    let (r', w') = events session r0 w0 in
    (extra : List (ℕ × List ℕ)) × ((realize_destroy r' w').1.state_blocks
      ≡ extra ++ world_with_block.state_blocks)
    × (length extra ≡ lost session r0 w0)
events-realize_destroy_example =
    events-realize_destroy session toy_realize world_with_block toy_realize.settings

events-Completes_example :
    let logic = toy_realize.client.blob_stream_in_logic in
    let blob = toy_realize.client.blob_stream_in in
    let (r0, w0) = realize_init toy_realize world_with_block toy_realize.settings in
    let c = (events session r0 w0).0.client in
    Grown toy logic blob c.blob_stream_in_logic c.blob_stream_in
    × ((c.state ≢ ClientState.synced) ⊎ Completes toy logic blob)
events-Completes_example =
    events-Completes session toy_realize world_with_block toy_realize.settings

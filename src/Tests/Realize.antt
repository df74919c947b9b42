-- ===== src/Tests/Realize.antt =====
-- The theorems on the realizer, at inputs that meet their hypotheses, and a whole joining.
use nimble_client_c.Protocol.{view}
use nimble_client_c.Protocol.Invariant.{IsValid}
use nimble_client_c.Handlers.{
  on_download_game_state_part, on_download_game_state_response, write_participants,
  on_join_game_response, on_connect_response,
}
use nimble_client_c.Pong.{receive_pong}
use nimble_client_c.Incoming.{
  dispatch, add_dropped_packets, note_dropped, feed_ordered, feed, note_usable, note_packet_in,
  receive_all_datagrams_from_transport,
}
use nimble_client_c.Outgoing.{send_steps_to_server, send_state_message, handle_state, outgoing}
use nimble_client_c.Realize.Silence.{await_gives_up}
use nimble_client_c.Realize.Handshake.{await}
use nimble_client_c.Quality.Silence.{AfterSilence}
use nimble_client_c.Client.{ClientState}
use nimble_client_c.Prelude.{
  replicate, refl, arith, ◌≤◌, ◌⊎◌, true, refl, [], ℕ, ◌∷◌, List, ◌++◌, ◌≡◌, pos,
}
use nimble_client_c.Tests.Fixture.{in_state, toy_world, toy_realize}
use nimble_client_c.Tests.Toy.{toy}
use nimble_client_c.Client.{datagram, World, ClientState}
use nimble_client_c.Lifecycle
use nimble_client_c.Quality
use nimble_client_c.Realize.{
  realize_init, NimbleClientRealize, realize_update, realize_reset, quit_game, join_game,
  RealizeState,
}
use nimble_client_c.Realize.Stuck.{
  Action, update_at, join_with, acts, acts-realize_reset, acts-quit_game, IsStuck, IsLost,
}
use nimble_client_c.Realize.Validity.{
  Event, events, events-realize_init, arrive, reset_session, re_init_with, quit,
}

abbrev actions : List (Action toy)
actions = join_with 5 ∷ update_at (pos 1000) ∷ update_at (pos 1016) ∷ []

acts-realize_reset_example :
    let (r', w') = realize_reset toy_realize toy_world in
    IsStuck (acts actions r' w').0 × ((acts actions r' w').1 ≡ w')
acts-realize_reset_example = acts-realize_reset actions toy_realize toy_world

acts-quit_game_example :
    IsLost (acts actions (quit_game toy_realize) toy_world).0
    × ((acts actions (quit_game toy_realize) toy_world).1 ≡ toy_world)
acts-quit_game_example = acts-quit_game actions toy_realize toy_world (λ e. cc)

-- The joining: a server answers the connect request, gives the state 40 on channel 3, and sends its
-- octets in one part.
abbrev header : ℕ → List ℕ
header id = id ∷ 0xdd ∷ 3 ∷ 200 ∷ []

abbrev arriving : List ℕ → World toy → World toy
arriving octets w = record w { inbox = datagram octets ∷ [] }

abbrev tick : NimbleClientRealize toy × World toy → NimbleClientRealize toy × World toy
tick (r, w) = realize_update r w (pos 1000)

abbrev tick_with :
    List ℕ → NimbleClientRealize toy × World toy → NimbleClientRealize toy × World toy
tick_with octets (r, w) = realize_update r (arriving octets w) (pos 1000)

-- It ends in the synced state, with the state's octets held and two participants.
joining_succeeds :
    let (r, w) = tick_with (header 4 ++ 4 ∷ 9 ∷ 0 ∷ 10 ∷ 1 ∷ 20 ∷ []) (
      tick_with (header 3 ++ 2 ∷ 3 ∷ 5 ∷ 6 ∷ []) (
        tick_with
          (header 2 ++ 5 ∷ 1 ∷ 40 ∷ 3 ∷ [])
          (tick_with (header 1 ++ 1 ∷ 9 ∷ []) (tick (join_game toy_realize 5, toy_world))))) in
    (r.state ≡ RealizeState.synced)
    × (r.client.state ≡ ClientState.synced)
    × (w.state_blocks ≡ (0, 5 ∷ 6 ∷ []) ∷ [])
    × (r.client.local_participant_count ≡ 2)
    × (Lifecycle.find_participant_id r.client 1 ≡ (pos 1, 20))
unfolding join_game realize_update Lifecycle.update Lifecycle.check_if_disconnect_is_needed
    Lifecycle.send_packets Lifecycle.show_stats Lifecycle.calc_stats Lifecycle.find_participant_id
    outgoing handle_state send_state_message send_steps_to_server
    receive_all_datagrams_from_transport note_packet_in note_usable feed feed_ordered note_dropped
    add_dropped_packets dispatch receive_pong on_connect_response on_join_game_response
    write_participants on_download_game_state_response on_download_game_state_part Quality.update
    Quality.should_disconnect Quality.received_usable_datagram
joining_succeeds = (refl, refl, refl, refl, refl)

abbrev session : List (Event toy)
session =
    Event.join_with 5
    ∷ Event.update_at (pos 1000)
    ∷ arrive (datagram (1 ∷ 2 ∷ []) ∷ [])
    ∷ Event.update_at (pos 1016)
    ∷ reset_session
    ∷ re_init_with toy_realize.settings
    ∷ quit
    ∷ []

events-realize_init_example :
    let (r0, w0) = realize_init toy_realize toy_world toy_realize.settings in
    let (r', w') = events session r0 w0 in
    IsValid (view r'.client w')
    × ((r'.client.lookup_overrun ≡ true) ⊎ (r'.client.local_participant_count ≤ 8))
events-realize_init_example =
    events-realize_init session toy_realize toy_world toy_realize.settings tt

-- A synced realizer that has just heard from the server, and 77 silent updates.
abbrev in_touch : NimbleClientRealize toy
in_touch = record toy_realize { state = RealizeState.synced; client = in_state ClientState.synced }

toy-AfterSilence : AfterSilence 0 in_touch.client.quality
toy-AfterSilence = record {
  steps = refl;
  datagrams = refl;
  counter = refl;
  kept = λ h. refl;
  lost = λ h. absurd (omega arith);
}

await_gives_up_example :
    let (r', _) = await (replicate 77 (pos 1000)) (in_touch, toy_world) in
    (r'.client.state ≡ ClientState.disconnected) × (r'.state ≡ RealizeState.disconnected)
await_gives_up_example =
    await_gives_up (replicate 77 (pos 1000)) in_touch toy_world (omega arith) refl refl refl
      toy-AfterSilence

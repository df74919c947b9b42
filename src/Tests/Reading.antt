-- ===== src/Tests/Reading.antt =====
-- The theorem on the steps that are read, behind a download.
use nimble_client_c.Prelude.{
  ◌%◌, ◌+◌, refl, ◌≡◌, ◌^◌, ◌-◌, ◌∷◌, [], List, ℕ, pos, true, false, is_negative, zero, suc, length,
}
use nimble_client_c.Client.{datagram, ClientState, NimbleClient}
use nimble_client_c.Handlers.{on_download_game_state_part}
use nimble_client_c.Lifecycle.Steps.{StepLaws}
use nimble_client_c.Lifecycle.Reading.{
  arrive, ids_from, play, play-on_download_game_state_part, Play, read_into, update_at,
}
use nimble_client_c.Quality
use nimble_client_c.Outgoing.{outgoing, send_steps_to_server, send_state_message}
use nimble_client_c.Pong.{receive_pong}
use nimble_client_c.Incoming.{
  feed, note_packet_in, feed_ordered, receive_all_datagrams_from_transport,
}
use nimble_client_c.Lifecycle.{
  update, check_if_disconnect_is_needed, send_packets, show_stats, calc_stats,
}
use nimble_client_c.Tests.Fixture.{in_state, toy_world}
use nimble_client_c.Tests.Toy.{toy}

toy-reads :
    (s n : ℕ)
    → is_negative (toy.steps_read s n).0 ≡ false
    → ((toy.steps_read s n).1 ≡ s) × ((toy.steps_read s n).3 ≡ (s + 1) % 2 ^ 32)
toy-reads s zero h = cc
toy-reads s (suc n) h = (refl, refl)

toy-fails : (s n : ℕ) → is_negative (toy.steps_read s n).0 ≡ true → (toy.steps_read s n).3 ≡ s
toy-fails s zero h = refl
toy-fails s (suc n) h = cc

toy-StepLaws : StepLaws toy
toy-StepLaws = record {
  next_id = λ s. s;
  reads = toy-reads;
  fails = toy-fails;
  copies = λ s p. refl;
  restarts = λ s id. refl;
}

-- A download of the state before the wrap-around.
abbrev downloading : NimbleClient toy
downloading = record (in_state ClientState.joining_downloading_state) {
  join_state_channel = 3;
  join_state_id = 2 ^ 32 - 1;
}

abbrev calls : List Play
calls =
    read_into 8
    ∷ update_at (pos 1000)
    ∷ read_into 0
    ∷ arrive (datagram (1 ∷ 2 ∷ []) ∷ [])
    ∷ update_at (pos 1016)
    ∷ read_into 8
    ∷ []

no_block_taken :
    let o = on_download_game_state_part downloading toy_world (3 ∷ 5 ∷ 6 ∷ []) in
    (play calls o.client o.world).2.next_block ≡ o.world.next_block
unfolding on_download_game_state_part play update receive_all_datagrams_from_transport
    check_if_disconnect_is_needed Quality.should_disconnect Quality.update send_packets show_stats
    calc_stats outgoing send_steps_to_server send_state_message feed note_packet_in feed_ordered
    receive_pong
no_block_taken = refl

play-on_download_game_state_part_example :
    let o = on_download_game_state_part downloading toy_world (3 ∷ 5 ∷ 6 ∷ []) in
    let (ids, _, _) = play calls o.client o.world in
    ids ≡ ids_from o.client.joined_game_state.step_id (length ids)
play-on_download_game_state_part_example =
    play-on_download_game_state_part toy-StepLaws downloading toy_world (3 ∷ 5 ∷ 6 ∷ []) calls refl
      refl refl (λ e. cc) no_block_taken

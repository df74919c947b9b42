-- ===== src/Tests/Predicted.antt =====
-- The theorem on the predicted steps that wait, with a step response that confirms one of them.
use nimble_client_c.Handlers.{on_game_step_response}
use nimble_client_c.Pong.{receive_pong}
use nimble_client_c.Outgoing.{handle_state, send_state_message, send_steps_to_server, outgoing}
use nimble_client_c.Tests.Fixture.{in_state, toy_world}
use nimble_client_c.Tests.Toy.{toy}
use nimble_client_c.Client.{datagram, ClientState, NimbleClient}
use nimble_client_c.Incoming.{
  note_usable, note_dropped, dispatch, feed_ordered, note_packet_in, feed,
  receive_all_datagrams_from_transport,
}
use nimble_client_c.Prelude.{
  arith, inr, inl, refl, Bool-cases, [], ◌⊎◌, true, ◌≡◌, ◌∷◌, ◌<◌, pos, leb, List, ℕ,
}
use nimble_client_c.Quality
use nimble_client_c.Lifecycle.{
  update, check_if_disconnect_is_needed, send_packets, show_stats, calc_stats,
}
use nimble_client_c.Lifecycle.Predicted.{
  PredictedLaws, play-predicted, arrivals, IsAmong, Confirms, Restarts,
}
use nimble_client_c.Lifecycle.Reading.{Play, play, update_at, read_into, arrive}

-- A buffer of the small platform has the steps from its number on.
toy_discards :
    (b id k : ℕ) → leb b id ≡ true → (leb (toy.steps_discard_up_to b k) id ≡ true) ⊎ (id < k)
toy_discards b id k h = elim (Bool-cases (leb k id)) [ inl e ↦ inl e | inr e ↦ inr (ground arith) ]

abbrev toy-PredictedLaws : PredictedLaws toy
toy-PredictedLaws = record {
  has = λ b id. leb b id;
  before = λ id k. id < k;
  discards = toy_discards;
  writes = λ b out id h. h;
}

-- The steps 5 and later wait.
abbrev predicting : NimbleClient toy
predicting = record (in_state ClientState.synced) { out_steps = 5 }

-- The server has the steps up to 5.
abbrev calls : List Play
calls =
    update_at (pos 1000)
    ∷ arrive (datagram (1 ∷ 0xdd ∷ 3 ∷ 200 ∷ 3 ∷ 2 ∷ 1 ∷ 0 ∷ 5 ∷ []) ∷ [])
    ∷ read_into 8
    ∷ update_at (pos 1016)
    ∷ []

no_block_taken : (play calls predicting toy_world).2.next_block ≡ 0
unfolding play update receive_all_datagrams_from_transport check_if_disconnect_is_needed
    Quality.should_disconnect Quality.update send_packets show_stats calc_stats outgoing
    send_steps_to_server send_state_message feed note_packet_in feed_ordered receive_pong dispatch
    note_dropped note_usable on_game_step_response handle_state Quality.received_usable_datagram
no_block_taken = refl

-- The step 5 does not wait any more, and the step 6 does.
confirmed_once : let (_, c, _) = play calls predicting toy_world in c.out_steps ≡ 6
unfolding play update receive_all_datagrams_from_transport check_if_disconnect_is_needed
    Quality.should_disconnect Quality.update send_packets show_stats calc_stats outgoing
    send_steps_to_server send_state_message feed note_packet_in feed_ordered receive_pong dispatch
    note_dropped note_usable on_game_step_response handle_state Quality.received_usable_datagram
confirmed_once = refl

play-predicted_example :
    let (_, c', _) = play calls predicting toy_world in
    (leb c'.out_steps 5 ≡ true)
    ⊎ ((octets : List ℕ) × IsAmong octets (arrivals calls)
        × (Confirms toy-PredictedLaws 5 octets ⊎ Restarts toy octets))
play-predicted_example =
    play-predicted toy-PredictedLaws 5 calls predicting toy_world refl no_block_taken

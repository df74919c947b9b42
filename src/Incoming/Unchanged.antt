-- ===== src/Incoming/Unchanged.antt =====
-- What the feeding of a datagram leaves alone, behind its sequence number: incoming.c.
use nimble_client_c.Handlers.{
  on_join_game_participant_out_of_space_response, on_download_game_state_response,
  on_join_game_response, on_game_step_response, on_download_game_state_part, on_connect_response,
}
use nimble_client_c.Prelude.{
  ◌-◌, refl, ◌∙◌, inr, inl, Bool-cases, is_negative, arith, ◌^◌, ◌%◌, false, ◌+◌, ◌<◌, ◌≡◌, ℕ,
}
use nimble_client_c.Pong.{receive_pong}
use nimble_client_c.Incoming.{note_packet_in, note_dropped, is_disconnected, feed_ordered, dispatch}
use nimble_client_c.Client.{World, NimbleClient}
use nimble_client_c.Platform.{
  unknown, out_of_participant_slots_response, game_state_response, join_game_response,
  game_step_response, server_out_blob_stream, connect_response, IncomingCommand, Platform,
}

-- What the handling of a message leaves alone.
abbrev pub Unchanged : {P : Platform} → NimbleClient P → NimbleClient P → Type 0
Unchanged c c' =
    (c'.ordered_datagram_in ≡ c.ordered_datagram_in)
    × (c'.quality.dropped_datagram_counter ≡ c.quality.dropped_datagram_counter)
    × (is_disconnected c'.state ≡ false)

module _ {P : Platform} where
  dispatch-Unchanged :
      (cmd : IncomingCommand) (c : NimbleClient P) (w : World P) (s : P.InStream)
      → is_disconnected c.state ≡ false
      → Unchanged c (dispatch cmd c w s).client
  unfolding dispatch on_connect_response on_download_game_state_part on_game_step_response
      on_join_game_response on_download_game_state_response
      on_join_game_participant_out_of_space_response
  dispatch-Unchanged connect_response c w s h = ground arith
  dispatch-Unchanged server_out_blob_stream c w s h = ground arith
  dispatch-Unchanged game_step_response c w s h = ground arith
  dispatch-Unchanged join_game_response c w s h = ground arith
  dispatch-Unchanged game_state_response c w s h = ground arith
  dispatch-Unchanged out_of_participant_slots_response c w s h = ground arith
  dispatch-Unchanged unknown c w s h = (refl, refl, h)

  receive_pong-Unchanged :
      (c : NimbleClient P) (w : World P) (s : P.InStream)
      → is_disconnected c.state ≡ false
      → Unchanged c (receive_pong c w s).0.client
  unfolding receive_pong
  receive_pong-Unchanged c w s h = ground arith

  pub feed_ordered-Unchanged :
      (c : NimbleClient P) (w : World P) (s : P.InStream)
      → is_disconnected c.state ≡ false
      → is_negative (feed_ordered c w s).code ≡ false
      → Unchanged c (feed_ordered c w s).client
  unfolding feed_ordered
  feed_ordered-Unchanged c w s h good =
      let (pong, s1) = receive_pong c w s in
      let (_, cmd, s2) = P.read_u8 s1 in
      let (order, counter, running) = receive_pong-Unchanged c w s h in
      elim (Bool-cases (is_negative pong.code)) [
        | inl e ↦ absurd (let k = rw e at good in cc)
        | inr e ↦
            let (order', counter', running') =
              dispatch-Unchanged (P.command_of cmd) pong.client pong.world s2 running in
            rw e (order' ∙ order, counter' ∙ counter, running')
      ]

  pub note_dropped-counter :
      (c : NimbleClient P) (delta : ℕ)
      → c.quality.dropped_datagram_counter < 2 ^ 64
      → let c' = note_dropped c delta in
        (c'.quality.dropped_datagram_counter
          ≡ (c.quality.dropped_datagram_counter + (delta - 1)) % 2 ^ 64)
        × (c'.ordered_datagram_in ≡ c.ordered_datagram_in)
        × (c'.state ≡ c.state)
  unfolding note_dropped
  note_dropped-counter c delta h = ground arith

  pub note_packet_in-same :
      (c : NimbleClient P)
      → let c' = note_packet_in c in
        (c'.ordered_datagram_in ≡ c.ordered_datagram_in)
        × (c'.quality.dropped_datagram_counter ≡ c.quality.dropped_datagram_counter)
        × (c'.state ≡ c.state)
  unfolding note_packet_in
  note_packet_in-same c = ground arith

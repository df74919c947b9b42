-- ===== src/Lifecycle/Numbering.antt =====
-- What an update of the client does to its sequence numbers and to what was sent: client.c over
-- incoming.c and outgoing.c.
use mathlib.Core.Path.{subst}
use nimble_client_c.Prelude.{
  magnitude, refl, ◌∙◌, arith, ◌≡◌, ◌∷◌, [], List, ℕ, ℤ, Bool-cases, inl, inr, is_negative,
  is_positive, ltb, length, inc_size, int_of_long, ◌||◌,
}
use nimble_client_c.Platform.{
  unknown, out_of_participant_slots_response, game_state_response, join_game_response,
  game_step_response, server_out_blob_stream, connect_response, IncomingCommand, Platform,
}
use nimble_client_c.Client.{NimbleClient, World, Received, datagram, failure}
use nimble_client_c.Handlers.{
  on_connect_response, on_join_game_response, on_join_game_participant_out_of_space_response,
  on_download_game_state_response, on_download_game_state_part, on_game_step_response,
}
use nimble_client_c.Pong.{receive_pong}
use nimble_client_c.Incoming.{
  read_and_check_ordered_datagram, dispatch, feed, feed_ordered, is_disconnected, note_dropped,
  note_packet_in, note_usable, receive_all_datagrams_from_transport, receive_from,
}
use nimble_client_c.Outgoing.Moves.{numbering, none-Within, Within}
use nimble_client_c.Outgoing.Numbers.{outgoing-Within}
use nimble_client_c.Lifecycle.{
  begin_update, calc_stats, check_if_disconnect_is_needed, is_idle, judge_connection, send_packets,
  show_stats, update, wait_or_send,
}

module _ {P : Platform} where
  dispatch-numbering :
      (cmd : IncomingCommand) (c : NimbleClient P) (w : World P) (s : P.InStream)
      → let o = dispatch cmd c w s in numbering o.client o.world ≡ numbering c w
  unfolding dispatch on_connect_response on_download_game_state_part on_game_step_response
      on_join_game_response on_download_game_state_response
      on_join_game_participant_out_of_space_response
  dispatch-numbering connect_response c w s = ground arith
  dispatch-numbering server_out_blob_stream c w s = ground arith
  dispatch-numbering game_step_response c w s = ground arith
  dispatch-numbering join_game_response c w s = ground arith
  dispatch-numbering game_state_response c w s = ground arith
  dispatch-numbering out_of_participant_slots_response c w s = ground arith
  dispatch-numbering unknown c w s = refl

  receive_pong-numbering :
      (c : NimbleClient P) (w : World P) (s : P.InStream)
      → let o = (receive_pong c w s).0 in numbering o.client o.world ≡ numbering c w
  unfolding receive_pong
  receive_pong-numbering c w s = ground arith

  note_dropped-numbering :
      (c : NimbleClient P) (w : World P) (delta : ℕ)
      → numbering (note_dropped c delta) w ≡ numbering c w
  unfolding note_dropped
  note_dropped-numbering c w delta = ground arith

  feed_ordered-numbering :
      (c : NimbleClient P) (w : World P) (s : P.InStream)
      → let o = feed_ordered c w s in numbering o.client o.world ≡ numbering c w
  unfolding feed_ordered
  feed_ordered-numbering c w s =
      let (pong, s1) = receive_pong c w s in
      let (_, cmd, s2) = P.read_u8 s1 in
      elim (Bool-cases (is_negative pong.code)) [
        | inl e ↦ rw e (receive_pong-numbering c w s)
        | inr e ↦ rw e (
            dispatch-numbering (P.command_of cmd) pong.client pong.world s2
            ∙ receive_pong-numbering c w s)
      ]

  feed-numbering :
      (c : NimbleClient P) (w : World P) (octets : List ℕ)
      → let o = feed c w octets in numbering o.client o.world ≡ numbering c w
  unfolding feed
  feed-numbering c w octets =
      let d = read_and_check_ordered_datagram P c.ordered_datagram_in (P.in_init octets) in
      let ordered = record c { ordered_datagram_in = d.1 } in
      elim (Bool-cases (ltb (length octets) 1)) [
        | inl e ↦ rw e refl
        | inr e ↦ rw e (elim (Bool-cases (is_disconnected c.state)) [
          | inl k ↦ rw k refl
          | inr k ↦ rw k (elim (Bool-cases (is_negative d.0)) [
            | inl n ↦ rw n refl
            | inr n ↦ rw n (
                feed_ordered-numbering (note_dropped ordered (magnitude d.0)) w d.2
                ∙ note_dropped-numbering ordered w (magnitude d.0))
          ])
        ])
      ]

  note_packet_in-numbering :
      (c : NimbleClient P) (w : World P) → numbering (note_packet_in c) w ≡ numbering c w
  unfolding note_packet_in
  note_packet_in-numbering c w = ground arith

  note_usable-numbering :
      (c : NimbleClient P) (w : World P) → numbering (note_usable c) w ≡ numbering c w
  unfolding note_usable
  note_usable-numbering c w = refl

  receive_from-numbering :
      (inbox : List Received) (count : ℕ) (c : NimbleClient P) (w : World P)
      → let o = receive_from inbox count c w in numbering o.client o.world ≡ numbering c w
  unfolding receive_from
  receive_from-numbering [] count c w = refl
  receive_from-numbering (failure n ∷ rest) count c w = refl
  receive_from-numbering (datagram octets ∷ rest) count c w =
      let w' = record w { inbox = rest } in
      let fed = feed (note_packet_in c) w' octets in
      let first = feed-numbering (note_packet_in c) w' octets ∙ note_packet_in-numbering c w' in
      elim (Bool-cases (ltb 0 (length octets))) [
        | inr e ↦ rw e refl
        | inl e ↦ elim (Bool-cases (is_negative fed.code)) [
          | inl n ↦ rw (e, n) first
          | inr n ↦
              rw (e, n)
                (receive_from-numbering rest (inc_size count) (note_usable fed.client) fed.world
                  ∙ note_usable-numbering fed.client fed.world
                  ∙ first)
        ]
      ]

  begin_update-numbering :
      (c : NimbleClient P) (w : World P) (now : ℤ)
      → numbering (begin_update c now) w ≡ numbering c w
  unfolding begin_update
  begin_update-numbering c w now = ground arith

  judge_connection-numbering :
      (c : NimbleClient P) (w : World P) → numbering (judge_connection c) w ≡ numbering c w
  unfolding judge_connection check_if_disconnect_is_needed
  judge_connection-numbering c w = ground arith

  stats-numbering :
      (c : NimbleClient P) (w : World P) (now : ℤ)
      → numbering (show_stats (calc_stats c now)) w ≡ numbering c w
  unfolding show_stats calc_stats
  stats-numbering c w now = refl

  send_packets-Within :
      (c : NimbleClient P) (w : World P)
      → let o = send_packets c w in Within 2 (numbering c w) (numbering o.client o.world)
  unfolding send_packets
  send_packets-Within c w = elim (Bool-cases (is_idle c.state || is_disconnected c.state)) [
    | inl e ↦ rw e (none-Within 2 _ _ refl)
    | inr e ↦ rw e (outgoing-Within c w)
  ]

  wait_or_send-Within :
      (c : NimbleClient P) (w : World P) (now code : ℤ)
      → let o = wait_or_send c w now code in Within 2 (numbering c w) (numbering o.client o.world)
  unfolding wait_or_send
  wait_or_send-Within c w now code = elim (Bool-cases (is_positive c.wait_time)) [
    | inl e ↦ rw e (none-Within 2 _ _ refl)
    | inr e ↦ rw e (
        subst
          (λ x.
            let o = send_packets (show_stats (calc_stats c now)) w in
            Within 2 x (numbering o.client o.world))
          (stats-numbering c w now) (send_packets-Within (show_stats (calc_stats c now)) w))
  ]

  -- An update, whatever waits in the transport, writes at most two headers; each is left unused, or
  -- its number is committed, and a datagram that is sent has been written behind the header with the
  -- number that is committed at once. Nothing else is sent, and no number is committed otherwise.
  pub update-Within :
      (c : NimbleClient P) (w : World P) (now : ℤ)
      → let o = update c w now in Within 2 (numbering c w) (numbering o.client o.world)
  unfolding update receive_all_datagrams_from_transport
  update-Within c w now =
      let cb = begin_update c now in
      let got = receive_from w.inbox 0 cb w in
      let received = receive_from-numbering w.inbox 0 cb w ∙ begin_update-numbering c w now in
      elim (Bool-cases (is_negative got.code)) [
        | inl e ↦ rw e (none-Within 2 _ _ received)
        | inr e ↦
            let judged = judge_connection got.client in
            let o = wait_or_send judged got.world now (int_of_long got.code) in
            rw e (
              subst (λ x. Within 2 x (numbering o.client o.world))
                (judge_connection-numbering got.client got.world ∙ received)
                (wait_or_send-Within judged got.world now (int_of_long got.code)))
      ]

-- ===== src/Lifecycle/Streams/Updating.antt =====
-- The blob stream through a whole update of client.c: the receive loop, the judging and the sending.
use mathlib.Core.Path.{subst}
use nimble_client_c.Lifecycle.Streams.{feed-Fine, acknowledged, IsGrown, stream_of, Fine}
use nimble_client_c.Client.{
  out_of_participant_slots, datagram, joined_participant, failure, joining_participant, Received,
  World, JoiningState, ClientState, NimbleClient,
}
use nimble_client_c.Quality
use nimble_client_c.Quality.{is_synced}
use nimble_client_c.Incoming.{
  is_disconnected, feed, receive_all_datagrams_from_transport, receive_from, note_usable,
  note_packet_in,
}
use nimble_client_c.Lifecycle.{
  update, is_idle, calc_stats, show_stats, send_packets, check_if_disconnect_is_needed,
  judge_connection, begin_update, wait_or_send,
}
use nimble_client_c.Outgoing.{
  handle_state, write_header, outgoing, update_synced_sub_state, send_state_message,
  send_steps_to_server, state_messages, message,
}
use nimble_client_c.Platform.{client_out_blob_stream, Platform}
use nimble_client_c.Prelude.{
  [], inc_size, length, ltb, ◌||◌, int_of_long, leb, inr, inl, sym, is_negative, arith, is_positive,
  ◌∷◌, ℕ, Bool-cases, ◌≡◌, ℤ, List, refl,
}

module _ {P : Platform} (logic : P.BlobLogicIn) (blob : P.BlobIn) where
  begin_update-stream :
      (c : NimbleClient P) (now : ℤ) → stream_of (begin_update c now) ≡ stream_of c
  unfolding begin_update
  begin_update-stream c now = ground arith

  note_packet_in-stream : (c : NimbleClient P) → stream_of (note_packet_in c) ≡ stream_of c
  unfolding note_packet_in
  note_packet_in-stream c = ground arith

  note_usable-stream : (c : NimbleClient P) → stream_of (note_usable c) ≡ stream_of c
  unfolding note_usable
  note_usable-stream c = refl

  judge_connection-Fine :
      (c : NimbleClient P) → Fine logic blob c → Fine logic blob (judge_connection c)
  unfolding judge_connection check_if_disconnect_is_needed
  judge_connection-Fine c q =
      let judged = Quality.update c.quality c.state in
      elim (Bool-cases (is_synced c.state)) [
        | inr e ↦ rw e q
        | inl e ↦ rw e (elim (Bool-cases (Quality.should_disconnect judged)) [
          | inl d ↦ rw d (q.0, inl (λ k. cc))
          | inr d ↦ rw d q
        ])
      ]

  receive_from-Fine :
      (inbox : List Received) (count : ℕ) (c : NimbleClient P) (w : World P)
      → Fine logic blob c
      → Fine logic blob (receive_from inbox count c w).client
  unfolding receive_from
  receive_from-Fine [] count c w q = q
  receive_from-Fine (failure n ∷ rest) count c w q = q
  receive_from-Fine (datagram octets ∷ rest) count c w q =
      let w' = record w { inbox = rest } in
      let fed = feed (note_packet_in c) w' octets in
      let q' =
        feed-Fine logic blob (note_packet_in c) w' octets
          (subst (IsGrown P logic blob) (sym (note_packet_in-stream c)) q) in
      elim (Bool-cases (ltb 0 (length octets))) [
        | inr e ↦ rw e q
        | inl e ↦ elim (Bool-cases (is_negative fed.code)) [
          | inl n ↦ rw (e, n) q'
          | inr n ↦
              rw (e, n)
                (receive_from-Fine rest (inc_size count) (note_usable fed.client) fed.world
                  (subst (IsGrown P logic blob) (sym (note_usable-stream fed.client)) q'))
        ]
      ]

  send_steps_to_server-stream :
      (c : NimbleClient P) (w : World P) → stream_of (send_steps_to_server c w).client ≡ stream_of c
  unfolding send_steps_to_server
  send_steps_to_server-stream c w = ground arith

  synced_message-stream :
      (p : JoiningState) (c : NimbleClient P) (out : P.OutStream)
      → stream_of (update_synced_sub_state p c out).1 ≡ stream_of c
  unfolding update_synced_sub_state
  synced_message-stream joining_participant c out = refl
  synced_message-stream joined_participant c out = refl
  synced_message-stream out_of_participant_slots c out = refl

  message-Fine :
      (s : ClientState) (c : NimbleClient P) (out : P.OutStream)
      → Fine logic blob c
      → Fine logic blob (message s c out).1
  unfolding message
  message-Fine ClientState.joining_downloading_state c out q =
      let written = P.write_command out client_out_blob_stream in
      let sent = P.blob_logic_send c.blob_stream_in_logic c.blob_stream_in written in
      elim (Bool-cases (is_negative sent.0)) [
        | inl e ↦ rw e (acknowledged written q.0, q.1)
        | inr e ↦ rw e (acknowledged written q.0, q.1)
      ]
  message-Fine ClientState.synced c out q =
      subst (IsGrown P logic blob) (sym (synced_message-stream c.join_participant_phase c out)) q
  message-Fine ClientState.requesting_connect c out q = q
  message-Fine ClientState.connected c out q = q
  message-Fine ClientState.joining_requesting_state c out q = q
  message-Fine ClientState.idle c out q = q
  message-Fine ClientState.disconnected c out q = q

  send_state_message-Fine :
      (c : NimbleClient P) (w : World P)
      → Fine logic blob c
      → Fine logic blob (send_state_message c w).client
  unfolding send_state_message write_header
  send_state_message-Fine c w q =
      let (_, c1, w1, out) = write_header c w (P.out_init P.datagram_max_size) in
      let said = message c.state c1 out in
      let q' = message-Fine c.state c1 out q in
      elim (Bool-cases (is_negative said.0)) [
        | inl e ↦ rw e q'
        | inr e ↦
            rw e
              (elim (Bool-cases (leb (P.out_pos said.2) 10)) [ inl k ↦ rw k q' | inr k ↦ rw k q' ])
      ]

  state_messages-Fine :
      (s : ClientState) (c : NimbleClient P) (w : World P)
      → Fine logic blob c
      → Fine logic blob (state_messages s c w).client
  unfolding state_messages
  state_messages-Fine ClientState.idle c w q = q
  state_messages-Fine ClientState.connected c w q = q
  state_messages-Fine ClientState.disconnected c w q = q
  state_messages-Fine ClientState.requesting_connect c w q = send_state_message-Fine c w q
  state_messages-Fine ClientState.joining_requesting_state c w q = send_state_message-Fine c w q
  state_messages-Fine ClientState.joining_downloading_state c w q = send_state_message-Fine c w q
  state_messages-Fine ClientState.synced c w q =
      let o = send_steps_to_server c w in
      let q' = subst (IsGrown P logic blob) (sym (send_steps_to_server-stream c w)) q in
      elim (Bool-cases (is_negative o.code)) [
        | inl e ↦ rw e q'
        | inr e ↦ rw e (send_state_message-Fine o.client o.world q')
      ]

  outgoing-Fine :
      (c : NimbleClient P) (w : World P) → Fine logic blob c → Fine logic blob (outgoing c w).client
  unfolding outgoing handle_state
  outgoing-Fine c w q = elim (Bool-cases (is_negative (state_messages c.state c w).code)) [
    | inl e ↦ rw e (state_messages-Fine c.state c w q)
    | inr e ↦ rw e (state_messages-Fine c.state c w q)
  ]

  wait_or_send-Fine :
      (c : NimbleClient P) (w : World P) (now code : ℤ)
      → Fine logic blob c
      → Fine logic blob (wait_or_send c w now code).client
  unfolding wait_or_send send_packets show_stats calc_stats
  wait_or_send-Fine c w now code q = elim (Bool-cases (is_positive c.wait_time)) [
    | inl e ↦ rw e q
    | inr e ↦ rw e (elim (Bool-cases (is_idle c.state || is_disconnected c.state)) [
      | inl i ↦ rw i q
      | inr i ↦ rw i (outgoing-Fine (show_stats (calc_stats c now)) w q)
    ])
  ]

  pub update-Fine :
      (c : NimbleClient P) (w : World P) (now : ℤ)
      → Fine logic blob c
      → Fine logic blob (update c w now).client
  unfolding update receive_all_datagrams_from_transport
  update-Fine c w now q =
      let cb = begin_update c now in
      let got = receive_from w.inbox 0 cb w in
      let q' =
        receive_from-Fine w.inbox 0 cb w
          (subst (IsGrown P logic blob) (sym (begin_update-stream c now)) q) in
      elim (Bool-cases (is_negative got.code)) [
        | inl e ↦ rw e q'
        | inr e ↦ rw e (
            wait_or_send-Fine (judge_connection got.client) got.world now (int_of_long got.code)
              (judge_connection-Fine got.client q'))
      ]

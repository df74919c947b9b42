-- ===== src/Lifecycle/Rule.antt =====
-- What an update of client.c does to the buffers of steps and to the game state blocks comes of two things
-- only: the handling of a message of a datagram that waits, and the writing of the predicted steps.
use nimble_client_c.Lifecycle.Buffers.{
  header_of, note_dropped-reader, judge_connection-reader, note_usable-reader,
  note_packet_in-reader, send_state_message-reader, send_steps_to_server-reader,
  receive_pong-reader, begin_update-reader, handled, reader, Reader,
}
use nimble_client_c.Incoming.Accounts.{positive-is_negative}
use mathlib.Core.Path.{subst}
use nimble_client_c.Outgoing.{handle_state, state_messages, outgoing, send_steps_to_server}
use nimble_client_c.Lifecycle.{
  is_idle, calc_stats, show_stats, send_packets, wait_or_send, update, begin_update,
  judge_connection,
}
use nimble_client_c.Incoming.{
  receive_all_datagrams_from_transport, is_disconnected, read_and_check_ordered_datagram,
  feed_ordered, feed, receive_from, note_packet_in, note_dropped, note_usable,
}
use nimble_client_c.Prelude.{
  ◌||◌, int_of_long, is_positive, ◌∙◌, magnitude, [], inc_size, is_negative, inl, inr, length, ltb,
  Bool-cases, sym, ◌∷◌, All, ℤ, List, ℕ,
}
use nimble_client_c.Pong.{receive_pong}
use nimble_client_c.Platform.{Platform}
use nimble_client_c.Realize.Answers.{stream_behind_order}
use nimble_client_c.Client.{ClientState, datagram, failure, Received, World, NimbleClient}

-- The datagrams that wait are heard.
abbrev pub IsHeard : (List ℕ → Type 0) → Received → Type 0
IsHeard Heard (failure n) = Unit
IsHeard Heard (datagram octets) = Heard octets

-- A property of them that both keep is kept by an update.
module _ {P : Platform} (Heard : List ℕ → Type 0) (Q : Reader P → Type 0)
    (handling : (octets : List ℕ) (l : P.OrderedIn) (c : NimbleClient P) (w : World P)
      → Heard octets
      → Q (reader c w)
      → let o = handled P octets l c w in Q (reader o.client o.world))
    (writing : (out : P.OutStream) (read predicted : P.Steps) (n : ℕ)
      → Q (read, predicted, n)
      → Q (read, (P.steps_out_serialize out predicted).2, n)) where
  feed_rule :
      (c : NimbleClient P) (w : World P) (octets : List ℕ)
      → Heard octets
      → Q (reader c w)
      → let o = feed c w octets in Q (reader o.client o.world)
  unfolding feed feed_ordered read_and_check_ordered_datagram
  feed_rule c w octets heard q =
      let l = c.ordered_datagram_in in
      let d = P.ordered_receive l (P.in_init octets) in
      let ordered = record c { ordered_datagram_in = d.1 } in
      let noted = note_dropped ordered (magnitude d.0) in
      let s = stream_behind_order P l octets in
      let (pong, s1) = receive_pong noted w s in
      let (same, behind) = receive_pong-reader noted w s in
      let known = same ∙ note_dropped-reader ordered w (magnitude d.0) in
      elim (Bool-cases (ltb (length octets) 1)) [
        | inl e ↦ rw e q
        | inr e ↦ rw e (elim (Bool-cases (is_disconnected c.state)) [
          | inl k ↦ rw k q
          | inr k ↦ rw k (elim (Bool-cases (is_positive d.0)) [
            | inr n ↦ rw n q
            | inl n ↦
                let fine = positive-is_negative d.0 n in
                rw (n, fine)
                  (elim (Bool-cases (is_negative pong.code)) [
                    | inl m ↦ rw m (subst Q (sym known) q)
                    | inr m ↦
                        rw (m, behind)
                          (handling octets l pong.client pong.world heard (subst Q (sym known) q))
                  ])
          ])
        ])
      ]

  receive_from_rule :
      (inbox : List Received) (count : ℕ) (c : NimbleClient P) (w : World P)
      → All (IsHeard Heard) inbox
      → Q (reader c w)
      → let o = receive_from inbox count c w in Q (reader o.client o.world)
  unfolding receive_from
  receive_from_rule [] count c w heard q = q
  receive_from_rule (failure n ∷ rest) count c w heard q = q
  receive_from_rule (datagram octets ∷ rest) count c w heard q =
      let w' = record w { inbox = rest } in
      let fed = feed (note_packet_in c) w' octets in
      let q' =
        feed_rule (note_packet_in c) w' octets heard.0
          (subst Q (sym (note_packet_in-reader c w')) q) in
      elim (Bool-cases (ltb 0 (length octets))) [
        | inr e ↦ rw e q
        | inl e ↦ elim (Bool-cases (is_negative fed.code)) [
          | inl n ↦ rw (e, n) q'
          | inr n ↦
              rw (e, n)
                (receive_from_rule rest (inc_size count) (note_usable fed.client) fed.world heard.1
                  (subst Q (sym (note_usable-reader fed.client fed.world)) q'))
        ]
      ]

  send_steps_rule :
      (c : NimbleClient P) (w : World P)
      → Q (reader c w)
      → let o = send_steps_to_server c w in Q (reader o.client o.world)
  send_steps_rule c w q = elim (send_steps_to_server-reader c w) [
    | inl e ↦ subst Q (sym e) q
    | inr e ↦
        subst Q (sym e) (writing (header_of c w).1 c.authoritative_steps c.out_steps w.next_block q)
  ]

  state_messages_rule :
      (s : ClientState) (c : NimbleClient P) (w : World P)
      → Q (reader c w)
      → let o = state_messages s c w in Q (reader o.client o.world)
  unfolding state_messages
  state_messages_rule ClientState.idle c w q = q
  state_messages_rule ClientState.connected c w q = q
  state_messages_rule ClientState.disconnected c w q = q
  state_messages_rule ClientState.requesting_connect c w q =
      subst Q (sym (send_state_message-reader c w)) q
  state_messages_rule ClientState.joining_requesting_state c w q =
      subst Q (sym (send_state_message-reader c w)) q
  state_messages_rule ClientState.joining_downloading_state c w q =
      subst Q (sym (send_state_message-reader c w)) q
  state_messages_rule ClientState.synced c w q =
      let o = send_steps_to_server c w in
      elim (Bool-cases (is_negative o.code)) [
        | inl e ↦ rw e (send_steps_rule c w q)
        | inr e ↦
            rw e
              (subst Q (sym (send_state_message-reader o.client o.world)) (send_steps_rule c w q))
      ]

  outgoing_rule :
      (c : NimbleClient P) (w : World P)
      → Q (reader c w)
      → let o = outgoing c w in Q (reader o.client o.world)
  unfolding outgoing handle_state
  outgoing_rule c w q = elim (Bool-cases (is_negative (state_messages c.state c w).code)) [
    | inl e ↦ rw e (state_messages_rule c.state c w q)
    | inr e ↦ rw e (state_messages_rule c.state c w q)
  ]

  wait_or_send_rule :
      (c : NimbleClient P) (w : World P) (now code : ℤ)
      → Q (reader c w)
      → let o = wait_or_send c w now code in Q (reader o.client o.world)
  unfolding wait_or_send send_packets show_stats calc_stats
  wait_or_send_rule c w now code q = elim (Bool-cases (is_positive c.wait_time)) [
    | inl e ↦ rw e q
    | inr e ↦ rw e (elim (Bool-cases (is_idle c.state || is_disconnected c.state)) [
      | inl i ↦ rw i q
      | inr i ↦ rw i (outgoing_rule (show_stats (calc_stats c now)) w q)
    ])
  ]

  pub update_rule :
      (c : NimbleClient P) (w : World P) (now : ℤ)
      → All (IsHeard Heard) w.inbox
      → Q (reader c w)
      → let o = update c w now in Q (reader o.client o.world)
  unfolding update receive_all_datagrams_from_transport
  update_rule c w now heard q =
      let cb = begin_update c now in
      let got = receive_from w.inbox 0 cb w in
      let q' =
        receive_from_rule w.inbox 0 cb w heard (subst Q (sym (begin_update-reader c w now)) q) in
      elim (Bool-cases (is_negative got.code)) [
        | inl e ↦ rw e q'
        | inr e ↦ rw e (
            wait_or_send_rule (judge_connection got.client) got.world now (int_of_long got.code)
              (subst Q (sym (judge_connection-reader got.client got.world)) q'))
      ]

-- ===== src/Outgoing/Numbers.antt =====
-- Which sequence numbers the datagrams of one sending take: outgoing.c, send_steps.c and
use nimble_client_c.Outgoing.Moves.{
  sent, skipped, unused, once, nothing, u16, Within-trans, blob, one_of_two, steps, timed, command,
  u8, none-Within, prepared, numbering, pending, join, connect, Writes, Within,
}
use nimble_client_c.Client.{
  ClientState, idle, connected, disconnected, requesting_connect, joining_requesting_state,
  joining_downloading_state, synced, joining_participant, joined_participant,
  out_of_participant_slots,
}
use nimble_client_c.Platform.{client_out_blob_stream, game_step}
use nimble_client_c.Prelude.{
  leb, ap, inl, inr, is_negative, is_positive, Bool-cases, refl, ◌≡◌, ◌∷◌,
}
use nimble_client_c.Platform.{Platform}
use nimble_client_c.Client.{JoiningState, NimbleClient, World}
use nimble_client_c.Outgoing.{
  handle_state, send_steps_to_server, send_steps_to_stream, state_messages, outgoing, message,
  send_state_message, update_synced_sub_state,
}

module _ {P : Platform} where
  update_synced_sub_state-Writes :
      (s : JoiningState) (c : NimbleClient P) {a : P.OutStream} (out : P.OutStream)
      → Writes P a out
      → let (_, c', out') = update_synced_sub_state s c out in
        Writes P a out' × (c'.ordered_datagram_out ≡ c.ordered_datagram_out)
  unfolding update_synced_sub_state
  update_synced_sub_state-Writes joining_participant c out k = (join _ _ k, refl)
  update_synced_sub_state-Writes joined_participant c out k = (k, refl)
  update_synced_sub_state-Writes out_of_participant_slots c out k = (k, refl)

  message-Writes :
      (s : ClientState) (c : NimbleClient P) {a : P.OutStream} (out : P.OutStream)
      → Writes P a out
      → let (_, c', out') = message s c out in
        Writes P a out' × (c'.ordered_datagram_out ≡ c.ordered_datagram_out)
  unfolding message
  message-Writes idle c out k = (k, refl)
  message-Writes connected c out k = (k, refl)
  message-Writes disconnected c out k = (k, refl)
  message-Writes requesting_connect c out k = (connect _ _ _ k, refl)
  message-Writes joining_requesting_state c out k = (u8 _ (command _ k), refl)
  message-Writes joining_downloading_state c out k =
      elim (Bool-cases (
        is_negative
          (P.blob_logic_send c.blob_stream_in_logic c.blob_stream_in
            (P.write_command out client_out_blob_stream)).0)) [
              | inl e ↦ rw e (blob _ _ (command _ k), refl)
              | inr e ↦ rw e (blob _ _ (command _ k), refl)
            ]
  message-Writes synced c out k = update_synced_sub_state-Writes c.join_participant_phase c out k

  send_state_message-Within :
      (c : NimbleClient P) (w : World P)
      → let o = send_state_message c w in Within 1 (numbering c w) (numbering o.client o.world)
  unfolding send_state_message
  send_state_message-Within c w =
      let c1 = record c { ordered_datagram_out = prepared P c.ordered_datagram_out } in
      let out = timed P c.ordered_datagram_out w.clock_reads in
      let (code, c2, out') = message c.state c1 out in
      let (written, same) = message-Writes c.state c1 out (u16 _ nothing) in
      elim (Bool-cases (is_negative code)) [
        | inl e ↦ rw e (once _ _ (unused (ap (λ l. (l, w.outbox)) same)))
        | inr e ↦ elim (Bool-cases (leb (P.out_pos out') 10)) [
          | inl short ↦
              rw (e, short) (once _ _ (skipped (ap (λ l. (P.ordered_commit l, w.outbox)) same)))
          | inr long ↦
              rw (e, long)
                (once _ _ (
                  sent c2.transport out' written (
                    ap
                      (λ l. (
                        P.ordered_commit l,
                        record { through = c2.transport; octets = P.out_octets out' } ∷ w.outbox,
                      ))
                      same)))
        ]
      ]

  send_steps_to_stream-Writes :
      (c : NimbleClient P) {a : P.OutStream} (out : P.OutStream)
      → Writes P a out
      → let (_, c', out') = send_steps_to_stream c out in
        Writes P a out' × (c'.ordered_datagram_out ≡ c.ordered_datagram_out)
  unfolding send_steps_to_stream
  send_steps_to_stream-Writes c out k =
      let (mask, expected) = P.pending_receive_mask c.authoritative_pending_steps in
      let (header_code, headed) =
        P.pending_out_header (P.write_command out game_step) expected mask in
      let (steps_sent, _, _) = P.steps_out_serialize headed c.out_steps in
      let behind = pending expected mask (command game_step k) in
      elim (Bool-cases (is_negative header_code)) [
        | inl e ↦ rw e (behind, refl)
        | inr e ↦ elim (Bool-cases (is_negative steps_sent)) [
          | inl f ↦ rw (e, f) (steps _ behind, refl)
          | inr f ↦ rw (e, f) (steps _ behind, refl)
        ]
      ]

  send_steps_to_server-Within :
      (c : NimbleClient P) (w : World P)
      → let o = send_steps_to_server c w in Within 1 (numbering c w) (numbering o.client o.world)
  unfolding send_steps_to_server
  send_steps_to_server-Within c w =
      let c1 = record c { ordered_datagram_out = prepared P c.ordered_datagram_out } in
      let out = timed P c.ordered_datagram_out w.clock_reads in
      let (steps_sent, c2, out') = send_steps_to_stream c1 out in
      let (written, same) = send_steps_to_stream-Writes c1 out (u16 _ nothing) in
      elim (Bool-cases (is_positive steps_sent)) [
        | inr e ↦ rw e (once _ _ (unused (ap (λ l. (l, w.outbox)) same)))
        | inl e ↦ rw e (
            once _ _ (
              sent c2.transport out' written (
                ap
                  (λ l. (
                    P.ordered_commit l,
                    record { through = c2.transport; octets = P.out_octets out' } ∷ w.outbox,
                  ))
                  same)))
      ]

  state_messages-Within :
      (s : ClientState) (c : NimbleClient P) (w : World P)
      → let o = state_messages s c w in Within 2 (numbering c w) (numbering o.client o.world)
  unfolding state_messages
  state_messages-Within idle c w = none-Within 2 _ _ refl
  state_messages-Within connected c w = none-Within 2 _ _ refl
  state_messages-Within disconnected c w = none-Within 2 _ _ refl
  state_messages-Within requesting_connect c w = one_of_two (send_state_message-Within c w)
  state_messages-Within joining_requesting_state c w = one_of_two (send_state_message-Within c w)
  state_messages-Within joining_downloading_state c w = one_of_two (send_state_message-Within c w)
  state_messages-Within synced c w =
      let o = send_steps_to_server c w in
      elim (Bool-cases (is_negative o.code)) [
        | inl e ↦ rw e (one_of_two (send_steps_to_server-Within c w))
        | inr e ↦ rw e (
            Within-trans 1 1 (send_steps_to_server-Within c w)
              (send_state_message-Within o.client o.world))
      ]

  pub outgoing-Within :
      (c : NimbleClient P) (w : World P)
      → let o = outgoing c w in Within 2 (numbering c w) (numbering o.client o.world)
  unfolding outgoing handle_state
  outgoing-Within c w = elim (Bool-cases (is_negative (state_messages c.state c w).code)) [
    | inl e ↦ rw e (state_messages-Within c.state c w)
    | inr e ↦ rw e (state_messages-Within c.state c w)
  ]

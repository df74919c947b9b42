-- ===== src/Protocol/Sending.antt =====
-- Sending changes nothing that the protocol sees: Outgoing.antt.
use nimble_client_c.Prelude.{List, ap, ◌∙◌, inr, refl, inl, is_negative, arith, Bool-cases, ◌≡◌}
use nimble_client_c.Platform.{Platform}
use nimble_client_c.Client.{
  Received, ConnectionQuality, synced, disconnected, idle, joining_downloading_state,
  out_of_participant_slots, joining_requesting_state, connected, requesting_connect,
  joined_participant, joining_participant, ClientState, JoiningState, World, NimbleClient,
}
use nimble_client_c.Protocol.{View, view}
use nimble_client_c.Outgoing.{
  send_steps_to_stream, send_steps_to_server, message, send_state_message, state_messages,
  handle_state, outgoing, update_synced_sub_state,
}

-- What sending leaves alone: the view, the quality of the connection, what waits, the steps that were
-- received and the order of the datagrams.
abbrev pub kept :
    {P : Platform}
    → NimbleClient P
    → World P
    → View × ConnectionQuality P × List Received × P.Steps × P.OrderedIn
kept c w = (view c w, c.quality, w.inbox, c.authoritative_steps, c.ordered_datagram_in)

module _ {P : Platform} (w : World P) where
  send_steps_to_stream-kept :
      (c : NimbleClient P) (out : P.OutStream) → kept (send_steps_to_stream c out).1 w ≡ kept c w
  unfolding send_steps_to_stream
  send_steps_to_stream-kept c out = ground arith

  update_synced_sub_state-kept :
      (s : JoiningState) (c : NimbleClient P) (out : P.OutStream)
      → kept (update_synced_sub_state s c out).1 w ≡ kept c w
  unfolding update_synced_sub_state
  update_synced_sub_state-kept joining_participant c out = refl
  update_synced_sub_state-kept joined_participant c out = refl
  update_synced_sub_state-kept out_of_participant_slots c out = refl

  message-kept :
      (s : ClientState) (c : NimbleClient P) (out : P.OutStream)
      → kept (message s c out).1 w ≡ kept c w
  unfolding message
  message-kept requesting_connect c out = refl
  message-kept connected c out = refl
  message-kept joining_requesting_state c out = refl
  message-kept joining_downloading_state c out = ground arith
  message-kept idle c out = refl
  message-kept disconnected c out = refl
  message-kept synced c out = update_synced_sub_state-kept c.join_participant_phase c out

module _ {P : Platform} where
  send_steps_to_server-kept :
      (c : NimbleClient P) (w : World P)
      → let o = send_steps_to_server c w in kept o.client o.world ≡ kept c w
  unfolding send_steps_to_server
  send_steps_to_server-kept c w = ground arith

  send_state_message-kept :
      (c : NimbleClient P) (w : World P)
      → let o = send_state_message c w in kept o.client o.world ≡ kept c w
  unfolding send_state_message
  send_state_message-kept c w = ground arith

  state_messages-kept :
      (s : ClientState) (c : NimbleClient P) (w : World P)
      → let o = state_messages s c w in kept o.client o.world ≡ kept c w
  unfolding state_messages
  state_messages-kept idle c w = refl
  state_messages-kept connected c w = refl
  state_messages-kept disconnected c w = refl
  state_messages-kept requesting_connect c w = send_state_message-kept c w
  state_messages-kept joining_requesting_state c w = send_state_message-kept c w
  state_messages-kept joining_downloading_state c w = send_state_message-kept c w
  state_messages-kept synced c w =
      let o = send_steps_to_server c w in
      elim (Bool-cases (is_negative o.code)) [
        | inl e ↦ rw e (send_steps_to_server-kept c w)
        | inr e ↦ rw e (send_state_message-kept o.client o.world ∙ send_steps_to_server-kept c w)
      ]

  pub outgoing-kept :
      (c : NimbleClient P) (w : World P) → let o = outgoing c w in kept o.client o.world ≡ kept c w
  unfolding outgoing handle_state
  outgoing-kept c w = elim (Bool-cases (is_negative (state_messages c.state c w).code)) [
    | inl e ↦ rw e (state_messages-kept c.state c w)
    | inr e ↦ rw e (state_messages-kept c.state c w)
  ]

  -- Sending, for whatever state the client is in, leaves the view of the session as it was.
  outgoing-view :
      (c : NimbleClient P) (w : World P) → let o = outgoing c w in view o.client o.world ≡ view c w
  outgoing-view c w = ap (λ k. k.0) (outgoing-kept c w)

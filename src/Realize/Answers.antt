-- ===== src/Realize/Answers.antt =====
-- What the answers of a server do to a client, each in the update at which it arrives.
use nimble_client_c.Handlers.Downloads.{channel_read, request_of}
use nimble_client_c.Pong.Latency.{pong_read}
use nimble_client_c.Prelude.{
  ◌∙◌, ap, ltb, true, is_positive, ◌≢◌, false, is_negative, magnitude, length, ==_iff, ℤ, ◌<◌, pos,
  List, refl, arith, ℕ, ◌≡◌,
}
use nimble_client_c.Handlers.{
  on_join_game_participant_out_of_space_response, on_download_game_state_response,
  on_join_game_response, on_game_step_response, on_download_game_state_part, on_connect_response,
}
use nimble_client_c.Pong.{receive_pong}
use nimble_client_c.Client.{
  JoiningState, synced, joining_downloading_state, connected, disconnected, Outcome,
  requesting_connect, ClientState, DisconnectReason, World, NimbleClient,
}
use nimble_client_c.Incoming.{is_disconnected, feed_ordered, note_dropped, feed, dispatch}
use nimble_client_c.Platform.{
  unknown, out_of_participant_slots_response, game_state_response, join_game_response,
  game_step_response, server_out_blob_stream, connect_response, IncomingCommand, Platform,
}

-- What the client has decided of the connection so far.
abbrev pub verdict : {P : Platform} → NimbleClient P → DisconnectReason × ℕ
verdict c = (c.quality.reason, c.quality.considering_disconnect_counter)

module _ {P : Platform} where
  dispatch-verdict :
      (cmd : IncomingCommand) (c : NimbleClient P) (w : World P) (s : P.InStream)
      → verdict (dispatch cmd c w s).client ≡ verdict c
  unfolding dispatch on_connect_response on_download_game_state_part on_game_step_response
      on_join_game_response on_download_game_state_response
      on_join_game_participant_out_of_space_response
  dispatch-verdict connect_response c w s = ground arith
  dispatch-verdict server_out_blob_stream c w s = ground arith
  dispatch-verdict game_step_response c w s = ground arith
  dispatch-verdict join_game_response c w s = ground arith
  dispatch-verdict game_state_response c w s = ground arith
  dispatch-verdict out_of_participant_slots_response c w s = ground arith
  dispatch-verdict unknown c w s = refl

  receive_pong-verdict :
      (c : NimbleClient P) (w : World P) (s : P.InStream)
      → verdict (receive_pong c w s).0.client ≡ verdict c
  unfolding receive_pong
  receive_pong-verdict c w s = ground arith

-- What the handlers of a server's answers look at in a client.
pub record Standing (P : Platform) : Type 0 where
  pub state : ClientState
  pub phase : JoiningState
  pub channel : ℕ
  pub request : ℕ
  pub blob_logic : P.BlobLogicIn
  pub blob : P.BlobIn
  pub decided : DisconnectReason × ℕ

abbrev pub standing : {P : Platform} → NimbleClient P → Standing P
standing c = record {
  state = c.state;
  phase = c.join_participant_phase;
  channel = c.join_state_channel;
  request = c.download_state_client_request_id;
  blob_logic = c.blob_stream_in_logic;
  blob = c.blob_stream_in;
  decided = verdict c;
}

-- A message that brings a client of that standing into a state: the connect response while it is
-- asked for, a game state response to the client's request on a new channel, and the part that
-- completes the stream of the client's channel.
pub data Answer {P : Platform} (a : Standing P) (s : P.InStream)
    : IncomingCommand → ClientState → Type 0 where
  connects :
      a.state ≡ requesting_connect
      → is_negative (P.in_connect_response s).0 ≡ false
      → Answer a s connect_response connected
  gives_state :
      is_negative (channel_read P s).0 ≡ false
      → request_of P s ≡ a.request
      → (channel_read P s).1 ≢ a.channel
      → Answer a s game_state_response joining_downloading_state
  completes :
      (P.in_channel_id s).1 ≡ a.channel
      → is_negative (P.blob_logic_receive a.blob_logic a.blob (P.in_channel_id s).2).0 ≡ false
      → P.blob_is_complete (P.blob_logic_receive a.blob_logic a.blob (P.in_channel_id s).2).2 ≡ true
      → a.state ≢ synced
      → Answer a s server_out_blob_stream synced

module _ {P : Platform} where
  dispatch-Answer :
      (c : NimbleClient P) (w : World P) (s : P.InStream) {cmd : IncomingCommand} {u : ClientState}
      → Answer (standing c) s cmd u
      → let o = dispatch cmd c w s in
        (o.code ≡ pos 0)
        × (o.client.state ≡ u)
        × (o.client.join_participant_phase ≡ c.join_participant_phase)
  unfolding dispatch on_connect_response on_download_game_state_response on_download_game_state_part
  dispatch-Answer c w s (connects e ok) = ground arith
  dispatch-Answer c w s (gives_state ok asked other) =
      ground (arith, ==_iff (request_of P s) c.download_state_client_request_id)
  dispatch-Answer c w s (completes own ok all before) =
      ground (arith, ==_iff (P.in_channel_id s).1 c.join_state_channel)

-- Octets that a client takes for a message with that command: newer than the last by the ordering
-- logic, with a pong that can be read.
abbrev pub stream_behind_order : (P : Platform) → P.OrderedIn → List ℕ → P.InStream
stream_behind_order P l octets = (P.ordered_receive l (P.in_init octets)).2

abbrev pub command_read : (P : Platform) → P.OrderedIn → List ℕ → ℤ × ℕ × P.InStream
command_read P l octets = P.read_u8 (pong_read P (stream_behind_order P l octets)).2

abbrev pub body : (P : Platform) → P.OrderedIn → List ℕ → P.InStream
body P l octets = (command_read P l octets).2

pub record Delivers (P : Platform) (l : P.OrderedIn) (octets : List ℕ) (cmd : IncomingCommand)
    : Type 0 where
  pub filled : 0 < length octets
  pub newer : is_positive (P.ordered_receive l (P.in_init octets)).0 ≡ true
  pub timed : is_negative (pong_read P (stream_behind_order P l octets)).0 ≡ false
  pub is_command : P.command_of (command_read P l octets).1 ≡ cmd

module _ {P : Platform} where
  receive_pong_timed :
      (c : NimbleClient P) (w : World P) (s : P.InStream)
      → is_negative (pong_read P s).0 ≡ false
      → ((receive_pong c w s).0.code ≡ pos 0) × ((receive_pong c w s).1 ≡ (pong_read P s).2)
  unfolding receive_pong
  receive_pong_timed c w s h = rw h (refl, refl)

  feed_ordered_timed :
      (c : NimbleClient P) (w : World P) (s : P.InStream)
      → is_negative (pong_read P s).0 ≡ false
      → let p = (receive_pong c w s).0 in
        let cmd = P.read_u8 (pong_read P s).2 in
        feed_ordered c w s ≡ dispatch (P.command_of cmd.1) p.client p.world cmd.2
  unfolding feed_ordered
  feed_ordered_timed c w s h =
      let p = (receive_pong c w s).0 in
      let (ok, behind) = receive_pong_timed c w s h in
      let going : is_negative p.code ≡ false = rw ok refl in
      rw going (
        ap (λ s1. dispatch (P.command_of (P.read_u8 s1).1) p.client p.world (P.read_u8 s1).2)
          behind)

  pub feed_newer :
      (c : NimbleClient P) (w : World P) (octets : List ℕ)
      → 0 < length octets
      → c.state ≢ disconnected
      → is_positive (P.ordered_receive c.ordered_datagram_in (P.in_init octets)).0 ≡ true
      → let d = P.ordered_receive c.ordered_datagram_in (P.in_init octets) in
        feed c w octets
        ≡ feed_ordered (note_dropped (record c { ordered_datagram_in = d.1 }) (magnitude d.0)) w d.2
  unfolding feed
  feed_newer c w octets filled live newer =
      let d = P.ordered_receive c.ordered_datagram_in (P.in_init octets) in
      let some_octets : ltb (length octets) 1 ≡ false = ground arith in
      let listening : is_disconnected c.state ≡ false = ground arith in
      let fine : is_negative d.0 ≡ false = ground arith in
      rw (some_octets, listening, newer, fine) refl

module _ {P : Platform} (c : NimbleClient P) (w : World P) (octets : List ℕ) where
  -- The client that the handler gets.
  unfoldable pub at_message : Outcome P
  at_message =
      let d = P.ordered_receive c.ordered_datagram_in (P.in_init octets) in
      let ordered = record c { ordered_datagram_in = d.1 } in
      (receive_pong (note_dropped ordered (magnitude d.0)) w d.2).0

  pub at_message-standing : standing at_message.client ≡ standing c
  unfolding at_message receive_pong note_dropped
  at_message-standing = ground arith

  pub feed_delivered :
      (cmd : IncomingCommand)
      → c.state ≢ disconnected
      → Delivers P c.ordered_datagram_in octets cmd
      → feed c w octets
        ≡ dispatch cmd at_message.client at_message.world (body P c.ordered_datagram_in octets)
  unfolding at_message
  feed_delivered cmd live d =
      feed_newer c w octets d.filled live d.newer
      ∙ feed_ordered_timed _ w (stream_behind_order P c.ordered_datagram_in octets) d.timed
      ∙ ap
          (λ k. dispatch k at_message.client at_message.world (body P c.ordered_datagram_in octets))
          d.is_command

-- A message that answers does so wherever it is fed in.
pub feed_answered :
    {P : Platform} (c : NimbleClient P) (w : World P) (octets : List ℕ) (cmd : IncomingCommand)
    (u : ClientState)
    → c.state ≢ disconnected
    → Delivers P c.ordered_datagram_in octets cmd
    → Answer (standing c) (body P c.ordered_datagram_in octets) cmd u
    → let o = feed c w octets in
      (o.code ≡ pos 0)
      × (o.client.state ≡ u)
      × (verdict o.client ≡ verdict c)
      × (o.client.join_participant_phase ≡ c.join_participant_phase)
feed_answered {P} c w octets cmd u live d a =
    let m = at_message c w octets in
    let same = at_message-standing c w octets in
    let (code, state, phase) =
      dispatch-Answer m.client m.world (body P c.ordered_datagram_in octets) (rw same a) in
    rw (feed_delivered c w octets cmd live d) (
      code,
      state,
      dispatch-verdict cmd m.client m.world (body P c.ordered_datagram_in octets)
          ∙ ap (λ x. x.decided) same,
      phase ∙ ap (λ x. x.phase) same,
    )

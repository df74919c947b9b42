-- ===== src/Outgoing/Messages.antt =====
-- What is sent, and how often: outgoing.c and send_steps.c.
use mathlib.Core.Path.{subst}
use nimble_client_c.Prelude.{
  ℕ, Bool, pos, leb, is_negative, is_positive, ap, sym, refl, inr, inl, arith, Bool-cases, ◌<◌,
  false, ◌∷◌, ◌≡◌,
}
use nimble_client_c.Platform.{download_game_state_request, Platform}
use nimble_client_c.Client.{
  ClientState, requesting_connect, joining_requesting_state, Outcome, NimbleClient, World,
}
use nimble_client_c.Outgoing.{
  send_steps_to_stream, send_steps_to_server, send_state_message, state_messages, handle_state,
  outgoing, write_header,
}

-- The stream of a datagram behind its header, as the client writes it now.
abbrev pub headed : {P : Platform} → NimbleClient P → World P → P.OutStream
headed {P} c w =
    (P.write_u16 (P.ordered_prepare c.ordered_datagram_out (P.out_init P.datagram_max_size)).1
      (P.time_to_lower_bits (P.clock w.clock_reads))).1

-- What decides on the requests of a client: where they go, what they hold and which one it is.
pub record Asking (P : Platform) : Type 0 where
  pub state : ClientState
  pub transport : P.Transport
  pub application_version : P.Version
  pub wants_debug_streams : Bool
  pub connect_request_id : ℕ
  pub download_state_client_request_id : ℕ
  pub remote_connection_id : ℕ

abbrev pub asking : {P : Platform} → NimbleClient P → Asking P
asking c = record {
  state = c.state;
  transport = c.transport;
  application_version = c.application_version;
  wants_debug_streams = c.wants_debug_streams;
  connect_request_id = c.connect_request_id;
  download_state_client_request_id = c.download_state_client_request_id;
  remote_connection_id = c.remote_connection_id;
}

-- The connect request behind that header.
abbrev pub connect_stream : {P : Platform} → NimbleClient P → World P → P.OutStream
connect_stream {P} c w =
    P.write_connect_request (headed c w) c.application_version c.wants_debug_streams
      c.connect_request_id

-- The request for the game state behind that header.
abbrev pub state_request_stream : {P : Platform} → NimbleClient P → World P → P.OutStream
state_request_stream {P} c w =
    P.write_u8 (P.write_command (headed c w) download_game_state_request)
      c.download_state_client_request_id

-- A request was sent: the datagram is the newest of the outbox and the only new one, its sequence
-- number is committed, the client waits four updates before the next, and goes on asking the same.
abbrev pub RequestSent :
    {P : Platform} → NimbleClient P → World P → P.OutStream → Outcome P → Type 0
RequestSent {P} c w stream o =
    (o.world.outbox ≡ record { through = c.transport; octets = P.out_octets stream } ∷ w.outbox)
    × (o.client.ordered_datagram_out
        ≡ P.ordered_commit
            (P.ordered_prepare c.ordered_datagram_out (P.out_init P.datagram_max_size)).0)
    × (o.client.wait_time ≡ pos 4)
    × (asking o.client ≡ asking c)

-- The two requests at a client whose state is given outright.
connect-RequestSent :
    {P : Platform} (c : NimbleClient P) (w : World P)
    → leb (P.out_pos (connect_stream c w)) 10 ≡ false
    → let c' = record c { state = requesting_connect } in
      RequestSent c' w (connect_stream c w) (send_state_message c' w)
unfolding send_state_message
connect-RequestSent c w long = rw long (refl, refl, refl, refl)

state-RequestSent :
    {P : Platform} (c : NimbleClient P) (w : World P)
    → leb (P.out_pos (state_request_stream c w)) 10 ≡ false
    → let c' = record c { state = joining_requesting_state } in
      RequestSent c' w (state_request_stream c w) (send_state_message c' w)
unfolding send_state_message
state-RequestSent c w long = rw long (refl, refl, refl, refl)

-- What `outgoing` does behind `handle_state` leaves such a result as it is.
outgoing-RequestSent :
    {P : Platform} (c : NimbleClient P) (w : World P) (stream : P.OutStream)
    → RequestSent c w stream (handle_state c w)
    → RequestSent c w stream (outgoing c w)
unfolding outgoing
outgoing-RequestSent c w stream h = elim (Bool-cases (is_negative (handle_state c w).code)) [
  | inl n ↦ rw n h
  | inr n ↦ rw n h
]

module _ {P : Platform} (c : NimbleClient P) (w : World P) where
  -- While the client requests to connect, what it sends is the header and the connect request, if
  -- the stream has more than ten octets.
  pub outgoing_connect_request :
      c.state ≡ requesting_connect
      → 10 < P.out_pos (connect_stream c w)
      → RequestSent c w (connect_stream c w) (outgoing c w)
  unfolding handle_state state_messages
  outgoing_connect_request e h =
      let sent = connect-RequestSent c w (ground arith) in
      outgoing-RequestSent c w (connect_stream c w) (
        subst (λ c'. RequestSent c' w (connect_stream c' w) (handle_state c' w))
          (sym (ap (λ s. record c { state = s }) e)) sent)

  -- While it requests the game state, the header and that request, if the stream has more than ten
  -- octets.
  pub outgoing_state_request :
      c.state ≡ joining_requesting_state
      → 10 < P.out_pos (state_request_stream c w)
      → RequestSent c w (state_request_stream c w) (outgoing c w)
  unfolding handle_state state_messages
  outgoing_state_request e h =
      let sent = state-RequestSent c w (ground arith) in
      outgoing-RequestSent c w (state_request_stream c w) (
        subst (λ c'. RequestSent c' w (state_request_stream c' w) (handle_state c' w))
          (sym (ap (λ s. record c { state = s }) e)) sent)

  -- Where no steps are serialised, no datagram is sent, and the sequence number that the header took
  -- is not committed.
  send_steps_to_server_none :
      is_positive
          (send_steps_to_stream
            (write_header c w (P.out_init P.datagram_max_size)).1
            (headed c w)).0
        ≡ false
      → let o = send_steps_to_server c w in
        (o.world.outbox ≡ w.outbox)
        × (o.client.ordered_datagram_out
            ≡ (P.ordered_prepare c.ordered_datagram_out (P.out_init P.datagram_max_size)).0)
  unfolding send_steps_to_server
  send_steps_to_server_none e = ground arith

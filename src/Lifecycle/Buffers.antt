-- ===== src/Lifecycle/Buffers.antt =====
-- The buffers of steps and the game state blocks, and the parts of an update of client.c that leave
-- them alone.
use nimble_client_c.Pong.Latency.{pong_read}
use nimble_client_c.Outgoing.{write_header, send_steps_to_server, send_state_message}
use nimble_client_c.Lifecycle.{check_if_disconnect_is_needed, begin_update, judge_connection}
use nimble_client_c.Incoming.{dispatch, note_packet_in, note_dropped, note_usable}
use nimble_client_c.Prelude.{◌⊎◌, is_negative, inl, inr, Bool-cases, refl, arith, ◌≡◌, ℤ, List, ℕ}
use nimble_client_c.Pong.{receive_pong}
use nimble_client_c.Platform.{game_step, Platform}
use nimble_client_c.Realize.Answers.{command_read}
use nimble_client_c.Client.{Outcome, World, NimbleClient}

-- The authoritative steps, the predicted steps, and the number of blocks that were taken.
abbrev pub Reader : Platform → Type 0
Reader P = P.Steps × P.Steps × ℕ

abbrev pub reader : {P : Platform} → NimbleClient P → World P → Reader P
reader c w = (c.authoritative_steps, c.out_steps, w.next_block)

-- What handling the message of those octets makes of a client, wherever it is read.
abbrev pub handled : (P : Platform) → List ℕ → P.OrderedIn → NimbleClient P → World P → Outcome P
handled P octets l c w =
    let (_, cmd, s) = command_read P l octets in dispatch (P.command_of cmd) c w s

-- The parts of an update that leave all of it alone.
module _ {P : Platform} where
  pub receive_pong-reader :
      (c : NimbleClient P) (w : World P) (s : P.InStream)
      → let (o, s') = receive_pong c w s in
        (reader o.client o.world ≡ reader c w) × (s' ≡ (pong_read P s).2)
  unfolding receive_pong
  receive_pong-reader c w s = ground arith

  pub note_dropped-reader :
      (c : NimbleClient P) (w : World P) (delta : ℕ) → reader (note_dropped c delta) w ≡ reader c w
  unfolding note_dropped
  note_dropped-reader c w delta = ground arith

  pub note_packet_in-reader :
      (c : NimbleClient P) (w : World P) → reader (note_packet_in c) w ≡ reader c w
  unfolding note_packet_in
  note_packet_in-reader c w = ground arith

  pub note_usable-reader :
      (c : NimbleClient P) (w : World P) → reader (note_usable c) w ≡ reader c w
  unfolding note_usable
  note_usable-reader c w = refl

  pub begin_update-reader :
      (c : NimbleClient P) (w : World P) (now : ℤ) → reader (begin_update c now) w ≡ reader c w
  unfolding begin_update
  begin_update-reader c w now = ground arith

  pub judge_connection-reader :
      (c : NimbleClient P) (w : World P) → reader (judge_connection c) w ≡ reader c w
  unfolding judge_connection check_if_disconnect_is_needed
  judge_connection-reader c w = ground arith

  pub send_state_message-reader :
      (c : NimbleClient P) (w : World P)
      → let o = send_state_message c w in reader o.client o.world ≡ reader c w
  unfolding send_state_message
  send_state_message-reader c w = ground arith

-- What is written of the predicted steps, if anything is.
abbrev pub header_of : {P : Platform} → NimbleClient P → World P → ℤ × P.OutStream
header_of {P} c w =
    let (_, c1, _, out) = write_header c w (P.out_init P.datagram_max_size) in
    let (mask, expected) = P.pending_receive_mask c1.authoritative_pending_steps in
    P.pending_out_header (P.write_command out game_step) expected mask

pub send_steps_to_server-reader :
    {P : Platform} (c : NimbleClient P) (w : World P)
    → let o = send_steps_to_server c w in
      (reader o.client o.world ≡ reader c w)
      ⊎ (reader o.client o.world ≡ (
        c.authoritative_steps,
        (P.steps_out_serialize (header_of c w).1 c.out_steps).2,
        w.next_block,
      ))
unfolding send_steps_to_server write_header
send_steps_to_server-reader c w = elim (Bool-cases (is_negative (header_of c w).0)) [
  | inl e ↦ inl (ground arith)
  | inr e ↦ inr (ground arith)
]

-- ===== src/Outgoing.antt =====
-- src/lib/outgoing.c, send_steps.c and prepare_header.c: what the client sends, by its state.
pub mod Messages
pub mod Synced
pub mod Moves
pub mod Numbers
pub mod Apart
pub mod Downloading
use nimble_client_c.Prelude.{
  ◌∷◌, int_of_long, leb, inc_size, ◌-ℤ◌, is_negative, is_positive, length, to_int, pos, ℕ,
  if◌then◌else◌, suc, ℤ, List,
}
use nimble_client_c.Client.{
  synced, joining_downloading_state, joining_requesting_state, disconnected,
  out_of_participant_slots, connected, idle, joined_participant, requesting_connect,
  joining_participant, Outcome, World, JoiningState, NimbleClient, ClientState,
}
use nimble_client_c.Platform.{
  download_game_state_request, game_step, client_out_blob_stream, Platform,
}

module _ {P : Platform} where
  open P use {
    OutStream, Transport, out_init, out_pos, out_octets, write_u8, write_u16, datagram_max_size,
    send_result, ordered_prepare, ordered_commit, clock, time_to_lower_bits, pending_receive_mask,
    pending_out_header, steps_out_serialize, steps_count, max_redundancy_count, stats_add,
    per_second_add, write_command, write_connect_request, write_join_request, blob_logic_send,
  }

  -- prepare_header.c, without the assertion that `remote_connection_id` is not 0
  unfoldable pub write_header :
      NimbleClient P → World P → OutStream → ℤ × NimbleClient P × World P × OutStream
  write_header c w out =
      let (logic, prepared) = ordered_prepare c.ordered_datagram_out out in
      let (code, written) = write_u16 prepared (time_to_lower_bits (clock w.clock_reads)) in
      (
        code,
        record c { ordered_datagram_out = logic },
        record w { clock_reads = suc w.clock_reads },
        written,
      )

  commit_header : NimbleClient P → NimbleClient P
  commit_header c = record c { ordered_datagram_out = ordered_commit c.ordered_datagram_out }

  -- The call of the transport's `send`.
  pub send : World P → Transport → List ℕ → ℤ × World P
  send w transport octets = (
    send_result (length w.outbox),
    record w { outbox = record { through = transport; octets = octets } ∷ w.outbox },
  )

  -- send_steps.c
  unfoldable pub send_steps_to_stream : NimbleClient P → OutStream → ℤ × NimbleClient P × OutStream
  send_steps_to_stream c out =
      let (receive_mask, expected_step_id) = pending_receive_mask c.authoritative_pending_steps in
      let (header_code, headed) =
        pending_out_header (write_command out game_step) expected_step_id receive_mask in
      let (steps_sent, written, steps) = steps_out_serialize headed c.out_steps in
      let sent = record c { out_steps = steps } in
      let steps_in_buffer = to_int (steps_count steps) -ℤ to_int max_redundancy_count in
      let queued = if is_negative steps_in_buffer then pos 0 else steps_in_buffer in
      if is_negative header_code
      then (header_code, c, headed)
      else if is_negative steps_sent
      then (steps_sent, sent, written)
      else (
        steps_sent,
        record sent {
          outgoing_steps_in_queue = stats_add c.outgoing_steps_in_queue queued;
          wait_time = pos 0;
        },
        written,
      )

  unfoldable pub send_steps_to_server : NimbleClient P → World P → Outcome P
  unfolding send_steps_to_stream write_header commit_header send
  send_steps_to_server c w =
      let (_, c1, w1, out) = write_header c w (out_init datagram_max_size) in
      let (steps_sent, c2, out') = send_steps_to_stream c1 out in
      let c3 = commit_header c2 in
      let c4 = record c3 {
        sent_steps_datagram_count_per_second =
            per_second_add c3.sent_steps_datagram_count_per_second (pos 1);
        packets_per_second_out = per_second_add c3.packets_per_second_out (pos 1);
      } in
      let (code, w2) = send w1 c4.transport (out_octets out') in
      if is_positive steps_sent
      then record { code = code; client = c4; world = w2 }
      else record { code = int_of_long steps_sent; client = c2; world = w1 }

  -- outgoing.c: each message returns its code, the client and the stream.
  send_blob_stream_commands : NimbleClient P → OutStream → ℤ × NimbleClient P × OutStream
  send_blob_stream_commands c out =
      let (error_code, logic, written) =
        blob_logic_send c.blob_stream_in_logic c.blob_stream_in
          (write_command out client_out_blob_stream) in
      let acked = record c { blob_stream_in_logic = logic } in
      if is_negative error_code
      then (error_code, acked, written)
      else (pos 0, record acked { wait_time = pos 0 }, written)

  send_connect_request : NimbleClient P → OutStream → ℤ × NimbleClient P × OutStream
  send_connect_request c out = (
    pos 0,
    record c { wait_time = pos 4 },
    write_connect_request out c.application_version c.wants_debug_streams c.connect_request_id,
  )

  send_start_download_state_request : NimbleClient P → OutStream → ℤ × NimbleClient P × OutStream
  send_start_download_state_request c out = (
    pos 0,
    record c { wait_time = pos 4 },
    write_u8 (write_command out download_game_state_request) c.download_state_client_request_id,
  )

  send_join_game_request : NimbleClient P → OutStream → ℤ × NimbleClient P × OutStream
  send_join_game_request c out = (
    pos 0,
    record c { wait_time = pos 4 },
    write_join_request out c.join_game_request.nonce c.join_game_request.content,
  )

  unfoldable pub update_synced_sub_state :
      JoiningState → NimbleClient P → OutStream → ℤ × NimbleClient P × OutStream
  unfolding send_join_game_request
  update_synced_sub_state joining_participant c out = send_join_game_request c out
  update_synced_sub_state joined_participant c out = (pos 0, c, out)
  update_synced_sub_state out_of_participant_slots c out = (pos 0, c, out)

  unfoldable pub message : ClientState → NimbleClient P → OutStream → ℤ × NimbleClient P × OutStream
  unfolding send_connect_request send_start_download_state_request send_blob_stream_commands
      update_synced_sub_state
  message requesting_connect c out = send_connect_request c out
  message connected c out = (pos 0, c, out)
  message joining_requesting_state c out = send_start_download_state_request c out
  message joining_downloading_state c out = send_blob_stream_commands c out
  message idle c out = (pos 0, c, out)
  message disconnected c out = (pos 0, c, out)
  message synced c out = update_synced_sub_state c.join_participant_phase c out

  send_message_using_stream : NimbleClient P → OutStream → ℤ × NimbleClient P × OutStream
  unfolding message
  send_message_using_stream c out = message c.state c out

  -- The part of `handleState` behind the steps: a datagram with the header and the state's message,
  -- which is not sent if it has ten octets or fewer.
  unfoldable pub send_state_message : NimbleClient P → World P → Outcome P
  unfolding write_header commit_header send send_message_using_stream
  send_state_message c w =
      let (_, c1, w1, out) = write_header c w (out_init datagram_max_size) in
      let (result, c2, out') = send_message_using_stream c1 out in
      let c3 = commit_header c2 in
      let c4 = record c3 {
        packets_per_second_out = per_second_add c3.packets_per_second_out (pos 1);
      } in
      let (code, w2) = send w1 c4.transport (out_octets out') in
      if is_negative result
      then record { code = result; client = c2; world = w1 }
      else if leb (out_pos out') 10
      then record { code = pos 0; client = c3; world = w1 }
      else record { code = code; client = c4; world = w2 }

  abbrev nothing_sent : NimbleClient P → World P → Outcome P
  nothing_sent c w = record { code = pos 0; client = c; world = w }

  unfoldable pub state_messages : ClientState → NimbleClient P → World P → Outcome P
  state_messages idle c w = nothing_sent c w
  state_messages connected c w = nothing_sent c w
  state_messages disconnected c w = nothing_sent c w
  state_messages requesting_connect c w = send_state_message c w
  state_messages joining_requesting_state c w = send_state_message c w
  state_messages joining_downloading_state c w = send_state_message c w
  state_messages synced c w =
      let steps = send_steps_to_server c w in
      if is_negative steps.code then steps else send_state_message steps.client steps.world

  unfoldable pub handle_state : NimbleClient P → World P → Outcome P
  unfolding state_messages
  handle_state c w = state_messages c.state c w

  unfoldable pub outgoing : NimbleClient P → World P → Outcome P
  unfolding handle_state
  outgoing c w =
      let handled = handle_state c w in
      if is_negative handled.code then handled else record handled {
        code = pos 0;
        client = record (handled.client) { frame = inc_size handled.client.frame };
      }

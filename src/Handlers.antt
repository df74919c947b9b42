-- ===== src/Handlers.antt =====
-- The handlers of the messages from the server: src/lib/connect_response.c, join_game_response.c,
-- join_game_participants_full.c, download_state_response.c, download_state_part.c
-- and game_step_response.c. A handler returns its code with the client after it; one that
-- reaches the world returns an `Outcome`.
pub mod Joining
pub mod Downloads
pub mod Parts
pub mod Steps
use nimble_client_c.Prelude.{
  [], ◌||◌, ◌-ℤ◌, ◌^◌, to_size, length, ◌+◌, suc, ltb_ℤ, ◌∷◌, ◌%◌, is_negative, ◌==◌, int_of_long,
  false, if◌then◌else◌, to_int, true, pos, Bool, ℤ, List, ℕ,
}
use nimble_client_c.Client.{
  joining_participant, requesting_connect, joined_participant, connected, out_of_participant_slots,
  synced, Outcome, World, ParticipantEntry, joining_downloading_state, JoiningState, ClientState,
  NimbleClient,
}
use nimble_client_c.Platform.{received, ResponseParticipant, Platform}
use nimble_client_c.GameState
use nimble_client_c.Quality
use nimble_client_c.Quality.{is_synced}

abbrev pub is_requesting_connect : ClientState → Bool
is_requesting_connect requesting_connect = true
is_requesting_connect _ = false

abbrev pub is_joining_participant : JoiningState → Bool
is_joining_participant joining_participant = true
is_joining_participant _ = false

-- The entry that the loop of the join response writes for a participant.
abbrev pub entry_of : ResponseParticipant → ParticipantEntry
entry_of p = record {
  is_used = true;
  local_user_device_index = p.local_index % 256;
  participant_id = p.participant_id % 256;
}

-- That loop over the lookup: the entries after it, and whether it wrote past the last one.
unfoldable pub write_participants :
    List ResponseParticipant → List ParticipantEntry → List ParticipantEntry × Bool
write_participants [] entries = (entries, false)
write_participants (p ∷ ps) [] = ([], true)
write_participants (p ∷ ps) (e ∷ es) =
    let (rest, overrun) = write_participants ps es in (entry_of p ∷ rest, overrun)

module _ {P : Platform} where
  open P use {
    InStream, read_u8, read_i8, read_u16, read_u32, in_size, check_marker, in_connect_response,
    in_join_response, in_nonce, in_state_id, in_channel_id, stats_add, per_second_add,
    lagometer_add, steps_discard_up_to, steps_re_init, steps_count, pending_in_serialize,
    pending_copy, pending_reset, blob_logic_receive, blob_is_complete, blob_octets,
    blob_octet_count, clock, time_from_lower_bits,
  }

  unfoldable pub on_connect_response : NimbleClient P → InStream → ℤ × NimbleClient P
  on_connect_response c stream =
      let (err, response, _) = in_connect_response stream in
      if is_negative err then (err, c) else (
        pos 0,
        if is_requesting_connect c.state
            then record c {
              state = connected;
              use_debug_streams = response.use_debug_streams;
              remote_connection_id = response.connection_id;
            }
            else c,
      )

  unfoldable pub on_join_game_response : NimbleClient P → InStream → ℤ × NimbleClient P
  on_join_game_response c stream =
      let (err, secret, participants, _) = in_join_response stream in
      let (entries, overrun) = write_participants participants c.local_participant_lookup in
      if is_negative err then (err, c) else (
        pos 0,
        if is_joining_participant c.join_participant_phase
            then record c {
              party_and_session_secret = secret;
              local_participant_count = length participants;
              local_participant_lookup = entries;
              lookup_overrun = c.lookup_overrun || overrun;
              join_participant_phase = joined_participant;
              wait_time = pos 0;
              join_state_channel = 0;
            }
            else c,
      )

  unfoldable pub on_join_game_participant_out_of_space_response :
      NimbleClient P → InStream → ℤ × NimbleClient P
  on_join_game_participant_out_of_space_response c stream =
      let (err, nonce, _) = in_nonce stream in
      if is_negative err
      then (err, c)
      else (pos 0, record c { join_participant_phase = out_of_participant_slots })

  -- What the game state response does once its channel is accepted.
  pub start_download : NimbleClient P → ℕ → ℕ → NimbleClient P
  start_download c state_id channel_id = record c {
    join_state_channel = channel_id;
    joined_game_state = record (c.joined_game_state) { step_id = state_id };
    join_state_id = state_id;
    out_steps = steps_re_init c.out_steps state_id;
    state = joining_downloading_state;
    wait_time = pos 0;
  }

  unfoldable pub on_download_game_state_response : NimbleClient P → InStream → ℤ × NimbleClient P
  unfolding start_download
  on_download_game_state_response c stream =
      let (_, client_request_id, s1) = read_u8 stream in
      let (_, state_id, s2) = in_state_id s1 in
      let (error_code, channel_id, _) = in_channel_id s2 in
      if is_negative error_code then (error_code, c) else (
        pos 0,
        if client_request_id == c.download_state_client_request_id
            then if channel_id == c.join_state_channel
              then c
              else start_download c state_id channel_id
            else c,
      )

  -- A download that completes: the client has the state, and steps start from it.
  try_set_initial_game_state : NimbleClient P → World P → NimbleClient P × World P
  unfolding GameState.init
  try_set_initial_game_state c w =
      let (g, w') =
        GameState.init w c.join_state_id (blob_octets c.blob_stream_in)
          (blob_octet_count c.blob_stream_in) in
      if is_synced c.state then (c, w) else (
        record c {
          state = synced;
          joined_game_state = g;
          authoritative_pending_steps = pending_reset c.authoritative_pending_steps g.step_id;
          authoritative_steps = steps_re_init c.authoritative_steps g.step_id;
          out_steps = steps_re_init c.out_steps g.step_id;
        },
        w',
      )

  unfoldable pub on_download_game_state_part : NimbleClient P → World P → InStream → Outcome P
  unfolding try_set_initial_game_state
  on_download_game_state_part c w stream =
      let (_, channel_id, s) = in_channel_id stream in
      let (result, logic, blob, _) = blob_logic_receive c.blob_stream_in_logic c.blob_stream_in s in
      let received = record c {
        join_state_channel = channel_id;
        blob_stream_in_logic = logic;
        blob_stream_in = blob;
      } in
      let (c', w') = try_set_initial_game_state received w in
      if channel_id == c.join_state_channel
      then if is_negative result
        then record { code = result; client = received; world = w }
        else if blob_is_complete blob
        then record { code = pos 0; client = c'; world = w' }
        else record { code = pos 0; client = received; world = w }
      else record { code = pos 0; client = c; world = w }

  -- The part of the step response ahead of the steps: statistics, and the steps that the server has.
  note_server_buffers : NimbleClient P → ℕ → ℕ → ℤ → ℕ → NimbleClient P
  note_server_buffers c stream_size buffered delta server_received = record c {
    step_count_in_incoming_buffer_stat =
        if c.use_stats
        then stats_add c.step_count_in_incoming_buffer_stat (pos buffered)
        else c.step_count_in_incoming_buffer_stat;
    authoritative_buffer_delta_stat =
        if c.use_stats
        then stats_add c.authoritative_buffer_delta_stat delta
        else c.authoritative_buffer_delta_stat;
    lagometer =
        lagometer_add c.lagometer
          (record { status = received; latency_ms = c.latency_ms; octet_count = stream_size });
    received_step_id_by_server = server_received;
    out_steps = steps_discard_up_to c.out_steps ((server_received + 1) % 2 ^ 32);
  }

  -- What follows once the authoritative steps are read: they are copied and counted.
  accept_steps : NimbleClient P → ℤ → NimbleClient P
  unfolding Quality.received_authoritative_steps
  accept_steps c step_count =
      let (_, steps, pending) = pending_copy c.authoritative_steps c.authoritative_pending_steps in
      record c {
        authoritative_steps = steps;
        authoritative_pending_steps = pending;
        waiting_steps_from_server =
            stats_add c.waiting_steps_from_server (to_int (steps_count steps));
        quality = Quality.received_authoritative_steps c.quality;
        simulation_steps_per_second =
            per_second_add c.simulation_steps_per_second (int_of_long step_count);
      }

  unfoldable pub on_game_step_response : NimbleClient P → InStream → ℤ × NimbleClient P
  unfolding note_server_buffers accept_steps
  on_game_step_response c stream =
      let (_, buffered, s1) = read_u8 stream in
      let (_, delta, s2) = read_i8 s1 in
      let (_, server_received, s3) = read_u32 s2 in
      let noted = note_server_buffers c (in_size s2) buffered delta server_received in
      let (step_count, _, pending) = pending_in_serialize s3 noted.authoritative_pending_steps in
      let read = record noted { authoritative_pending_steps = pending } in
      (step_count, if is_negative step_count then read else accept_steps read step_count)

-- ===== src/Lifecycle.antt =====
-- src/lib/client.c and incoming_api.c: setting the client up and tearing it down, and its update.
pub mod Participants
pub mod Entries
pub mod Loops
pub mod Memory
pub mod Pacing
pub mod Resending
pub mod Streams
pub mod Repeats
pub mod Numbering
pub mod Buffers
pub mod Rule
pub mod Steps
pub mod Reading
pub mod Left
pub mod Predicted
use nimble_client_c.Client.{
  max_local_users_count, idle, Outcome, disconnected, World, ParticipantEntry, NimbleClient,
  ClientState,
}
use nimble_client_c.Prelude.{
  [], zero, to_int, negsuc, ◌^◌, int_of_long, ◌==◌, ◌+ℤ◌, ◌∷◌, replicate, is_positive, ltb_ℤ,
  is_negative, ◌%◌, ◌||◌, pos, ◌+◌, true, suc, none, some, Option, ◌-ℤ◌, List, if◌then◌else◌, Bool,
  false, inc_size, ℤ, ℕ,
}
use nimble_client_c.Platform.{Platform}
use nimble_client_c.Quality
use nimble_client_c.GameState
use nimble_client_c.Incoming.{receive_all_datagrams_from_transport, is_disconnected}
use nimble_client_c.Outgoing.{outgoing}
use nimble_client_c.Quality.{is_synced}

abbrev pub unused_entry : ParticipantEntry
unused_entry = record { is_used = false; local_user_device_index = 0; participant_id = 0 }

abbrev pub is_idle : ClientState → Bool
is_idle idle = true
is_idle _ = false

-- The arguments of `nimbleClientInit`.
pub record InitSettings (P : Platform) : Type 0 where
  pub blob_allocator : P.BlobAllocator
  pub transport : P.Transport
  pub max_single_participant_step_octet_count : ℕ
  pub max_number_of_participants : ℕ
  pub application_version : P.Version
  pub wants_debug_streams : Bool

module _ {P : Platform} where
  open P use {
    Transport, Version, clock, stats_init, stats_add, per_second_init, per_second_update,
    steps_init, steps_reset, steps_read, pending_init, pending_reset, combined_size, step_max,
    ordered_in_init, ordered_out_init, lagometer_init,
  }

  unfoldable pub reset : NimbleClient P → World P → NimbleClient P × World P
  unfolding GameState.destroy_if_allocated Quality.reset
  reset c w =
      let now = clock w.clock_reads in
      let (g, w') =
        GameState.destroy_if_allocated c.joined_game_state
          (record w { clock_reads = suc w.clock_reads }) in
      (
        record c {
          out_steps = steps_reset c.out_steps;
          authoritative_pending_steps = pending_reset c.authoritative_pending_steps 0;
          authoritative_steps = steps_init (
              combined_size c.max_number_of_participants c.max_single_participant_step_octet_count);
          received_step_id_by_server = step_max;
          local_participant_count = 0;
          local_participant_lookup = replicate max_local_users_count unused_entry;
          waiting_steps_from_server = stats_init 20;
          outgoing_steps_in_queue = stats_init 20;
          step_count_in_incoming_buffer_stat = stats_init 20;
          tick_duration = stats_init 20;
          latency_ms_stat = stats_init 20;
          last_update_is_set = false;
          authoritative_buffer_delta_stat = stats_init 10;
          packets_per_second_out = per_second_init now 1000;
          packets_per_second_in = per_second_init now 1000;
          simulation_steps_per_second = per_second_init now 1000;
          sent_steps_datagram_count_per_second = per_second_init now 1000;
          use_stats = true;
          state = idle;
          joined_game_state = record g { game_state = none };
          download_state_client_request_id = 1;
          quality = Quality.reset c.quality;
          ordered_datagram_in = ordered_in_init;
          ordered_datagram_out = ordered_out_init;
          lagometer = lagometer_init;
        },
        w',
      )

  unfoldable pub re_init : NimbleClient P → World P → Transport → NimbleClient P × World P
  unfolding reset
  re_init c w transport = reset (record c { transport = transport }) w

  -- The fields that `nimbleClientInit` sets itself; `c` is what the memory of the client holds before.
  -- It sets neither `blob_stream_in` nor `blob_stream_in_logic`, nor does any other function: until a
  -- library call writes them, they are what that memory holds.
  unfoldable pub prepare : NimbleClient P → InitSettings P → NimbleClient P
  prepare c s =
      let octet_count =
        combined_size s.max_number_of_participants s.max_single_participant_step_octet_count in
      record c {
        use_debug_streams = false;
        wants_debug_streams = s.wants_debug_streams;
        application_version = s.application_version;
        connect_request_id = 0;
        remote_connection_id = 0;
        expected_tick_duration_ms = 16;
        joined_game_state = record (c.joined_game_state) { game_state = none };
        max_single_participant_step_octet_count = s.max_single_participant_step_octet_count;
        max_number_of_participants = s.max_number_of_participants;
        state = idle;
        transport = s.transport;
        out_steps = steps_init octet_count;
        authoritative_pending_steps = pending_init 0 s.blob_allocator;
        authoritative_steps = steps_init octet_count;
      }

  -- The returned code is always 0.
  unfoldable pub init : NimbleClient P → World P → InitSettings P → NimbleClient P × World P
  unfolding re_init Quality.init
  init c w s =
      let (c', w') = re_init (prepare c s) w s.transport in
      (record c' { quality = Quality.init c'.quality }, w')

  unfoldable pub destroy : NimbleClient P → World P → NimbleClient P × World P
  unfolding GameState.destroy_if_allocated
  destroy c w =
      let (g, w') = GameState.destroy_if_allocated c.joined_game_state w in
      (record c { joined_game_state = g }, w')

  unfoldable pub disconnect : NimbleClient P → NimbleClient P
  disconnect c = record c { state = disconnected }

  -- Only the counter: what it prints is logging.
  unfoldable pub show_stats : NimbleClient P → NimbleClient P
  show_stats c = record c { stats_counter = inc_size c.stats_counter }

  unfoldable pub calc_stats : NimbleClient P → ℤ → NimbleClient P
  calc_stats c now = record c {
    packets_per_second_out = per_second_update c.packets_per_second_out now;
    packets_per_second_in = per_second_update c.packets_per_second_in now;
    simulation_steps_per_second = per_second_update c.simulation_steps_per_second now;
    sent_steps_datagram_count_per_second =
        per_second_update c.sent_steps_datagram_count_per_second now;
  }

  unfoldable pub send_packets : NimbleClient P → World P → Outcome P
  send_packets c w =
      if is_idle c.state || is_disconnected c.state
      then record { code = pos 0; client = c; world = w }
      else let sent = outgoing c w in
        record sent { code = if is_negative sent.code then sent.code else pos 0 }

  check_tick_interval : NimbleClient P → ℤ → NimbleClient P
  check_tick_interval c now =
      let duration = now -ℤ c.last_update_ms in
      if c.last_update_is_set
      then if ltb_ℤ (duration +ℤ pos 10) (to_int c.expected_tick_duration_ms) then c else record c {
        tick_duration = stats_add c.tick_duration (int_of_long duration);
        last_update_ms = now;
      }
      else record c { last_update_is_set = true; last_update_ms = now }

  unfoldable pub check_if_disconnect_is_needed : NimbleClient P → NimbleClient P
  check_if_disconnect_is_needed c =
      if is_synced c.state
      then if Quality.should_disconnect c.quality then record c { state = disconnected } else c
      else c

  -- The update up to the receiving.
  unfoldable pub begin_update : NimbleClient P → ℤ → NimbleClient P
  unfolding check_tick_interval
  begin_update c now =
      check_tick_interval (record c { logging_tick_count = (c.logging_tick_count + 1) % 2 ^ 32 })
        now

  -- The quality of the connection, and its consequence.
  unfoldable pub judge_connection : NimbleClient P → NimbleClient P
  judge_connection c =
      check_if_disconnect_is_needed (record c { quality = Quality.update c.quality c.state })

  -- The update behind the receiving: wait, or send.
  unfoldable pub wait_or_send : NimbleClient P → World P → ℤ → ℤ → Outcome P
  wait_or_send c w now code =
      if is_positive c.wait_time
      then record {
        code = pos 0;
        client = record c { wait_time = c.wait_time -ℤ pos 1 };
        world = w;
      }
      else let sent = send_packets (show_stats (calc_stats c now)) w in record sent { code = code }

  unfoldable pub update : NimbleClient P → World P → ℤ → Outcome P
  unfolding begin_update judge_connection wait_or_send
  update c w now =
      let got = receive_all_datagrams_from_transport (begin_update c now) w in
      if is_negative got.code
      then record got { code = int_of_long got.code }
      else wait_or_send (judge_connection got.client) got.world now (int_of_long got.code)

  -- incoming_api.c
  unfoldable pub read_step : NimbleClient P → ℕ → ℤ × ℕ × List ℕ × NimbleClient P
  read_step c max_target =
      let (code, step_id, target, steps) = steps_read c.authoritative_steps max_target in
      (code, step_id, target, record c { authoritative_steps = steps })

-- The loop of `nimbleClientFindParticipantId` over the first `count` entries: `none` is the -1 with
-- the participant id 0xff. `count` past the end of the entries is out of bounds in the source.
pub find_in_entries : ℕ → List ParticipantEntry → ℕ → Option ℕ
find_in_entries zero entries index = none
find_in_entries (suc n) [] index = none
find_in_entries (suc n) (e ∷ es) index =
    if e.local_user_device_index == index then some e.participant_id else find_in_entries n es index

-- The returned code and the participant id written.
abbrev pub lookup_result : Option ℕ → ℤ × ℕ
lookup_result none = (negsuc 0, 0xff)
lookup_result (some participant_id) = (pos 1, participant_id)

unfoldable pub find_participant_id : {P : Platform} → NimbleClient P → ℕ → ℤ × ℕ
unfolding find_in_entries
find_participant_id c index =
    lookup_result (find_in_entries c.local_participant_count c.local_participant_lookup index)

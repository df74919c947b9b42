-- ===== src/Tests/Fixture.antt =====
-- Clients, a realizer and worlds over the small platform.
use nimble_client_c.Realize.{RealizeState, NimbleClientRealize}
use nimble_client_c.Lifecycle.{unused_entry, InitSettings}
use nimble_client_c.Prelude.{replicate, true, none, false, [], some, ◌∷◌, pos, ◌∷◌}
use nimble_client_c.Client.{
  keep_connection, joining_participant, idle, ConnectionQuality, NimbleClient, ClientState, World,
}
use nimble_client_c.Tests.Toy.{toy}

abbrev pub toy_quality : ConnectionQuality toy
toy_quality = record {
  dropping_datagram_warning = false;
  impending_disconnect_warning = false;
  latency_ms_stat = none;
  rating_stat = none;
  last_latency_ms = 0;
  ticks_without_datagrams = 0;
  ticks_without_steps = 0;
  reason = keep_connection;
  considering_disconnect_counter = 0;
  quality_rating = 0;
  dropped_datagram_counter = 0;
}

-- An idle client.
abbrev pub toy_client : NimbleClient toy
toy_client = record {
  wait_time = pos 0;
  state = idle;
  join_participant_phase = joining_participant;
  local_participant_lookup = replicate 8 unused_entry;
  lookup_overrun = false;
  local_participant_count = 0;
  transport = 1;
  out_steps = 0;
  authoritative_pending_steps = 0;
  authoritative_steps = 0;
  received_step_id_by_server = 0;
  joined_game_state = record { game_state = none; octet_count = 0; step_id = 0 };
  join_state_channel = 0;
  blob_stream_in_logic = 0;
  blob_stream_in = [];
  download_state_client_request_id = 1;
  join_state_id = 0;
  frame = 0;
  use_stats = true;
  stats_counter = 0;
  waiting_steps_from_server = none;
  step_count_in_incoming_buffer_stat = none;
  authoritative_buffer_delta_stat = none;
  latency_ms_stat = none;
  outgoing_steps_in_queue = none;
  packets_per_second_out = pos 0;
  packets_per_second_in = pos 0;
  simulation_steps_per_second = pos 0;
  sent_steps_datagram_count_per_second = pos 0;
  party_and_session_secret = 0;
  join_game_request = record { nonce = 0; content = 0 };
  ordered_datagram_out = 0;
  ordered_datagram_in = 0;
  max_single_participant_step_octet_count = 4;
  max_number_of_participants = 4;
  application_version = 7;
  connect_request_id = 0;
  last_update_is_set = false;
  last_update_ms = pos 0;
  expected_tick_duration_ms = 16;
  tick_duration = none;
  latency_ms = 0;
  lagometer = 0;
  quality = toy_quality;
  use_debug_streams = false;
  remote_connection_id = 0;
  wants_debug_streams = false;
  logging_tick_count = 0;
}

abbrev pub toy_world : World toy
toy_world = record { inbox = []; outbox = []; state_blocks = []; next_block = 0; clock_reads = 0 }

-- A client of that state, and one that also has the block 0 for its game state.
abbrev pub in_state : ClientState → NimbleClient toy
in_state s = record toy_client { state = s }

abbrev pub with_game_state : NimbleClient toy → NimbleClient toy
with_game_state c = record c {
  joined_game_state = record { game_state = some 0; octet_count = 2; step_id = 0 };
}

abbrev pub world_with_block : World toy
world_with_block = record toy_world { state_blocks = (0, 5 ∷ 6 ∷ []) ∷ []; next_block = 1 }

abbrev toy_settings : InitSettings toy
toy_settings = record {
  blob_allocator = 0;
  transport = 2;
  max_single_participant_step_octet_count = 4;
  max_number_of_participants = 4;
  application_version = 7;
  wants_debug_streams = false;
}

abbrev pub toy_realize : NimbleClientRealize toy
toy_realize = record {
  target_state = RealizeState.synced;
  state = RealizeState.init;
  client = toy_client;
  settings = toy_settings;
  join_game_request_nonce = 0;
}

-- ===== src/Client.antt =====
-- The state of the client: include/nimble-client/client.h, connection_quality.h and game_state.h,
-- and the world that it runs in.
use nimble_client_c.Prelude.{ℕ, Bool, Option, List, ℤ}
use nimble_client_c.Platform.{Platform}

pub data ClientState : Type 0 where
  idle requesting_connect connected joining_requesting_state joining_downloading_state : ClientState
  synced disconnected : ClientState

pub data JoiningState : Type 0 where
  joining_participant joined_participant out_of_participant_slots : JoiningState

abbrev pub max_local_users_count : ℕ
max_local_users_count = 8

pub record ParticipantEntry : Type 0 where
  pub is_used : Bool
  pub local_user_device_index : ℕ
  pub participant_id : ℕ

pub data DisconnectReason : Type 0 where
  keep_connection not_receiving_steps not_receiving_datagrams : DisconnectReason

pub record ConnectionQuality (P : Platform) : Type 0 where
  pub dropping_datagram_warning : P.HoldPositive
  pub impending_disconnect_warning : P.HoldPositive
  pub latency_ms_stat : P.StatsInt
  pub rating_stat : P.StatsInt
  pub last_latency_ms : ℕ
  pub ticks_without_datagrams : ℕ
  pub ticks_without_steps : ℕ
  pub reason : DisconnectReason
  pub considering_disconnect_counter : ℕ
  pub quality_rating : ℕ
  pub dropped_datagram_counter : ℕ

-- `game_state` is the pointer: the block of the heap, or `none` for null.
pub record GameState : Type 0 where
  pub game_state : Option ℕ
  pub octet_count : ℕ
  pub step_id : ℕ

pub record JoinGameRequest (P : Platform) : Type 0 where
  pub nonce : ℕ
  pub content : P.JoinContent

-- `struct NimbleClient` without its logs and its two allocator pointers. `lookup_overrun` is not in
-- the source: it is set when the client writes past the end of `local_participant_lookup`, after
-- which the C program has no defined behaviour; the model drops that write.
pub record NimbleClient (P : Platform) : Type 0 where
  pub wait_time : ℤ
  pub state : ClientState
  pub join_participant_phase : JoiningState
  pub local_participant_lookup : List ParticipantEntry
  pub lookup_overrun : Bool
  pub local_participant_count : ℕ
  pub transport : P.Transport
  pub out_steps : P.Steps
  pub authoritative_pending_steps : P.PendingSteps
  pub authoritative_steps : P.Steps
  pub received_step_id_by_server : ℕ
  pub joined_game_state : GameState
  pub join_state_channel : ℕ
  pub blob_stream_in_logic : P.BlobLogicIn
  pub blob_stream_in : P.BlobIn
  pub download_state_client_request_id : ℕ
  pub join_state_id : ℕ
  pub frame : ℕ
  pub use_stats : Bool
  pub stats_counter : ℕ
  pub waiting_steps_from_server : P.StatsInt
  pub step_count_in_incoming_buffer_stat : P.StatsInt
  pub authoritative_buffer_delta_stat : P.StatsInt
  pub latency_ms_stat : P.StatsInt
  pub outgoing_steps_in_queue : P.StatsInt
  pub packets_per_second_out : P.PerSecond
  pub packets_per_second_in : P.PerSecond
  pub simulation_steps_per_second : P.PerSecond
  pub sent_steps_datagram_count_per_second : P.PerSecond
  pub party_and_session_secret : P.Secret
  pub join_game_request : JoinGameRequest P
  pub ordered_datagram_out : P.OrderedOut
  pub ordered_datagram_in : P.OrderedIn
  pub max_single_participant_step_octet_count : ℕ
  pub max_number_of_participants : ℕ
  pub application_version : P.Version
  pub connect_request_id : ℕ
  pub last_update_is_set : Bool
  pub last_update_ms : ℤ
  pub expected_tick_duration_ms : ℕ
  pub tick_duration : P.StatsInt
  pub latency_ms : ℕ
  pub lagometer : P.Lagometer
  pub quality : ConnectionQuality P
  pub use_debug_streams : Bool
  pub remote_connection_id : ℕ
  pub wants_debug_streams : Bool
  pub logging_tick_count : ℕ

-- What a call of `datagramTransportReceive` can give.
pub data Received : Type 0 where
  datagram : List ℕ → Received
  failure : ℕ → Received

pub record Sent (P : Platform) : Type 0 where
  pub through : P.Transport
  pub octets : List ℕ

-- The client's surroundings: datagrams that wait in the transport, those sent so far (the newest
-- first), the live game state blocks with their octets, the number that names the next of them, and
-- how often the clock has been read. A game state block is one that `nimbleClientGameStateInit` takes
-- from the blob allocator. The pending steps are given that allocator too; what they take from it is
-- a part of `PendingSteps`, and they are relied on to free no more than that.
pub record World (P : Platform) : Type 0 where
  pub inbox : List Received
  pub outbox : List (Sent P)
  pub state_blocks : List (ℕ × List ℕ)
  pub next_block : ℕ
  pub clock_reads : ℕ

-- What a function returns, with the client and the world after it.
pub record Outcome (P : Platform) : Type 0 where
  pub code : ℤ
  pub client : NimbleClient P
  pub world : World P

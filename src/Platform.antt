-- ===== src/Platform.antt =====
-- What the client takes from code outside this repository: its types and functions, as one record
-- of parameters with no law. A call that writes through a pointer returns the new value; a read
-- returns its code, what the destination holds after the call (on an error too), and the stream.
use nimble_client_c.Prelude.{ℕ, Bool, List, ℤ}

-- The message labels of nimble-serialize that `nimbleClientFeed` switches on.
pub data IncomingCommand : Type 0 where
  connect_response server_out_blob_stream game_step_response : IncomingCommand
  join_game_response game_state_response out_of_participant_slots_response : IncomingCommand
  unknown : IncomingCommand

-- The labels that the client writes by `nimbleSerializeWriteCommand`.
pub data OutgoingCommand : Type 0 where
  client_out_blob_stream download_game_state_request game_step : OutgoingCommand

pub data LagometerStatus : Type 0 where
  received dropped : LagometerStatus

pub record LagometerPacket : Type 0 where
  pub status : LagometerStatus
  pub latency_ms : ℕ
  pub octet_count : ℕ

pub record ConnectResponse : Type 0 where
  pub use_debug_streams : Bool
  pub connection_id : ℕ

pub record ResponseParticipant : Type 0 where
  pub local_index : ℕ
  pub participant_id : ℕ

pub record Platform : Type 1 where
  -- flood
  pub InStream : Type 0
  pub OutStream : Type 0
  pub in_init : List ℕ → InStream
  pub in_size : InStream → ℕ
  pub check_marker : InStream → ℕ → InStream
  pub read_u8 : InStream → ℤ × ℕ × InStream
  pub read_i8 : InStream → ℤ × ℤ × InStream
  pub read_u16 : InStream → ℤ × ℕ × InStream
  pub read_u32 : InStream → ℤ × ℕ × InStream
  pub out_init : ℕ → OutStream
  pub out_pos : OutStream → ℕ
  pub out_octets : OutStream → List ℕ
  pub write_u8 : OutStream → ℕ → OutStream
  pub write_u16 : OutStream → ℕ → ℤ × OutStream
  -- datagram-transport; `send_result n` is what the n-th send of the run returns
  pub Transport : Type 0
  pub datagram_max_size : ℕ
  pub send_result : ℕ → ℤ
  -- ordered-datagram
  pub OrderedIn : Type 0
  pub OrderedOut : Type 0
  pub ordered_in_init : OrderedIn
  pub ordered_out_init : OrderedOut
  pub ordered_receive : OrderedIn → InStream → ℤ × OrderedIn × InStream
  pub ordered_prepare : OrderedOut → OutStream → OrderedOut × OutStream
  pub ordered_commit : OrderedOut → OrderedOut
  -- monotonic-time; `clock n` is what the n-th reading of the clock returns
  pub clock : ℕ → ℤ
  pub time_from_lower_bits : ℤ → ℕ → ℤ
  pub time_to_lower_bits : ℤ → ℕ
  -- stats
  pub StatsInt : Type 0
  pub stats_init : ℕ → StatsInt
  pub stats_add : StatsInt → ℤ → StatsInt
  pub avg_is_set : StatsInt → Bool
  pub avg : StatsInt → ℤ
  pub PerSecond : Type 0
  pub per_second_init : ℤ → ℕ → PerSecond
  pub per_second_add : PerSecond → ℤ → PerSecond
  pub per_second_update : PerSecond → ℤ → PerSecond
  pub HoldPositive : Type 0
  pub hold_init : ℕ → HoldPositive
  pub hold_add : HoldPositive → Bool → HoldPositive
  -- lagometer
  pub Lagometer : Type 0
  pub lagometer_init : Lagometer
  pub lagometer_add : Lagometer → LagometerPacket → Lagometer
  -- nimble-steps, nimble-steps-serialize
  pub Steps : Type 0
  pub PendingSteps : Type 0
  -- the pointer to a blob allocator, which the pending steps keep for the memory of their own steps
  pub BlobAllocator : Type 0
  pub step_max : ℕ
  pub max_redundancy_count : ℕ
  pub combined_size : ℕ → ℕ → ℕ
  pub steps_init : ℕ → Steps
  pub steps_reset : Steps → Steps
  pub steps_re_init : Steps → ℕ → Steps
  pub steps_discard_up_to : Steps → ℕ → Steps
  pub steps_read : Steps → ℕ → ℤ × ℕ × List ℕ × Steps
  pub expected_write_id : Steps → ℕ
  pub steps_count : Steps → ℕ
  pub steps_out_serialize : OutStream → Steps → ℤ × OutStream × Steps
  pub pending_init : ℕ → BlobAllocator → PendingSteps
  pub pending_reset : PendingSteps → ℕ → PendingSteps
  pub pending_receive_mask : PendingSteps → ℕ × ℕ
  pub pending_copy : Steps → PendingSteps → ℤ × Steps × PendingSteps
  pub pending_in_serialize : InStream → PendingSteps → ℤ × InStream × PendingSteps
  pub pending_out_header : OutStream → ℕ → ℕ → ℤ × OutStream
  -- nimble-serialize; `nonce_count` is the number of values of NimbleSerializeNonce
  pub Version : Type 0
  pub Secret : Type 0
  pub JoinContent : Type 0
  pub nonce_count : ℕ
  pub command_of : ℕ → IncomingCommand
  pub in_connect_response : InStream → ℤ × ConnectResponse × InStream
  pub in_join_response : InStream → ℤ × Secret × List ResponseParticipant × InStream
  pub in_nonce : InStream → ℤ × ℕ × InStream
  pub in_state_id : InStream → ℤ × ℕ × InStream
  pub in_channel_id : InStream → ℤ × ℕ × InStream
  pub write_command : OutStream → OutgoingCommand → OutStream
  pub write_connect_request : OutStream → Version → Bool → ℕ → OutStream
  pub write_join_request : OutStream → ℕ → JoinContent → OutStream
  -- blob-stream; the receiving logic writes the stream that it points to
  pub BlobIn : Type 0
  pub BlobLogicIn : Type 0
  pub blob_logic_receive : BlobLogicIn → BlobIn → InStream → ℤ × BlobLogicIn × BlobIn × InStream
  pub blob_logic_send : BlobLogicIn → BlobIn → OutStream → ℤ × BlobLogicIn × OutStream
  pub blob_is_complete : BlobIn → Bool
  pub blob_octets : BlobIn → List ℕ
  pub blob_octet_count : BlobIn → ℕ
  -- the C compiler's `float`
  pub Float : Type 0
  pub float_one : Float
  pub float_zero : Float
  pub float_nine_tenths : Float
  pub float_five : Float
  pub float_of_size : ℕ → Float
  pub float_sub : Float → Float → Float
  pub float_mul : Float → Float → Float
  pub float_div : Float → Float → Float
  pub float_to_u8 : Float → ℕ

-- ===== src/Tests/Toy.antt =====
-- A small platform, to run the model on: streams are lists of octets, a datagram begins with its
-- sequence number, the marker and two octets of time, and a statistic keeps its last value.
use nimble_client_c.Prelude.{
  zero, ◌^◌, ◌+ℤ◌, pos_part, ◌+◌, ◌%◌, replicate, ◌-◌, ◌/◌, ◌*◌, ltb, true, if◌then◌else◌, ◌++◌,
  ◌-ℤ◌, negsuc, none, false, length, [], Bool, some, ◌∷◌, pos, suc, ℤ, ◌∷◌, ℕ, List, Option,
}
use nimble_client_c.Platform.{
  unknown, out_of_participant_slots_response, game_state_response, join_game_response,
  game_step_response, game_step, server_out_blob_stream, connect_response,
  download_game_state_request, ConnectResponse, ResponseParticipant, client_out_blob_stream,
  Platform, IncomingCommand, OutgoingCommand,
}

abbrev read_octet : List ℕ → ℤ × ℕ × List ℕ
read_octet [] = (negsuc 0, 0, [])
read_octet (x ∷ xs) = (pos 0, x, xs)

abbrev read_pair : List ℕ → ℤ × ℕ × List ℕ
read_pair [] = (negsuc 0, 0, [])
read_pair (x ∷ []) = (negsuc 0, 0, [])
read_pair (x ∷ y ∷ xs) = (pos 0, x * 256 + y, xs)

abbrev read_signed : List ℕ → ℤ × ℤ × List ℕ
read_signed s =
    let (code, x, rest) = read_octet s in
    (code, if ltb x 128 then pos x else negsuc (255 - x), rest)

abbrev skip_marker : List ℕ → ℕ → List ℕ
skip_marker [] m = []
skip_marker (x ∷ xs) m = xs

abbrev receive_order : ℕ → List ℕ → ℤ × ℕ × List ℕ
receive_order last s =
    let (_, id, rest) = read_octet s in (pos id -ℤ pos last, if ltb last id then id else last, rest)

abbrev toy_command : ℕ → IncomingCommand
toy_command (suc zero) = connect_response
toy_command (suc (suc zero)) = server_out_blob_stream
toy_command (suc (suc (suc zero))) = game_step_response
toy_command (suc (suc (suc (suc zero)))) = join_game_response
toy_command (suc (suc (suc (suc (suc zero))))) = game_state_response
toy_command (suc (suc (suc (suc (suc (suc zero)))))) = out_of_participant_slots_response
toy_command _ = unknown

abbrev code_of : OutgoingCommand → ℕ
code_of client_out_blob_stream = 1
code_of download_game_state_request = 2
code_of game_step = 3

abbrev toy_connect_response : List ℕ → ℤ × ConnectResponse × List ℕ
toy_connect_response s =
    let (code, id, rest) = read_octet s in
    (code, record { use_debug_streams = false; connection_id = id }, rest)

abbrev toy_participants : List ℕ → List ResponseParticipant
toy_participants [] = []
toy_participants (x ∷ []) = []
toy_participants (x ∷ y ∷ xs) = record { local_index = x; participant_id = y } ∷ toy_participants xs

abbrev toy_join_response : List ℕ → ℤ × ℕ × List ResponseParticipant × List ℕ
toy_join_response s =
    let (code, secret, rest) = read_octet s in (code, secret, toy_participants rest, [])

abbrev is_some_int : Option ℤ → Bool
is_some_int none = false
is_some_int (some a) = true

abbrev int_or_zero : Option ℤ → ℤ
int_or_zero none = pos 0
int_or_zero (some a) = a

abbrev has_octets : List ℕ → Bool
has_octets [] = false
has_octets (x ∷ xs) = true

-- A step is an id without octets; there is no room for it in no octets.
abbrev read_toy_step : ℕ → ℕ → ℤ × ℕ × List ℕ × ℕ
read_toy_step s zero = (negsuc 0, 0, [], s)
read_toy_step s (suc n) = (pos 1, s, [], (s + 1) % 2 ^ 32)

abbrev pub toy : Platform
toy = record {
  InStream = List ℕ;
  OutStream = List ℕ;
  in_init = λ os. os;
  in_size = λ s. length s;
  check_marker = skip_marker;
  read_u8 = read_octet;
  read_i8 = read_signed;
  read_u16 = read_pair;
  read_u32 = read_pair;
  out_init = λ n. [];
  out_pos = λ s. length s;
  out_octets = λ s. s;
  write_u8 = λ s x. s ++ x ∷ [];
  write_u16 = λ s x. (pos 0, s ++ (x / 256) ∷ (x % 256) ∷ []);
  Transport = ℕ;
  datagram_max_size = 1200;
  send_result = λ n. pos 0;
  OrderedIn = ℕ;
  OrderedOut = ℕ;
  ordered_in_init = 0;
  ordered_out_init = 0;
  ordered_receive = receive_order;
  ordered_prepare = λ n s. (n, s ++ (n % 256) ∷ []);
  ordered_commit = λ n. (n + 1) % 256;
  clock = λ n. pos (16 * n + 1000);
  time_from_lower_bits = λ now low. pos low;
  time_to_lower_bits = λ now. pos_part now % 65536;
  StatsInt = Option ℤ;
  stats_init = λ n. none;
  stats_add = λ s a. some a;
  avg_is_set = is_some_int;
  avg = int_or_zero;
  PerSecond = ℤ;
  per_second_init = λ now n. pos 0;
  per_second_add = λ s a. s +ℤ a;
  per_second_update = λ s now. s;
  HoldPositive = Bool;
  hold_init = λ n. false;
  hold_add = λ s b. b;
  Lagometer = ℕ;
  lagometer_init = 0;
  lagometer_add = λ l p. l + 1;
  Steps = ℕ;
  PendingSteps = ℕ;
  BlobAllocator = ℕ;
  step_max = 2 ^ 32 - 1;
  max_redundancy_count = 2;
  combined_size = λ n m. n * m;
  steps_init = λ n. 0;
  steps_reset = λ s. 0;
  steps_re_init = λ s id. id;
  steps_discard_up_to = λ s id. id;
  steps_read = read_toy_step;
  expected_write_id = λ s. s;
  steps_count = λ s. 0;
  steps_out_serialize = λ out s. (pos s, out ++ replicate s 7, s);
  pending_init = λ n allocator. n;
  pending_reset = λ p id. id;
  pending_receive_mask = λ p. (0, p);
  pending_copy = λ s p. (pos 0, s, p);
  pending_in_serialize = λ s p. (pos 1, s, p + 1);
  pending_out_header = λ out id mask. (pos 0, out ++ id ∷ []);
  Version = ℕ;
  Secret = ℕ;
  JoinContent = ℕ;
  nonce_count = 256;
  command_of = toy_command;
  in_connect_response = toy_connect_response;
  in_join_response = toy_join_response;
  in_nonce = read_octet;
  in_state_id = read_octet;
  in_channel_id = read_octet;
  write_command = λ s cmd. s ++ code_of cmd ∷ replicate 9 0;
  write_connect_request = λ s v d id. s ++ v ∷ id ∷ replicate 9 0;
  write_join_request = λ s n x. s ++ n ∷ x ∷ replicate 9 0;
  BlobIn = List ℕ;
  BlobLogicIn = ℕ;
  blob_logic_receive = λ l b s. (pos 0, l + 1, s, []);
  blob_logic_send = λ l b out. (pos 0, l, out ++ replicate 10 l);
  blob_is_complete = has_octets;
  blob_octets = λ b. b;
  blob_octet_count = λ b. length b;
  Float = ℕ;
  float_one = 1;
  float_zero = 0;
  float_nine_tenths = 1;
  float_five = 5;
  float_of_size = λ n. n;
  float_sub = λ a b. a - b;
  float_mul = λ a b. a * b;
  float_div = λ a b. a / b;
  float_to_u8 = λ a. a;
}

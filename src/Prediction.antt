-- ===== src/Prediction.antt =====
-- src/lib/client_utils.c: which step the client should predict and send now.
pub mod Bounds
use nimble_client_c.Client.{NimbleClient}
use nimble_client_c.Prelude.{
  true, false, none, ◌^◌, ◌%◌, ◌+◌, ltb, ltb_ℤ, ◌-ℤ◌, ◌/◌, to_size, some, pos, ℕ, if◌then◌else◌,
  Option, Bool, ℤ,
}
use nimble_client_c.Platform.{Platform}

-- The ticks that the buffer of the server adds, from its average delta.
pub buffer_delta_ticks : ℤ → ℕ
buffer_delta_ticks delta =
    let ticks = to_size (pos 2 -ℤ delta) in
    if ltb_ℤ delta (pos 2) then if ltb 5 ticks then 5 else ticks else 0

module _ {P : Platform} where
  open P use {avg_is_set, avg, expected_write_id, step_max}

  -- The average latency, not below 0.
  latency_of : NimbleClient P → ℕ
  latency_of c =
      let latency = avg c.latency_ms_stat in
      to_size (if ltb_ℤ latency (pos 0) then pos 0 else latency)

  unfoldable pub buffer_delta_of : NimbleClient P → ℤ
  buffer_delta_of c =
      if avg_is_set c.authoritative_buffer_delta_stat
      then avg c.authoritative_buffer_delta_stat
      else pos 0

  -- `none` is the `false` that leaves `*outDiff` as it is.
  pub calculate_optimal_send_prediction_tick_count : NimbleClient P → Option ℕ
  unfolding buffer_delta_ticks latency_of buffer_delta_of
  calculate_optimal_send_prediction_tick_count c =
      if avg_is_set c.latency_ms_stat
      then some (
          (latency_of c / c.expected_tick_duration_ms + 1 + buffer_delta_ticks (buffer_delta_of c))
          % 2 ^ 64)
      else none

  -- The result, the step id, and the difference where there is one.
  pub optimal_step_id_to_send : NimbleClient P → Bool × ℕ × Option ℕ
  unfolding calculate_optimal_send_prediction_tick_count
  optimal_step_id_to_send c = elim (calculate_optimal_send_prediction_tick_count c) [
    | none ↦ (false, step_max, none)
    | some diff ↦
        (true, (expected_write_id c.authoritative_steps + diff % 2 ^ 32) % 2 ^ 32, some diff)
  ]

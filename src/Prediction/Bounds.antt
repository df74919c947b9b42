-- ===== src/Prediction/Bounds.antt =====
-- The step that is predicted: client_utils.c.
use Prim.Native.Nat.{min}
use native.Mathlib.Nat.{div-le_self}
use nimble_client_c.Prelude.{
  refl, ◌%◌, ℕ, some, true, ℤ, negsuc, arith, pos, ap, ◌-◌, neg_part, ◌+◌, ◌/◌, ◌^◌, ◌<◌, pos_part,
  ◌≡◌,
}
use nimble_client_c.Platform.{Platform}
use nimble_client_c.Client.{NimbleClient}
use nimble_client_c.Prediction.{
  optimal_step_id_to_send, buffer_delta_ticks, calculate_optimal_send_prediction_tick_count,
  buffer_delta_of,
}

-- The ticks that the buffer adds: how far its delta is below 2, but five at most.
buffer_delta_ticks_lem :
    (delta : ℤ)
    → pos_part delta < 2 ^ 31
    → neg_part delta + 2 < 2 ^ 31
    → buffer_delta_ticks delta ≡ min 5 (2 + neg_part delta - pos_part delta)
unfolding buffer_delta_ticks
buffer_delta_ticks_lem (pos n) h k = ground arith
buffer_delta_ticks_lem (negsuc n) h k = ground arith

-- An average of the statistics, as an `int` for which `2 - a` is an `int` too.
abbrev pub IsInt : ℤ → Type 0
IsInt a = (pos_part a < 2 ^ 31) × (neg_part a + 2 < 2 ^ 31)

-- The ticks to predict for an average latency, a tick duration and an average buffer delta.
abbrev pub ticks_ahead : ℤ → ℕ → ℤ → ℕ
ticks_ahead latency duration delta =
    pos_part latency / duration + 1 + min 5 (2 + neg_part delta - pos_part delta)

-- The way from one step id to another, which wrap around at 32 bits.
abbrev pub step_distance : ℕ → ℕ → ℕ
step_distance from to = (to + 2 ^ 32 - from) % 2 ^ 32

step_distance-forward :
    (id n : ℕ) → id < 2 ^ 32 → n < 2 ^ 32 → step_distance id ((id + n % 2 ^ 32) % 2 ^ 32) ≡ n
step_distance-forward id n h k = omega arith

ticks_ahead_lt :
    (latency delta : ℤ) (duration : ℕ)
    → pos_part latency < 2 ^ 31
    → ticks_ahead latency duration delta < 2 ^ 32
ticks_ahead_lt latency delta duration h =
    let le = div-le_self (pos_part latency) duration in omega (arith, le)

module _ {P : Platform} (c : NimbleClient P) (known : P.avg_is_set c.latency_ms_stat ≡ true)
    (latency : IsInt (P.avg c.latency_ms_stat)) where
  -- With a latency known, the client predicts as many ticks as the latency has, one more, and at
  -- most five for the buffer of the server; a latency below 0 counts as 0. The averages are far
  -- enough from the ends of `int`.
  calculate_optimal_send_prediction_tick_count_lem :
      (delta : ℤ)
      → buffer_delta_of c ≡ delta
      → IsInt delta
      → calculate_optimal_send_prediction_tick_count c
        ≡ some (ticks_ahead (P.avg c.latency_ms_stat) c.expected_tick_duration_ms delta)
  unfolding calculate_optimal_send_prediction_tick_count
  calculate_optimal_send_prediction_tick_count_lem delta e i =
      rw (known, e) (ap some (ground (arith, buffer_delta_ticks_lem delta)))

  -- With a latency known, the step id to send is ahead of the next authoritative one by the ticks
  -- to predict, also where the 32 bits of the id wrap around, and the written difference is that.
  pub optimal_step_id_to_send-step_distance :
      (delta : ℤ)
      → buffer_delta_of c ≡ delta
      → IsInt delta
      → P.expected_write_id c.authoritative_steps < 2 ^ 32
      → let (worked, step_id, diff) = optimal_step_id_to_send c in
        let ahead = ticks_ahead (P.avg c.latency_ms_stat) c.expected_tick_duration_ms delta in
        (worked ≡ true)
        × (step_distance (P.expected_write_id c.authoritative_steps) step_id ≡ ahead)
        × (diff ≡ some ahead)
  unfolding optimal_step_id_to_send
  optimal_step_id_to_send-step_distance delta e i id =
      rw (optimal_step_id_to_send, calculate_optimal_send_prediction_tick_count_lem delta e i)
        (
          refl,
          step_distance-forward (P.expected_write_id c.authoritative_steps)
              (ticks_ahead (P.avg c.latency_ms_stat) c.expected_tick_duration_ms delta) id
              (ticks_ahead_lt (P.avg c.latency_ms_stat) delta c.expected_tick_duration_ms
                latency.0),
          refl,
        )

-- ===== src/Pong.antt =====
-- src/lib/pong.c: the latency of the connection, from the time that the server sends back.
use nimble_client_c.Client.{Outcome, World, NimbleClient}
use nimble_client_c.Prelude.{
  suc, ◌-ℤ◌, pos, is_negative, to_size, to_int, ltb_ℤ, if◌then◌else◌, ℤ, ℕ,
}
pub mod Latency
use nimble_client_c.Quality
use nimble_client_c.Platform.{Platform}

-- The latency that a pong gives, kept where the clock has gone backwards.
pub measured_latency : ℕ → ℤ → ℤ → ℕ
measured_latency old now sent_at = if ltb_ℤ now sent_at then old else to_size (now -ℤ sent_at)

module _ {P : Platform} where
  open P use {InStream, check_marker, read_u16, clock, time_from_lower_bits, stats_add}

  -- Also returns the stream after what was read.
  unfoldable pub receive_pong : NimbleClient P → World P → InStream → Outcome P × InStream
  unfolding measured_latency Quality.game_step_latency
  receive_pong c w stream =
      let (read_result, short_ms, s) = read_u16 (check_marker stream 0xdd) in
      let now = clock w.clock_reads in
      let latency_ms = measured_latency c.latency_ms now (time_from_lower_bits now short_ms) in
      let measured = record c {
        latency_ms = latency_ms;
        quality = Quality.game_step_latency c.quality latency_ms;
        latency_ms_stat =
            if c.use_stats
            then stats_add c.latency_ms_stat (to_int latency_ms)
            else c.latency_ms_stat;
      } in
      if is_negative read_result
      then (record { code = read_result; client = c; world = w }, s)
      else (
        record {
          code = pos 0;
          client = measured;
          world = record w { clock_reads = suc w.clock_reads };
        },
        s,
      )

-- ===== src/Pong/Latency.antt =====
-- The latency from a pong: pong.c.
use nimble_client_c.Prelude.{
  pos, suc, to_int, false, is_negative, ℤ, ℕ, refl, ap, if◌then◌else◌, arith, ◌^◌, ◌<◌, ◌≡◌, ◌-ℤ◌,
}
use nimble_client_c.Platform.{Platform}
use nimble_client_c.Client.{NimbleClient, World}
use nimble_client_c.Pong.{receive_pong, measured_latency}

-- The reading of the time that a pong brings back, and that time in full.
abbrev pub pong_read : (P : Platform) → P.InStream → ℤ × ℕ × P.InStream
pong_read P s = P.read_u16 (P.check_marker s 0xdd)

abbrev pub sent_at : {P : Platform} → World P → P.InStream → ℤ
sent_at {P} w s = P.time_from_lower_bits (P.clock w.clock_reads) (pong_read P s).1

measured_latency_lem :
    (old : ℕ) (now since : ℤ) (latency : ℕ)
    → now -ℤ since ≡ pos latency
    → latency < 2 ^ 64
    → measured_latency old now since ≡ latency
unfolding measured_latency
measured_latency_lem old now since latency apart small = ground arith

-- If the time of sending is not after the clock's, the two less than 2 ^ 64 ms apart, a pong sets
-- the latency to the time between them, to which both averages are given its low 32 bits as an int
-- (that of the client while it uses statistics), and reads the clock once.
receive_pong_measures :
    {P : Platform} (c : NimbleClient P) (w : World P) (s : P.InStream) (latency : ℕ)
    → is_negative (pong_read P s).0 ≡ false
    → P.clock w.clock_reads -ℤ sent_at w s ≡ pos latency
    → latency < 2 ^ 64
    → let o = (receive_pong c w s).0 in
      (o.code ≡ pos 0)
      × (o.client.latency_ms ≡ latency)
      × (o.client.quality.latency_ms_stat ≡ P.stats_add c.quality.latency_ms_stat (to_int latency))
      × (o.client.latency_ms_stat ≡ (
          if c.use_stats
          then P.stats_add c.latency_ms_stat (to_int latency)
          else c.latency_ms_stat))
      × (o.world.clock_reads ≡ suc w.clock_reads)
unfolding receive_pong
receive_pong_measures {P} c w s latency ok apart small =
    let measured : measured_latency c.latency_ms (P.clock w.clock_reads) (sent_at w s) ≡ latency =
      measured_latency_lem c.latency_ms (P.clock w.clock_reads) (sent_at w s) latency apart small in
    rw ok (
      refl,
      measured,
      ap (λ l. P.stats_add c.quality.latency_ms_stat (to_int l)) measured,
      ap (λ l. if c.use_stats then P.stats_add c.latency_ms_stat (to_int l) else c.latency_ms_stat)
          measured,
      refl,
    )

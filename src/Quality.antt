-- ===== src/Quality.antt =====
-- src/lib/connection_quality.c: the ticks without news from the server, the rating, and the
-- recommendation to disconnect. The build without CLOG_LOG_ENABLED is modelled, in which the calls
-- of `nimbleClientConnectionQualityDescribe` in the update are not compiled.
pub mod Silence
pub mod Patience
pub mod Logging
pub mod Rating
use nimble_client_c.Prelude.{
  ℕ, ◌+◌, ◌-◌, ◌%◌, ◌^◌, Bool, true, false, ℤ, pos, ltb, leb, ◌==◌, if◌then◌else◌, ◌-ℤ◌, to_int,
  to_size, inc_size, magnitude,
}
use nimble_client_c.Platform.{Platform}
use nimble_client_c.Client.{
  ConnectionQuality, DisconnectReason, keep_connection, not_receiving_steps,
  not_receiving_datagrams, ClientState, idle, requesting_connect, connected,
  joining_requesting_state, joining_downloading_state, synced, disconnected,
}

abbrev pub is_synced : ClientState → Bool
is_synced synced = true
is_synced _ = false

abbrev pub is_keep : DisconnectReason → Bool
is_keep keep_connection = true
is_keep _ = false

abbrev max_ticks_without_datagrams : ℕ
max_ticks_without_datagrams = 40

abbrev max_ticks_without_steps : ℕ
max_ticks_without_steps = 15

-- What `nimbleClientConnectionQualityDescribe` writes: one of its three texts, with the numbers in it,
-- the rating last.
pub data Description : Type 0 where
  all_good : ℕ → Description
  ticks_since_step : ℕ → ℕ → Description
  ticks_since_datagram : ℕ → ℕ → Description

module _ {P : Platform} where
  open P use {
    stats_init, stats_add, avg_is_set, avg, hold_init, hold_add, Float, float_one, float_zero,
    float_nine_tenths, float_five, float_of_size, float_sub, float_mul, float_div, float_to_u8,
  }

  -- `qualityRating` keeps its value.
  unfoldable pub reset : ConnectionQuality P → ConnectionQuality P
  reset q = record q {
    dropping_datagram_warning = hold_init 20;
    impending_disconnect_warning = hold_init 20;
    latency_ms_stat = stats_init 3;
    rating_stat = stats_init 10;
    last_latency_ms = 0;
    ticks_without_steps = 0;
    ticks_without_datagrams = 0;
    considering_disconnect_counter = 0;
    dropped_datagram_counter = 0;
    reason = keep_connection;
  }

  unfoldable pub init : ConnectionQuality P → ConnectionQuality P
  unfolding reset
  init q = reset q

  -- The rating of the latencies: the jitter and latency factors, and the latency to remember.
  latency_factors : ConnectionQuality P → (ℕ → ℕ → ℕ → Float) → Float × Float × ℕ
  latency_factors q degrade =
      let latency_avg = to_size (avg q.latency_ms_stat) in
      let latency_diff = to_int latency_avg -ℤ to_int q.last_latency_ms in
      let jitter = if ltb 3 (magnitude latency_diff) then float_nine_tenths else float_one in
      if avg_is_set q.latency_ms_stat
      then (jitter, degrade latency_avg 250 60, latency_avg)
      else (float_one, float_one, q.last_latency_ms)

-- The factor for a value that is better the lower it is.
degrade_low_is_better : (P : Platform) → ℕ → ℕ → ℕ → P.Float
degrade_low_is_better P v divisor lower_threshold =
    if ltb v lower_threshold
    then P.float_one
    else if ltb divisor v
    then P.float_zero
    else P.float_sub P.float_one (
        P.float_div (P.float_of_size (v - lower_threshold))
          (P.float_of_size (divisor - lower_threshold)))

module _ {P : Platform} where
  open P use {stats_add, hold_add, float_mul, float_five, float_to_u8}

  -- The rating that `evaluate` stores, and the latency that it remembers.
  pub rate : ConnectionQuality P → ConnectionQuality P
  unfolding degrade_low_is_better latency_factors
  rate q =
      let degrade = degrade_low_is_better P in
      let datagrams = degrade q.ticks_without_datagrams max_ticks_without_datagrams 10 in
      let steps = degrade q.ticks_without_steps max_ticks_without_steps 10 in
      let dropping = degrade q.dropped_datagram_counter 10 1 in
      let (jitter, latency, latency_avg) = latency_factors q degrade in
      let total =
        float_mul (float_mul (float_mul (float_mul datagrams steps) latency) jitter) dropping in
      let rating = float_to_u8 (float_mul total float_five) in
      record q {
        last_latency_ms = latency_avg;
        quality_rating = rating;
        rating_stat = stats_add q.rating_stat (pos rating);
      }

  -- What `evaluate` returns.
  pub recommendation : ConnectionQuality P → DisconnectReason
  recommendation q =
      if leb max_ticks_without_datagrams q.ticks_without_datagrams
      then not_receiving_datagrams
      else if ltb max_ticks_without_steps q.ticks_without_steps
      then not_receiving_steps
      else keep_connection

  evaluate : ConnectionQuality P → DisconnectReason × ConnectionQuality P
  unfolding rate recommendation
  evaluate q = (recommendation q, rate q)

  -- The text for what `evaluate` returned, from the quality after it.
  description : DisconnectReason → ConnectionQuality P → Description
  description keep_connection q = all_good q.quality_rating
  description not_receiving_steps q = ticks_since_step q.ticks_without_steps q.quality_rating
  description not_receiving_datagrams q =
      ticks_since_datagram q.ticks_without_datagrams q.quality_rating

  -- Describing evaluates, and so changes the rating and the remembered latency.
  describe : ConnectionQuality P → Description × ConnectionQuality P
  unfolding evaluate description
  describe q = let (reason, q') = evaluate q in (description reason q', q')

  -- The counting at the head of the update.
  pub count_tick : ConnectionQuality P → ConnectionQuality P
  count_tick q = record q {
    ticks_without_steps = inc_size q.ticks_without_steps;
    ticks_without_datagrams = inc_size q.ticks_without_datagrams;
    dropped_datagram_counter =
        if ltb 0 q.dropped_datagram_counter
        then q.dropped_datagram_counter - 1
        else q.dropped_datagram_counter;
  }

  -- The branches of the update on what `evaluate` returned.
  pub consider : DisconnectReason → ConnectionQuality P → ConnectionQuality P
  consider reason q =
      if is_keep reason
      then if ltb 0 q.considering_disconnect_counter
        then record q { considering_disconnect_counter = q.considering_disconnect_counter - 1 }
        else q
      else let counter = inc_size q.considering_disconnect_counter in
        let counted = record q { considering_disconnect_counter = counter } in
        if ltb 60 counter then record counted { reason = reason } else counted

  unfoldable pub update : ConnectionQuality P → ClientState → ConnectionQuality P
  unfolding count_tick evaluate consider
  update q client_state =
      let (reason, q') = evaluate (count_tick q) in
      if is_synced client_state then consider reason q' else q

  unfoldable pub dropped_datagrams : ConnectionQuality P → ℕ → ConnectionQuality P
  dropped_datagrams q delta = record q {
    dropped_datagram_counter = (q.dropped_datagram_counter + delta) % 2 ^ 64;
    dropping_datagram_warning = hold_add q.dropping_datagram_warning (ltb 1 delta);
  }

  unfoldable pub received_usable_datagram : ConnectionQuality P → ConnectionQuality P
  received_usable_datagram q = record q {
    ticks_without_datagrams = 0;
    dropping_datagram_warning = hold_add q.dropping_datagram_warning false;
  }

  unfoldable pub received_authoritative_steps : ConnectionQuality P → ConnectionQuality P
  received_authoritative_steps q = record q { ticks_without_steps = 0 }

  unfoldable pub game_step_latency : ConnectionQuality P → ℕ → ConnectionQuality P
  game_step_latency q latency_in_ms = record q {
    latency_ms_stat = stats_add q.latency_ms_stat (to_int latency_in_ms);
  }

  unfoldable pub should_disconnect : ConnectionQuality P → Bool
  should_disconnect q = if is_keep q.reason then false else true

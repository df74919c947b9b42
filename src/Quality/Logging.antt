-- ===== src/Quality/Logging.antt =====
-- connection_quality.c in a build with CLOG_LOG_ENABLED, where the notices of the update describe
-- the quality, and to describe it is to evaluate it once more.
pub mod Unrated
use nimble_client_c.Client.{not_receiving_datagrams, not_receiving_steps}
use nimble_client_c.Quality.Patience.{run, steps, usable_datagram, latency, tick, Call, apply}
use nimble_client_c.Prelude.{
  arith, ap, ◌∙◌, false, true, inr, inl, Bool-cases, ◌++◌, ◌%◌, ◌&&◌, ltb, [], ◌∷◌, ◌==◌, refl,
  inc_size, ◌-◌, if◌then◌else◌, List, ◌≡◌,
}
use nimble_client_c.Platform.{Platform}
use nimble_client_c.Quality.{
  should_disconnect, game_step_latency, received_authoritative_steps, received_usable_datagram,
  dropped_datagrams, recommendation, keep_connection, consider, update, is_keep, is_synced,
  count_tick, evaluate, ClientState, DisconnectReason, ConnectionQuality, rate, ℕ, describe, Bool,
  Description,
}

-- A notice that the update logs.
pub data Notice : Type 0 where
  forgiven : Notice
  noticed_degradation : Description → Notice
  still_thinking : Description → Notice
  gave_up : Description → Notice

module _ {P : Platform} where
  -- A notice with the description as its argument. Whether the logging evaluates the argument of a
  -- notice, which a filter on levels might not, is the first argument; an unwanted notice is not
  -- logged either.
  pub notice_described :
      Bool → (Description → Notice) → ConnectionQuality P → List Notice × ConnectionQuality P
  unfolding describe
  notice_described evaluates notice q =
      let (text, q') = describe q in if evaluates then (notice text ∷ [], q') else ([], q)

  -- The `if`s of the update around its notices.
  pub notice_if :
      Bool → Bool → (Description → Notice) → ConnectionQuality P → List Notice × ConnectionQuality P
  unfolding notice_described
  notice_if evaluates test notice q = if test then notice_described evaluates notice q else ([], q)

  -- The branch that keeps the connection.
  pub forgive : Bool → ConnectionQuality P → List Notice × ConnectionQuality P
  forgive evaluates q =
      let counter = q.considering_disconnect_counter - 1 in
      let q' = record q { considering_disconnect_counter = counter } in
      if ltb 0 q.considering_disconnect_counter
      then if evaluates && counter == 0 then (forgiven ∷ [], q') else ([], q')
      else ([], q)

  -- The branch that counts towards the disconnect.
  pub suspect : Bool → DisconnectReason → ConnectionQuality P → List Notice × ConnectionQuality P
  unfolding notice_if
  suspect evaluates reason q =
      let counter = inc_size q.considering_disconnect_counter in
      let q1 = record q { considering_disconnect_counter = counter } in
      let (first, q2) = notice_if evaluates (counter == 1) noticed_degradation q1 in
      let (again, q3) = notice_if evaluates (counter % 20 == 0) still_thinking q2 in
      let q4 = if ltb 60 counter then record q3 { reason = reason } else q3 in
      let (last, q5) = notice_if evaluates (ltb 60 counter) gave_up q4 in
      (first ++ again ++ last, q5)

  unfoldable pub update_logged :
      Bool → ConnectionQuality P → ClientState → List Notice × ConnectionQuality P
  unfolding evaluate forgive suspect
  update_logged evaluates q client_state =
      let (reason, q') = evaluate (count_tick q) in
      if is_synced client_state
      then if is_keep reason then forgive evaluates q' else suspect evaluates reason q'
      else ([], q)

-- ===== src/Quality/Logging/Unrated.antt =====
-- The logging build of connection_quality.c decides as the other one does.
use nimble_client_c.Quality.Logging.{
  gave_up, still_thinking, noticed_degradation, Notice, notice_if, forgive, update_logged, suspect,
}
use nimble_client_c.Client.{not_receiving_datagrams, not_receiving_steps}
use nimble_client_c.Quality.Patience.{run, steps, usable_datagram, latency, tick, Call, apply}
use nimble_client_c.Prelude.{
  arith, ap, ◌∙◌, false, true, inr, inl, Bool-cases, ◌%◌, ltb, [], ◌∷◌, ◌==◌, refl, inc_size,
  if◌then◌else◌, List, ◌≡◌,
}
use nimble_client_c.Platform.{Platform}
use nimble_client_c.Quality.{
  should_disconnect, game_step_latency, received_authoritative_steps, received_usable_datagram,
  dropped_datagrams, recommendation, keep_connection, consider, update, is_keep, is_synced,
  count_tick, ClientState, DisconnectReason, ConnectionQuality, rate, ℕ, Bool, Description,
}

-- What a decision rests on: all of the quality but the rating and the latency that it remembers.
pub record Unrated (P : Platform) : Type 0 where
  pub ticks_without_steps : ℕ
  pub ticks_without_datagrams : ℕ
  pub considering_disconnect_counter : ℕ
  pub dropped_datagram_counter : ℕ
  pub reason : DisconnectReason
  pub latency_ms_stat : P.StatsInt
  pub dropping_datagram_warning : P.HoldPositive
  pub impending_disconnect_warning : P.HoldPositive

abbrev pub unrated : {P : Platform} → ConnectionQuality P → Unrated P
unrated q = record {
  ticks_without_steps = q.ticks_without_steps;
  ticks_without_datagrams = q.ticks_without_datagrams;
  considering_disconnect_counter = q.considering_disconnect_counter;
  dropped_datagram_counter = q.dropped_datagram_counter;
  reason = q.reason;
  latency_ms_stat = q.latency_ms_stat;
  dropping_datagram_warning = q.dropping_datagram_warning;
  impending_disconnect_warning = q.impending_disconnect_warning;
}

module _ {P : Platform} where
  rate-unrated : (q : ConnectionQuality P) → unrated (rate q) ≡ unrated q
  unfolding rate
  rate-unrated q = refl

  notice_if-unrated :
      (evaluates test : Bool) (notice : Description → Notice) (q : ConnectionQuality P)
      → unrated (notice_if evaluates test notice q).1 ≡ unrated q
  unfolding notice_if
  notice_if-unrated evaluates true notice q = elim (Bool-cases evaluates) [
    | inl e ↦ rw e (rate-unrated q)
    | inr e ↦ rw e refl
  ]
  notice_if-unrated evaluates false notice q = refl

  forgive-unrated :
      (evaluates : Bool) (q : ConnectionQuality P)
      → unrated (forgive evaluates q).1 ≡ unrated (consider keep_connection q)
  unfolding forgive consider
  forgive-unrated evaluates q = ground arith

  suspect-unrated :
      (evaluates : Bool) (reason : DisconnectReason) (q : ConnectionQuality P)
      → is_keep reason ≡ false
      → unrated (suspect evaluates reason q).1 ≡ unrated (consider reason q)
  unfolding suspect consider
  suspect-unrated evaluates reason q bad =
      let counter = inc_size q.considering_disconnect_counter in
      let q1 = record q { considering_disconnect_counter = counter } in
      let q2 = (notice_if evaluates (counter == 1) noticed_degradation q1).1 in
      let q3 = (notice_if evaluates (counter % 20 == 0) still_thinking q2).1 in
      let same : unrated q3 ≡ unrated q1 =
        notice_if-unrated evaluates (counter % 20 == 0) still_thinking q2
        ∙ notice_if-unrated evaluates (counter == 1) noticed_degradation q1 in
      elim (Bool-cases (ltb 60 counter)) [
        | inl over ↦
            rw (bad, over)
              (notice_if-unrated evaluates true gave_up (record q3 { reason = reason })
                ∙ ap (λ (u : Unrated P). record u { reason = reason }) same)
        | inr under ↦ rw (bad, under) (notice_if-unrated evaluates false gave_up q3 ∙ same)
      ]

  decide-unrated :
      (evaluates : Bool) (reason : DisconnectReason) (q : ConnectionQuality P)
      → unrated (if is_keep reason then forgive evaluates q else suspect evaluates reason q).1
        ≡ unrated (consider reason q)
  decide-unrated evaluates keep_connection q = forgive-unrated evaluates q
  decide-unrated evaluates not_receiving_steps q =
      suspect-unrated evaluates not_receiving_steps q refl
  decide-unrated evaluates not_receiving_datagrams q =
      suspect-unrated evaluates not_receiving_datagrams q refl

  -- One tick decides the same whether the logging build describes the quality or not.
  update_logged-unrated :
      (evaluates : Bool) (q : ConnectionQuality P) (s : ClientState)
      → unrated (update_logged evaluates q s).1 ≡ unrated (update q s)
  unfolding update_logged update
  update_logged-unrated evaluates q s = elim (Bool-cases (is_synced s)) [
    | inr other ↦ rw other refl
    | inl ticks ↦
        rw ticks (decide-unrated evaluates (recommendation (count_tick q)) (rate (count_tick q)))
  ]

  -- The calls of the logging build: the ticks log.
  apply_logged : Bool → Call → ConnectionQuality P → ConnectionQuality P
  apply_logged evaluates (tick s) q = (update_logged evaluates q s).1
  apply_logged evaluates c q = apply c q

  apply_logged-unrated :
      (evaluates : Bool) (c : Call) (q : ConnectionQuality P)
      → unrated (apply_logged evaluates c q) ≡ unrated (apply c q)
  unfolding apply_logged apply
  apply_logged-unrated evaluates (tick s) q = update_logged-unrated evaluates q s
  apply_logged-unrated evaluates (Call.dropped n) q = refl
  apply_logged-unrated evaluates usable_datagram q = refl
  apply_logged-unrated evaluates steps q = refl
  apply_logged-unrated evaluates (latency n) q = refl

  pub run_logged : Bool → List Call → ConnectionQuality P → ConnectionQuality P
  unfolding apply_logged
  run_logged evaluates [] q = q
  run_logged evaluates (c ∷ cs) q = apply_logged evaluates c (run_logged evaluates cs q)

  consider-unrated :
      (reason : DisconnectReason) (q q' : ConnectionQuality P)
      → unrated q ≡ unrated q'
      → unrated (consider reason q) ≡ unrated (consider reason q')
  unfolding consider
  consider-unrated reason q q' e = ground arith

  count_tick-unrated :
      (q q' : ConnectionQuality P)
      → unrated q ≡ unrated q'
      → unrated (count_tick q) ≡ unrated (count_tick q')
  unfolding count_tick
  count_tick-unrated q q' e = cc

  recommendation-unrated :
      (q q' : ConnectionQuality P) → unrated q ≡ unrated q' → recommendation q ≡ recommendation q'
  unfolding recommendation
  recommendation-unrated q q' e = cc

  update-unrated :
      (s : ClientState) (q q' : ConnectionQuality P)
      → unrated q ≡ unrated q'
      → unrated (update q s) ≡ unrated (update q' s)
  unfolding update
  update-unrated s q q' e = elim (Bool-cases (is_synced s)) [
    | inr other ↦ rw other e
    | inl ticks ↦
        let counted = count_tick-unrated q q' e in
        let same = recommendation-unrated (count_tick q) (count_tick q') counted in
        rw ticks (
          ap (λ r. unrated (consider r (rate (count_tick q)))) same
          ∙ consider-unrated (recommendation (count_tick q')) (rate (count_tick q))
              (rate (count_tick q')) counted)
  ]

  -- `apply` reads nothing but the decision's part for that part.
  apply-unrated :
      (c : Call) (q q' : ConnectionQuality P)
      → unrated q ≡ unrated q'
      → unrated (apply c q) ≡ unrated (apply c q')
  unfolding apply dropped_datagrams received_usable_datagram received_authoritative_steps
      game_step_latency
  apply-unrated (tick s) q q' e = update-unrated s q q' e
  apply-unrated (Call.dropped n) q q' e = cc
  apply-unrated usable_datagram q q' e = cc
  apply-unrated steps q q' e = cc
  apply-unrated (latency n) q q' e = cc

  run_logged-unrated :
      (evaluates : Bool) (cs : List Call) (q : ConnectionQuality P)
      → unrated (run_logged evaluates cs q) ≡ unrated (run cs q)
  unfolding run run_logged
  run_logged-unrated evaluates [] q = refl
  run_logged-unrated evaluates (c ∷ cs) q =
      apply_logged-unrated evaluates c (run_logged evaluates cs q)
      ∙ apply-unrated c (run_logged evaluates cs q) (run cs q) (run_logged-unrated evaluates cs q)

  -- Over any calls in any order the logging build and the other one agree on everything but the
  -- rating and the latency that is remembered for it, whether or not the logging evaluates what its
  -- notices describe; so they recommend to disconnect at the same call.
  pub run_logged-run :
      (evaluates : Bool) (cs : List Call) (q : ConnectionQuality P)
      → (unrated (run_logged evaluates cs q) ≡ unrated (run cs q))
        × (should_disconnect (run_logged evaluates cs q) ≡ should_disconnect (run cs q))
  unfolding should_disconnect
  run_logged-run evaluates cs q =
      let same = run_logged-unrated evaluates cs q in
      (same, ap (λ u. if is_keep u.reason then false else true) same)

-- ===== src/Tests/Quality.antt =====
-- The theorems on the quality of a connection, at inputs that meet their hypotheses.
use nimble_client_c.Quality.Logging.Unrated.{run_logged-run, run_logged, unrated}
use nimble_client_c.Quality.Rating.{run-quality_rating, UnitInterval}
use nimble_client_c.Prelude.{◌<◌, inr, ◌≤◌, refl, [], ◌∷◌, true, arith, replicate, ◌≡◌, List}
use nimble_client_c.Tests.Fixture.{toy_quality}
use nimble_client_c.Tests.Toy.{toy}
use nimble_client_c.Client.{ClientState}
use nimble_client_c.Quality.{update, should_disconnect, reset}
use nimble_client_c.Quality.Patience.{
  should_disconnect_patient, count_synced_ticks, apply, Call, tick, usable_datagram, steps, run,
  run_counters,
}

abbrev calls : List Call
calls =
    tick ClientState.synced
    ∷ steps
    ∷ tick ClientState.synced
    ∷ tick ClientState.idle
    ∷ tick ClientState.synced
    ∷ usable_datagram
    ∷ []

run_counters_example :
    ((run calls (reset toy_quality)).ticks_without_steps ≡ 1)
    × ((run calls (reset toy_quality)).ticks_without_datagrams ≡ 3)
run_counters_example = run_counters calls toy_quality (omega arith)

abbrev many_ticks : List Call
many_ticks = replicate 76 (tick ClientState.synced)

many_ticks_disconnect : should_disconnect (run many_ticks (reset toy_quality)) ≡ true
unfolding should_disconnect run apply update reset
many_ticks_disconnect = refl

should_disconnect_patient_example : 60 < count_synced_ticks many_ticks
should_disconnect_patient_example =
    should_disconnect_patient many_ticks toy_quality (omega arith) many_ticks_disconnect

run_logged-run_example :
    (unrated (run_logged true many_ticks (reset toy_quality))
      ≡ unrated (run many_ticks (reset toy_quality)))
    × (should_disconnect (run_logged true many_ticks (reset toy_quality))
        ≡ should_disconnect (run many_ticks (reset toy_quality)))
run_logged-run_example = run_logged-run true many_ticks (reset toy_quality)

toy-UnitInterval : UnitInterval toy
toy-UnitInterval = record {
  In = λ x. x ≤ 1;
  one = omega arith;
  zero = omega arith;
  nine_tenths = omega arith;
  falling = λ a b h k. omega arith;
  product = λ x y h k. grind arith;
  scaled = λ x h. omega arith;
}

run-quality_rating_example :
    (run calls (record toy_quality { quality_rating = 200 })).quality_rating ≤ 5
run-quality_rating_example =
    run-quality_rating toy-UnitInterval calls (record toy_quality { quality_rating = 200 })
      (inr (omega arith))

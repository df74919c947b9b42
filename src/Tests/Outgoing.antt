-- ===== src/Tests/Outgoing.antt =====
-- The theorems on sending and on the prediction, at inputs that meet their hypotheses.
use nimble_client_c.Prelude.{◌-◌, ◌^◌, true, negsuc, refl, ◌≡◌, pos, some, arith}
use nimble_client_c.Tests.Fixture.{toy_client, toy_world, in_state}
use nimble_client_c.Tests.Toy.{toy}
use nimble_client_c.Client.{NimbleClient, ClientState}
use nimble_client_c.Outgoing.{outgoing}
use nimble_client_c.Outgoing.Downloading.{Acknowledges, outgoing_downloading}
use nimble_client_c.Prediction.{buffer_delta_of, optimal_step_id_to_send}
use nimble_client_c.Prediction.Bounds.{optimal_step_id_to_send-step_distance, step_distance}

-- A client whose next authoritative step is three short of the wrap-around.
abbrev wrapping_client : NimbleClient toy
wrapping_client = record toy_client {
  latency_ms_stat = some (pos 50);
  authoritative_buffer_delta_stat = some (negsuc 0);
  authoritative_steps = 2 ^ 32 - 3;
}

optimal_step_id_to_send-step_distance_example :
    let (worked, step_id, diff) = optimal_step_id_to_send wrapping_client in
    (worked ≡ true) × (step_distance (2 ^ 32 - 3) step_id ≡ 7) × (diff ≡ some 7)
unfolding buffer_delta_of
optimal_step_id_to_send-step_distance_example =
    optimal_step_id_to_send-step_distance wrapping_client refl (omega arith, omega arith) (negsuc 0)
      refl (omega arith, omega arith) (omega arith)

outgoing_downloading_example :
    Acknowledges
      (in_state ClientState.joining_downloading_state)
      toy_world
      (outgoing (in_state ClientState.joining_downloading_state) toy_world)
outgoing_downloading_example =
    outgoing_downloading (in_state ClientState.joining_downloading_state) toy_world refl

-- ===== src/Tests/Example.antt =====
-- The theorems on the example program, at a concrete platform.
use nimble_client_c.Realize.{realize_init, realize_re_init, join_game, RealizeState}
use nimble_client_c.Example.Spectating.{rounds-start, spectate}
use nimble_client_c.Client.{datagram}
use nimble_client_c.Prelude.{refl, ◌≡◌, ◌+◌, ◌∷◌, true, [], pos}
use nimble_client_c.Example.{running, Program, ExamplePlatform, start, rounds, Memory}
use nimble_client_c.Tests.Fixture.{toy_world, toy_realize}
use nimble_client_c.Tests.Toy.{toy}

abbrev toy_example : ExamplePlatform toy
toy_example = record {
  udp_startup = pos 0;
  steps_allowed_to_add = λ s. true;
  steps_write = λ s id octets. (pos 0, s + 1);
  step_text = λ id. id ∷ [];
  serialize_combined_step = λ id octets. (pos 1, octets);
  one_player = λ content index. index;
}

abbrev toy_memory : Memory toy
toy_memory = record {
  client_realize = toy_realize;
  settings = toy_realize.settings;
  join_content = 0;
}

abbrev started : Program toy
started = record {
  frame = 0;
  reported_state = RealizeState.init;
  client_realize =
      join_game
        (realize_re_init (realize_init toy_realize toy_world toy_realize.settings).0
          (realize_init toy_realize toy_world toy_realize.settings).1 toy_realize.settings).0
        0xca;
  world =
      (realize_re_init (realize_init toy_realize toy_world toy_realize.settings).0
        (realize_init toy_realize toy_world toy_realize.settings).1 toy_realize.settings).1;
}

start_runs : start toy_example toy_memory toy_world 2 7 ≡ running started
unfolding start
start_runs = refl

rounds-start_example :
    rounds toy_example ([] ∷ (datagram (1 ∷ 2 ∷ []) ∷ []) ∷ []) started
    ≡ running (spectate toy_example ([] ∷ (datagram (1 ∷ 2 ∷ []) ∷ []) ∷ []) started)
rounds-start_example =
    rounds-start toy_example toy_memory toy_world 2 7 started
      ([] ∷ (datagram (1 ∷ 2 ∷ []) ∷ []) ∷ []) start_runs

-- ===== src/Tests/Debug.antt =====
-- The log's lines at a concrete client and realizer.
use nimble_client_c.Client.{ClientState}
use nimble_client_c.Realize.{RealizeState}
use nimble_client_c.Prelude.{some, ◌≡◌}
use nimble_client_c.Debug.{realize_debug_output, client_debug_output}
use nimble_client_c.Debug.Names.{debug_output_lem, realize_line_states, client_line_state}
use nimble_client_c.Tests.Fixture.{toy_client, toy_realize}

debug_output_lem_example :
    (client_line_state (client_debug_output toy_client) ≡ some ClientState.idle)
    × (realize_line_states (realize_debug_output toy_realize)
        ≡ some (RealizeState.init, RealizeState.synced))
debug_output_lem_example = debug_output_lem toy_client toy_realize

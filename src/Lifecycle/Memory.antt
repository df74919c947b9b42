-- ===== src/Lifecycle/Memory.antt =====
-- What client.c frees.
use nimble_client_c.Prelude.{arith, ◌≡◌}
use nimble_client_c.Platform.{Platform}
use nimble_client_c.Client.{NimbleClient, World}
use nimble_client_c.GameState.{free}
use nimble_client_c.Lifecycle.{destroy, reset}

module _ {P : Platform} (c : NimbleClient P) (w : World P) where
  pub destroy-state_blocks :
      (destroy c w).1.state_blocks ≡ free c.joined_game_state.game_state w.state_blocks
  unfolding destroy
  destroy-state_blocks = ground arith

  pub reset-state_blocks :
      (reset c w).1.state_blocks ≡ free c.joined_game_state.game_state w.state_blocks
  unfolding reset
  reset-state_blocks = ground arith

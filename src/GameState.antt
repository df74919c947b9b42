-- ===== src/GameState.antt =====
-- src/lib/game_state.c: the copy of the downloaded state, in memory of the blob allocator. A new
-- block is named by a number that no game state block had before: the allocator is relied on to give
-- out no live block.
use nimble_client_c.Prelude.{
  [], ◌==◌, suc, ◌∷◌, take, true, some, false, List, if◌then◌else◌, Bool, none, ℕ, Option,
}
use nimble_client_c.Client.{World, GameState}
pub mod Memory
use nimble_client_c.Platform.{Platform}

module _ {P : Platform} where
  unfoldable pub init : World P → ℕ → List ℕ → ℕ → GameState × World P
  init w step_id octets octet_count = (
    record { game_state = some w.next_block; octet_count = octet_count; step_id = step_id },
    record w {
      state_blocks = (w.next_block, take octet_count octets) ∷ w.state_blocks;
      next_block = suc w.next_block;
    },
  )

-- The live blocks without a freed one.
unfoldable pub free_block : ℕ → List (ℕ × List ℕ) → List (ℕ × List ℕ)
free_block b [] = []
free_block b ((b', octets) ∷ rest) = if b' == b then rest else (b', octets) ∷ free_block b rest

abbrev pub free : Option ℕ → List (ℕ × List ℕ) → List (ℕ × List ℕ)
free none state_blocks = state_blocks
free (some b) state_blocks = free_block b state_blocks

abbrev is_allocated : GameState → Bool
is_allocated g = elim g.game_state [ none ↦ false | some b ↦ true ]

module _ {P : Platform} where
  unfoldable pub destroy : GameState → World P → GameState × World P
  destroy g w = (
    record g { game_state = none; octet_count = 0 },
    record w { state_blocks = free g.game_state w.state_blocks },
  )

  -- `if (gameState != 0) nimbleClientGameStateDestroy(...)`, as client.c calls it.
  unfoldable pub destroy_if_allocated : GameState → World P → GameState × World P
  unfolding destroy
  destroy_if_allocated g w = if is_allocated g then destroy g w else (g, w)

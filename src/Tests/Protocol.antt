-- ===== src/Tests/Protocol.antt =====
-- The theorems on the protocol, at inputs that meet their hypotheses.
use nimble_client_c.Prelude.{[], ◌∷◌, refl, inl, ℕ, List, pos, arith}
use nimble_client_c.Tests.Fixture.{toy_world, in_state, with_game_state, world_with_block}
use nimble_client_c.Tests.Toy.{toy}
use nimble_client_c.Client.{datagram, joined_participant, NimbleClient, World, ClientState}
use nimble_client_c.Lifecycle
use nimble_client_c.Protocol.{view, Reach}
use nimble_client_c.Protocol.Updating.{update-Reach}
use nimble_client_c.Protocol.Invariant.{IsValid, update-IsValid}
use nimble_client_c.Protocol.Safety.{Settled, update-Settled, Downloaded, update-Downloaded}

abbrev requesting : NimbleClient toy
requesting = in_state ClientState.requesting_connect

-- The answer to the connect request, as a datagram.
abbrev answer : List ℕ
answer = 1 ∷ 0xdd ∷ 3 ∷ 200 ∷ 1 ∷ 9 ∷ []

abbrev answered : World toy
answered = record toy_world { inbox = datagram answer ∷ [] }

update-Reach_example :
    let o = Lifecycle.update requesting answered (pos 1000) in
    Reach (view requesting answered) (view o.client o.world)
update-Reach_example = update-Reach requesting answered (pos 1000)

abbrev synced_client : NimbleClient toy
synced_client = with_game_state (in_state ClientState.synced)

update-IsValid_example :
    let o = Lifecycle.update synced_client world_with_block (pos 1000) in
    IsValid (view o.client o.world)
update-IsValid_example = update-IsValid synced_client world_with_block (pos 1000) (record {
  entries_length = refl;
  counted = λ o. tt;
  held = inl refl;
  fresh = omega arith;
  downloaded = λ d. refl;
})

abbrev settled_client : NimbleClient toy
settled_client = record synced_client { join_participant_phase = joined_participant }

update-Settled_example :
    let o = Lifecycle.update settled_client world_with_block (pos 1000) in
    Settled (view settled_client world_with_block) (view o.client o.world)
update-Settled_example = update-Settled settled_client world_with_block (pos 1000) (λ e. cc)

update-Downloaded_example :
    let o = Lifecycle.update requesting answered (pos 1000) in
    Downloaded (view requesting answered) (view o.client o.world)
update-Downloaded_example = update-Downloaded requesting answered (pos 1000)

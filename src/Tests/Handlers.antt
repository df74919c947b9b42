-- ===== src/Tests/Handlers.antt =====
-- The theorems on the handlers and on the game state, at inputs that meet their hypotheses.
use nimble_client_c.Lifecycle.{unused_entry}
use nimble_client_c.Prelude.{
  false, replicate, ◌++◌, refl, inl, map, arith, ℕ, some, [], pos, ◌≢◌, ◌∷◌, ◌≡◌, List,
}
use nimble_client_c.Tests.Fixture.{toy_client, toy_world, with_game_state, world_with_block}
use nimble_client_c.Tests.Toy.{toy}
use nimble_client_c.Client.{joined_participant, NimbleClient, ClientState}
use nimble_client_c.Platform.{ResponseParticipant}
use nimble_client_c.GameState.Memory.{IsLive}
use nimble_client_c.Lifecycle
use nimble_client_c.Lifecycle.Participants.{first_with, find_participant_id-on_join_game_response}
use nimble_client_c.Handlers.{
  on_join_game_response, on_download_game_state_response, on_download_game_state_part, entry_of,
}
use nimble_client_c.Handlers.Parts.{
  download, first_complete, handle_parts, handle_parts-first_complete,
}
use nimble_client_c.Handlers.Joining.{on_join_game_response_assigns}
use nimble_client_c.Handlers.Downloads.{
  repeated_response_restarts_download, completed_download_leaks,
}

-- A join response: the secret 9, and the participants 10 and 20 of the devices 0 and 1.
abbrev joined : List ℕ
joined = 9 ∷ 0 ∷ 10 ∷ 1 ∷ 20 ∷ []

abbrev two_participants : List ResponseParticipant
two_participants =
    record { local_index = 0; participant_id = 10 }
    ∷ record { local_index = 1; participant_id = 20 }
    ∷ []

on_join_game_response_assigns_example : on_join_game_response toy_client joined ≡ (
  pos 0,
  record toy_client {
    party_and_session_secret = 9;
    local_participant_lookup = map entry_of two_participants ++ replicate 6 unused_entry;
    local_participant_count = 2;
    lookup_overrun = false;
    join_participant_phase = joined_participant;
    wait_time = pos 0;
    join_state_channel = 0;
  },
)
on_join_game_response_assigns_example = on_join_game_response_assigns toy_client joined refl refl

find_participant_id-on_join_game_response_example :
    Lifecycle.find_participant_id (on_join_game_response toy_client joined).1 1 ≡ (pos 1, 20)
unfolding first_with
find_participant_id-on_join_game_response_example =
    find_participant_id-on_join_game_response toy_client joined 1 refl refl (omega arith)

-- A game state response to the request 1: the state 40, on channel 3.
abbrev state_response : List ℕ
state_response = 1 ∷ 40 ∷ 3 ∷ []

abbrev on_channel : ClientState → NimbleClient toy
on_channel s = record toy_client { state = s; join_state_channel = 3; join_state_id = 40 }

repeated_response_restarts_download_example :
    ((on_download_game_state_response (on_channel ClientState.synced) state_response).1.state
      ≡ ClientState.synced)
    × ((on_download_game_state_response
          (on_join_game_response (on_channel ClientState.synced) joined).1
          state_response).1.state
        ≡ ClientState.joining_downloading_state)
repeated_response_restarts_download_example =
    repeated_response_restarts_download (on_channel ClientState.synced) state_response refl refl
      joined refl refl refl refl (omega arith)

-- A part that completes the stream with the octets 5, 6.
abbrev last_part : List ℕ
last_part = 3 ∷ 5 ∷ 6 ∷ []

abbrev downloading_again : NimbleClient toy
downloading_again = with_game_state (on_channel ClientState.joining_downloading_state)

completed_download_leaks_example :
    let o = on_download_game_state_part downloading_again world_with_block last_part in
    (o.client.joined_game_state.game_state ≢ some 0)
    × IsLive 0 o.world.state_blocks
    × IsLive 0 (Lifecycle.destroy o.client o.world).1.state_blocks
    × IsLive 0 (Lifecycle.reset o.client o.world).1.state_blocks
completed_download_leaks_example =
    completed_download_leaks downloading_again world_with_block last_part refl refl refl 0 (λ e. cc)
      refl (inl refl) (omega arith)

-- An empty part, one of another channel, the part with the octets 5 and 6, and one behind it.
abbrev four_parts : List (List ℕ)
four_parts = (3 ∷ []) ∷ (9 ∷ 1 ∷ []) ∷ (3 ∷ 5 ∷ 6 ∷ []) ∷ (3 ∷ 7 ∷ []) ∷ []

handle_parts-first_complete_example :
    download (handle_parts four_parts (on_channel ClientState.joining_downloading_state) toy_world)
    ≡ (
      ClientState.synced,
      record { game_state = some 0; octet_count = 2; step_id = 40 },
      (0, 5 ∷ 6 ∷ []) ∷ [],
    )
unfolding first_complete
handle_parts-first_complete_example =
    handle_parts-first_complete four_parts (on_channel ClientState.joining_downloading_state)
      toy_world (λ e. cc)

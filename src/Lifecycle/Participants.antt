-- ===== src/Lifecycle/Participants.antt =====
-- The lookup of a participant by the local user's device: `nimbleClientFindParticipantId`.
use nimble_client_c.Prelude.{
  ◌∷◌, false, some, none, is_negative, ℕ, List, Option, ap, ◌==◌, ◌%◌, [], arith, if◌then◌else◌,
  ◌≤◌, length, ◌≡◌,
}
use nimble_client_c.Platform.{ResponseParticipant, Platform}
use nimble_client_c.Client.{joining_participant, ParticipantEntry, NimbleClient}
use nimble_client_c.Handlers.{write_participants, on_join_game_response}
use nimble_client_c.Lifecycle.{lookup_result, find_in_entries, find_participant_id}

-- The first participant of a response with that local index, as an octet.
unfoldable pub first_with : ℕ → List ResponseParticipant → Option ℕ
first_with index [] = none
first_with index (p ∷ ps) =
    if p.local_index % 256 == index then some (p.participant_id % 256) else first_with index ps

find_in_entries-write_participants :
    (ps : List ResponseParticipant) (es : List ParticipantEntry) (index : ℕ)
    → length ps ≤ length es
    → find_in_entries (length ps) (write_participants ps es).0 index ≡ first_with index ps
unfolding find_in_entries write_participants first_with
find_in_entries-write_participants [] es index h = ground arith
find_in_entries-write_participants (p ∷ ps) [] index h = absurd (omega arith)
find_in_entries-write_participants (p ∷ ps) (e ∷ es) index h =
    ground (arith, find_in_entries-write_participants ps es index)

-- After a join response that the client was waiting for, with no more participants than there are
-- entries, the lookup of a device gives the id of the first participant of the response with that
-- local index, and -1 with the id 0xff if there is none.
pub find_participant_id-on_join_game_response :
    {P : Platform} (c : NimbleClient P) (s : P.InStream) (index : ℕ)
    → is_negative (P.in_join_response s).0 ≡ false
    → c.join_participant_phase ≡ joining_participant
    → length (P.in_join_response s).2 ≤ length c.local_participant_lookup
    → find_participant_id (on_join_game_response c s).1 index
      ≡ lookup_result (first_with index (P.in_join_response s).2)
unfolding find_participant_id on_join_game_response
find_participant_id-on_join_game_response {P} c s index valid joining fits =
    rw (valid, joining)
      (ap lookup_result (
        find_in_entries-write_participants (P.in_join_response s).2 c.local_participant_lookup index
          fits))

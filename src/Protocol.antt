-- ===== src/Protocol.antt =====
-- The protocol as the game sees it: what a client has of the session, with the streams, the
-- statistics and the transport forgotten, and the steps by which that changes.
use nimble_client_c.Platform.{ResponseParticipant, Platform}
use nimble_client_c.Client.{
  synced, joining_downloading_state, out_of_participant_slots, joined_participant,
  joining_participant, disconnected, ParticipantEntry, connected, World, JoiningState, NimbleClient,
  requesting_connect, ClientState,
}
use nimble_client_c.Prelude.{suc, ◌∷◌, some, length, ◌||◌, Option, ℕ, ◌≢◌, Bool, List, ◌≡◌}
pub mod Handling
pub mod Sending
pub mod Updating
pub mod Invariant
pub mod Blocks
pub mod Safety
use nimble_client_c.Handlers.{write_participants}

pub record View : Type 0 where
  pub state : ClientState
  pub phase : JoiningState
  pub entries : List ParticipantEntry
  pub overrun : Bool
  pub count : ℕ
  pub game_state : Option ℕ
  pub state_blocks : List (ℕ × List ℕ)
  pub next_block : ℕ

abbrev pub view : {P : Platform} → NimbleClient P → World P → View
view c w = record {
  state = c.state;
  phase = c.join_participant_phase;
  entries = c.local_participant_lookup;
  overrun = c.lookup_overrun;
  count = c.local_participant_count;
  game_state = c.joined_game_state.game_state;
  state_blocks = w.state_blocks;
  next_block = w.next_block;
}

-- What one update of the client can do to a view, by a message or by its own judgement.
pub data Step (v u : View) : Type 0 where
  stay : u ≡ v → Step v u
  connect : v.state ≡ requesting_connect → u ≡ record v { state = connected } → Step v u
  join :
      (ps : List ResponseParticipant)
      → v.state ≢ disconnected
      → v.phase ≡ joining_participant
      → u ≡ record v {
        phase = joined_participant;
        entries = (write_participants ps v.entries).0;
        overrun = v.overrun || (write_participants ps v.entries).1;
        count = length ps;
      }
      → Step v u
  refuse : v.state ≢ disconnected → u ≡ record v { phase = out_of_participant_slots } → Step v u
  start_download :
      v.state ≢ disconnected → u ≡ record v { state = joining_downloading_state } → Step v u
  finish_download :
      (octets : List ℕ)
      → v.state ≢ disconnected
      → v.state ≢ synced
      → u ≡ record v {
        state = synced;
        game_state = some v.next_block;
        state_blocks = (v.next_block, octets) ∷ v.state_blocks;
        next_block = suc v.next_block;
      }
      → Step v u
  give_up : v.state ≡ synced → u ≡ record v { state = disconnected } → Step v u

pub data Reach (v : View) : View → Type 0 where
  here : Reach v v
  next : {u t : View} → Reach v u → Step u t → Reach v t

-- ===== src/Debug.antt =====
-- src/lib/debug.c in a build with CLOG_LOG_ENABLED, and the line of src/lib/game_state.c: what is
-- logged of the states. A line is its format, a constructor, with the values that it is given.
use nimble_client_c.Prelude.{zero, suc, some, if◌then◌else◌, [], none, ℕ, ◌∷◌, Option, List}
use nimble_client_c.Platform.{Platform}
use nimble_client_c.Realize.{same_state, NimbleClientRealize, RealizeState}
use nimble_client_c.Client.{NimbleClient, ClientState, GameState}
pub mod Names
use Prim.Native.String.{String}

-- `state` as the index into the table: its place in the enum.
pub state_index : ClientState → ℕ
state_index ClientState.idle = 0
state_index ClientState.requesting_connect = 1
state_index ClientState.connected = 2
state_index ClientState.joining_requesting_state = 3
state_index ClientState.joining_downloading_state = 4
state_index ClientState.synced = 5
state_index ClientState.disconnected = 6

abbrev pub state_names : List String
state_names =
    "idle" ∷ "requesting connect" ∷ "connected" ∷ "requesting game state" ∷ "downloading game state"
    ∷ "synced" ∷ "disconnected" ∷ []

pub realize_state_index : RealizeState → ℕ
realize_state_index RealizeState.init = 0
realize_state_index RealizeState.re_init = 1
realize_state_index RealizeState.cleared = 2
realize_state_index RealizeState.synced = 3
realize_state_index RealizeState.disconnected = 4

abbrev pub realize_state_names : List String
realize_state_names = "init" ∷ "reinit" ∷ "cleared" ∷ "synced" ∷ "disconnected" ∷ []

-- A read of a table: `none` is a read past its end.
pub get_elem? {ℓ} : {A : Type ℓ} → List A → ℕ → Option A
get_elem? [] i = none
get_elem? (x ∷ xs) zero = some x
get_elem? (x ∷ xs) (suc i) = get_elem? xs i

unfoldable pub client_state_to_string : ClientState → Option String
unfolding state_index get_elem?
client_state_to_string state = get_elem? state_names (state_index state)

unfoldable pub realize_state_to_string : RealizeState → Option String
unfolding realize_state_index get_elem?
realize_state_to_string state = get_elem? realize_state_names (realize_state_index state)

pub data Line : Type 0 where
  client_state : Option String → Line
  trying_to_reach : Option String → Option String → Line
  realize_state : Option String → Line
  game_state : String → ℕ → ℕ → Line

unfoldable pub client_debug_output : {P : Platform} → NimbleClient P → Line
client_debug_output c = client_state (client_state_to_string c.state)

unfoldable pub realize_debug_output : {P : Platform} → NimbleClientRealize P → Line
realize_debug_output r =
    if same_state r.state r.target_state
    then realize_state (realize_state_to_string r.state)
    else trying_to_reach (realize_state_to_string r.state) (realize_state_to_string r.target_state)

pub game_state_debug : GameState → String → Line
game_state_debug g prefix = game_state prefix g.step_id g.octet_count

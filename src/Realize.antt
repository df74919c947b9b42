-- ===== src/Realize.antt =====
-- src/lib/network_realizer.c: the state machine that drives a client towards a target state.
pub mod Stuck
pub mod Validity
pub mod Progress
pub mod Answers
pub mod Hearing
pub mod Stages
pub mod Handshake
pub mod Refusing
pub mod Noise
pub mod JoinResponse
pub mod Joining
pub mod Waiting
pub mod Silence
pub mod Session
pub mod Numbering
pub mod Memory
pub mod Streams
use nimble_client_c.Prelude.{◌||◌, false, if◌then◌else◌, true, ℕ, ℤ, ◌%◌, ◌+◌, pos, Bool}
use nimble_client_c.Platform.{Platform}
use nimble_client_c.Client.{joining_participant, World, NimbleClient, ClientState}
use nimble_client_c.Lifecycle
use nimble_client_c.Lifecycle.{InitSettings}
use nimble_client_c.Incoming.{is_disconnected}

pub data RealizeState : Type 0 where
  init re_init cleared synced disconnected : RealizeState

pub record NimbleClientRealize (P : Platform) : Type 0 where
  pub target_state : RealizeState
  pub state : RealizeState
  pub client : NimbleClient P
  pub settings : InitSettings P
  pub join_game_request_nonce : ℕ

abbrev pub is_cleared : RealizeState → Bool
is_cleared cleared = true
is_cleared _ = false

abbrev is_init : RealizeState → Bool
is_init init = true
is_init _ = false

abbrev pub same_state : RealizeState → RealizeState → Bool
same_state init init = true
same_state re_init re_init = true
same_state cleared cleared = true
same_state synced synced = true
same_state disconnected disconnected = true
same_state _ _ = false

module _ {P : Platform} where
  -- `r` is what the memory of the realizer holds before: its nonce is kept.
  unfoldable pub realize_init :
      NimbleClientRealize P → World P → InitSettings P → NimbleClientRealize P × World P
  unfolding Lifecycle.init
  realize_init r w settings =
      let (c, w') = Lifecycle.init r.client w settings in
      (record r { target_state = init; state = init; settings = settings; client = c }, w')

  unfoldable pub realize_re_init :
      NimbleClientRealize P → World P → InitSettings P → NimbleClientRealize P × World P
  unfolding Lifecycle.re_init
  realize_re_init r w settings =
      let (c, w') = Lifecycle.re_init r.client w settings.transport in
      (record r { target_state = init; state = re_init; settings = settings; client = c }, w')

  unfoldable pub realize_destroy : NimbleClientRealize P → World P → NimbleClientRealize P × World P
  unfolding Lifecycle.destroy
  realize_destroy r w = let (c, w') = Lifecycle.destroy r.client w in (record r { client = c }, w')

  pub realize_reset : NimbleClientRealize P → World P → NimbleClientRealize P × World P
  realize_reset r w =
      let (c, w') = Lifecycle.reset r.client w in
      (record r { client = c; state = cleared; join_game_request_nonce = 0 }, w')

  unfoldable pub join_game : NimbleClientRealize P → P.JoinContent → NimbleClientRealize P
  join_game r content =
      let nonce = r.join_game_request_nonce in
      record r {
        join_game_request_nonce = (nonce + 1) % P.nonce_count;
        client = record (r.client) {
          join_game_request = record { nonce = nonce; content = content };
          join_participant_phase = joining_participant;
        };
        target_state = synced;
      }

  pub quit_game : NimbleClientRealize P → NimbleClientRealize P
  unfolding Lifecycle.disconnect
  quit_game r = record r { client = Lifecycle.disconnect r.client; target_state = cleared }

  -- The inner `switch`, towards the synced state.
  pub towards_synced : ClientState → NimbleClientRealize P → NimbleClientRealize P
  towards_synced ClientState.idle r = record r {
    client = record (r.client) { state = ClientState.requesting_connect; wait_time = pos 0 };
  }
  towards_synced ClientState.connected r = record r {
    client = record (r.client) {
      state = ClientState.joining_requesting_state;
      join_participant_phase = joining_participant;
      wait_time = pos 0;
    };
  }
  towards_synced ClientState.synced r = record r {
    state = synced;
    client = record (r.client) { wait_time = pos 0 };
  }
  towards_synced ClientState.requesting_connect r = r
  towards_synced ClientState.joining_requesting_state r = r
  towards_synced ClientState.joining_downloading_state r = r
  towards_synced ClientState.disconnected r = r

  -- The outer `switch`.
  pub towards : RealizeState → NimbleClientRealize P → NimbleClientRealize P
  unfolding towards_synced
  towards init r = r
  towards re_init r = r
  towards disconnected r = r
  towards cleared r = record r { state = cleared }
  towards synced r = towards_synced r.client.state r

  -- `nimbleClientUpdate`, where the realizer lets its client run; its code is not looked at.
  pub run_client : NimbleClientRealize P → World P → ℤ → NimbleClientRealize P × World P
  run_client r w now =
      let updated = Lifecycle.update r.client w now in
      if is_cleared r.state || is_init r.target_state
      then (r, w)
      else (record r { client = updated.client }, updated.world)

  unfoldable pub realize_update :
      NimbleClientRealize P → World P → ℤ → NimbleClientRealize P × World P
  unfolding towards run_client
  realize_update r w now =
      let (r', w') = run_client r w now in
      if is_disconnected r.client.state
      then (record r { state = disconnected }, w)
      else if same_state r'.target_state r'.state
      then (r', w')
      else (towards r'.target_state r', w')

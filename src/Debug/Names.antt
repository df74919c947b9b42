-- ===== src/Debug/Names.antt =====
-- The log tells the states apart: src/lib/debug.c.
use nimble_client_c.Platform.{Platform}
use nimble_client_c.Client.{NimbleClient, ClientState}
use nimble_client_c.Debug.{
  trying_to_reach, realize_state, realize_debug_output, client_state, client_state_to_string,
  realize_state_to_string, client_debug_output, Line,
}
use nimble_client_c.Prelude.{
  inr, inl, arith, Bool-cases, true, ap, refl, none, some, ◌≡◌, if◌then◌else◌, Option,
}
use text.Mathlib.Text.{◌==◌}
use Prim.Native.String.{String}
use nimble_client_c.Realize.{same_state, NimbleClientRealize, RealizeState}

-- Reads a name of the tables back.
client_state_named : String → ClientState
client_state_named name =
    if name == "requesting connect"
    then ClientState.requesting_connect
    else if name == "connected"
    then ClientState.connected
    else if name == "requesting game state"
    then ClientState.joining_requesting_state
    else if name == "downloading game state"
    then ClientState.joining_downloading_state
    else if name == "synced"
    then ClientState.synced
    else if name == "disconnected"
    then ClientState.disconnected
    else ClientState.idle

realize_state_named : String → RealizeState
realize_state_named name =
    if name == "reinit"
    then RealizeState.re_init
    else if name == "cleared"
    then RealizeState.cleared
    else if name == "synced"
    then RealizeState.synced
    else if name == "disconnected"
    then RealizeState.disconnected
    else RealizeState.init

abbrev NamesState {ℓ} : {A : Type ℓ} → (String → A) → Option String → A → Type ℓ
NamesState named name s = (text : String) × (name ≡ some text) × (named text ≡ s)

client_state_to_string-NamesState :
    (s : ClientState) → NamesState client_state_named (client_state_to_string s) s
unfolding client_state_to_string client_state_named
client_state_to_string-NamesState ClientState.idle = (_, refl, refl)
client_state_to_string-NamesState ClientState.requesting_connect = (_, refl, refl)
client_state_to_string-NamesState ClientState.connected = (_, refl, refl)
client_state_to_string-NamesState ClientState.joining_requesting_state = (_, refl, refl)
client_state_to_string-NamesState ClientState.joining_downloading_state = (_, refl, refl)
client_state_to_string-NamesState ClientState.synced = (_, refl, refl)
client_state_to_string-NamesState ClientState.disconnected = (_, refl, refl)

realize_state_to_string-NamesState :
    (s : RealizeState) → NamesState realize_state_named (realize_state_to_string s) s
unfolding realize_state_to_string realize_state_named
realize_state_to_string-NamesState RealizeState.init = (_, refl, refl)
realize_state_to_string-NamesState RealizeState.re_init = (_, refl, refl)
realize_state_to_string-NamesState RealizeState.cleared = (_, refl, refl)
realize_state_to_string-NamesState RealizeState.synced = (_, refl, refl)
realize_state_to_string-NamesState RealizeState.disconnected = (_, refl, refl)

-- What a line of the log says, read back.
unfoldable pub client_line_state : Line → Option ClientState
unfolding client_state_named
client_line_state (client_state (some name)) = some (client_state_named name)
client_line_state _ = none

unfoldable pub realize_line_states : Line → Option (RealizeState × RealizeState)
unfolding realize_state_named
realize_line_states (realize_state (some name)) =
    some (realize_state_named name, realize_state_named name)
realize_line_states (trying_to_reach (some now) (some target)) =
    some (realize_state_named now, realize_state_named target)
realize_line_states _ = none

same_state-eq : (s t : RealizeState) → same_state s t ≡ true → s ≡ t
same_state-eq s t h = ground arith

-- What is logged of the client and of the realizer can be read back: no name is taken from past the
-- end of its table, the client's line gives its state, and the realizer's gives its state and the one
-- that it aims at.
pub debug_output_lem :
    {P : Platform} (c : NimbleClient P) (r : NimbleClientRealize P)
    → (client_line_state (client_debug_output c) ≡ some c.state)
      × (realize_line_states (realize_debug_output r) ≡ some (r.state, r.target_state))
unfolding client_debug_output realize_debug_output client_line_state realize_line_states
debug_output_lem c r =
    let (_, is_client, client) = client_state_to_string-NamesState c.state in
    let (_, is_now, now) = realize_state_to_string-NamesState r.state in
    let (_, is_target, target) = realize_state_to_string-NamesState r.target_state in
    (
      rw is_client (ap some client),
      elim (Bool-cases (same_state r.state r.target_state)) [
        | inl e ↦ rw (e, is_now) (cc (now, same_state-eq r.state r.target_state e))
        | inr e ↦ rw (e, is_now, is_target) (cc (now, target))
      ],
    )

-- ===== src/Realize/Progress.antt =====
-- The way to the synced state: `nimbleClientRealizeUpdate`.
use nimble_client_c.Incoming.{is_disconnected}
use nimble_client_c.Prelude.{ℤ, arith, false, refl, ◌≢◌, ◌≡◌}
use nimble_client_c.Platform.{Platform}
use nimble_client_c.Client.{World, ClientState}
use nimble_client_c.Lifecycle
use nimble_client_c.Realize.{
  same_state, NimbleClientRealize, RealizeState, realize_update, towards, towards_synced,
  run_client, is_cleared,
}

-- Where the realizer pushes a client that has reached a state, on the way to the synced state.
abbrev pub pushed : ClientState → ClientState
pushed ClientState.idle = ClientState.requesting_connect
pushed ClientState.connected = ClientState.joining_requesting_state
pushed s = s

-- The realizer's own state then.
abbrev pub reached : ClientState → RealizeState → RealizeState
reached ClientState.synced s = RealizeState.synced
reached _ s = s

pub towards_synced-pushed :
    {P : Platform} (s : ClientState) (r : NimbleClientRealize P)
    → r.client.state ≡ s
    → ((towards_synced s r).client.state ≡ pushed s)
      × ((towards_synced s r).state ≡ reached s r.state)
unfolding towards_synced
towards_synced-pushed ClientState.idle r e = (refl, refl)
towards_synced-pushed ClientState.connected r e = (refl, refl)
towards_synced-pushed ClientState.synced r e = (e, refl)
towards_synced-pushed ClientState.requesting_connect r e = (e, refl)
towards_synced-pushed ClientState.joining_requesting_state r e = (e, refl)
towards_synced-pushed ClientState.joining_downloading_state r e = (e, refl)
towards_synced-pushed ClientState.disconnected r e = (e, refl)

-- A realizer that lets its client run.
abbrev pub IsRunning : {P : Platform} → NimbleClientRealize P → Type 0
IsRunning r =
    (r.target_state ≡ RealizeState.synced)
    × (r.state ≢ RealizeState.synced)
    × (r.state ≢ RealizeState.cleared)
    × (r.client.state ≢ ClientState.disconnected)

pub realize_update_running :
    {P : Platform} (r : NimbleClientRealize P) (w : World P) (now : ℤ)
    → IsRunning r
    → let o = Lifecycle.update r.client w now in
      realize_update r w now
      ≡ (towards_synced o.client.state (record r { client = o.client }), o.world)
unfolding realize_update towards run_client
realize_update_running r w now k =
    let live : is_disconnected r.client.state ≡ false = ground (arith, k.3) in
    let free : is_cleared r.state ≡ false = ground (arith, k.2) in
    let on_the_way : same_state RealizeState.synced r.state ≡ false = ground (arith, k.1) in
    rw (live, free, k.0, on_the_way) refl

-- A realizer that aims at the synced state, is neither there nor cleared, and whose client is not
-- disconnected, updates the client, with that update's effects on the world, and then pushes it on:
-- an idle client to requesting a connection, a connected one to requesting the state, any other not
-- at all. It becomes synced exactly if the client is.
pub realize_update-pushed :
    {P : Platform} (r : NimbleClientRealize P) (w : World P) (now : ℤ)
    → IsRunning r
    → let o = Lifecycle.update r.client w now in
      let r' = (realize_update r w now).0 in
      (r'.client.state ≡ pushed o.client.state)
      × (r'.state ≡ reached o.client.state r.state)
      × ((realize_update r w now).1 ≡ o.world)
realize_update-pushed r w now k =
    let o = Lifecycle.update r.client w now in
    let (client, own) =
      towards_synced-pushed o.client.state (record r { client = o.client }) refl in
    rw (realize_update_running r w now k) (client, own, refl)

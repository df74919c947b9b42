-- ===== src/Realize/Handshake.antt =====
-- The whole way to the synced state with a server that answers, late or not: network_realizer.c
-- over client.c.
use nimble_client_c.Realize.Stages.{
  Stage, Asks, realize_update-Asks, realize_update_silent, realize_update_answered,
  realize_update_gets_there,
}
use nimble_client_c.Realize.Progress.{pushed}
use nimble_client_c.Realize.Answers.{body, standing, Answer, Delivers}
use nimble_client_c.Client.{
  joining_requesting_state, requesting_connect, joining_downloading_state, connected, idle,
  datagram, synced, disconnected, World, ClientState,
}
use nimble_client_c.Realize.{realize_update, RealizeState, NimbleClientRealize}
use nimble_client_c.Prelude.{suc, refl, [], ◌≡◌, ◌∷◌, ◌≢◌, ℕ, List, ℤ}
use nimble_client_c.Platform.{
  server_out_blob_stream, game_state_response, connect_response, IncomingCommand, Platform,
}

abbrev pub tick :
    {P : Platform} → ℤ → NimbleClientRealize P × World P → NimbleClientRealize P × World P
tick now (r, w) = realize_update r (record w { inbox = [] }) now

abbrev pub tick_with :
    {P : Platform} → ℤ → List ℕ → NimbleClientRealize P × World P → NimbleClientRealize P × World P
tick_with now octets (r, w) = realize_update r (record w { inbox = datagram octets ∷ [] }) now

-- Updates at the given times, in which nothing arrives.
unfoldable pub await :
    {P : Platform} → List ℤ → NimbleClientRealize P × World P → NimbleClientRealize P × World P
await [] x = x
await (now ∷ times) x = await times (tick now x)

module _ {P : Platform} where
  tick-Stage :
      (r : NimbleClientRealize P) (w : World P) (now : ℤ) (n : ℕ) (s : ClientState)
      → Stage n s r
      → s ≢ synced
      → Stage n (pushed s) (tick now (r, w)).0
  tick-Stage r w now n s k other =
      (realize_update_silent r (record w { inbox = [] }) now n s k other refl).0

  -- The silent updates of a client that is waiting for an answer.
  await-Stage :
      (times : List ℤ) (r : NimbleClientRealize P) (w : World P) (n : ℕ) (s : ClientState)
      → Stage n s r
      → s ≢ synced
      → pushed s ≡ s
      → Stage n s (await times (r, w)).0
  unfolding await
  await-Stage [] r w n s k other e = k
  await-Stage (now ∷ times) r w n s k other e =
      let (r', w') = tick now (r, w) in
      let k' = tick-Stage r w now n s k other in await-Stage times r' w' n s (rw e at k') other e

-- An answer, when it arrives, and the silent updates before it.
pub record Exchange : Type 0 where
  pub silence : List ℤ
  pub time : ℤ
  pub octets : List ℕ

abbrev pub exchange :
    {P : Platform} → Exchange → NimbleClientRealize P × World P → NimbleClientRealize P × World P
exchange e x = tick_with e.time e.octets (await e.silence x)

-- The octets of an exchange answer the client that they find.
abbrev pub Answers :
    {P : Platform}
    → Exchange
    → NimbleClientRealize P × World P
    → IncomingCommand
    → ClientState
    → Type 0
Answers {P} e x cmd u =
    let c = (await e.silence x).0.client in
    Delivers P c.ordered_datagram_in e.octets cmd
    × Answer (standing c) (body P c.ordered_datagram_in e.octets) cmd u

module _ {P : Platform} where
  exchange-Stage :
      (e : Exchange) (x : NimbleClientRealize P × World P) (cmd : IncomingCommand) (n : ℕ)
      (s u : ClientState)
      → Stage n s x.0
      → s ≢ synced
      → pushed s ≡ s
      → Answers e x cmd u
      → u ≢ synced
      → u ≢ disconnected
      → Stage n (pushed u) (exchange e x).0
  exchange-Stage e (r0, w0) cmd n s u k other stays (d, a) us ud =
      let (r, w) = await e.silence (r0, w0) in
      (realize_update_answered r (record w { inbox = datagram e.octets ∷ [] }) e.time e.octets cmd n
        s u (await-Stage e.silence r0 w0 n s k other stays) refl d a us ud).0

  exchange_synced :
      (e : Exchange) (x : NimbleClientRealize P × World P) (cmd : IncomingCommand) (n : ℕ)
      (s : ClientState)
      → Stage n s x.0
      → s ≢ synced
      → pushed s ≡ s
      → Answers e x cmd synced
      → ((exchange e x).0.state ≡ RealizeState.synced) × ((exchange e x).0.client.state ≡ synced)
  exchange_synced e (r0, w0) cmd n s k other stays (d, a) =
      let (r, w) = await e.silence (r0, w0) in
      realize_update_gets_there r (record w { inbox = datagram e.octets ∷ [] }) e.time e.octets cmd
        n s (await-Stage e.silence r0 w0 n s k other stays) refl d a

  exchange-Asks :
      (e : Exchange) (x : NimbleClientRealize P × World P) (cmd : IncomingCommand) (n : ℕ)
      (s : ClientState)
      → Stage (suc n) s x.0
      → s ≢ synced
      → pushed s ≡ s
      → Answers e x cmd synced
      → Asks n (exchange e x).0
  exchange-Asks e (r0, w0) cmd n s k other stays (d, a) =
      let (r, w) = await e.silence (r0, w0) in
      (realize_update-Asks r (record w { inbox = datagram e.octets ∷ [] }) e.time e.octets cmd n s
        (await-Stage e.silence r0 w0 (suc n) s k other stays) refl d a).0

  -- The realizer after the first two answers.
  before_last :
      (now : ℤ) (x : NimbleClientRealize P × World P) (e1 e2 : Exchange) (n : ℕ)
      → Stage n idle x.0
      → Answers e1 (tick now x) connect_response connected
      → Answers e2 (exchange e1 (tick now x)) game_state_response joining_downloading_state
      → Stage n joining_downloading_state (exchange e2 (exchange e1 (tick now x))).0
  before_last now (r, w) e1 e2 n k a1 a2 =
      let x0 = tick now (r, w) in
      let k0 = tick-Stage r w now n idle k (λ e. cc) in
      let k1 =
        exchange-Stage e1 x0 connect_response n requesting_connect connected k0 (λ e. cc) refl a1
          (λ e. cc) (λ e. cc) in
      exchange-Stage e2 (exchange e1 x0) game_state_response n joining_requesting_state
        joining_downloading_state k1 (λ e. cc) refl a2 (λ e. cc) (λ e. cc)

  -- A realizer that aims at the synced state with an idle client gets there: after one update it asks
  -- to connect, and if the connect response, a game state response on a new channel to the client's
  -- request, and the part that completes that channel's stream arrive, in this order, each in a
  -- datagram that the ordering logic takes for newer, with any number of silent updates before each,
  -- realizer and client are synced at the update that takes in the last. (At the start
  -- the connection is not about to be given up, and the client counts as joining.)
  pub handshake :
      (now : ℤ) (x : NimbleClientRealize P × World P) (e1 e2 e3 : Exchange)
      → Stage 0 idle x.0
      → Answers e1 (tick now x) connect_response connected
      → Answers e2 (exchange e1 (tick now x)) game_state_response joining_downloading_state
      → Answers e3 (exchange e2 (exchange e1 (tick now x))) server_out_blob_stream synced
      → let (r, _) = exchange e3 (exchange e2 (exchange e1 (tick now x))) in
        (r.state ≡ RealizeState.synced) × (r.client.state ≡ synced)
  handshake now x e1 e2 e3 k a1 a2 a3 =
      exchange_synced e3 (exchange e2 (exchange e1 (tick now x))) server_out_blob_stream 0
        joining_downloading_state (before_last now x e1 e2 0 k a1 a2) (λ e. cc) refl a3

  -- The same with a connection that bears more: at the end the client still asks to join.
  pub handshake-Asks :
      (now : ℤ) (x : NimbleClientRealize P × World P) (e1 e2 e3 : Exchange) (n : ℕ)
      → Stage (suc n) idle x.0
      → Answers e1 (tick now x) connect_response connected
      → Answers e2 (exchange e1 (tick now x)) game_state_response joining_downloading_state
      → Answers e3 (exchange e2 (exchange e1 (tick now x))) server_out_blob_stream synced
      → Asks n (exchange e3 (exchange e2 (exchange e1 (tick now x)))).0
  handshake-Asks now x e1 e2 e3 n k a1 a2 a3 =
      exchange-Asks e3 (exchange e2 (exchange e1 (tick now x))) server_out_blob_stream n
        joining_downloading_state (before_last now x e1 e2 (suc n) k a1 a2) (λ e. cc) refl a3

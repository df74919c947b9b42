-- ===== src/Lifecycle/Resending.antt =====
-- How often a request is sent again while the server is silent: `nimbleClientUpdate`.
-- A client that asks the server to connect, or for the game state.
use nimble_client_c.Outgoing.Messages.{Asking, asking}
use nimble_client_c.Prelude.{All, ◌++◌, ◌∷◌, pos, ◌<◌, length, ◌⊎◌, ℕ, List, ◌≡◌, Bool}
use nimble_client_c.Client.{
  Sent, Outcome, joining_requesting_state, World, requesting_connect, NimbleClient, ClientState,
}
use nimble_client_c.Platform.{download_game_state_request, Platform}

abbrev pub IsRequesting : ClientState → Type 0
IsRequesting s = (s ≡ requesting_connect) ⊎ (s ≡ joining_requesting_state)

-- A header behind which a request is written.
abbrev header : (P : Platform) → P.OrderedOut → ℕ → P.OutStream
header P logic time =
    (P.write_u16 (P.ordered_prepare logic (P.out_init P.datagram_max_size)).1 time).1

-- The octets of the request that a client asking so sends, behind a header: the connect request, with
-- the version, the wish for debug streams and the nonce, or the request for the game state.
abbrev request_octets : {P : Platform} → Asking P → P.OutStream → List ℕ
request_octets {P} a out = elim a.state [
  | requesting_connect ↦
      P.out_octets (
        P.write_connect_request out a.application_version a.wants_debug_streams
          a.connect_request_id)
  | _ ↦ P.out_octets (
      P.write_u8 (P.write_command out download_game_state_request)
        a.download_state_client_request_id)
]

-- A datagram is that request, sent through the client's transport.
abbrev pub IsRequest : {P : Platform} → Asking P → Sent P → Type 0
IsRequest {P} a d =
    (logic : P.OrderedOut) × (time : ℕ) × (d
      ≡ record { through = a.transport; octets = request_octets a (header P logic time) })

-- So many requests were sent from one world to another, and nothing else, and the client goes on
-- asking for the same.
abbrev pub Requested :
    {P : Platform} → ℕ → NimbleClient P → World P → NimbleClient P → World P → Type 0
Requested {P} n c w c' w' =
    (sent : List (Sent P)) × (w'.outbox ≡ sent ++ w.outbox)
    × (length sent ≡ n)
    × All (IsRequest (asking c)) sent
    × (asking c' ≡ asking c)

-- Both requests are longer than the ten octets that are not worth sending.
pub record LongRequests (P : Platform) : Type 0 where
  pub connect :
      (out : P.OutStream) (v : P.Version) (debug : Bool) (id : ℕ)
      → 10 < P.out_pos (P.write_connect_request out v debug id)
  pub game_state :
      (out : P.OutStream) (id : ℕ)
      → 10 < P.out_pos (P.write_u8 (P.write_command out download_game_state_request) id)

-- One request was sent.
abbrev Once : {P : Platform} → NimbleClient P → World P → Outcome P → Type 0
Once {P} c w o =
    (d : Sent P) × IsRequest (asking c) d
    × (o.world.outbox ≡ d ∷ w.outbox)
    × (o.client.wait_time ≡ pos 4)
    × (asking o.client ≡ asking c)
    × (o.world.inbox ≡ w.inbox)

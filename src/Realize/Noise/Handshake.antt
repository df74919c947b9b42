-- ===== src/Realize/Noise/Handshake.antt =====
-- The way to the synced state over a transport that repeats, reorders and fails: network_realizer.c
-- over client.c and incoming.c.
use nimble_client_c.Realize.Progress.{pushed}
use nimble_client_c.Realize.{realize_update, NimbleClientRealize}
use nimble_client_c.Platform.{
  server_out_blob_stream, game_state_response, connect_response, IncomingCommand, Platform,
}
use nimble_client_c.Prelude.{refl, ◌++◌, ◌∷◌, [], length, All, ◌≢◌, ◌≡◌, suc, ℤ, ℕ, List}
use nimble_client_c.Realize.Refusing.{LateLaw}
use nimble_client_c.Realize.Noise.{
  Round, arrive, hear, updates_at, AreRefused, hear-Holds, updates_at-Holds,
}
use nimble_client_c.Realize.Answers.{Answer, Delivers, body, standing}
use nimble_client_c.Realize.Stages.{
  Asks, Stage, realize_update-Asks, realize_update_answered, realize_update_silent,
}
use nimble_client_c.Client.{
  joining_requesting_state, requesting_connect, joining_downloading_state, disconnected, idle,
  synced, datagram, World, ClientState, connected,
}

-- Rounds in which nothing of use arrives, an answer that then arrives behind what still waits, the
-- updates that work that off, and the one that takes the answer in.
pub record Exchange : Type 0 where
  pub noise : List Round
  pub octets : List ℕ
  pub catch_up : List ℤ
  pub time : ℤ

-- The realizer that finds the answer.
abbrev pub finding :
    {P : Platform} → Exchange → NimbleClientRealize P × World P → NimbleClientRealize P × World P
finding e x = updates_at e.catch_up (arrive (datagram e.octets ∷ []) (hear e.noise x))

abbrev pub exchange :
    {P : Platform} → Exchange → NimbleClientRealize P × World P → NimbleClientRealize P × World P
exchange e x = let (r, w) = finding e x in realize_update r w e.time

-- What arrives in the rounds is refused, and there are as many updates behind them as are needed for
-- what still waits.
pub record IsNoisy {P : Platform} (e : Exchange) (x : NimbleClientRealize P × World P)
    : Type 0 where
  pub refused : All (λ i. AreRefused P x.0.client.ordered_datagram_in i.received) e.noise
  pub caught_up : length e.catch_up ≡ length (hear e.noise x).1.inbox

-- And the octets answer the client that they find.
abbrev pub Answers :
    {P : Platform}
    → Exchange
    → NimbleClientRealize P × World P
    → IncomingCommand
    → ClientState
    → Type 0
Answers {P} e x cmd u =
    let c = (finding e x).0.client in
    IsNoisy e x
    × Delivers P c.ordered_datagram_in e.octets cmd
    × Answer (standing c) (body P c.ordered_datagram_in e.octets) cmd u

-- A realizer that far, with nothing that waits.
pub record Rests {P : Platform} (n : ℕ) (s : ClientState) (x : NimbleClientRealize P × World P)
    : Type 0 where
  pub stage : Stage n s x.0
  pub empty : x.1.inbox ≡ []

module _ {P : Platform} (L : LateLaw P) where
  finding-Stage :
      (e : Exchange) (x : NimbleClientRealize P × World P) (n : ℕ) (s : ClientState)
      → Rests n s x
      → s ≢ synced
      → pushed s ≡ s
      → IsNoisy e x
      → Stage n s (finding e x).0 × ((finding e x).1.inbox ≡ datagram e.octets ∷ [])
  finding-Stage e (r0, w0) n s k other stays h =
      let l = r0.client.ordered_datagram_in in
      let (r, w) = hear e.noise (r0, w0) in
      let (k', waiting) =
        hear-Holds L e.noise r0 w0 n s l (record { stage = k.stage; order = refl }) other stays
          (rw k.empty tt) h.refused in
      let (found, left) =
        updates_at-Holds L e.catch_up w.inbox (datagram e.octets) r
          (record w { inbox = w.inbox ++ datagram e.octets ∷ [] }) n s l k' other stays waiting
          h.caught_up refl in
      (found.stage, left)

  exchange-Rests :
      (e : Exchange) (x : NimbleClientRealize P × World P) (cmd : IncomingCommand) (n : ℕ)
      (s u : ClientState)
      → Rests n s x
      → s ≢ synced
      → pushed s ≡ s
      → Answers e x cmd u
      → u ≢ synced
      → u ≢ disconnected
      → Rests n (pushed u) (exchange e x)
  exchange-Rests e x cmd n s u k other stays (h, d, a) us ud =
      let (r, w) = finding e x in
      let (stage, waiting) = finding-Stage e x n s k other stays h in
      let (stage', empty) =
        realize_update_answered r w e.time e.octets cmd n s u stage waiting d a us ud in
      record { stage = stage'; empty = empty }

  exchange-Asks :
      (e : Exchange) (x : NimbleClientRealize P × World P) (cmd : IncomingCommand) (n : ℕ)
      (s : ClientState)
      → Rests (suc n) s x
      → s ≢ synced
      → pushed s ≡ s
      → Answers e x cmd synced
      → Asks n (exchange e x).0 × ((exchange e x).1.inbox ≡ [])
  exchange-Asks e x cmd n s k other stays (h, d, a) =
      let (r, w) = finding e x in
      let (stage, waiting) = finding-Stage e x (suc n) s k other stays h in
      realize_update-Asks r w e.time e.octets cmd n s stage waiting d a

  -- Three answers bring a realizer with an idle client to the synced state, where it still asks to
  -- join.
  pub exchanges-Asks :
      (now : ℤ) (r : NimbleClientRealize P) (w : World P) (e1 e2 e3 : Exchange) (n : ℕ)
      → Stage (suc n) idle r
      → w.inbox ≡ []
      → Answers e1 (realize_update r w now) connect_response connected
      → Answers e2
          (exchange e1 (realize_update r w now))
          game_state_response
          joining_downloading_state
      → Answers e3
          (exchange e2 (exchange e1 (realize_update r w now)))
          server_out_blob_stream
          synced
      → let (r', w') = exchange e3 (exchange e2 (exchange e1 (realize_update r w now))) in
        Asks n r' × (w'.inbox ≡ [])
  exchanges-Asks now r w e1 e2 e3 n k quiet a1 a2 a3 =
      let x0 = realize_update r w now in
      let (stage, empty) = realize_update_silent r w now (suc n) idle k (λ e. cc) quiet in
      let k1 =
        exchange-Rests e1 x0 connect_response (suc n) requesting_connect connected
          (record { stage = stage; empty = empty }) (λ e. cc) refl a1 (λ e. cc) (λ e. cc) in
      let k2 =
        exchange-Rests e2 (exchange e1 x0) game_state_response (suc n) joining_requesting_state
          joining_downloading_state k1 (λ e. cc) refl a2 (λ e. cc) (λ e. cc) in
      exchange-Asks e3 (exchange e2 (exchange e1 x0)) server_out_blob_stream n
        joining_downloading_state k2 (λ e. cc) refl a3

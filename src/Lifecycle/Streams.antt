-- ===== src/Lifecycle/Streams.antt =====
-- The blob stream that no code initialises, along an update of client.c: what becomes of
-- `blobStreamIn` and `blobStreamInLogic`, and when the client gets synced.
pub mod Updating
use nimble_client_c.Incoming.Accounts.{positive-is_negative}
use nimble_client_c.Quality.{is_synced}
use mathlib.Core.Path.{subst}
use nimble_client_c.Incoming.{
  is_disconnected, read_and_check_ordered_datagram, feed_ordered, dispatch, note_dropped, feed,
}
use nimble_client_c.Handlers.{
  is_requesting_connect, on_game_step_response, on_download_game_state_response,
  on_join_game_participant_out_of_space_response, on_download_game_state_part, on_connect_response,
  on_join_game_response,
}
use nimble_client_c.Client.{World, synced, ClientState, NimbleClient}
use nimble_client_c.Pong.{receive_pong}
use nimble_client_c.Platform.{
  unknown, out_of_participant_slots_response, game_state_response, join_game_response,
  game_step_response, server_out_blob_stream, connect_response, IncomingCommand, Platform,
}
use nimble_client_c.Prelude.{
  is_positive, length, ltb, magnitude, List, sym, inl, inr, is_negative, ◌⊎◌, ◌==◌, arith,
  Bool-cases, ℕ, true, ◌≡◌, ◌≢◌, ◌∙◌,
}

-- A receiving logic with its stream comes from another by calls of the library: it is that one, or was
-- fed a part, or has written its acknowledgements.
pub data Grown (P : Platform) (logic : P.BlobLogicIn) (blob : P.BlobIn)
    : P.BlobLogicIn → P.BlobIn → Type 0 where
  held : Grown P logic blob logic blob
  fed :
      {l : P.BlobLogicIn} {b : P.BlobIn} (s : P.InStream)
      → Grown P logic blob l b
      → Grown P logic blob (P.blob_logic_receive l b s).1 (P.blob_logic_receive l b s).2
  acknowledged :
      {l : P.BlobLogicIn} {b : P.BlobIn} (out : P.OutStream)
      → Grown P logic blob l b
      → Grown P logic blob (P.blob_logic_send l b out).1 b

-- A complete stream comes of them.
abbrev pub Completes : (P : Platform) → P.BlobLogicIn → P.BlobIn → Type 0
Completes P logic blob =
    (l : P.BlobLogicIn) × (b : P.BlobIn) × Grown P logic blob l b × (P.blob_is_complete b ≡ true)

abbrev pub StreamOf : Platform → Type 0
StreamOf P = ClientState × P.BlobLogicIn × P.BlobIn

abbrev pub stream_of : {P : Platform} → NimbleClient P → StreamOf P
stream_of c = (c.state, c.blob_stream_in_logic, c.blob_stream_in)

-- The stream of a client comes from those two, and the client is synced only if a complete one does.
abbrev pub IsGrown : (P : Platform) → P.BlobLogicIn → P.BlobIn → StreamOf P → Type 0
IsGrown P logic blob (s, l, b) = Grown P logic blob l b × ((s ≢ synced) ⊎ Completes P logic blob)

module _ {P : Platform} (logic : P.BlobLogicIn) (blob : P.BlobIn) where
  abbrev pub Fine : NimbleClient P → Type 0
  Fine c = IsGrown P logic blob (stream_of c)

  connect-Fine : (c : NimbleClient P) (s : P.InStream) → Fine c → Fine (on_connect_response c s).1
  unfolding on_connect_response
  connect-Fine c s q = elim (Bool-cases (is_negative (P.in_connect_response s).0)) [
    | inl e ↦ rw e q
    | inr e ↦ rw e (elim (Bool-cases (is_requesting_connect c.state)) [
      | inl r ↦ rw r (q.0, inl (λ k. cc))
      | inr r ↦ rw r q
    ])
  ]

  join-stream :
      (c : NimbleClient P) (s : P.InStream) → stream_of (on_join_game_response c s).1 ≡ stream_of c
  unfolding on_join_game_response
  join-stream c s = ground arith

  refuse-stream :
      (c : NimbleClient P) (s : P.InStream)
      → stream_of (on_join_game_participant_out_of_space_response c s).1 ≡ stream_of c
  unfolding on_join_game_participant_out_of_space_response
  refuse-stream c s = ground arith

  game_step-stream :
      (c : NimbleClient P) (s : P.InStream) → stream_of (on_game_step_response c s).1 ≡ stream_of c
  unfolding on_game_step_response
  game_step-stream c s = ground arith

  state_response-Fine :
      (c : NimbleClient P) (s : P.InStream) → Fine c → Fine (on_download_game_state_response c s).1
  unfolding on_download_game_state_response
  state_response-Fine c s q =
      let r1 = P.read_u8 s in
      let r2 = P.in_state_id r1.2 in
      let r3 = P.in_channel_id r2.2 in
      elim (Bool-cases (is_negative r3.0)) [
        | inl e ↦ rw e q
        | inr e ↦ rw e (elim (Bool-cases (r1.1 == c.download_state_client_request_id)) [
          | inr o ↦ rw o q
          | inl o ↦ rw o (elim (Bool-cases (r3.1 == c.join_state_channel)) [
            | inl k ↦ rw k q
            | inr k ↦ rw k (q.0, inl (λ m. cc))
          ])
        ])
      ]

  part-Fine :
      (c : NimbleClient P) (w : World P) (s : P.InStream)
      → Fine c
      → Fine (on_download_game_state_part c w s).client
  unfolding on_download_game_state_part
  part-Fine c w s q =
      let r = P.in_channel_id s in
      let got = P.blob_logic_receive c.blob_stream_in_logic c.blob_stream_in r.2 in
      let more = fed r.2 q.0 in
      elim (Bool-cases (r.1 == c.join_state_channel)) [
        | inr k ↦ rw k q
        | inl k ↦ rw k (elim (Bool-cases (is_negative got.0)) [
          | inl n ↦ rw n (more, q.1)
          | inr n ↦ rw n (elim (Bool-cases (P.blob_is_complete got.2)) [
            | inr m ↦ rw m (more, q.1)
            | inl m ↦ rw m (elim (Bool-cases (is_synced c.state)) [
              | inl y ↦ rw y (more, q.1)
              | inr y ↦ rw y (more, inr (_, _, more, m))
            ])
          ])
        ])
      ]

  dispatch-Fine :
      (cmd : IncomingCommand) (c : NimbleClient P) (w : World P) (s : P.InStream)
      → Fine c
      → Fine (dispatch cmd c w s).client
  unfolding dispatch
  dispatch-Fine connect_response c w s q = connect-Fine c s q
  dispatch-Fine server_out_blob_stream c w s q = part-Fine c w s q
  dispatch-Fine game_step_response c w s q =
      subst (IsGrown P logic blob) (sym (game_step-stream c s)) q
  dispatch-Fine join_game_response c w s q = subst (IsGrown P logic blob) (sym (join-stream c s)) q
  dispatch-Fine game_state_response c w s q = state_response-Fine c s q
  dispatch-Fine out_of_participant_slots_response c w s q =
      subst (IsGrown P logic blob) (sym (refuse-stream c s)) q
  dispatch-Fine unknown c w s q = q

  note_dropped-stream :
      (c : NimbleClient P) (delta : ℕ) → stream_of (note_dropped c delta) ≡ stream_of c
  unfolding note_dropped
  note_dropped-stream c delta = ground arith

  receive_pong-stream :
      (c : NimbleClient P) (w : World P) (s : P.InStream)
      → stream_of (receive_pong c w s).0.client ≡ stream_of c
  unfolding receive_pong
  receive_pong-stream c w s = ground arith

  pub feed-Fine :
      (c : NimbleClient P) (w : World P) (octets : List ℕ) → Fine c → Fine (feed c w octets).client
  unfolding feed feed_ordered read_and_check_ordered_datagram
  feed-Fine c w octets q =
      let d = P.ordered_receive c.ordered_datagram_in (P.in_init octets) in
      let ordered = record c { ordered_datagram_in = d.1 } in
      let noted = note_dropped ordered (magnitude d.0) in
      let (pong, s1) = receive_pong noted w d.2 in
      let known = receive_pong-stream noted w d.2 ∙ note_dropped-stream ordered (magnitude d.0) in
      let q' = subst (IsGrown P logic blob) (sym known) q in
      elim (Bool-cases (ltb (length octets) 1)) [
        | inl e ↦ rw e q
        | inr e ↦ rw e (elim (Bool-cases (is_disconnected c.state)) [
          | inl k ↦ rw k q
          | inr k ↦ rw k (elim (Bool-cases (is_positive d.0)) [
            | inr n ↦ rw n q
            | inl n ↦
                let fine = positive-is_negative d.0 n in
                rw (n, fine)
                  (elim (Bool-cases (is_negative pong.code)) [
                    | inl m ↦ rw m q'
                    | inr m ↦ rw m (
                        dispatch-Fine (P.command_of (P.read_u8 s1).1) pong.client pong.world
                          (P.read_u8 s1).2 q')
                  ])
          ])
        ])
      ]

-- ===== src/Protocol/Handling.antt =====
-- Every handler, and the feeding of a datagram, is a step of the protocol: Handlers.antt and
-- Incoming.antt.
use nimble_client_c.Quality.{is_synced}
use nimble_client_c.Incoming.{
  is_disconnected, read_and_check_ordered_datagram, note_dropped, feed_ordered, dispatch, feed,
}
use nimble_client_c.Prelude.{
  refl, magnitude, take, length, ltb, ◌==◌, List, ℕ, ◌≡◌, inr, arith, inl, is_negative, Bool-cases,
  ◌≢◌,
}
use nimble_client_c.Platform.{
  unknown, out_of_participant_slots_response, game_state_response, join_game_response,
  game_step_response, server_out_blob_stream, connect_response, IncomingCommand, Platform,
}
use nimble_client_c.Client.{disconnected, World, NimbleClient}
use nimble_client_c.Protocol.{finish_download, View, view, Step, stay, connect, join, refuse}
use nimble_client_c.Handlers.{
  on_game_step_response, on_download_game_state_response, on_download_game_state_part,
  on_connect_response, on_join_game_response, on_join_game_participant_out_of_space_response,
  is_requesting_connect, is_joining_participant,
}
use nimble_client_c.Pong.{receive_pong}

module _ {P : Platform} (c : NimbleClient P) (w : World P) where
  connect-Step : (s : P.InStream) → Step (view c w) (view (on_connect_response c s).1 w)
  unfolding on_connect_response
  connect-Step s = elim (Bool-cases (is_negative (P.in_connect_response s).0)) [
    | inl e ↦ stay (ground arith)
    | inr e ↦ elim (Bool-cases (is_requesting_connect c.state)) [
      | inl r ↦ connect (ground arith) (ground arith)
      | inr r ↦ stay (ground arith)
    ]
  ]

  refuse-Step :
      (s : P.InStream)
      → c.state ≢ disconnected
      → Step (view c w) (view (on_join_game_participant_out_of_space_response c s).1 w)
  unfolding on_join_game_participant_out_of_space_response
  refuse-Step s h = elim (Bool-cases (is_negative (P.in_nonce s).0)) [
    | inl e ↦ stay (ground arith)
    | inr e ↦ refuse h (ground arith)
  ]

  join-Step :
      (s : P.InStream)
      → c.state ≢ disconnected
      → Step (view c w) (view (on_join_game_response c s).1 w)
  unfolding on_join_game_response
  join-Step s h = elim (Bool-cases (is_negative (P.in_join_response s).0)) [
    | inl e ↦ stay (ground arith)
    | inr e ↦ elim (Bool-cases (is_joining_participant c.join_participant_phase)) [
      | inl r ↦ join (P.in_join_response s).2 h (ground arith) (ground arith)
      | inr r ↦ stay (ground arith)
    ]
  ]

  start_download-Step :
      (s : P.InStream)
      → c.state ≢ disconnected
      → Step (view c w) (view (on_download_game_state_response c s).1 w)
  unfolding on_download_game_state_response
  start_download-Step s h =
      let r1 = P.read_u8 s in
      let r2 = P.in_state_id r1.2 in
      let r3 = P.in_channel_id r2.2 in
      elim (Bool-cases (is_negative r3.0)) [
        | inl e ↦ stay (ground arith)
        | inr e ↦ elim (Bool-cases (r1.1 == c.download_state_client_request_id)) [
          | inr o ↦ stay (ground arith)
          | inl o ↦ elim (Bool-cases (r3.1 == c.join_state_channel)) [
            | inl k ↦ stay (ground arith)
            | inr k ↦ Step.start_download h (ground arith)
          ]
        ]
      ]

  game_step-view : (s : P.InStream) → view (on_game_step_response c s).1 w ≡ view c w
  unfolding on_game_step_response
  game_step-view s = ground arith

  pub pong-view :
      (s : P.InStream) → view (receive_pong c w s).0.client (receive_pong c w s).0.world ≡ view c w
  unfolding receive_pong
  pong-view s = ground arith

  finish_download-Step :
      (s : P.InStream)
      → c.state ≢ disconnected
      → let o = on_download_game_state_part c w s in Step (view c w) (view o.client o.world)
  unfolding on_download_game_state_part
  finish_download-Step s h =
      let r = P.in_channel_id s in
      let b = P.blob_logic_receive c.blob_stream_in_logic c.blob_stream_in r.2 in
      elim (Bool-cases (r.1 == c.join_state_channel)) [
        | inr o ↦ stay (ground arith)
        | inl o ↦ elim (Bool-cases (is_negative b.0)) [
          | inl e ↦ stay (ground arith)
          | inr e ↦ elim (Bool-cases (P.blob_is_complete b.2)) [
            | inr m ↦ stay (ground arith)
            | inl m ↦ elim (Bool-cases (is_synced c.state)) [
              | inl k ↦ stay (ground arith)
              | inr k ↦
                  finish_download (take (P.blob_octet_count b.2) (P.blob_octets b.2)) h
                    (ground arith) (ground arith)
            ]
          ]
        ]
      ]

  dispatch-Step :
      (cmd : IncomingCommand) (s : P.InStream)
      → c.state ≢ disconnected
      → let o = dispatch cmd c w s in Step (view c w) (view o.client o.world)
  unfolding dispatch
  dispatch-Step connect_response s h = connect-Step s
  dispatch-Step server_out_blob_stream s h = finish_download-Step s h
  dispatch-Step game_step_response s h = stay (game_step-view s)
  dispatch-Step join_game_response s h = join-Step s h
  dispatch-Step game_state_response s h = start_download-Step s h
  dispatch-Step out_of_participant_slots_response s h = refuse-Step s h
  dispatch-Step unknown s h = stay refl

-- A step from a view is one from an equal view.
pub Step-from : {v v' u : View} → v' ≡ v → Step v' u → Step v u
Step-from e st = rw e at st

module _ {P : Platform} (c : NimbleClient P) (w : World P) where
  feed_ordered-Step :
      (s : P.InStream)
      → c.state ≢ disconnected
      → let o = feed_ordered c w s in Step (view c w) (view o.client o.world)
  unfolding feed_ordered
  feed_ordered-Step s h =
      let p = receive_pong c w s in
      let cmd = P.read_u8 p.1 in
      elim (Bool-cases (is_negative p.0.code)) [
        | inl e ↦ rw e (stay (pong-view c w s))
        | inr e ↦ rw e (
            Step-from (pong-view c w s) (
              dispatch-Step p.0.client p.0.world (P.command_of cmd.1) cmd.2
                (ground (arith, pong-view c w s))))
      ]

pub note_dropped-view :
    {P : Platform} (c : NimbleClient P) (w : World P) (d : ℕ) → view (note_dropped c d) w ≡ view c w
unfolding note_dropped
note_dropped-view c w d = ground arith

-- Feeding any octets to a client is at most one step of the protocol.
pub feed-Step :
    {P : Platform} (c : NimbleClient P) (w : World P) (octets : List ℕ)
    → let o = feed c w octets in Step (view c w) (view o.client o.world)
unfolding feed
feed-Step {P} c w octets =
    let d = read_and_check_ordered_datagram P c.ordered_datagram_in (P.in_init octets) in
    let ordered = record c { ordered_datagram_in = d.1 } in
    elim (Bool-cases (ltb (length octets) 1)) [
      | inl e ↦ rw e (stay refl)
      | inr e ↦ rw e (elim (Bool-cases (is_disconnected c.state)) [
        | inl k ↦ rw k (stay refl)
        | inr k ↦ rw k (elim (Bool-cases (is_negative d.0)) [
          | inl n ↦ rw n (stay refl)
          | inr n ↦ rw n (
              Step-from (note_dropped-view ordered w (magnitude d.0)) (
                feed_ordered-Step (note_dropped ordered (magnitude d.0)) w d.2
                  (ground (arith, note_dropped-view ordered w (magnitude d.0)))))
        ])
      ])
    ]

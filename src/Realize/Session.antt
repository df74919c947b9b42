-- ===== src/Realize/Session.antt =====
-- A whole session, from an idle client to its participants: network_realizer.c over client.c.
use nimble_client_c.Realize.Stages.{Stage}
use nimble_client_c.Realize.Waiting.{late_join_response_found}
use nimble_client_c.Realize.Handshake.{Answers, Exchange, await, exchange, handshake-Asks, tick}
use nimble_client_c.Realize.Answers.{body, Delivers}
use nimble_client_c.Realize.{RealizeState, NimbleClientRealize}
use nimble_client_c.Lifecycle.Participants.{first_with}
use nimble_client_c.Lifecycle.{find_participant_id, lookup_result}
use nimble_client_c.Client.{
  idle, connected, joining_downloading_state, synced, joined_participant, World,
}
use nimble_client_c.Platform.{
  server_out_blob_stream, game_state_response, connect_response, join_game_response, Platform,
}
use nimble_client_c.Prelude.{suc, length, is_negative, false, ◌≡◌, ◌≤◌, ℤ, ℕ}

module _ {P : Platform} where
  -- A realizer that aims at the synced state with an idle client gets its participants: it is updated
  -- once, and then the connect response, a game state response on a new channel to the client's
  -- request, the part that completes that channel's stream, and the join response arrive, in this
  -- order, each in a datagram that the ordering logic takes for newer, after silent updates. At the
  -- end realizer and client are synced, the client has joined, and the lookup of a local user's device
  -- gives the id that the join response has for it, or the failure. (The client counts as joining
  -- at the start, its connection is kept, with a counter towards a disconnect that makes less than
  -- 60 with the silent updates before the join response and one more; and that response has no more
  -- participants than there are entries. Of the other silent updates there may be any number.)
  pub exchanges_join :
      (now : ℤ) (x : NimbleClientRealize P × World P) (e1 e2 e3 e4 : Exchange) (index : ℕ)
      (s : P.InStream)
      → Stage (suc (length e4.silence)) idle x.0
      → Answers e1 (tick now x) connect_response connected
      → Answers e2 (exchange e1 (tick now x)) game_state_response joining_downloading_state
      → Answers e3 (exchange e2 (exchange e1 (tick now x))) server_out_blob_stream synced
      → Delivers P
          (await e4.silence
            (exchange e3 (exchange e2 (exchange e1 (tick now x))))).0.client.ordered_datagram_in
          e4.octets
          join_game_response
      → s
        ≡ body P
            (await e4.silence
              (exchange e3 (exchange e2 (exchange e1 (tick now x))))).0.client.ordered_datagram_in
            e4.octets
      → is_negative (P.in_join_response s).0 ≡ false
      → length (P.in_join_response s).2
        ≤ length
            (exchange e3 (exchange e2 (exchange e1 (tick now x)))).0.client.local_participant_lookup
      → let (r, _) = exchange e4 (exchange e3 (exchange e2 (exchange e1 (tick now x)))) in
        (r.state ≡ RealizeState.synced)
        × (r.client.state ≡ synced)
        × (r.client.join_participant_phase ≡ joined_participant)
        × (find_participant_id r.client index
            ≡ lookup_result (first_with index (P.in_join_response s).2))
  exchanges_join now x e1 e2 e3 e4 index s k a1 a2 a3 d is valid fits =
      let (r, w) = exchange e3 (exchange e2 (exchange e1 (tick now x))) in
      late_join_response_found e4.silence e4.time r w e4.octets index s is
        (handshake-Asks now x e1 e2 e3 (length e4.silence) k a1 a2 a3) d valid fits

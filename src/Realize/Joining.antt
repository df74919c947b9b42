-- ===== src/Realize/Joining.antt =====
-- The end of a joining: the join response in the update of a synced realizer.
use nimble_client_c.Realize.JoinResponse.{update_joined}
use nimble_client_c.Realize.Handshake.{tick_with}
use nimble_client_c.Lifecycle.Participants.{first_with}
use nimble_client_c.Realize.Hearing.{IsHealthy}
use nimble_client_c.Client.{
  synced, joined_participant, datagram, joining_participant, disconnected, World,
}
use nimble_client_c.Realize.Answers.{verdict, body, Delivers}
use nimble_client_c.Realize.{RealizeState, NimbleClientRealize, run_client, realize_update}
use nimble_client_c.Incoming.{is_disconnected}
use nimble_client_c.Prelude.{
  ◌≤◌, length, [], ◌∷◌, ◌∙◌, is_negative, refl, arith, false, ◌≢◌, List, ◌≡◌, ℤ, ℕ,
}
use nimble_client_c.Lifecycle.{
  begin_update, find_in_entries, find_participant_id, lookup_result, check_if_disconnect_is_needed,
  judge_connection,
}
use nimble_client_c.Platform.{join_game_response, Platform}
use nimble_client_c.Lifecycle

module _ {P : Platform} where
  -- A realizer that is where it aims to be just updates its client.
  pub realize_update_synced :
      (r : NimbleClientRealize P) (w : World P) (now : ℤ)
      → r.target_state ≡ RealizeState.synced
      → r.state ≡ RealizeState.synced
      → r.client.state ≢ disconnected
      → let o = Lifecycle.update r.client w now in
        realize_update r w now ≡ (record r { client = o.client }, o.world)
  unfolding realize_update run_client
  realize_update_synced r w now t s live =
      let listening : is_disconnected r.client.state ≡ false = ground arith in
      rw (listening, s, t) refl

  pub realize_update_joins :
      (now : ℤ) (r : NimbleClientRealize P) (w : World P) (octets : List ℕ) (index : ℕ)
      (s : P.InStream)
      → w.inbox ≡ datagram octets ∷ []
      → s ≡ body P r.client.ordered_datagram_in octets
      → r.target_state ≡ RealizeState.synced
      → r.state ≡ RealizeState.synced
      → r.client.state ≡ synced
      → r.client.join_participant_phase ≡ joining_participant
      → IsHealthy (verdict r.client)
      → Delivers P r.client.ordered_datagram_in octets join_game_response
      → is_negative (P.in_join_response s).0 ≡ false
      → length (P.in_join_response s).2 ≤ length r.client.local_participant_lookup
      → let (r', _) = realize_update r w now in
        (r'.state ≡ RealizeState.synced)
        × (r'.client.state ≡ synced)
        × (r'.client.join_participant_phase ≡ joined_participant)
        × (find_participant_id r'.client index
            ≡ lookup_result (first_with index (P.in_join_response s).2))
  realize_update_joins now r w octets index s waiting is target own at joining healthy d valid
        fits =
      let live : r.client.state ≢ disconnected = λ e. cc in
      let (state, phase, finds) =
        update_joined r.client w now octets index s is live healthy joining waiting d valid fits in
      rw (realize_update_synced r w now target own live) (own, state ∙ at, phase, finds)

  -- When the join response arrives at a synced realizer whose client is still joining, it stays
  -- synced, the client has joined, and the lookup of a local user's device gives the id that the
  -- response has for it, or the failure. (The connection is not about to be given up, and the
  -- response has no more participants than there are entries.)
  pub join_response_found :
      (now : ℤ) (r : NimbleClientRealize P) (w : World P) (octets : List ℕ) (index : ℕ)
      (s : P.InStream)
      → s ≡ body P r.client.ordered_datagram_in octets
      → r.target_state ≡ RealizeState.synced
      → r.state ≡ RealizeState.synced
      → r.client.state ≡ synced
      → r.client.join_participant_phase ≡ joining_participant
      → IsHealthy (verdict r.client)
      → Delivers P r.client.ordered_datagram_in octets join_game_response
      → is_negative (P.in_join_response s).0 ≡ false
      → length (P.in_join_response s).2 ≤ length r.client.local_participant_lookup
      → let (r', _) = tick_with now octets (r, w) in
        (r'.state ≡ RealizeState.synced)
        × (r'.client.state ≡ synced)
        × (r'.client.join_participant_phase ≡ joined_participant)
        × (find_participant_id r'.client index
            ≡ lookup_result (first_with index (P.in_join_response s).2))
  join_response_found now r w octets index s is target own at joining healthy d valid fits =
      realize_update_joins now r (record w { inbox = datagram octets ∷ [] }) octets index s refl is
        target own at joining healthy d valid fits

-- ===== src/Realize/Waiting.antt =====
-- A synced realizer that waits for the answer to its join request: network_realizer.c over client.c.
use nimble_client_c.Quality.{is_keep}
use nimble_client_c.Realize.Stages.{Asks}
use nimble_client_c.Realize.Joining.{join_response_found, realize_update_synced}
use nimble_client_c.Realize.Handshake.{await, tick, tick_with}
use nimble_client_c.Realize.Hearing.{
  judge_connection-state, begin_update-heard, update-keeps, IsHealthy,
}
use nimble_client_c.Realize.Answers.{verdict, body, Delivers}
use nimble_client_c.Realize.{realize_update, RealizeState, NimbleClientRealize}
use nimble_client_c.Lifecycle.Pacing.{update_quiet}
use nimble_client_c.Lifecycle.Participants.{first_with}
use nimble_client_c.Lifecycle.{
  judge_connection, begin_update, check_if_disconnect_is_needed, find_participant_id, lookup_result,
}
use nimble_client_c.Lifecycle
use nimble_client_c.Quality
use nimble_client_c.Protocol.Updating.{begin_update-view, wait_or_send-kept}
use nimble_client_c.Client.{
  synced, joined_participant, keep_connection, disconnected, World, NimbleClient,
}
use nimble_client_c.Platform.{join_game_response, Platform}
use nimble_client_c.Prelude.{
  ap, refl, arith, ◌∙◌, ◌≡◌, ◌≢◌, ◌≤◌, [], ◌∷◌, length, is_negative, false, pos, suc, ℤ, ℕ, List,
}

module _ {P : Platform} where
  -- What judging a synced connection that is not about to be given up leaves alone.
  judge_connection-waiting :
      (c : NimbleClient P)
      → c.state ≡ synced
      → IsHealthy (verdict c)
      → let c' = judge_connection c in
        (c'.quality ≡ Quality.update c.quality synced)
        × (c'.join_participant_phase ≡ c.join_participant_phase)
        × (c'.local_participant_lookup ≡ c.local_participant_lookup)
  unfolding judge_connection check_if_disconnect_is_needed
  judge_connection-waiting c e h = ground arith

  update_waiting :
      (c : NimbleClient P) (w : World P) (now : ℤ)
      → c.state ≡ synced
      → IsHealthy (verdict c)
      → w.inbox ≡ []
      → let c' = (Lifecycle.update c w now).client in
        (c'.state ≡ synced)
        × (c'.join_participant_phase ≡ c.join_participant_phase)
        × (c'.local_participant_lookup ≡ c.local_participant_lookup)
        × (c'.quality.reason ≡ keep_connection)
        × (c'.quality.considering_disconnect_counter ≤ suc c.quality.considering_disconnect_counter)
        × ((Lifecycle.update c w now).world.inbox ≡ [])
  update_waiting c w now at healthy quiet =
      let cb = begin_update c now in
      let (begun_state, begun_verdict) = begin_update-heard c now in
      let seen = begin_update-view c w now in
      let fine : IsHealthy (verdict cb) = rw begun_verdict healthy in
      let (quality, phase, entries) = judge_connection-waiting cb (begun_state ∙ at) fine in
      let (keeps, counts) = update-keeps cb.quality fine.0 fine.1 in
      let kept = wait_or_send-kept (judge_connection cb) (record w { inbox = [] }) now (pos 0) in
      let judged = ap (λ k. k.1) kept ∙ quality in
      let same = ap (λ v. v.1) begun_verdict in
      rw (update_quiet c w now quiet) (
        ap (λ k. k.0.state) kept ∙ judge_connection-state cb fine ∙ begun_state ∙ at,
        ap (λ k. k.0.phase) kept ∙ phase ∙ ap (λ v. v.phase) seen,
        ap (λ k. k.0.entries) kept ∙ entries ∙ ap (λ v. v.entries) seen,
        ap (λ q. q.reason) judged ∙ keeps,
        omega (arith, counts, same, ap (λ q. q.considering_disconnect_counter) judged),
        ap (λ k. k.2) kept,
      )

module _ {P : Platform} where
  pub realize_update_asking :
      (r : NimbleClientRealize P) (w : World P) (now : ℤ) (n : ℕ)
      → Asks (suc n) r
      → w.inbox ≡ []
      → let (r', w') = realize_update r w now in
        Asks n r'
        × (r'.client.local_participant_lookup ≡ r.client.local_participant_lookup)
        × (w'.inbox ≡ [])
  realize_update_asking r w now n k quiet =
      let live : r.client.state ≢ disconnected = λ e. let s = k.at in cc in
      let healthy : IsHealthy (verdict r.client) = (k.keeps, omega (arith, k.patient)) in
      let (state, phase, entries, keeps, counts, empty) =
        update_waiting r.client w now k.at healthy quiet in
      rw (realize_update_synced r w now k.target k.own live) (
        record {
          target = k.target;
          own = k.own;
          at = state;
          joining = phase ∙ k.joining;
          keeps = keeps;
          patient = omega (arith, counts, k.patient);
        },
        entries,
        empty,
      )

  await-Asks :
      (times : List ℤ) (r : NimbleClientRealize P) (w : World P)
      → Asks (length times) r
      → let r' = (await times (r, w)).0 in
        Asks 0 r' × (r'.client.local_participant_lookup ≡ r.client.local_participant_lookup)
  unfolding await
  await-Asks [] r w k = (k, refl)
  await-Asks (now ∷ times) r w k =
      let (r', w') = tick now (r, w) in
      let (k', entries, _) =
        realize_update_asking r (record w { inbox = [] }) now (length times) k refl in
      let (asks, entries') = await-Asks times r' w' k' in (asks, entries' ∙ entries)

  -- A synced realizer whose client is still joining can be left without an answer for some updates:
  -- if the join response arrives then, it is still synced, the client has joined, and the lookup of
  -- a local user's device gives the id that the response has for it, or the failure. (The silent
  -- updates and the counter towards a disconnect make less than 60 at the start, the reason is still
  -- to keep the connection, and the response has no more participants than there are entries.)
  pub late_join_response_found :
      (times : List ℤ) (now : ℤ) (r : NimbleClientRealize P) (w : World P) (octets : List ℕ)
      (index : ℕ) (s : P.InStream)
      → s ≡ body P (await times (r, w)).0.client.ordered_datagram_in octets
      → Asks (length times) r
      → Delivers P (await times (r, w)).0.client.ordered_datagram_in octets join_game_response
      → is_negative (P.in_join_response s).0 ≡ false
      → length (P.in_join_response s).2 ≤ length r.client.local_participant_lookup
      → let (r', _) = tick_with now octets (await times (r, w)) in
        (r'.state ≡ RealizeState.synced)
        × (r'.client.state ≡ synced)
        × (r'.client.join_participant_phase ≡ joined_participant)
        × (find_participant_id r'.client index
            ≡ lookup_result (first_with index (P.in_join_response s).2))
  late_join_response_found times now r w octets index s is k d valid fits =
      let (r', w') = await times (r, w) in
      let (k', entries) = await-Asks times r w k in
      join_response_found now r' w' octets index s is k'.target k'.own k'.at k'.joining
        (k'.keeps, omega (arith, k'.patient)) d valid (rw entries fits)

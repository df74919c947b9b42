-- ===== src/Realize/JoinResponse.antt =====
-- The join response in the update of a client that is still joining.
use nimble_client_c.Protocol.Updating.{begin_update-view, note_packet_in-view}
use nimble_client_c.Lifecycle.Participants.{find_participant_id-on_join_game_response, first_with}
use nimble_client_c.Protocol.Handling.{note_dropped-view, pong-view}
use nimble_client_c.Realize.Hearing.{
  judge_connection-state, update_fed, note_usable-heard, heard_first, IsHealthy,
}
use nimble_client_c.Handlers.{on_join_game_response}
use nimble_client_c.Client.{
  joined_participant, datagram, joining_participant, disconnected, World, NimbleClient,
}
use nimble_client_c.Realize.Answers.{
  at_message-standing, verdict, feed_delivered, body, Delivers, at_message,
}
use nimble_client_c.Incoming.{note_packet_in, note_dropped, feed, note_usable, dispatch}
use nimble_client_c.Prelude.{
  sym, ap, ◌≤◌, length, [], ◌∷◌, ◌∙◌, magnitude, pos, is_negative, refl, arith, false, ◌≢◌, List,
  ◌≡◌, ℤ, ℕ,
}
use nimble_client_c.Lifecycle.{
  begin_update, find_in_entries, find_participant_id, lookup_result, check_if_disconnect_is_needed,
  judge_connection,
}
use nimble_client_c.Platform.{join_game_response, Platform}
use nimble_client_c.Protocol.{view, View}
use nimble_client_c.Lifecycle

-- What a view says of the lookup of a device.
abbrev found : View → ℕ → ℤ × ℕ
found v index = lookup_result (find_in_entries v.count v.entries index)

module _ {P : Platform} where
  at_message-view :
      (c : NimbleClient P) (w : World P) (octets : List ℕ)
      → let m = at_message c w octets in view m.client m.world ≡ view c w
  unfolding at_message
  at_message-view c w octets =
      let d = P.ordered_receive c.ordered_datagram_in (P.in_init octets) in
      let ordered = record c { ordered_datagram_in = d.1 } in
      pong-view (note_dropped ordered (magnitude d.0)) w d.2
      ∙ note_dropped-view ordered w (magnitude d.0)

  feed-joined :
      (c : NimbleClient P) (w : World P) (octets : List ℕ)
      → c.state ≢ disconnected
      → Delivers P c.ordered_datagram_in octets join_game_response
      → let m = (at_message c w octets).client in
        let joined = on_join_game_response m (body P c.ordered_datagram_in octets) in
        ((feed c w octets).code ≡ joined.0) × ((feed c w octets).client ≡ joined.1)
  unfolding dispatch
  feed-joined c w octets live d =
      rw (feed_delivered c w octets join_game_response live d) (refl, refl)

  -- What judging the connection leaves alone.
  judge_connection-entries :
      (c : NimbleClient P)
      → let c' = judge_connection (note_usable c) in
        (c'.local_participant_count ≡ c.local_participant_count)
        × (c'.local_participant_lookup ≡ c.local_participant_lookup)
        × (c'.join_participant_phase ≡ c.join_participant_phase)
  unfolding judge_connection check_if_disconnect_is_needed note_usable
  judge_connection-entries c = ground arith

  on_join_game_response_joins :
      (c : NimbleClient P) (s : P.InStream)
      → is_negative (P.in_join_response s).0 ≡ false
      → c.join_participant_phase ≡ joining_participant
      → let (code, c') = on_join_game_response c s in
        (code ≡ pos 0)
        × (c'.join_participant_phase ≡ joined_participant)
        × (c'.state ≡ c.state)
        × (verdict c' ≡ verdict c)
  unfolding on_join_game_response
  on_join_game_response_joins c s valid joining = rw (valid, joining) (refl, refl, refl, refl)

  -- What a fed join response leads to.
  feed_joins :
      (c : NimbleClient P) (w : World P) (octets : List ℕ) (index : ℕ) (s : P.InStream)
      → s ≡ body P c.ordered_datagram_in octets
      → c.state ≢ disconnected
      → c.join_participant_phase ≡ joining_participant
      → Delivers P c.ordered_datagram_in octets join_game_response
      → is_negative (P.in_join_response s).0 ≡ false
      → length (P.in_join_response s).2 ≤ length c.local_participant_lookup
      → let f = feed c w octets in
        (f.code ≡ pos 0)
        × (f.client.join_participant_phase ≡ joined_participant)
        × (f.client.state ≡ c.state)
        × (verdict f.client ≡ verdict c)
        × (find_participant_id f.client index
            ≡ lookup_result (first_with index (P.in_join_response s).2))
  feed_joins c w octets index s is live joining d valid fits =
      let m = (at_message c w octets).client in
      let read = at_message-view c w octets in
      let waiting = ap (λ v. v.phase) read ∙ joining in
      let (code, phase, state, decided) = on_join_game_response_joins m s valid waiting in
      let (code', client) = feed-joined c w octets live d in
      let handled : on_join_game_response m (body P c.ordered_datagram_in octets)
          ≡ on_join_game_response m s =
        ap (on_join_game_response m) (sym is) in
      let client' = client ∙ ap (λ q. q.1) handled in
      (
        code' ∙ ap (λ q. q.0) handled ∙ code,
        ap (λ x. x.join_participant_phase) client' ∙ phase,
        ap (λ x. x.state) client' ∙ state ∙ ap (λ v. v.state) read,
        ap (λ x. verdict x) client'
            ∙ decided
            ∙ ap (λ x. x.decided) (at_message-standing c w octets),
        ap (λ x. find_participant_id x index) client'
            ∙ find_participant_id-on_join_game_response m s index valid waiting
                (rw (ap (λ v. v.entries) read) fits),
      )

  -- The client's update in which the join response arrives.
  pub update_joined :
      (c : NimbleClient P) (w : World P) (now : ℤ) (octets : List ℕ) (index : ℕ) (s : P.InStream)
      → s ≡ body P c.ordered_datagram_in octets
      → c.state ≢ disconnected
      → IsHealthy (verdict c)
      → c.join_participant_phase ≡ joining_participant
      → w.inbox ≡ datagram octets ∷ []
      → Delivers P c.ordered_datagram_in octets join_game_response
      → is_negative (P.in_join_response s).0 ≡ false
      → length (P.in_join_response s).2 ≤ length c.local_participant_lookup
      → let c' = (Lifecycle.update c w now).client in
        (c'.state ≡ c.state)
        × (c'.join_participant_phase ≡ joined_participant)
        × (find_participant_id c' index ≡ lookup_result (first_with index (P.in_join_response s).2))
  unfolding find_participant_id
  update_joined c w now octets index s is live healthy joining waiting d valid fits =
      let cb = begin_update c now in
      let c0 = note_packet_in cb in
      let w0 = record w { inbox = [] } in
      let (same, order) = heard_first c now in
      let seen : view c0 w0 ≡ view c w0 = note_packet_in-view cb w0 ∙ begin_update-view c w0 now in
      let f = feed c0 w0 octets in
      let (code, phase, state, decided, finds) =
        feed_joins c0 w0 octets index s (is ∙ ap (λ l. body P l octets) (sym order))
          (λ e. live (sym (ap (λ v. v.state) seen) ∙ e)) (ap (λ v. v.phase) seen ∙ joining)
          (rw order d) valid (rw (ap (λ v. v.entries) seen) fits) in
      let got = note_usable f.client in
      let (state', decided') = note_usable-heard f.client in
      let fine : IsHealthy (verdict got) =
        rw (decided' ∙ decided ∙ ap (λ x. x.decided) same) healthy in
      let k = update_fed c w now octets waiting d.filled (rw code refl) in
      let (count, entries, kept_phase) = judge_connection-entries f.client in
      (
        ap (λ x. x.0.state) k
            ∙ judge_connection-state got fine
            ∙ state'
            ∙ state
            ∙ ap (λ v. v.state) seen,
        ap (λ x. x.0.phase) k ∙ kept_phase ∙ phase,
        ap (λ x. found x.0 index) k
            ∙ ap
                (λ n.
                  lookup_result
                    (find_in_entries n (judge_connection got).local_participant_lookup index))
                count
            ∙ ap (λ es. lookup_result (find_in_entries f.client.local_participant_count es index))
                entries
            ∙ finds,
      )

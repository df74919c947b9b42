-- ===== src/Realize/Noise/Session.antt =====
-- A whole session over a transport that repeats, reorders and fails, from an idle client to its
-- participants: network_realizer.c over client.c and incoming.c.
use nimble_client_c.Lifecycle.Participants.{first_with}
use nimble_client_c.Lifecycle.{lookup_result, find_participant_id}
use nimble_client_c.Realize.Joining.{realize_update_joins, realize_update_synced}
use nimble_client_c.Realize.Waiting.{realize_update_asking}
use nimble_client_c.Realize.{RealizeState, realize_update, NimbleClientRealize}
use nimble_client_c.Client.{
  joined_participant, synced, joining_downloading_state, connected, datagram, idle, disconnected,
  World, Received, ParticipantEntry,
}
use nimble_client_c.Prelude.{
  All-append, ◌≤◌, false, is_negative, refl, ◌++◌, All, length, [], arith, ◌∙◌, ap, ◌≢◌, suc, ◌∷◌,
  ℤ, ◌≡◌, ℕ, List,
}
use nimble_client_c.Platform.{
  join_game_response, server_out_blob_stream, game_state_response, connect_response, Platform,
}
use nimble_client_c.Realize.Refusing.{IsRefused, update_quiet-order, LateLaw, update_refused}
use nimble_client_c.Realize.Noise.{
  AreRefused-behind_first, behind_first, Round, AreRefused, hear, updates_at,
}
use nimble_client_c.Realize.Noise.Handshake.{
  exchanges-Asks, Exchange, exchange, finding, Answers, IsNoisy,
}
use nimble_client_c.Realize.Stages.{Asks, Stage}
use nimble_client_c.Realize.Answers.{Delivers, body}

-- A synced realizer that still asks to join and bears `m` more silent updates, with the ordering logic
-- and the entries of its client.
record Waits {P : Platform} (m : ℕ) (l : P.OrderedIn) (entries : List ParticipantEntry)
    (r : NimbleClientRealize P) : Type 0 where
  pub asks : Asks m r
  pub order : r.client.ordered_datagram_in ≡ l
  pub same : r.client.local_participant_lookup ≡ entries

module _ {P : Platform} (L : LateLaw P) (l : P.OrderedIn) (entries : List ParticipantEntry) where
  realize_update_noise :
      (r : NimbleClientRealize P) (w : World P) (now : ℤ) (m : ℕ) (x : Received) (q : List Received)
      → Waits m l entries r
      → IsRefused P l x
      → w.inbox ≡ x ∷ q
      → let (r', w') = realize_update r w now in Waits m l entries r' × (w'.inbox ≡ q)
  realize_update_noise r w now m x q k refused waiting =
      let a = k.asks in
      let live : r.client.state ≢ disconnected = λ e. let s = a.at in cc in
      let (((state, decided, phase, order), entries'), left) =
        update_refused L r.client w now x q live (rw k.order refused) waiting in
      rw (realize_update_synced r w now a.target a.own live) (
        record {
          asks = record {
            target = a.target;
            own = a.own;
            at = state ∙ a.at;
            joining = phase ∙ a.joining;
            keeps = ap (λ v. v.0) decided ∙ a.keeps;
            patient = omega (arith, a.patient, ap (λ v. v.1) decided);
          };
          order = order ∙ k.order;
          same = entries' ∙ k.same;
        },
        left,
      )

  realize_update_hears :
      (q : List Received) (r : NimbleClientRealize P) (w : World P) (now : ℤ) (m : ℕ)
      → Waits (suc m) l entries r
      → AreRefused P l q
      → w.inbox ≡ q
      → let (r', w') = realize_update r w now in Waits m l entries r' × (w'.inbox ≡ behind_first q)
  realize_update_hears [] r w now m k refused waiting =
      let (asks, entries', empty) = realize_update_asking r w now m k.asks waiting in
      let live : r.client.state ≢ disconnected = λ e. let s = k.asks.at in cc in
      (
        record {
          asks = asks;
          order =
              ap (λ x. x.0.client.ordered_datagram_in)
                (realize_update_synced r w now k.asks.target k.asks.own live)
              ∙ update_quiet-order r.client w now waiting
              ∙ k.order;
          same = entries' ∙ k.same;
        },
        empty,
      )
  realize_update_hears (x ∷ q) r w now m k refused waiting =
      let (k', left) = realize_update_noise r w now (suc m) x q k refused.0 waiting in
      let a = k'.asks in
      (
        record {
          asks = record {
            target = a.target;
            own = a.own;
            at = a.at;
            joining = a.joining;
            keeps = a.keeps;
            patient = omega (arith, a.patient);
          };
          order = k'.order;
          same = k'.same;
        },
        left,
      )

  hear-Waits :
      (rounds : List Round) (r : NimbleClientRealize P) (w : World P)
      → Waits (length rounds) l entries r
      → AreRefused P l w.inbox
      → All (λ e. AreRefused P l e.received) rounds
      → let (r', w') = hear rounds (r, w) in Waits 0 l entries r' × AreRefused P l w'.inbox
  unfolding hear
  hear-Waits [] r w k waiting noise = (k, waiting)
  hear-Waits (e ∷ rounds) r w k waiting noise =
      let q = w.inbox ++ e.received in
      let (r', w') = realize_update r (record w { inbox = q }) e.time in
      let refused = All-append (IsRefused P l) w.inbox e.received waiting noise.0 in
      let (k', left) =
        realize_update_hears q r (record w { inbox = q }) e.time (length rounds) k refused refl in
      hear-Waits rounds r' w' k' (rw left (AreRefused-behind_first P l q refused)) noise.1

  updates_at-Waits :
      (times : List ℤ) (q : List Received) (d : Received) (r : NimbleClientRealize P) (w : World P)
      → Waits 0 l entries r
      → AreRefused P l q
      → length times ≡ length q
      → w.inbox ≡ q ++ d ∷ []
      → let (r', w') = updates_at times (r, w) in Waits 0 l entries r' × (w'.inbox ≡ d ∷ [])
  unfolding updates_at
  updates_at-Waits [] [] d r w k refused same waiting = (k, waiting)
  updates_at-Waits [] (x ∷ q) d r w k refused same waiting = absurd (omega arith)
  updates_at-Waits (now ∷ times) [] d r w k refused same waiting = absurd (omega arith)
  updates_at-Waits (now ∷ times) (x ∷ q) d r w k refused same waiting =
      let (r', w') = realize_update r w now in
      let (k', left) = realize_update_noise r w now 0 x (q ++ d ∷ []) k refused.0 waiting in
      updates_at-Waits times q d r' w' k' refused.1 (omega arith) left

module _ {P : Platform} (L : LateLaw P) where
  finding-Waits :
      (e : Exchange) (r0 : NimbleClientRealize P) (w0 : World P)
      → Asks (length e.noise) r0
      → w0.inbox ≡ []
      → IsNoisy e (r0, w0)
      → let (r, w) = finding e (r0, w0) in
        Waits 0 r0.client.ordered_datagram_in r0.client.local_participant_lookup r
        × (w.inbox ≡ datagram e.octets ∷ [])
  finding-Waits e r0 w0 k quiet h =
      let l = r0.client.ordered_datagram_in in
      let entries = r0.client.local_participant_lookup in
      let (r, w) = hear e.noise (r0, w0) in
      let (k', waiting) =
        hear-Waits L l entries e.noise r0 w0 (record { asks = k; order = refl; same = refl })
          (rw quiet tt) h.refused in
      updates_at-Waits L l entries e.catch_up w.inbox (datagram e.octets) r
        (record w { inbox = w.inbox ++ datagram e.octets ∷ [] }) k' waiting h.caught_up refl

  -- A realizer that aims at the synced state with an idle client gets its participants over a
  -- transport that fails, repeats and reorders: it is updated once, and then the connect response, a
  -- game state response on a new channel to the client's request, the part that completes that
  -- channel's stream, and the join response arrive, in this order. Before each there may be rounds in
  -- which nothing arrives, or any number of failures and of datagrams that are not newer than the
  -- last one taken; the answer waits in the transport behind what such rounds leave there, and one
  -- update takes off one of these, until the answer is taken in. At the end realizer and client are
  -- synced, the client has joined, and the lookup of a local user's device gives the id that the
  -- join response has for it, or the failure. (A datagram that is not newer leaves the ordering logic
  -- as it was. The client counts as joining at the start, its connection is kept, with a counter
  -- towards a disconnect that makes less than 60 with the rounds before the join response and one
  -- more; and that response has no more participants than there are entries.)
  pub exchanges_join_noisy :
      (now : ℤ) (r : NimbleClientRealize P) (w : World P) (e1 e2 e3 e4 : Exchange) (index : ℕ)
      (s : P.InStream)
      → let x0 = realize_update r w now in
        let x3 = exchange e3 (exchange e2 (exchange e1 x0)) in
        let c = (finding e4 x3).0.client in
        Stage (suc (length e4.noise)) idle r
        → w.inbox ≡ []
        → Answers e1 x0 connect_response connected
        → Answers e2 (exchange e1 x0) game_state_response joining_downloading_state
        → Answers e3 (exchange e2 (exchange e1 x0)) server_out_blob_stream synced
        → IsNoisy e4 x3
        → Delivers P c.ordered_datagram_in e4.octets join_game_response
        → s ≡ body P c.ordered_datagram_in e4.octets
        → is_negative (P.in_join_response s).0 ≡ false
        → length (P.in_join_response s).2 ≤ length x3.0.client.local_participant_lookup
        → let (r', _) = exchange e4 x3 in
          (r'.state ≡ RealizeState.synced)
          × (r'.client.state ≡ synced)
          × (r'.client.join_participant_phase ≡ joined_participant)
          × (find_participant_id r'.client index
              ≡ lookup_result (first_with index (P.in_join_response s).2))
  exchanges_join_noisy now r w e1 e2 e3 e4 index s k quiet a1 a2 a3 noisy d is valid fits =
      let (r3, w3) = exchange e3 (exchange e2 (exchange e1 (realize_update r w now))) in
      let (asks, empty) = exchanges-Asks L now r w e1 e2 e3 (length e4.noise) k quiet a1 a2 a3 in
      let (found, waiting) = finding-Waits e4 r3 w3 asks empty noisy in
      let (r', w') = finding e4 (r3, w3) in
      let a = found.asks in
      realize_update_joins e4.time r' w' e4.octets index s waiting is a.target a.own a.at a.joining
        (a.keeps, omega (arith, a.patient)) d valid (rw found.same fits)

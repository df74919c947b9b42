-- ===== src/Protocol/Updating.antt =====
-- An update of the client is a run of protocol steps: `nimbleClientUpdate` and the receive loop.
use nimble_client_c.Protocol.Handling.{feed-Step, Step-from}
use nimble_client_c.Protocol.Sending.{outgoing-kept, kept}
use nimble_client_c.Quality.{is_synced}
use nimble_client_c.Prelude.{
  ap, List, [], inc_size, length, ltb, int_of_long, ◌∙◌, sym, ◌∷◌, ◌||◌, ℕ, inl, inr, refl,
  is_positive, is_negative, arith, ◌≡◌, ℤ, Bool-cases,
}
use nimble_client_c.Platform.{Platform}
use nimble_client_c.Quality
use nimble_client_c.Client.{datagram, failure, Received, World, NimbleClient}
use nimble_client_c.Protocol.{view, View, Step, stay, give_up, Reach, here, next}
use nimble_client_c.Incoming.{
  is_disconnected, note_packet_in, note_usable, feed, receive_from,
  receive_all_datagrams_from_transport,
}
use nimble_client_c.Lifecycle.{
  check_if_disconnect_is_needed, calc_stats, is_idle, show_stats, update, begin_update,
  judge_connection, wait_or_send, send_packets,
}

Reach-trans : {v u t : View} → Reach v u → Reach u t → Reach v t
Reach-trans r here = r
Reach-trans r (next q st) = next (Reach-trans r q) st

Reach-to : {v u u' : View} → u ≡ u' → Reach v u → Reach v u'
Reach-to e r = rw e at r

Reach-from : {v v' u : View} → v' ≡ v → Reach v' u → Reach v u
Reach-from e r = rw e at r

module _ {P : Platform} where
  pub note_packet_in-view :
      (c : NimbleClient P) (w : World P) → view (note_packet_in c) w ≡ view c w
  unfolding note_packet_in
  note_packet_in-view c w = ground arith

  pub note_usable-view : (c : NimbleClient P) (w : World P) → view (note_usable c) w ≡ view c w
  unfolding note_usable
  note_usable-view c w = refl

  stats-kept :
      (c : NimbleClient P) (w : World P) (now : ℤ)
      → kept (show_stats (calc_stats c now)) w ≡ kept c w
  unfolding show_stats calc_stats
  stats-kept c w now = refl

  receive_from-Reach :
      (inbox : List Received) (count : ℕ) (c : NimbleClient P) (w : World P)
      → let o = receive_from inbox count c w in Reach (view c w) (view o.client o.world)
  unfolding receive_from
  receive_from-Reach [] count c w = here
  receive_from-Reach (failure n ∷ rest) count c w = here
  receive_from-Reach (datagram octets ∷ rest) count c w =
      let w' = record w { inbox = rest } in
      let fed = feed (note_packet_in c) w' octets in
      let first =
        next here (Step-from (note_packet_in-view c w') (feed-Step (note_packet_in c) w' octets)) in
      elim (Bool-cases (ltb 0 (length octets))) [
        | inr e ↦ rw e here
        | inl e ↦ rw e (elim (Bool-cases (is_negative fed.code)) [
          | inl n ↦ rw n first
          | inr n ↦ rw n (
              Reach-trans first (
                Reach-from (note_usable-view fed.client fed.world)
                  (receive_from-Reach rest (inc_size count) (note_usable fed.client) fed.world)))
        ])
      ]

  -- Receiving everything that waits is a run of protocol steps.
  receive_all-Reach :
      (c : NimbleClient P) (w : World P)
      → let o = receive_all_datagrams_from_transport c w in Reach (view c w) (view o.client o.world)
  unfolding receive_all_datagrams_from_transport
  receive_all-Reach c w = receive_from-Reach w.inbox 0 c w

  pub begin_update-view :
      (c : NimbleClient P) (w : World P) (now : ℤ) → view (begin_update c now) w ≡ view c w
  unfolding begin_update
  begin_update-view c w now = ground arith

  judge_connection-Step :
      (c : NimbleClient P) (w : World P) → Step (view c w) (view (judge_connection c) w)
  unfolding judge_connection check_if_disconnect_is_needed
  judge_connection-Step c w = elim (Bool-cases (is_synced c.state)) [
    | inr e ↦ stay (ground arith)
    | inl e ↦ elim (Bool-cases (Quality.should_disconnect (Quality.update c.quality c.state))) [
      | inl d ↦ give_up (ground arith) (ground arith)
      | inr d ↦ stay (ground arith)
    ]
  ]

  send_packets-kept :
      (c : NimbleClient P) (w : World P)
      → let o = send_packets c w in kept o.client o.world ≡ kept c w
  unfolding send_packets
  send_packets-kept c w = elim (Bool-cases (is_idle c.state || is_disconnected c.state)) [
    | inl e ↦ rw e refl
    | inr e ↦ rw e (outgoing-kept c w)
  ]

  pub wait_or_send-kept :
      (c : NimbleClient P) (w : World P) (now code : ℤ)
      → let o = wait_or_send c w now code in kept o.client o.world ≡ kept c w
  unfolding wait_or_send
  wait_or_send-kept c w now code = elim (Bool-cases (is_positive c.wait_time)) [
    | inl e ↦ rw e refl
    | inr e ↦ rw e (send_packets-kept (show_stats (calc_stats c now)) w ∙ stats-kept c w now)
  ]

  -- An update, whatever arrives and whenever it is made, is a run of protocol steps.
  pub update-Reach :
      (c : NimbleClient P) (w : World P) (now : ℤ)
      → let o = update c w now in Reach (view c w) (view o.client o.world)
  unfolding update
  update-Reach c w now =
      let got = receive_all_datagrams_from_transport (begin_update c now) w in
      let received =
        Reach-from (begin_update-view c w now) (receive_all-Reach (begin_update c now) w) in
      elim (Bool-cases (is_negative got.code)) [
        | inl e ↦ rw e received
        | inr e ↦ rw e (
            Reach-to
              (sym (
                ap (λ k. k.0)
                  (wait_or_send-kept (judge_connection got.client) got.world now
                    (int_of_long got.code))))
              (next received (judge_connection-Step got.client got.world)))
      ]

-- ===== src/Lifecycle/Left.antt =====
-- What an update leaves waiting in the transport is of what waited: client.c over receive_transport.c.
use nimble_client_c.Lifecycle.{update, begin_update, judge_connection}
use mathlib.Core.Path.{subst}
use mathlib.Core.Path.{subst}
use nimble_client_c.Incoming.Loop.{feed-inbox}
use nimble_client_c.Protocol.Updating.{wait_or_send-kept}
use nimble_client_c.Lifecycle.{judge_connection, begin_update}
use nimble_client_c.Incoming.{
  note_usable, note_packet_in, feed, receive_all_datagrams_from_transport, receive_from,
}
use nimble_client_c.Client.{datagram, World, failure, NimbleClient, Received}
use nimble_client_c.Prelude.{
  ap, sym, int_of_long, inc_size, inr, length, inl, is_negative, ltb, Bool-cases, All, ℤ, [], ◌∷◌,
  ℕ, List,
}
use nimble_client_c.Platform.{Platform}

module _ {P : Platform} where
  receive_from-rest :
      (R : Received → Type 0) (inbox : List Received) (count : ℕ) (c : NimbleClient P) (w : World P)
      → All R inbox
      → All R (receive_from inbox count c w).world.inbox
  unfolding receive_from
  receive_from-rest R [] count c w all = tt
  receive_from-rest R (failure n ∷ rest) count c w all = all.1
  receive_from-rest R (datagram octets ∷ rest) count c w all =
      let w' = record w { inbox = rest } in
      let fed = feed (note_packet_in c) w' octets in
      elim (Bool-cases (ltb 0 (length octets))) [
        | inr e ↦ rw e all.1
        | inl e ↦ elim (Bool-cases (is_negative fed.code)) [
          | inl n ↦ rw (e, n) (rw (feed-inbox (note_packet_in c) w' octets) all.1)
          | inr n ↦
              rw (e, n)
                (receive_from-rest R rest (inc_size count) (note_usable fed.client) fed.world all.1)
        ]
      ]

  pub update-rest :
      (R : Received → Type 0) (c : NimbleClient P) (w : World P) (now : ℤ)
      → All R w.inbox
      → All R (update c w now).world.inbox
  unfolding update receive_all_datagrams_from_transport
  update-rest R c w now all =
      let got = receive_from w.inbox 0 (begin_update c now) w in
      let rest = receive_from-rest R w.inbox 0 (begin_update c now) w all in
      elim (Bool-cases (is_negative got.code)) [
        | inl e ↦ rw e rest
        | inr e ↦
            let k =
              wait_or_send-kept (judge_connection got.client) got.world now
                (int_of_long got.code) in
            rw e (subst (All R) (sym (ap (λ x. x.2) k)) rest)
      ]

-- ===== src/Tests/Accounts.antt =====
-- The theorem on the accounting of sequence numbers, with two numbers missing.
use nimble_client_c.Handlers.{on_connect_response}
use nimble_client_c.Pong.{receive_pong}
use nimble_client_c.Tests.Fixture.{in_state, toy_world}
use nimble_client_c.Tests.Toy.{toy}
use nimble_client_c.Incoming.{
  note_usable, note_packet_in, add_dropped_packets, note_dropped, dispatch, feed_ordered, feed,
  receive_all_datagrams_from_transport,
}
use nimble_client_c.Incoming.Accounts.{receive_all_accounts, OrderLaws}
use nimble_client_c.Prelude.{
  false, is_negative, refl, [], ◌∷◌, ◌^◌, magnitude, ◌+◌, true, pos, arith, is_positive, List, ◌%◌,
  ◌≡◌, ℕ,
}
use nimble_client_c.Client.{datagram, ClientState, World, NimbleClient}

-- The small ordering logic moves on to the number that it takes for newer.
toy_receives :
    (l : ℕ) (s : List ℕ)
    → is_positive (toy.ordered_receive l s).0 ≡ true
    → (toy.ordered_receive l s).1 % 256 ≡ (l % 256 + magnitude (toy.ordered_receive l s).0) % 256
toy_receives l [] h = ground arith
toy_receives l (id ∷ s) h = ground arith

abbrev toy-OrderLaws : OrderLaws toy
toy-OrderLaws = record {
  period = 256;
  last = λ l. l % 256;
  in_range = λ l. omega arith;
  receives = toy_receives;
}

-- The numbers 1 and 4 arrive; 2 and 3 are missing.
abbrev gap : World toy
gap = record toy_world {
  inbox =
      datagram (1 ∷ 0xdd ∷ 3 ∷ 200 ∷ 1 ∷ 9 ∷ []) ∷ datagram (4 ∷ 0xdd ∷ 3 ∷ 200 ∷ 1 ∷ 9 ∷ []) ∷ [];
}

abbrev requesting : NimbleClient toy
requesting = in_state ClientState.requesting_connect

gap_is_received : is_negative (receive_all_datagrams_from_transport requesting gap).code ≡ false
unfolding receive_all_datagrams_from_transport feed feed_ordered dispatch note_dropped
    add_dropped_packets receive_pong on_connect_response note_packet_in note_usable
gap_is_received = refl

receive_all_accounts_example :
    let o = receive_all_datagrams_from_transport requesting gap in
    (received missed : ℕ) × (o.code ≡ pos received)
    × (o.client.ordered_datagram_in % 256 ≡ (0 % 256 + received + missed) % 256)
    × (o.client.quality.dropped_datagram_counter ≡ (0 + missed) % 2 ^ 64)
receive_all_accounts_example =
    receive_all_accounts toy-OrderLaws requesting gap (omega arith) (omega arith) refl
      gap_is_received

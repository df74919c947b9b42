-- ===== src/Tests/Incoming.antt =====
-- The theorems on the feeding of datagrams, at inputs that meet their hypotheses.
use nimble_client_c.Incoming.Loop.{receive_loop_ends, receive_loop}
use nimble_client_c.Handlers.{on_connect_response}
use nimble_client_c.Pong.{receive_pong}
use nimble_client_c.Prelude.{some, pos, refl, [], ◌∷◌, arith, List, ℕ, ◌≡◌}
use nimble_client_c.Tests.Fixture.{toy_world, in_state}
use nimble_client_c.Tests.Toy.{toy}
use nimble_client_c.Client.{datagram, NimbleClient, World, Outcome, ClientState}
use nimble_client_c.Incoming.{
  add_dropped_packets, note_dropped, dispatch, feed_ordered, feed,
  receive_all_datagrams_from_transport, note_packet_in, note_usable,
}
use nimble_client_c.Incoming.Receiving.{feed_each, receive_all_feeds_each, receive_all_stops}

-- A datagram with that sequence number, in which the server answers the connect request.
abbrev connect_datagram : ℕ → List ℕ
connect_datagram id = id ∷ 0xdd ∷ 3 ∷ 200 ∷ 1 ∷ 9 ∷ []

abbrev requesting : NimbleClient toy
requesting = in_state ClientState.requesting_connect

-- The answer to the connect request connects the client.
connected_by_answer :
    (feed requesting toy_world (connect_datagram 1)).client.state ≡ ClientState.connected
unfolding feed feed_ordered dispatch note_dropped add_dropped_packets receive_pong
    on_connect_response
connected_by_answer = refl

abbrev waiting : World toy
waiting = record toy_world {
  inbox =
      datagram (connect_datagram 1)
      ∷ datagram (connect_datagram 1)
      ∷ datagram (connect_datagram 3)
      ∷ [];
}

abbrev one_waiting : World toy
one_waiting = record toy_world { inbox = datagram (connect_datagram 1) ∷ [] }

receive_all_feeds_each_example :
    let fed = feed (note_packet_in requesting) toy_world (connect_datagram 1) in
    receive_all_datagrams_from_transport requesting one_waiting ≡ record {
      code = pos 1;
      client = note_usable fed.client;
      world = record (fed.world) { inbox = [] };
    }
unfolding feed_each feed feed_ordered dispatch note_dropped receive_pong on_connect_response
    note_packet_in
receive_all_feeds_each_example =
    receive_all_feeds_each (connect_datagram 1 ∷ []) requesting
      (note_usable (feed (note_packet_in requesting) toy_world (connect_datagram 1)).client)
      one_waiting (feed (note_packet_in requesting) toy_world (connect_datagram 1)).world
      (omega arith) (omega arith) refl refl

abbrev first_fed : Outcome toy
first_fed =
    feed (note_packet_in requesting)
      (record toy_world {
        inbox = datagram (connect_datagram 1) ∷ datagram (connect_datagram 3) ∷ [];
      })
      (connect_datagram 1)

receive_all_stops_example :
    receive_all_datagrams_from_transport requesting waiting
    ≡ feed
        (note_packet_in (note_usable first_fed.client))
        (record (first_fed.world) { inbox = datagram (connect_datagram 3) ∷ [] })
        (connect_datagram 1)
unfolding feed_each feed feed_ordered dispatch note_dropped receive_pong on_connect_response
    note_packet_in note_usable
receive_all_stops_example =
    receive_all_stops (connect_datagram 1 ∷ []) requesting (note_usable first_fed.client) waiting
      first_fed.world (omega arith) (omega arith) (connect_datagram 1)
      (datagram (connect_datagram 3) ∷ []) (omega arith) refl refl refl

receive_loop_ends_example :
    receive_loop 9 0 requesting waiting
    ≡ some (receive_all_datagrams_from_transport requesting waiting)
receive_loop_ends_example = receive_loop_ends 9 requesting waiting (omega arith)

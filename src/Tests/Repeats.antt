-- ===== src/Tests/Repeats.antt =====
-- The theorem on a datagram that is delivered more than once, with three copies of a connect response.
use nimble_client_c.Handlers.{on_connect_response}
use nimble_client_c.Pong.{receive_pong}
use nimble_client_c.Protocol.{view}
use nimble_client_c.Lifecycle.{begin_update}
use nimble_client_c.Tests.Fixture.{in_state, toy_world}
use nimble_client_c.Incoming.Rejects.{order_of}
use nimble_client_c.Tests.Toy.{toy}
use nimble_client_c.Lifecycle.Pacing.{updates}
use nimble_client_c.Incoming.{
  add_dropped_packets, note_dropped, note_packet_in, dispatch, feed_ordered, feed,
}
use nimble_client_c.Lifecycle.Repeats.{updates-repeated, copies, RepeatLaw}
use nimble_client_c.Client.{ClientState, NimbleClient, World, Outcome}
use nimble_client_c.Prelude.{
  is_negative, arith, false, true, [], ◌≡◌, pos, ◌∷◌, ℕ, List, is_positive, refl,
}

-- The small ordering logic takes a number for newer if it is above the last one.
toy_repeats :
    (l : ℕ) (s : List ℕ)
    → is_positive (toy.ordered_receive l s).0 ≡ true
    → is_positive (toy.ordered_receive (toy.ordered_receive l s).1 s).0 ≡ false
toy_repeats l [] h = ground arith
toy_repeats l (id ∷ s) h = ground arith

toy_keeps :
    (l : ℕ) (s : List ℕ)
    → is_positive (toy.ordered_receive l s).0 ≡ false
    → (toy.ordered_receive l s).1 ≡ l
toy_keeps l [] h = ground arith
toy_keeps l (id ∷ s) h = ground arith

abbrev toy-RepeatLaw : RepeatLaw toy
toy-RepeatLaw = record { repeats = toy_repeats; keeps = toy_keeps }

abbrev response : List ℕ
response = 1 ∷ 0xdd ∷ 3 ∷ 200 ∷ 1 ∷ 9 ∷ []

abbrev requesting : NimbleClient toy
requesting = in_state ClientState.requesting_connect

-- The response arrives three times.
abbrev threefold : World toy
threefold = record toy_world { inbox = copies 3 response }

abbrev first_fed : Outcome toy
first_fed =
    feed (note_packet_in (begin_update requesting (pos 1000)))
      (record threefold { inbox = copies 2 response }) response

first_is_taken : is_negative first_fed.code ≡ false
unfolding feed feed_ordered dispatch note_dropped add_dropped_packets receive_pong
    on_connect_response note_packet_in begin_update
first_is_taken = refl

first_is_newer : is_positive (order_of requesting response).0 ≡ true
first_is_newer = refl

updates-repeated_example :
    let (c', w') = updates (pos 1000 ∷ pos 1016 ∷ []) requesting threefold in
    (view c' w' ≡ view first_fed.client first_fed.world) × (w'.inbox ≡ [])
updates-repeated_example =
    updates-repeated toy-RepeatLaw response (omega arith) (pos 1016 ∷ []) (pos 1000) requesting
      threefold refl (λ e. absurd (ground arith)) first_is_newer first_is_taken

-- ===== src/Incoming/Rejects.antt =====
-- The datagrams that are not acted on, and the receive loop: incoming.c and receive_transport.c.
use nimble_client_c.Prelude.{
  negsuc, false, ltb, is_positive, pos, length, ℤ, ℕ, List, refl, arith, ◌≢◌, ◌≡◌, ◌<◌,
}
use nimble_client_c.Platform.{Platform}
use nimble_client_c.Client.{disconnected, NimbleClient, World}
use nimble_client_c.Incoming.{feed, is_disconnected}

-- What the ordering logic makes of a datagram.
abbrev pub order_of : {P : Platform} → NimbleClient P → List ℕ → ℤ × P.OrderedIn × P.InStream
order_of {P} c octets = P.ordered_receive c.ordered_datagram_in (P.in_init octets)

module _ {P : Platform} (c : NimbleClient P) (w : World P) (octets : List ℕ) where
  -- A datagram that is not newer than the last one taken is refused with -91, before its pong or its
  -- message is read: only the ordering logic's own state changes.
  pub feed_out_of_order :
      0 < length octets
      → c.state ≢ disconnected
      → is_positive (order_of c octets).0 ≡ false
      → feed c w octets ≡ record {
        code = negsuc 90;
        client = record c { ordered_datagram_in = (order_of c octets).1 };
        world = w;
      }
  unfolding feed
  feed_out_of_order h d o =
      let some_octets : ltb (length octets) 1 ≡ false = ground arith in
      let live : is_disconnected c.state ≡ false = ground arith in rw (some_octets, live, o) refl

  -- A disconnected client takes any datagram that is not empty for well and does nothing with it.
  feed_disconnected :
      0 < length octets
      → c.state ≡ disconnected
      → feed c w octets ≡ record { code = pos 0; client = c; world = w }
  unfolding feed
  feed_disconnected h d =
      let some_octets : ltb (length octets) 1 ≡ false = ground arith in rw (some_octets, d) refl

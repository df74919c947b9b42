-- ===== src/Incoming/Receiving.antt =====
-- The receive loop, whole: receive_transport.c.
use nimble_client_c.Prelude.{
  suc, ltb, pos, true, is_negative, ◌∷◌, length, ℕ, List, refl, inr, inl, Bool-cases, arith, ◌∙◌,
  ap, none, [], if◌then◌else◌, ◌++◌, ◌≡◌, map, ◌^◌, some, ◌+◌, Option, All, ◌<◌,
}
use mathlib.Core.Option.{some-injective}
use nimble_client_c.Platform.{Platform}
use nimble_client_c.Client.{datagram, Received, NimbleClient, World}
use nimble_client_c.Incoming.{
  feed, receive_from, receive_all_datagrams_from_transport, note_packet_in, note_usable,
}

-- The datagrams `ds` fed one after the other, with `rest` waiting behind them: the client and the
-- world after the last, if every one is taken for well.
unfoldable pub feed_each :
    {P : Platform}
    → List (List ℕ)
    → List Received
    → NimbleClient P
    → World P
    → Option (NimbleClient P × World P)
feed_each [] rest c w = some (c, w)
feed_each (octets ∷ ds) rest c w =
    let fed = feed (note_packet_in c) (record w { inbox = map datagram ds ++ rest }) octets in
    let after = feed_each ds rest (note_usable fed.client) fed.world in
    if is_negative fed.code then none else after

abbrev HasOctets : List ℕ → Type 0
HasOctets octets = 0 < length octets

receive_from-feed_each :
    {P : Platform} (ds : List (List ℕ)) (rest : List Received) (count : ℕ) (c c' : NimbleClient P)
    (w w' : World P)
    → All HasOctets ds
    → count + length ds < 2 ^ 31
    → feed_each ds rest c w ≡ some (c', w')
    → receive_from (map datagram ds ++ rest) count c w ≡ receive_from rest (count + length ds) c' w'
unfolding feed_each receive_from
receive_from-feed_each [] rest count c c' w w' some_octets bound e =
    ap (λ n. receive_from rest n c w) (omega arith)
    ∙ ap (λ q. receive_from rest (count + 0) q.0 q.1) (some-injective _ _ e)
receive_from-feed_each (octets ∷ ds) rest count c c' w w' some_octets bound e =
    let inbox : List Received = map datagram ds ++ rest in
    let fed = feed (note_packet_in c) (record w { inbox = inbox }) octets in
    let filled : ltb 0 (length octets) ≡ true = ground arith in
    elim (Bool-cases (is_negative fed.code)) [
      | inl n ↦ let bad = rw n at e in cc
      | inr n ↦
          rw (filled, n)
            (ap (λ k. receive_from inbox k (note_usable fed.client) fed.world) (omega arith)
              ∙ receive_from-feed_each ds rest (suc count) (note_usable fed.client) c' fed.world w'
                  some_octets.1 (omega arith) (rw n at e)
              ∙ ap (λ k. receive_from rest k c' w') (omega arith))
    ]

module _ {P : Platform} (ds : List (List ℕ)) (c c' : NimbleClient P) (w w' : World P)
    (some_octets : All HasOctets ds) (bound : length ds < 2 ^ 31) where
  -- If fewer than 2 ^ 31 datagrams wait, none of them empty, and each is taken for well when they
  -- are fed in order, the call returns their number, with the client and the world after the last
  -- feeding, and nothing waits any more.
  pub receive_all_feeds_each :
      w.inbox ≡ map datagram ds ++ []
      → feed_each ds [] c w ≡ some (c', w')
      → receive_all_datagrams_from_transport c w
        ≡ record { code = pos (length ds); client = c'; world = record w' { inbox = [] } }
  unfolding receive_all_datagrams_from_transport receive_from
  receive_all_feeds_each waiting e =
      ap (λ inbox. receive_from inbox 0 c w) waiting
      ∙ receive_from-feed_each ds [] 0 c c' w w' some_octets (omega arith) e
      ∙ ap (λ code. record { code = code; client = c'; world = record w' { inbox = [] } })
          (ground arith)

  -- If, behind such datagrams, one is refused, the call stops there with the code, the client and the
  -- world of that feeding, in which all behind it still waits.
  pub receive_all_stops :
      (bad : List ℕ) (rest : List Received)
      → HasOctets bad
      → w.inbox ≡ map datagram ds ++ datagram bad ∷ rest
      → feed_each ds (datagram bad ∷ rest) c w ≡ some (c', w')
      → is_negative (feed (note_packet_in c') (record w' { inbox = rest }) bad).code ≡ true
      → receive_all_datagrams_from_transport c w
        ≡ feed (note_packet_in c') (record w' { inbox = rest }) bad
  unfolding receive_all_datagrams_from_transport receive_from
  receive_all_stops bad rest filled waiting e n =
      let some_bad : ltb 0 (length bad) ≡ true = ground arith in
      ap (λ inbox. receive_from inbox 0 c w) waiting
      ∙ receive_from-feed_each ds (datagram bad ∷ rest) 0 c c' w w' some_octets (omega arith) e
      ∙ rw (some_bad, n) refl

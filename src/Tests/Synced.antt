-- ===== src/Tests/Synced.antt =====
-- The theorems on what a synced client sends, at a client with one step to send.
use nimble_client_c.Prelude.{length-append, replicate, ◌++◌, refl, arith, ◌∷◌, [], ◌≡◌, pos}
use nimble_client_c.Tests.Fixture.{toy_world, in_state}
use nimble_client_c.Tests.Toy.{toy}
use nimble_client_c.Client.{joined_participant, NimbleClient, ClientState}
use nimble_client_c.Outgoing.{send_steps_to_server, outgoing}
use nimble_client_c.Outgoing.Synced.{
  outgoing_joined, outgoing_joining, LongJoins, ShortHeaders, StepsGo, steps_datagram,
}

abbrev predicting : NimbleClient toy
predicting = record (in_state ClientState.synced) { out_steps = 1 }

abbrev playing : NimbleClient toy
playing = record predicting { join_participant_phase = joined_participant }

predicting-StepsGo : StepsGo predicting toy_world
predicting-StepsGo = record { headed_well = refl; some_steps = refl; taken = refl }

playing-StepsGo : StepsGo playing toy_world
playing-StepsGo = record { headed_well = refl; some_steps = refl; taken = refl }

toy-LongJoins : LongJoins toy
toy-LongJoins out n x = omega (arith, length-append out (n ∷ x ∷ replicate 9 0))

toy-ShortHeaders : ShortHeaders toy
toy-ShortHeaders l time = omega arith

-- The steps under the number 0, and the join request under the number 1, a clock tick later.
outgoing_joining_example :
    ((outgoing predicting toy_world).world.outbox
      ≡ record { through = 1; octets = 1 ∷ 3 ∷ 248 ∷ 0 ∷ 0 ∷ replicate 9 0 }
        ∷ steps_datagram predicting toy_world
        ∷ [])
    × ((outgoing predicting toy_world).client.ordered_datagram_out ≡ 2)
    × ((outgoing predicting toy_world).client.wait_time ≡ pos 4)
unfolding send_steps_to_server
outgoing_joining_example =
    outgoing_joining predicting toy_world refl predicting-StepsGo toy-LongJoins refl

outgoing_joined_example :
    ((outgoing playing toy_world).world.outbox
      ≡ record { through = 1; octets = 0 ∷ 3 ∷ 232 ∷ 3 ∷ replicate 9 0 ++ 0 ∷ 7 ∷ [] } ∷ [])
    × ((outgoing playing toy_world).client.ordered_datagram_out ≡ 2)
outgoing_joined_example =
    outgoing_joined playing toy_world refl playing-StepsGo toy-ShortHeaders (λ e. cc)

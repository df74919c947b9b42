-- ===== src/Tests/Lifecycle.antt =====
-- The theorems on the client's life, at inputs that meet their hypotheses.
use nimble_client_c.Lifecycle.Loops.{participant_loops_lem, find_loop, write_loop}
use nimble_client_c.Platform.{ResponseParticipant}
use nimble_client_c.Prelude.{
  some, false, replicate, refl, arith, ℤ, [], negsuc, ◌∷◌, List, ◌≡◌, pos,
}
use nimble_client_c.Tests.Fixture.{toy_client, toy_world}
use nimble_client_c.Tests.Toy.{toy}
use nimble_client_c.Client.{ParticipantEntry, datagram, NimbleClient, World, ClientState}
use nimble_client_c.Lifecycle.{find_in_entries, unused_entry, update}
use nimble_client_c.Lifecycle.Pacing.{update_out_of_order}
use nimble_client_c.Handlers.{write_participants}

abbrev paced : NimbleClient toy
paced = record toy_client { state = ClientState.requesting_connect; wait_time = pos 4 }

abbrev times : List ℤ
times = pos 1000 ∷ pos 1016 ∷ pos 1032 ∷ []

abbrev repeated : World toy
repeated = record toy_world { inbox = datagram (0 ∷ 1 ∷ []) ∷ datagram (2 ∷ []) ∷ [] }

update_out_of_order_example :
    let o = update paced repeated (pos 1000) in
    (o.code ≡ negsuc 90)
    × (o.world ≡ record toy_world { inbox = datagram (2 ∷ []) ∷ [] })
    × (o.client.state ≡ ClientState.requesting_connect)
    × (o.client.wait_time ≡ pos 4)
    × (o.client.quality ≡ toy_client.quality)
update_out_of_order_example =
    update_out_of_order paced repeated (pos 1000) (0 ∷ 1 ∷ []) (datagram (2 ∷ []) ∷ []) refl
      (omega arith) (λ e. cc) refl

-- Two participants, of which the second has the device 1, and the eight entries.
abbrev two : List ResponseParticipant
two =
    record { local_index = 0; participant_id = 10 }
    ∷ record { local_index = 1; participant_id = 20 }
    ∷ []

abbrev entries : List ParticipantEntry
entries = (write_participants two (replicate 8 unused_entry)).0

participant_loops_lem_example :
    (write_loop 3 0 two entries false ≡ some (write_participants two entries))
    × (find_loop 3 0 2 entries 1 ≡ some (find_in_entries 2 entries 1))
participant_loops_lem_example =
    participant_loops_lem 3 two entries 2 1 (omega arith) (omega arith) (omega arith) (omega arith)

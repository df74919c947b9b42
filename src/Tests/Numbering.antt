-- ===== src/Tests/Numbering.antt =====
-- The theorem on sequence numbers, for a realizer that joins, updates and hears something.
use nimble_client_c.Prelude.{ap, refl, arith, ◌≡◌, ◌%◌, ◌∷◌, ◌++◌, [], List, ℕ, pos}
use nimble_client_c.Client.{datagram, Sent}
use nimble_client_c.Outgoing.Apart.{AllApart, NumberLaws}
use nimble_client_c.Outgoing.Moves.{
  blob, command, connect, join, nothing, numbered, pending, steps, u16, u8, Writes,
}
use nimble_client_c.Realize.Numbering.{events-AllApart}
use nimble_client_c.Realize.Validity.{arrive, Event, events, join_with, update_at}
use nimble_client_c.Lifecycle.{update}
use nimble_client_c.Lifecycle.Numbering.{update-Within}
use nimble_client_c.Client.{ClientState}
use nimble_client_c.Outgoing.Moves.{Within, numbering}
use nimble_client_c.Tests.Fixture.{in_state, toy_realize, toy_world}
use nimble_client_c.Tests.Toy.{toy}

abbrev first_octet : List ℕ → ℕ
first_octet [] = 0
first_octet (x ∷ xs) = x

abbrev BeginsWith : ℕ → List ℕ → Type 0
BeginsWith x out = (rest : List ℕ) × (out ≡ x ∷ rest)

begins_behind : (x : ℕ) (out more : List ℕ) → BeginsWith x out → BeginsWith x (out ++ more)
begins_behind x out more (rest, e) = (rest ++ more, ap (λ s. s ++ more) e)

written-BeginsWith :
    (l : ℕ) {out : List ℕ} → Writes toy (numbered toy l) out → BeginsWith (l % 256) out
written-BeginsWith l nothing = ([], refl)
written-BeginsWith l (u8 {b} x h) = begins_behind (l % 256) b _ (written-BeginsWith l h)
written-BeginsWith l (u16 {b} x h) = begins_behind (l % 256) b _ (written-BeginsWith l h)
written-BeginsWith l (command {b} x h) = begins_behind (l % 256) b _ (written-BeginsWith l h)
written-BeginsWith l (connect {b} v debug id h) =
    begins_behind (l % 256) b _ (written-BeginsWith l h)
written-BeginsWith l (join {b} nonce content h) =
    begins_behind (l % 256) b _ (written-BeginsWith l h)
written-BeginsWith l (blob {b} logic s h) = begins_behind (l % 256) b _ (written-BeginsWith l h)
written-BeginsWith l (pending {b} id mask h) = begins_behind (l % 256) b _ (written-BeginsWith l h)
written-BeginsWith l (steps {b} s h) = begins_behind (l % 256) b _ (written-BeginsWith l h)

abbrev toy-NumberLaws : NumberLaws toy
toy-NumberLaws = record {
  period = 256;
  number = λ l. l % 256;
  number_of = first_octet;
  in_range = λ l. omega arith;
  prepares = λ l. refl;
  commits = λ l. omega arith;
  stamps = λ l out h. ap first_octet (written-BeginsWith l h).1;
}

abbrev session : List (Event toy)
session =
    join_with 5
    ∷ update_at (pos 1000)
    ∷ arrive (datagram (1 ∷ 2 ∷ []) ∷ [])
    ∷ update_at (pos 1016)
    ∷ []

events-AllApart_example :
    (ds : List (Sent toy)) × ((events session toy_realize toy_world).1.outbox
      ≡ ds ++ toy_world.outbox)
    × AllApart toy-NumberLaws.number_of ds
events-AllApart_example =
    events-AllApart toy-NumberLaws session toy_realize toy_world tt (omega arith)

update-Within_example :
    let o = update (in_state ClientState.requesting_connect) toy_world (pos 1000) in
    Within 2
      (numbering (in_state ClientState.requesting_connect) toy_world)
      (numbering o.client o.world)
update-Within_example = update-Within (in_state ClientState.requesting_connect) toy_world (pos 1000)

-- ===== src/Outgoing/Downloading.antt =====
-- What a client sends while it downloads the game state: `sendBlobStreamCommands` in outgoing.c.
use mathlib.Core.Path.{subst}
use nimble_client_c.Prelude.{
  arith, ap, sym, ◌≡◌, ◌∷◌, ℤ, Bool-cases, inl, inr, is_negative, leb, if◌then◌else◌, ◌||◌, pos,
}
use nimble_client_c.Platform.{client_out_blob_stream, Platform}
use nimble_client_c.Client.{joining_downloading_state, NimbleClient, Outcome, World}
use nimble_client_c.Outgoing.{handle_state, outgoing, send_state_message, state_messages}
use nimble_client_c.Outgoing.Messages.{headed}
use nimble_client_c.Outgoing.Moves.{prepared}

-- What the receiving logic makes of the stream behind the header and the command.
abbrev acknowledged : {P : Platform} → NimbleClient P → World P → ℤ × P.BlobLogicIn × P.OutStream
acknowledged {P} c w =
    P.blob_logic_send c.blob_stream_in_logic c.blob_stream_in
      (P.write_command (headed c w) client_out_blob_stream)

-- The outcome of sending the acknowledgements, by the code of the logic and the length of the stream.
pub record Acknowledges {P : Platform} (c : NimbleClient P) (w : World P) (o : Outcome P)
    : Type 0 where
  pub logic : o.client.blob_stream_in_logic ≡ (acknowledged c w).1
  pub number : o.client.ordered_datagram_out ≡ (
      if is_negative (acknowledged c w).0
      then prepared P c.ordered_datagram_out
      else P.ordered_commit (prepared P c.ordered_datagram_out))
  pub wait : o.client.wait_time ≡ (if is_negative (acknowledged c w).0 then c.wait_time else pos 0)
  pub box : o.world.outbox ≡ (
      if is_negative (acknowledged c w).0 || leb (P.out_pos (acknowledged c w).2) 10
      then w.outbox
      else record { through = c.transport; octets = P.out_octets (acknowledged c w).2 } ∷ w.outbox)
  pub state : o.client.state ≡ c.state

-- At a client whose state is given outright.
message-Acknowledges :
    {P : Platform} (c : NimbleClient P) (w : World P)
    → let c' = record c { state = joining_downloading_state } in
      Acknowledges c' w (send_state_message c' w)
unfolding send_state_message
message-Acknowledges c w = record {
  logic = ground arith;
  number = ground arith;
  wait = ground arith;
  box = ground arith;
  state = ground arith;
}

outgoing-Acknowledges :
    {P : Platform} (c : NimbleClient P) (w : World P)
    → Acknowledges c w (handle_state c w)
    → Acknowledges c w (outgoing c w)
unfolding outgoing
outgoing-Acknowledges c w k = elim (Bool-cases (is_negative (handle_state c w).code)) [
  | inl n ↦ rw n k
  | inr n ↦
      rw n
        (record { logic = k.logic; number = k.number; wait = k.wait; box = k.box; state = k.state })
]

-- While the client downloads, every sending asks the receiving logic for acknowledgements and keeps
-- the logic's state. If that fails, nothing is sent, no number is committed and the waiting time is
-- left; else the number is committed, the client does not wait, and what the logic wrote behind the
-- header and the command is sent, unless all of that has ten octets or fewer.
pub outgoing_downloading :
    {P : Platform} (c : NimbleClient P) (w : World P)
    → c.state ≡ joining_downloading_state
    → Acknowledges c w (outgoing c w)
unfolding handle_state state_messages
outgoing_downloading c w e = outgoing-Acknowledges c w (
    subst (λ c'. Acknowledges c' w (handle_state c' w)) (sym (ap (λ s. record c { state = s }) e))
      (message-Acknowledges c w))

-- ===== src/Lifecycle/Steps.antt =====
-- The buffer of authoritative steps while client.c updates: what arrives does not move it.
use nimble_client_c.Realize.Answers.{command_read}
use nimble_client_c.Lifecycle.Buffers.{Reader, reader}
use nimble_client_c.Lifecycle.Rule.{IsHeard, update_rule}
use nimble_client_c.Prelude.{
  All, refl, ◌∙◌, arith, ◌≡◌, ◌≤◌, ◌+◌, ◌^◌, ◌%◌, ◌∷◌, [], List, ℕ, ℤ, is_negative, true, false,
}
use nimble_client_c.Platform.{
  unknown, out_of_participant_slots_response, game_state_response, join_game_response,
  game_step_response, server_out_blob_stream, connect_response, IncomingCommand, Platform,
}
use nimble_client_c.Client.{datagram, failure, NimbleClient, World, Received}
use nimble_client_c.Handlers.{
  on_connect_response, on_join_game_response, on_join_game_participant_out_of_space_response,
  on_download_game_state_response, on_download_game_state_part, on_game_step_response,
}
use nimble_client_c.Incoming.{dispatch}
use nimble_client_c.Lifecycle.{update}

-- What is relied on of nimble-steps: a buffer has a step that is read next; a successful read gives
-- its id and goes on to the one after it, a failed read leaves it; copying steps in does not move it,
-- and a buffer that starts anew starts at the given id.
pub record StepLaws (P : Platform) : Type 0 where
  pub next_id : P.Steps → ℕ
  pub reads :
      (s : P.Steps) (n : ℕ)
      → is_negative (P.steps_read s n).0 ≡ false
      → ((P.steps_read s n).1 ≡ next_id s)
        × (next_id (P.steps_read s n).3 ≡ (next_id s + 1) % 2 ^ 32)
  pub fails :
      (s : P.Steps) (n : ℕ)
      → is_negative (P.steps_read s n).0 ≡ true
      → next_id (P.steps_read s n).3 ≡ next_id s
  pub copies : (s : P.Steps) (p : P.PendingSteps) → next_id (P.pending_copy s p).1 ≡ next_id s
  pub restarts : (s : P.Steps) (id : ℕ) → next_id (P.steps_re_init s id) ≡ id

-- No block is given up, and if none is taken, the step read next is the same.
abbrev pub Stays : {P : Platform} → StepLaws P → Reader P → Reader P → Type 0
Stays L x y = (x.2 ≤ y.2) × (y.2 ≡ x.2 → L.next_id y.0 ≡ L.next_id x.0)

any-IsHeard : (inbox : List Received) → All (IsHeard (λ octets. Unit)) inbox
any-IsHeard [] = tt
any-IsHeard (failure n ∷ inbox) = (tt, any-IsHeard inbox)
any-IsHeard (datagram octets ∷ inbox) = (tt, any-IsHeard inbox)

module _ {P : Platform} (L : StepLaws P) where
  Stays-trans : (x y z : Reader P) → Stays L x y → Stays L y z → Stays L x z
  Stays-trans x y z (up, same) (up', same') =
      (omega arith, λ e. same' (omega arith) ∙ same (omega arith))

  dispatch-Stays :
      (cmd : IncomingCommand) (c : NimbleClient P) (w : World P) (s : P.InStream)
      → let o = dispatch cmd c w s in Stays L (reader c w) (reader o.client o.world)
  unfolding dispatch on_connect_response on_download_game_state_part on_game_step_response
      on_join_game_response on_download_game_state_response
      on_join_game_participant_out_of_space_response
  dispatch-Stays connect_response c w s = ground arith
  dispatch-Stays server_out_blob_stream c w s = ground arith
  dispatch-Stays game_step_response c w s =
      let read =
        P.pending_in_serialize (P.read_u32 (P.read_i8 (P.read_u8 s).2).2).2
          c.authoritative_pending_steps in
      ground (arith, L.copies c.authoritative_steps read.2)
  dispatch-Stays join_game_response c w s = ground arith
  dispatch-Stays game_state_response c w s = ground arith
  dispatch-Stays out_of_participant_slots_response c w s = ground arith
  dispatch-Stays unknown c w s = ground arith

  pub update-Stays :
      (c : NimbleClient P) (w : World P) (now : ℤ)
      → let o = update c w now in Stays L (reader c w) (reader o.client o.world)
  update-Stays c w now =
      update_rule (λ octets. Unit) (Stays L (reader c w))
        (λ octets l c' w' heard q.
          let (_, cmd, s) = command_read P l octets in
          let o = dispatch (P.command_of cmd) c' w' s in
          Stays-trans (reader c w) (reader c' w') (reader o.client o.world) q
            (dispatch-Stays (P.command_of cmd) c' w' s))
        (λ out read predicted n q. q) c w now (any-IsHeard w.inbox) (omega arith, λ _. refl)

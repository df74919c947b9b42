-- ===== src/Handlers/Steps.antt =====
-- The authoritative steps from the server: game_step_response.c.
use nimble_client_c.Prelude.{
  ℤ, is_negative, ℕ, refl, inr, inl, Bool-cases, if◌then◌else◌, ◌^◌, ◌%◌, ◌+◌, ◌≡◌,
}
use nimble_client_c.Platform.{Platform}
use nimble_client_c.Client.{NimbleClient}
use nimble_client_c.Handlers.{on_game_step_response}

-- The parts of a game step response: the id of the last predicted step that the server has, the
-- reading of the steps, and the copying of what is complete.
abbrev pub server_received : (P : Platform) → P.InStream → ℕ
server_received P s = (P.read_u32 (P.read_i8 (P.read_u8 s).2).2).1

abbrev pub steps_read :
    {P : Platform} → NimbleClient P → P.InStream → ℤ × P.InStream × P.PendingSteps
steps_read {P} c s =
    P.pending_in_serialize (P.read_u32 (P.read_i8 (P.read_u8 s).2).2).2
      c.authoritative_pending_steps

abbrev steps_copied : {P : Platform} → NimbleClient P → P.InStream → ℤ × P.Steps × P.PendingSteps
steps_copied {P} c s = P.pending_copy c.authoritative_steps (steps_read c s).2

module _ {P : Platform} (c : NimbleClient P) (s : P.InStream) where
  -- On every branch a game step response returns what reading its steps returned, and discards the
  -- predicted steps up to the one that the server has, that one included. If the reading failed, the
  -- authoritative steps and the connection's quality stay as they were; else the complete steps are
  -- copied, whatever the copying returns, and the count of ticks without steps starts again.
  on_game_step_response_lem :
      let (code, c') = on_game_step_response c s in
      let failed = is_negative (steps_read c s).0 in
      (code ≡ (steps_read c s).0)
      × (c'.out_steps ≡ P.steps_discard_up_to c.out_steps ((server_received P s + 1) % 2 ^ 32))
      × (c'.authoritative_steps ≡ (if failed then c.authoritative_steps else (steps_copied c s).1))
      × (c'.authoritative_pending_steps
          ≡ (if failed then (steps_read c s).2 else (steps_copied c s).2))
      × (c'.quality.ticks_without_steps ≡ (if failed then c.quality.ticks_without_steps else 0))
      × (c'.quality.ticks_without_datagrams ≡ c.quality.ticks_without_datagrams)
      × (c'.state ≡ c.state)
  unfolding on_game_step_response
  on_game_step_response_lem = elim (Bool-cases (is_negative (steps_read c s).0)) [
    | inl e ↦ rw e (refl, refl, refl, refl, refl, refl, refl)
    | inr e ↦ rw e (refl, refl, refl, refl, refl, refl, refl)
  ]

-- ===== src/Handlers/Joining.antt =====
-- The join response: join_game_response.c.
use nimble_client_c.Prelude.{
  List, pos, ◌∷◌, length, false, is_negative, refl, [], ◌||◌, ltb, drop, ◌++◌, arith, take, map,
  ◌≡◌,
}
use nimble_client_c.Platform.{ResponseParticipant, Platform}
use nimble_client_c.Client.{joined_participant, joining_participant, ParticipantEntry, NimbleClient}
use nimble_client_c.Handlers.{List, write_participants, on_join_game_response, entry_of}

-- The loop fills the entries from the front and leaves those behind the participants; it overruns
-- exactly if there are more participants than entries.
write_participants_lem :
    (ps : List ResponseParticipant) (es : List ParticipantEntry)
    → write_participants ps es
      ≡ (map entry_of (take (length es) ps) ++ drop (length ps) es, ltb (length es) (length ps))
unfolding write_participants
write_participants_lem [] [] = ground arith
write_participants_lem [] (e ∷ es) = ground arith
write_participants_lem (p ∷ ps) [] = ground arith
write_participants_lem (p ∷ ps) (e ∷ es) = ground (arith, write_participants_lem ps es)

module _ {P : Platform} (c : NimbleClient P) (s : P.InStream)
    (valid : is_negative (P.in_join_response s).0 ≡ false) where
  -- A join response that is read while the client is joining assigns its participants, in order, to
  -- the first entries and keeps the entries behind them; all of them are counted, the entries are
  -- overrun exactly if the response has more participants than there are entries, and the client has
  -- joined, waits for nothing, and has forgotten its channel.
  pub on_join_game_response_assigns :
      c.join_participant_phase ≡ joining_participant
      → let ps = (P.in_join_response s).2 in
        let es = c.local_participant_lookup in
        on_join_game_response c s ≡ (
          pos 0,
          record c {
            party_and_session_secret = (P.in_join_response s).1;
            local_participant_lookup = map entry_of (take (length es) ps) ++ drop (length ps) es;
            local_participant_count = length ps;
            lookup_overrun = c.lookup_overrun || ltb (length es) (length ps);
            join_participant_phase = joined_participant;
            wait_time = pos 0;
            join_state_channel = 0;
          },
        )
  unfolding on_join_game_response
  on_join_game_response_assigns h =
      rw (valid, h)
        (rw (write_participants_lem (P.in_join_response s).2 c.local_participant_lookup) refl)

  -- Once the client has joined, any further join response is ignored.
  on_join_game_response_twice :
      (s' : P.InStream)
      → c.join_participant_phase ≡ joining_participant
      → (on_join_game_response (on_join_game_response c s).1 s').1 ≡ (on_join_game_response c s).1
  unfolding on_join_game_response
  on_join_game_response_twice s' h = rw (valid, h) (ground arith)

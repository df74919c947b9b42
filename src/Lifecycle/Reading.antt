-- ===== src/Lifecycle/Reading.antt =====
-- The authoritative steps that the application reads: incoming_api.c, while client.c updates.
use nimble_client_c.Lifecycle.Steps.{update-Stays, StepLaws}
use nimble_client_c.Handlers.Downloads.{
  part_channel, part_received, on_download_game_state_part_completes,
}
use nimble_client_c.Client.{synced}
use nimble_client_c.Prelude.{sym, ◌≢◌}
use nimble_client_c.Prelude.{
  length, inr, inl, Bool-cases, ap, refl, ◌∙◌, arith, ◌≡◌, ◌≤◌, ◌+◌, ◌^◌, ◌%◌, ◌∷◌, ◌++◌, [], List,
  ℕ, ℤ, is_negative, if◌then◌else◌, true, false, zero, suc,
}
use nimble_client_c.Platform.{Platform}
use nimble_client_c.Client.{NimbleClient, World, Received}
use nimble_client_c.Handlers.{on_download_game_state_part}
use nimble_client_c.Lifecycle.{read_step, update}

-- What happens to a client that plays.
pub data Play : Type 0 where
  update_at : ℤ → Play
  read_into : ℕ → Play
  arrive : List Received → Play

-- The ids of the steps that are read, with the client and the world at the end.
unfoldable pub play :
    {P : Platform} → List Play → NimbleClient P → World P → List ℕ × NimbleClient P × World P
unfolding read_step
play [] c w = ([], c, w)
play (update_at now ∷ more) c w = let o = update c w now in play more o.client o.world
play (arrive received ∷ more) c w = play more c (record w { inbox = w.inbox ++ received })
play (read_into size ∷ more) c w =
    let (code, id, _, c') = read_step c size in
    let rest = play more c' w in (if is_negative code then rest.0 else id ∷ rest.0, rest.1, rest.2)

-- So many ids from a first one on, across the wrap-around.
abbrev pub ids_from : ℕ → ℕ → List ℕ
ids_from id zero = []
ids_from id (suc n) = id ∷ ids_from ((id + 1) % 2 ^ 32) n

module _ {P : Platform} (L : StepLaws P) where
  play-reads :
      (calls : List Play) (c : NimbleClient P) (w : World P)
      → let (ids, _, w') = play calls c w in
        (w.next_block ≤ w'.next_block)
        × (w'.next_block ≡ w.next_block
            → ids ≡ ids_from (L.next_id c.authoritative_steps) (length ids))
  unfolding play
  play-reads [] c w = (omega arith, λ _. refl)
  play-reads (update_at now ∷ more) c w =
      let o = update c w now in
      let (up, same) = update-Stays L c w now in
      let (up', reads) = play-reads more o.client o.world in
      let (ids, _, _) = play more o.client o.world in
      (
        omega arith,
        λ e. reads (omega arith) ∙ ap (λ n. ids_from n (length ids)) (same (omega arith)),
      )
  play-reads (arrive received ∷ more) c w =
      play-reads more c (record w { inbox = w.inbox ++ received })
  play-reads (read_into size ∷ more) c w =
      let s = c.authoritative_steps in
      let c' = record c { authoritative_steps = (P.steps_read s size).3 } in
      let (ids, _, _) = play more c' w in
      let (up, reads) = play-reads more c' w in
      elim (Bool-cases (is_negative (P.steps_read s size).0)) [
        | inl failed ↦
            rw failed (up, λ e. reads e ∙ ap (λ n. ids_from n (length ids)) (L.fails s size failed))
        | inr good ↦
            let (id, onward) = L.reads s size good in
            rw good (
              up,
              λ e.
                  ap (λ n. n ∷ ids) id
                  ∙ ap (λ l. L.next_id s ∷ l) (reads e ∙ ap (λ n. ids_from n (length ids)) onward),
            )
      ]

  -- Behind the part that completes the download of the game state, whatever updates the client makes
  -- and whatever arrives between the reads, the steps that the application reads have the ids from
  -- the state's on, in order, across the wrap-around, none left out or read twice, until another
  -- block is taken for a game state. (The part is on the client's channel, is accepted and completes
  -- the stream, the client is not synced yet, and the buffers of steps keep their laws.)
  pub play-on_download_game_state_part :
      (c : NimbleClient P) (w : World P) (s : P.InStream) (calls : List Play)
      → part_channel P s ≡ c.join_state_channel
      → is_negative (part_received c s).0 ≡ false
      → P.blob_is_complete (part_received c s).2 ≡ true
      → c.state ≢ synced
      → (play calls
          (on_download_game_state_part c w s).client
          (on_download_game_state_part c w s).world).2.next_block
        ≡ (on_download_game_state_part c w s).world.next_block
      → let o = on_download_game_state_part c w s in
        let (ids, _, _) = play calls o.client o.world in
        ids ≡ ids_from o.client.joined_game_state.step_id (length ids)
  play-on_download_game_state_part c w s calls own accepted complete ns e =
      let o = on_download_game_state_part c w s in
      let (_, _, state, _, _, steps, _) =
        on_download_game_state_part_completes c w s own accepted complete ns in
      let (ids, _, _) = play calls o.client o.world in
      let first : L.next_id o.client.authoritative_steps ≡ o.client.joined_game_state.step_id =
        ap L.next_id steps
        ∙ L.restarts c.authoritative_steps c.join_state_id
        ∙ sym (ap (λ g. g.step_id) state) in
      (play-reads calls o.client o.world).1 e ∙ ap (λ n. ids_from n (length ids)) first

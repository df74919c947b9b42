-- ===== src/Handlers/Downloads.antt =====
-- The download of the game state: download_state_response.c and download_state_part.c.
use nimble_client_c.Quality.{is_synced}
use nimble_client_c.Lifecycle.Memory.{reset-state_blocks, destroy-state_blocks}
use nimble_client_c.GameState.{free, free_block}
use nimble_client_c.Prelude.{
  pos, List, true, false, is_negative, ℕ, ℤ, inr, ap, Option, ◌<◌, ◌∷◌, refl, take, arith, some,
  ==_iff, ◌≢◌, ◌==◌, ◌≡◌,
}
use nimble_client_c.Lifecycle
use nimble_client_c.Platform.{Platform}
use nimble_client_c.Client.{
  joining_participant, joining_downloading_state, synced, NimbleClient, World,
}
use nimble_client_c.GameState.Memory.{IsLive}
use nimble_client_c.Handlers.{
  pos, on_join_game_response, on_download_game_state_response, on_download_game_state_part,
}

-- What a game state response says: its request, its state and its channel, with the error code.
abbrev pub request_of : (P : Platform) → P.InStream → ℕ
request_of P s = (P.read_u8 s).1

abbrev state_id_of : (P : Platform) → P.InStream → ℕ
state_id_of P s = (P.in_state_id (P.read_u8 s).2).1

abbrev pub channel_read : (P : Platform) → P.InStream → ℤ × ℕ × P.InStream
channel_read P s = P.in_channel_id (P.in_state_id (P.read_u8 s).2).2

-- Handling the same game state response again right after changes nothing and returns the same
-- code, whatever the client's state and whatever the response says, refused or unreadable ones
-- included.
on_download_game_state_response_twice :
    {P : Platform} (c : NimbleClient P) (s : P.InStream)
    → let (code, c') = on_download_game_state_response c s in
      on_download_game_state_response c' s ≡ (code, c')
unfolding on_download_game_state_response
on_download_game_state_response_twice {P} c s = ground arith

module _ {P : Platform} (c : NimbleClient P) (s : P.InStream)
    (read : is_negative (channel_read P s).0 ≡ false)
    (asked : (request_of P s == c.download_state_client_request_id) ≡ true) where
  -- A readable response to the client's request on the channel that the client has is ignored, in
  -- every state.
  pub on_download_game_state_response_same_channel :
      (channel_read P s).1 ≡ c.join_state_channel → on_download_game_state_response c s ≡ (pos 0, c)
  unfolding on_download_game_state_response
  on_download_game_state_response_same_channel e = rw (read, asked) (rw ((==_iff _ _).1 e) refl)

  -- A repeated response on the client's own channel, which alone changes nothing, throws a synced
  -- client that is joining back into downloading if it arrives behind the join response, since that
  -- has set the channel to 0.
  pub repeated_response_restarts_download :
      (j : P.InStream)
      → is_negative (P.in_join_response j).0 ≡ false
      → c.state ≡ synced
      → c.join_participant_phase ≡ joining_participant
      → (channel_read P s).1 ≡ c.join_state_channel
      → c.join_state_channel ≢ 0
      → ((on_download_game_state_response c s).1.state ≡ synced)
        × ((on_download_game_state_response (on_join_game_response c j).1 s).1.state
            ≡ joining_downloading_state)
  unfolding on_download_game_state_response on_join_game_response
  repeated_response_restarts_download j ok sy ph e nz = (ground arith, ground arith)

free_newer-IsLive :
    (b n : ℕ) (ws bs : List (ℕ × List ℕ)) (g : Option ℕ) {octets : List ℕ}
    → g ≡ some n
    → bs ≡ (n, octets) ∷ ws
    → IsLive b ws
    → IsLive b (free g bs)
unfolding free_block
free_newer-IsLive b n ws bs g e f l = rw (e, f) (rw ((==_iff n n).1 refl) l)

-- What a part says: its channel, and what the receiving logic makes of it.
abbrev pub part_channel : (P : Platform) → P.InStream → ℕ
part_channel P s = (P.in_channel_id s).1

abbrev pub part_received :
    {P : Platform} → NimbleClient P → P.InStream → ℤ × P.BlobLogicIn × P.BlobIn × P.InStream
part_received {P} c s =
    P.blob_logic_receive c.blob_stream_in_logic c.blob_stream_in (P.in_channel_id s).2

module _ {P : Platform} (c : NimbleClient P) (w : World P) (s : P.InStream)
    (own : part_channel P s ≡ c.join_state_channel)
    (accepted : is_negative (part_received c s).0 ≡ false)
    (complete : P.blob_is_complete (part_received c s).2 ≡ true) where
  -- A part that completes the stream on the client's channel, before the client is synced: the
  -- client is synced from the state that it asked for, the state's octets are a copy in a new block,
  -- and the authoritative, pending and outgoing steps all start from that state.
  pub on_download_game_state_part_completes :
      c.state ≢ synced
      → let o = on_download_game_state_part c w s in
        let blob = (part_received c s).2 in
        (o.code ≡ pos 0)
        × (o.client.state ≡ synced)
        × (o.client.joined_game_state ≡ record {
          game_state = some w.next_block;
          octet_count = P.blob_octet_count blob;
          step_id = c.join_state_id;
        })
        × (o.world.state_blocks
            ≡ (w.next_block, take (P.blob_octet_count blob) (P.blob_octets blob)) ∷ w.state_blocks)
        × (o.client.authoritative_pending_steps
            ≡ P.pending_reset c.authoritative_pending_steps c.join_state_id)
        × (o.client.authoritative_steps ≡ P.steps_re_init c.authoritative_steps c.join_state_id)
        × (o.client.out_steps ≡ P.steps_re_init c.out_steps c.join_state_id)
  unfolding on_download_game_state_part
  on_download_game_state_part_completes ns =
      let same = (==_iff (part_channel P s) c.join_state_channel).1 own in
      let unsynced : is_synced c.state ≡ false = ground arith in
      rw (same, accepted, complete, unsynced) (refl, refl, refl, refl, refl, refl, refl)

  -- A client that has a game state and completes another download loses the first: the block stays
  -- live, is not the client's game state any more, and neither destroying nor resetting the client
  -- frees it.
  pub completed_download_leaks :
      (b : ℕ)
      → c.state ≢ synced
      → c.joined_game_state.game_state ≡ some b
      → IsLive b w.state_blocks
      → b < w.next_block
      → let o = on_download_game_state_part c w s in
        (o.client.joined_game_state.game_state ≢ some b)
        × IsLive b o.world.state_blocks
        × IsLive b (Lifecycle.destroy o.client o.world).1.state_blocks
        × IsLive b (Lifecycle.reset o.client o.world).1.state_blocks
  completed_download_leaks b ns e l lt =
      let o = on_download_game_state_part c w s in
      let done = on_download_game_state_part_completes ns in
      let held = ap (λ g. g.game_state) done.2 in
      (
        rw held (ground arith),
        rw (done.3) (inr l),
        rw (destroy-state_blocks o.client o.world)
            (free_newer-IsLive b w.next_block _ _ _ held done.3 l),
        rw (reset-state_blocks o.client o.world)
            (free_newer-IsLive b w.next_block _ _ _ held done.3 l),
      )

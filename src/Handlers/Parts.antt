-- ===== src/Handlers/Parts.antt =====
-- A whole download, part by part: download_state_part.c.
use nimble_client_c.Prelude.{
  ==_iff, ◌⊎◌, ap, refl, sym, ◌∙◌, arith, ◌≡◌, ◌≢◌, ◌∷◌, [], List, ℕ, Option, none, some, ◌==◌,
  is_negative, take, inl, inr, true, false,
}
use nimble_client_c.Platform.{Platform}
use nimble_client_c.Client.{ClientState, GameState, NimbleClient, synced, World}
use nimble_client_c.Handlers.{on_download_game_state_part}

-- The messages, handled one after the other.
pub handle_parts :
    {P : Platform} → List P.InStream → NimbleClient P → World P → NimbleClient P × World P
handle_parts [] c w = (c, w)
handle_parts (s ∷ more) c w =
    let o = on_download_game_state_part c w s in handle_parts more o.client o.world

-- The stream at the first accepted part of a channel that completes it, if there is one. A part that
-- is refused is received all the same; one of another channel is not.
unfoldable pub first_complete :
    (P : Platform) → ℕ → List P.InStream → P.BlobLogicIn → P.BlobIn → Option P.BlobIn
first_complete P channel [] logic blob = none
first_complete P channel (s ∷ more) logic blob =
    let (_, part_channel, payload) = P.in_channel_id s in
    let (result, logic', blob', _) = P.blob_logic_receive logic blob payload in
    let later = first_complete P channel more logic' blob' in
    let skipped = first_complete P channel more logic blob in
    elim (part_channel == channel) [
      | false ↦ skipped
      | true ↦ elim (is_negative result) [
        | true ↦ later
        | false ↦ elim (P.blob_is_complete blob') [ true ↦ some blob' | false ↦ later ]
      ]
    ]

-- What a client has of a download: its state, its game state and the blocks.
abbrev Download : Type 0
Download = ClientState × GameState × List (ℕ × List ℕ)

abbrev pub download : {P : Platform} → NimbleClient P × World P → Download
download (c, w) = (c.state, c.joined_game_state, w.state_blocks)

-- What it is to have after a download that was asked for at that client.
abbrev pub downloaded : {P : Platform} → NimbleClient P → World P → Option P.BlobIn → Download
downloaded c w none = (c.state, c.joined_game_state, w.state_blocks)
downloaded {P} c w (some blob) = (
  synced,
  record {
    game_state = some w.next_block;
    octet_count = P.blob_octet_count blob;
    step_id = c.join_state_id;
  },
  (w.next_block, take (P.blob_octet_count blob) (P.blob_octets blob)) ∷ w.state_blocks,
)

module _ {P : Platform} where
  -- Parts do not touch a client that is synced.
  handle_parts_synced :
      (ss : List P.InStream) (c : NimbleClient P) (w : World P)
      → c.state ≡ synced
      → download (handle_parts ss c w) ≡ download (c, w)
  unfolding handle_parts on_download_game_state_part
  handle_parts_synced [] c w h = refl
  handle_parts_synced (s ∷ more) c w h =
      let o = on_download_game_state_part c w s in
      let same : download (o.client, o.world) ≡ download (c, w) = ground arith in
      handle_parts_synced more o.client o.world (ap (λ d. d.0) same ∙ h) ∙ same

  downloaded_same :
      (c c' : NimbleClient P) (w w' : World P) (b : Option P.BlobIn)
      → c'.state ≡ c.state
      → c'.joined_game_state ≡ c.joined_game_state
      → c'.join_state_id ≡ c.join_state_id
      → w' ≡ w
      → downloaded c' w' b ≡ downloaded c w b
  downloaded_same c c' w w' none e g id same = ground arith
  downloaded_same c c' w w' (some blob) e g id same = ground arith

  -- One part, by what comes of it: a client that goes on, or one that has the game state.
  part_goes_on :
      (s : P.InStream) (more : List P.InStream) (c : NimbleClient P) (w : World P)
      → (c.state ≢ synced)
      → let o = on_download_game_state_part c w s in
        let first = λ (l : P.BlobLogicIn) (b : P.BlobIn) (ss : List P.InStream).
          first_complete P c.join_state_channel ss l b in
        ((first c.blob_stream_in_logic c.blob_stream_in (s ∷ more)
            ≡ first o.client.blob_stream_in_logic o.client.blob_stream_in more)
          × (o.client.state ≡ c.state)
          × (o.client.joined_game_state ≡ c.joined_game_state)
          × (o.client.join_state_id ≡ c.join_state_id)
          × (o.client.join_state_channel ≡ c.join_state_channel)
          × (o.world ≡ w))
        ⊎ ((o.client.state ≡ synced)
            × (download (o.client, o.world)
                ≡ downloaded c w (first c.blob_stream_in_logic c.blob_stream_in (s ∷ more))))
  unfolding first_complete on_download_game_state_part
  part_goes_on s more c w h = ground (arith, ==_iff (P.in_channel_id s).1 c.join_state_channel)

  -- A client that is not synced, whatever parts of whatever channels it handles, has the game state
  -- of the first one that completes its channel's stream: it is synced, on a copy of the octets of
  -- that stream in a new block, at the step it asked for, and the parts behind change none of this.
  -- Without such a part its state, its game state and the blocks are as before.
  pub handle_parts-first_complete :
      (ss : List P.InStream) (c : NimbleClient P) (w : World P)
      → c.state ≢ synced
      → download (handle_parts ss c w)
        ≡ downloaded c w
            (first_complete P c.join_state_channel ss c.blob_stream_in_logic c.blob_stream_in)
  unfolding handle_parts first_complete
  handle_parts-first_complete [] c w h = refl
  handle_parts-first_complete (s ∷ more) c w h =
      let o = on_download_game_state_part c w s in
      elim (part_goes_on s more c w h) [
        | inr (at, done) ↦ handle_parts_synced more o.client o.world at ∙ done
        | inl (first, state, game, id, channel, same) ↦
            handle_parts-first_complete more o.client o.world (λ e. h (sym state ∙ e))
            ∙ downloaded_same c o.client w o.world _ state game id same
            ∙ ap (downloaded c w) (
                ap
                  (λ n.
                    first_complete P n more o.client.blob_stream_in_logic o.client.blob_stream_in)
                  channel
                ∙ sym first)
      ]

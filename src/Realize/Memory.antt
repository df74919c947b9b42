-- ===== src/Realize/Memory.antt =====
-- The game state blocks that a session leaves, from its initialisation to its destruction:
-- network_realizer.c over client.c and game_state.c.
use nimble_client_c.Protocol.Blocks.{
  unspent, Takes-Counted, Reach-Takes, lost_by-zero, untouched, Spent, lost_by, Owns, Takes, purse,
  freed-Owns,
}
use nimble_client_c.Lifecycle.Memory.{destroy-state_blocks, reset-state_blocks}
use nimble_client_c.Lifecycle.{InitSettings}
use nimble_client_c.Lifecycle
use nimble_client_c.Protocol.Updating.{update-Reach}
use nimble_client_c.Incoming.{is_disconnected}
use nimble_client_c.Protocol.Invariant.{has_game_state}
use nimble_client_c.Realize.{
  same_state, is_init, is_cleared, realize_re_init, realize_reset, RealizeState, quit_game,
  realize_destroy, towards_synced, join_game, realize_update, realize_init, towards, run_client,
  NimbleClientRealize,
}
use nimble_client_c.Realize.Validity.{
  reset_session, quit, arrive, re_init_with, join_with, update_at, events, event, Event,
}
use nimble_client_c.Client.{ClientState, World, NimbleClient}
use nimble_client_c.Prelude.{
  ◌∙◌, inr, inl, Bool-cases, ℤ, refl, [], ◌||◌, none, ◌∷◌, ◌++◌, ◌∷◌, ◌+◌, arith, ◌-◌, ◌≡◌, length,
  ℕ, List,
}
use nimble_client_c.Platform.{Platform}

-- How many blocks are lost in a session: those that the client held, or took, before the last one
-- that it took in the same call.
unfoldable pub lost : {P : Platform} → List (Event P) → NimbleClientRealize P → World P → ℕ
lost [] r w = 0
lost (e ∷ more) r w =
    let (r', w') = event e r w in
    lost_by (has_game_state r.client.joined_game_state.game_state) (w'.next_block - w.next_block)
    + lost more r' w'

module _ {P : Platform} where
  towards_synced-purse :
      (s : ClientState) (r : NimbleClientRealize P) (w : World P)
      → purse (towards_synced s r).client w ≡ purse r.client w
  unfolding towards_synced
  towards_synced-purse ClientState.idle r w = refl
  towards_synced-purse ClientState.connected r w = refl
  towards_synced-purse _ r w = refl

  towards-purse :
      (t : RealizeState) (r : NimbleClientRealize P) (w : World P)
      → purse (towards t r).client w ≡ purse r.client w
  unfolding towards
  towards-purse RealizeState.synced r w = towards_synced-purse r.client.state r w
  towards-purse _ r w = refl

  run_client-Takes :
      (r : NimbleClientRealize P) (w : World P) (now : ℤ)
      → let (r', w') = run_client r w now in Takes (purse r.client w) (purse r'.client w')
  unfolding run_client
  run_client-Takes r w now = elim (Bool-cases (is_cleared r.state || is_init r.target_state)) [
    | inl e ↦ rw e untouched
    | inr e ↦ rw e (Reach-Takes (update-Reach r.client w now))
  ]

  realize_update-Takes :
      (r : NimbleClientRealize P) (w : World P) (now : ℤ)
      → let (r', w') = realize_update r w now in Takes (purse r.client w) (purse r'.client w')
  unfolding realize_update
  realize_update-Takes r w now =
      let (r', w') = run_client r w now in
      let t = run_client-Takes r w now in
      elim (Bool-cases (is_disconnected r.client.state)) [
        | inl d ↦ rw d untouched
        | inr d ↦ rw d (elim (Bool-cases (same_state r'.target_state r'.state)) [
          | inl s ↦ rw s t
          | inr s ↦ rw s (rw (towards-purse r'.target_state r' w') t)
        ])
      ]

  reset-purse :
      (c : NimbleClient P) (w : World P)
      → let (c', w') = Lifecycle.reset c w in
        (c'.joined_game_state.game_state ≡ none) × (w'.next_block ≡ w.next_block)
  unfolding Lifecycle.reset
  reset-purse c w = ground arith

  reset-Owns :
      (extra base : List (ℕ × List ℕ)) (c : NimbleClient P) (w : World P)
      → Owns extra base (purse c w)
      → let (c', w') = Lifecycle.reset c w in Spent extra base (purse c w) (purse c' w')
  reset-Owns extra base c w own =
      let (null, kept) = reset-purse c w in
      let held = has_game_state c.joined_game_state.game_state in
      (
        extra,
        rw null (reset-state_blocks c w ∙ freed-Owns extra base (purse c w) own),
        rw kept (omega (arith, lost_by-zero held w.next_block)),
      )

  event-Spent :
      (extra base : List (ℕ × List ℕ)) (e : Event P) (r : NimbleClientRealize P) (w : World P)
      → Owns extra base (purse r.client w)
      → let (r', w') = event e r w in Spent extra base (purse r.client w) (purse r'.client w')
  unfolding event join_game quit_game realize_reset realize_re_init Lifecycle.re_init
  event-Spent extra base (update_at now) r w own =
      (Takes-Counted extra base _ _ own (realize_update-Takes r w now)).0
  event-Spent extra base (join_with content) r w own = unspent extra base (purse r.client w) own
  event-Spent extra base quit r w own = unspent extra base (purse r.client w) own
  event-Spent extra base reset_session r w own = reset-Owns extra base r.client w own
  event-Spent extra base (re_init_with settings) r w own =
      reset-Owns extra base (record (r.client) { transport = settings.transport }) w own
  event-Spent extra base (arrive received) r w own = unspent extra base (purse r.client w) own

  events-Spent :
      (extra base : List (ℕ × List ℕ)) (es : List (Event P)) (r : NimbleClientRealize P)
      (w : World P)
      → Owns extra base (purse r.client w)
      → let (r', w') = events es r w in
        (more : List (ℕ × List ℕ)) × Owns more base (purse r'.client w')
        × (length more ≡ length extra + lost es r w)
  unfolding events lost
  events-Spent extra base [] r w own = (extra, own, omega arith)
  events-Spent extra base (e ∷ es) r w own =
      let (r', w') = event e r w in
      let (more, own', len) = event-Spent extra base e r w own in
      let (more', own'', len') = events-Spent more base es r' w' own' in
      (more', own'', omega (arith, len, len'))

  realize_init-Owns :
      (r : NimbleClientRealize P) (w : World P) (settings : InitSettings P)
      → let (r0, w0) = realize_init r w settings in Owns [] w.state_blocks (purse r0.client w0)
  unfolding realize_init Lifecycle.init Lifecycle.re_init Lifecycle.prepare
  realize_init-Owns r w settings = refl

  -- Over a whole life, from the initialisation on through any calls in any order and any arrivals to
  -- the destruction, the game state blocks left alive are exactly those that were live before and, in
  -- front of them, those that downloads lost: as many as are counted, call by call, of the blocks
  -- taken while another one was held. So a session in which no download completes while the client
  -- has a game state gives every block back that it took for a game state. (What the pending steps
  -- take from the same allocator is not counted here.)
  pub events-realize_destroy :
      (es : List (Event P)) (r : NimbleClientRealize P) (w : World P) (settings : InitSettings P)
      → let (r0, w0) = realize_init r w settings in
        let (r', w') = events es r0 w0 in
        (extra : List (ℕ × List ℕ)) × ((realize_destroy r' w').1.state_blocks
          ≡ extra ++ w.state_blocks)
        × (length extra ≡ lost es r0 w0)
  unfolding realize_destroy
  events-realize_destroy es r w settings =
      let (r0, w0) = realize_init r w settings in
      let (r', w') = events es r0 w0 in
      let (extra, own, len) =
        events-Spent [] w.state_blocks es r0 w0 (realize_init-Owns r w settings) in
      (
        extra,
        destroy-state_blocks r'.client w'
            ∙ freed-Owns extra w.state_blocks (purse r'.client w') own,
        omega (arith, len),
      )

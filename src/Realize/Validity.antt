-- ===== src/Realize/Validity.antt =====
-- A session through the whole interface of network_realizer.c, in any order of calls.
use nimble_client_c.Incoming.{is_disconnected}
use nimble_client_c.GameState.Memory.{IsFresh}
use nimble_client_c.Lifecycle.{InitSettings}
use nimble_client_c.Protocol.Invariant.{UsedBelow, update-IsValid, reset-IsValid, IsValid}
use nimble_client_c.Client.{
  max_local_users_count, joining_participant, Received, synced, World, ParticipantEntry,
  ClientState, JoiningState,
}
use nimble_client_c.Realize.{
  same_state, is_init, is_cleared, realize_re_init, realize_reset, RealizeState, quit_game,
  join_game, NimbleClientRealize, run_client, towards_synced, realize_init, towards, realize_update,
}
use nimble_client_c.Platform.{Platform}
use nimble_client_c.Protocol.{view, View}
use nimble_client_c.Prelude.{
  zero, suc, length, ◌⊎◌, true, arith, inr, ◌≤◌, inl, ◌||◌, ◌++◌, ◌≡◌, Bool-cases, [], ◌∷◌, ◌≢◌, ℤ,
  List, ℕ,
}
use nimble_client_c.Lifecycle

-- A call of the application, or something that arrives.
pub data Event (P : Platform) : Type 0 where
  update_at : ℤ → Event P
  join_with : P.JoinContent → Event P
  quit : Event P
  reset_session : Event P
  re_init_with : InitSettings P → Event P
  arrive : List Received → Event P

unfoldable pub event :
    {P : Platform} → Event P → NimbleClientRealize P → World P → NimbleClientRealize P × World P
event (update_at now) r w = realize_update r w now
event (join_with content) r w = (join_game r content, w)
event quit r w = (quit_game r, w)
event reset_session r w = realize_reset r w
event (re_init_with settings) r w = realize_re_init r w settings
event (arrive received) r w = (r, record w { inbox = w.inbox ++ received })

unfoldable pub events :
    {P : Platform}
    → List (Event P)
    → NimbleClientRealize P
    → World P
    → NimbleClientRealize P × World P
events [] r w = (r, w)
events (e ∷ more) r w = let (r', w') = event e r w in events more r' w'

-- Another phase, and a state without a game, keep a session valid.
IsValid-phase : {v : View} (p : JoiningState) → IsValid v → IsValid (record v { phase = p })
IsValid-phase p k = record {
  entries_length = k.entries_length;
  counted = k.counted;
  held = k.held;
  fresh = k.fresh;
  downloaded = k.downloaded;
}

IsValid-state :
    {v : View} (s : ClientState) → s ≢ synced → IsValid v → IsValid (record v { state = s })
IsValid-state s h k = record {
  entries_length = k.entries_length;
  counted = k.counted;
  held = k.held;
  fresh = k.fresh;
  downloaded = λ e. absurd (h e);
}

module _ {P : Platform} where
  towards_synced-IsValid :
      (s : ClientState) (r : NimbleClientRealize P) (w : World P)
      → IsValid (view r.client w)
      → IsValid (view (towards_synced s r).client w)
  unfolding towards_synced
  towards_synced-IsValid ClientState.idle r w k =
      IsValid-state ClientState.requesting_connect (λ e. cc) k
  towards_synced-IsValid ClientState.connected r w k =
      IsValid-phase joining_participant
        (IsValid-state ClientState.joining_requesting_state (λ e. cc) k)
  towards_synced-IsValid _ r w k = k

  towards-IsValid :
      (t : RealizeState) (r : NimbleClientRealize P) (w : World P)
      → IsValid (view r.client w)
      → IsValid (view (towards t r).client w)
  unfolding towards
  towards-IsValid RealizeState.synced r w k = towards_synced-IsValid r.client.state r w k
  towards-IsValid _ r w k = k

  run_client-IsValid :
      (r : NimbleClientRealize P) (w : World P) (now : ℤ)
      → IsValid (view r.client w)
      → IsValid (view (run_client r w now).0.client (run_client r w now).1)
  unfolding run_client
  run_client-IsValid r w now k = elim (Bool-cases (is_cleared r.state || is_init r.target_state)) [
    | inl e ↦ rw e k
    | inr e ↦ rw e (update-IsValid r.client w now k)
  ]

  realize_update-IsValid :
      (r : NimbleClientRealize P) (w : World P) (now : ℤ)
      → IsValid (view r.client w)
      → IsValid (view (realize_update r w now).0.client (realize_update r w now).1)
  unfolding realize_update
  realize_update-IsValid r w now k =
      let (r', w') = run_client r w now in
      let k' = run_client-IsValid r w now k in
      elim (Bool-cases (is_disconnected r.client.state)) [
        | inl d ↦ rw d k
        | inr d ↦ rw d (elim (Bool-cases (same_state r'.target_state r'.state)) [
          | inl t ↦ rw t k'
          | inr t ↦ rw t (towards-IsValid r'.target_state r' w' k')
        ])
      ]

  event-IsValid :
      (e : Event P) (r : NimbleClientRealize P) (w : World P)
      → IsValid (view r.client w)
      → IsValid (view (event e r w).0.client (event e r w).1)
  unfolding event join_game quit_game realize_reset realize_re_init Lifecycle.re_init
  event-IsValid (update_at now) r w k = realize_update-IsValid r w now k
  event-IsValid (join_with content) r w k = IsValid-phase joining_participant k
  event-IsValid quit r w k = IsValid-state ClientState.disconnected (λ e. cc) k
  event-IsValid reset_session r w k = reset-IsValid r.client w k.fresh
  event-IsValid (re_init_with settings) r w k =
      reset-IsValid (record (r.client) { transport = settings.transport }) w k.fresh
  event-IsValid (arrive received) r w k = k

  events-IsValid :
      (es : List (Event P)) (r : NimbleClientRealize P) (w : World P)
      → IsValid (view r.client w)
      → IsValid (view (events es r w).0.client (events es r w).1)
  unfolding events
  events-IsValid [] r w k = k
  events-IsValid (e ∷ es) r w k =
      events-IsValid es (event e r w).0 (event e r w).1 (event-IsValid e r w k)

  realize_init-IsValid :
      (r : NimbleClientRealize P) (w : World P) (settings : InitSettings P)
      → IsFresh w.next_block w.state_blocks
      → IsValid (view (realize_init r w settings).0.client (realize_init r w settings).1)
  unfolding realize_init Lifecycle.init Lifecycle.re_init
  realize_init-IsValid r w settings k =
      reset-IsValid
        (record (Lifecycle.prepare r.client settings) { transport = settings.transport }) w k

UsedBelow-le : (n : ℕ) (es : List ParticipantEntry) → UsedBelow n es → n ≤ length es
UsedBelow-le zero es k = omega arith
UsedBelow-le (suc n) [] k = elim k [ ]
UsedBelow-le (suc n) (e ∷ es) k = omega (arith, UsedBelow-le n es k.1)

-- From the initialisation on, whatever is called in whatever order and whatever arrives, the session
-- stays valid, if the game state blocks are distinct and below the next one at the start: the
-- game state is null or a live block, a synced client has one, and, as long as no response overran
-- the entries, those that are counted are in use and at most eight, so that a lookup stays in bounds.
pub events-realize_init :
    {P : Platform} (es : List (Event P)) (r : NimbleClientRealize P) (w : World P)
    (settings : InitSettings P)
    → IsFresh w.next_block w.state_blocks
    → let (r0, w0) = realize_init r w settings in
      let (r', w') = events es r0 w0 in
      IsValid (view r'.client w')
      × ((r'.client.lookup_overrun ≡ true)
          ⊎ (r'.client.local_participant_count ≤ max_local_users_count))
events-realize_init es r w settings k =
    let (r0, w0) = realize_init r w settings in
    let (r', w') = events es r0 w0 in
    let valid = events-IsValid es r0 w0 (realize_init-IsValid r w settings k) in
    (
      valid,
      elim (Bool-cases r'.client.lookup_overrun) [
        | inl o ↦ inl o
        | inr o ↦
            let used =
              UsedBelow-le r'.client.local_participant_count r'.client.local_participant_lookup
                (valid.counted o) in
            inr (omega (arith, used, valid.entries_length))
      ],
    )

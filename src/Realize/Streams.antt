-- ===== src/Realize/Streams.antt =====
-- What a session gets synced from: network_realizer.c over a client whose blob stream no code
-- initialises.
use nimble_client_c.Lifecycle
use nimble_client_c.Lifecycle.Streams.Updating.{update-Fine}
use nimble_client_c.Incoming.{is_disconnected}
use nimble_client_c.Lifecycle.{InitSettings}
use nimble_client_c.Lifecycle.Streams.{held, Completes, Grown, Fine}
use nimble_client_c.Client.{NimbleClient, synced, World, ClientState}
use nimble_client_c.Realize.Validity.{
  reset_session, quit, arrive, re_init_with, join_with, update_at, Event, events, event,
}
use nimble_client_c.Platform.{Platform}
use nimble_client_c.Realize.{
  is_init, same_state, is_cleared, realize_re_init, realize_reset, quit_game, NimbleClientRealize,
  join_game, RealizeState, towards, run_client, towards_synced, realize_update, realize_init,
}
use nimble_client_c.Prelude.{◌⊎◌, ◌||◌, inr, ◌≢◌, [], Bool-cases, inl, ℤ, ◌∷◌, List}

module _ {P : Platform} (logic : P.BlobLogicIn) (blob : P.BlobIn) where
  towards_synced-Fine :
      (s : ClientState) (r : NimbleClientRealize P)
      → Fine logic blob r.client
      → Fine logic blob (towards_synced s r).client
  unfolding towards_synced
  towards_synced-Fine ClientState.idle r q = (q.0, inl (λ k. cc))
  towards_synced-Fine ClientState.connected r q = (q.0, inl (λ k. cc))
  towards_synced-Fine _ r q = q

  towards-Fine :
      (t : RealizeState) (r : NimbleClientRealize P)
      → Fine logic blob r.client
      → Fine logic blob (towards t r).client
  unfolding towards
  towards-Fine RealizeState.synced r q = towards_synced-Fine r.client.state r q
  towards-Fine _ r q = q

  run_client-Fine :
      (r : NimbleClientRealize P) (w : World P) (now : ℤ)
      → Fine logic blob r.client
      → Fine logic blob (run_client r w now).0.client
  unfolding run_client
  run_client-Fine r w now q = elim (Bool-cases (is_cleared r.state || is_init r.target_state)) [
    | inl e ↦ rw e q
    | inr e ↦ rw e (update-Fine logic blob r.client w now q)
  ]

  realize_update-Fine :
      (r : NimbleClientRealize P) (w : World P) (now : ℤ)
      → Fine logic blob r.client
      → Fine logic blob (realize_update r w now).0.client
  unfolding realize_update
  realize_update-Fine r w now q =
      let (r', w') = run_client r w now in
      let q' = run_client-Fine r w now q in
      elim (Bool-cases (is_disconnected r.client.state)) [
        | inl d ↦ rw d q
        | inr d ↦ rw d (elim (Bool-cases (same_state r'.target_state r'.state)) [
          | inl s ↦ rw s q'
          | inr s ↦ rw s (towards-Fine r'.target_state r' q')
        ])
      ]

  reset-Fine :
      (c : NimbleClient P) (w : World P)
      → Fine logic blob c
      → Fine logic blob (Lifecycle.reset c w).0
  unfolding Lifecycle.reset
  reset-Fine c w q = (q.0, inl (λ k. cc))

  event-Fine :
      (e : Event P) (r : NimbleClientRealize P) (w : World P)
      → Fine logic blob r.client
      → Fine logic blob (event e r w).0.client
  unfolding event join_game quit_game realize_reset realize_re_init Lifecycle.re_init
  event-Fine (update_at now) r w q = realize_update-Fine r w now q
  event-Fine (join_with content) r w q = q
  event-Fine quit r w q = (q.0, inl (λ k. cc))
  event-Fine reset_session r w q = reset-Fine r.client w q
  event-Fine (re_init_with settings) r w q =
      reset-Fine (record (r.client) { transport = settings.transport }) w q
  event-Fine (arrive received) r w q = q

  events-Fine :
      (es : List (Event P)) (r : NimbleClientRealize P) (w : World P)
      → Fine logic blob r.client
      → Fine logic blob (events es r w).0.client
  unfolding events
  events-Fine [] r w q = q
  events-Fine (e ∷ es) r w q =
      let (r', w') = event e r w in events-Fine es r' w' (event-Fine e r w q)

realize_init-Fine :
    {P : Platform} (r : NimbleClientRealize P) (w : World P) (settings : InitSettings P)
    → Fine r.client.blob_stream_in_logic r.client.blob_stream_in
        (realize_init r w settings).0.client
unfolding realize_init Lifecycle.init Lifecycle.re_init Lifecycle.prepare Lifecycle.reset
realize_init-Fine r w settings = (held, inl (λ k. cc))

-- From the initialisation on, through any calls of the interface and any arrivals, the client's
-- receiving logic and stream are what the memory of the client held before, changed by nothing but
-- the library's receiving and acknowledging: no initialisation, reset or response sets them. So
-- whenever the client is synced, a complete stream came of what that memory held.
pub events-Completes :
    {P : Platform} (es : List (Event P)) (r : NimbleClientRealize P) (w : World P)
    (settings : InitSettings P)
    → let logic = r.client.blob_stream_in_logic in
      let blob = r.client.blob_stream_in in
      let (r0, w0) = realize_init r w settings in
      let c = (events es r0 w0).0.client in
      Grown P logic blob c.blob_stream_in_logic c.blob_stream_in
      × ((c.state ≢ synced) ⊎ Completes P logic blob)
events-Completes es r w settings =
    let (r0, w0) = realize_init r w settings in
    events-Fine r.client.blob_stream_in_logic r.client.blob_stream_in es r0 w0
      (realize_init-Fine r w settings)

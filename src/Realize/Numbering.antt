-- ===== src/Realize/Numbering.antt =====
-- The sequence numbers of a whole session: network_realizer.c over client.c.
use nimble_client_c.Outgoing.Apart.{AllApart, NumberLaws, Trail-AllApart}
use mathlib.Core.Path.{subst}
use nimble_client_c.Prelude.{
  ◌++◌, ◌≤◌, ℤ, refl, sym, arith, ◌≡◌, ◌*◌, ◌∷◌, [], List, Bool-cases, inl, inr, length, ◌||◌,
}
use nimble_client_c.Platform.{Platform}
use nimble_client_c.Client.{Sent, ClientState, World}
use nimble_client_c.Incoming.{is_disconnected}
use nimble_client_c.Lifecycle
use nimble_client_c.Lifecycle.Numbering.{update-Within}
use nimble_client_c.Outgoing.Moves.{none-Within, numbering, Numbering, Within, Within-trans}
use nimble_client_c.Realize.{
  NimbleClientRealize, RealizeState, is_cleared, is_init, join_game, quit_game, realize_update,
  run_client, same_state, towards, towards_synced,
}
use nimble_client_c.Realize.Validity.{
  arrive, event, Event, events, join_with, quit, update_at, reset_session, re_init_with,
}

-- Calls that leave the session to itself: no reset, and no change of the transport.
abbrev pub GoesOn : {P : Platform} → List (Event P) → Type 0
GoesOn [] = Unit
GoesOn (update_at now ∷ more) = GoesOn more
GoesOn (join_with content ∷ more) = GoesOn more
GoesOn (quit ∷ more) = GoesOn more
GoesOn (arrive received ∷ more) = GoesOn more
GoesOn (reset_session ∷ more) = ⊥
GoesOn (re_init_with settings ∷ more) = ⊥

abbrev session : {P : Platform} → NimbleClientRealize P × World P → Numbering P
session (r, w) = numbering r.client w

module _ {P : Platform} where
  towards_synced-order :
      (s : ClientState) (r : NimbleClientRealize P)
      → (towards_synced s r).client.ordered_datagram_out ≡ r.client.ordered_datagram_out
  unfolding towards_synced
  towards_synced-order s r = ground arith

  towards-order :
      (t : RealizeState) (r : NimbleClientRealize P)
      → (towards t r).client.ordered_datagram_out ≡ r.client.ordered_datagram_out
  unfolding towards
  towards-order RealizeState.init r = refl
  towards-order RealizeState.re_init r = refl
  towards-order RealizeState.disconnected r = refl
  towards-order RealizeState.cleared r = refl
  towards-order RealizeState.synced r = towards_synced-order r.client.state r

  run_client-Within :
      (r : NimbleClientRealize P) (w : World P) (now : ℤ)
      → Within 2 (session (r, w)) (session (run_client r w now))
  unfolding run_client
  run_client-Within r w now = elim (Bool-cases (is_cleared r.state || is_init r.target_state)) [
    | inl e ↦ rw e (none-Within 2 _ _ refl)
    | inr e ↦ rw e (update-Within r.client w now)
  ]

  realize_update-Within :
      (r : NimbleClientRealize P) (w : World P) (now : ℤ)
      → Within 2 (session (r, w)) (session (realize_update r w now))
  unfolding realize_update
  realize_update-Within r w now =
      let (r', w') = run_client r w now in
      elim (Bool-cases (is_disconnected r.client.state)) [
        | inl e ↦ rw e (none-Within 2 _ _ refl)
        | inr e ↦ elim (Bool-cases (same_state r'.target_state r'.state)) [
          | inl s ↦ rw (e, s) (run_client-Within r w now)
          | inr s ↦
              rw (e, s)
                (subst (λ l. Within 2 (session (r, w)) (l, w'.outbox))
                  (sym (towards-order r'.target_state r')) (run_client-Within r w now))
        ]
      ]

  event-Within :
      (e : Event P) (more : List (Event P)) (r : NimbleClientRealize P) (w : World P)
      → GoesOn (e ∷ more)
      → Within 2 (session (r, w)) (session (event e r w)) × GoesOn more
  unfolding event join_game quit_game Lifecycle.disconnect
  event-Within (update_at now) more r w k = (realize_update-Within r w now, k)
  event-Within (join_with content) more r w k = (none-Within 2 _ _ refl, k)
  event-Within quit more r w k = (none-Within 2 _ _ refl, k)
  event-Within (arrive received) more r w k = (none-Within 2 _ _ refl, k)
  event-Within reset_session more r w k = absurd k
  event-Within (re_init_with settings) more r w k = absurd k

  events-Within :
      (es : List (Event P)) (r : NimbleClientRealize P) (w : World P)
      → GoesOn es
      → Within (2 * length es) (session (r, w)) (session (events es r w))
  unfolding events
  events-Within [] r w k = none-Within 0 _ _ refl
  events-Within (e ∷ more) r w k =
      let (r', w') = event e r w in
      let (first, goes) = event-Within e more r w k in
      let (n, few, trail) =
        Within-trans 2 (2 * length more) first (events-Within more r' w' goes) in
      (n, omega (arith, few), trail)

-- Over any part of a session that is neither reset nor moved to another transport, whatever the
-- application calls and whatever arrives, no two of the datagrams that are sent carry the same
-- sequence number, as long as twice the calls and arrivals do not exceed the period of the numbers.
-- (The ordering logic counts its numbers up, one for each commit, and what is written behind a header
-- leaves the header as it is.)
pub events-AllApart :
    {P : Platform} (L : NumberLaws P) (es : List (Event P)) (r : NimbleClientRealize P)
    (w : World P)
    → GoesOn es
    → 2 * length es ≤ L.period
    → (ds : List (Sent P)) × ((events es r w).1.outbox ≡ ds ++ w.outbox) × AllApart L.number_of ds
events-AllApart L es r w k h =
    let (n, few, trail) = events-Within es r w k in Trail-AllApart L trail (omega (arith, few))

-- ===== src/Realize/Stuck.antt =====
-- The ends that the realizer does not leave by itself: `nimbleClientRealizeReset` and
-- `nimbleClientRealizeQuitGame`, followed by updates and joins.
use nimble_client_c.Incoming.{is_disconnected}
use mathlib.Core.Path.{subst}
use nimble_client_c.Prelude.{
  ℤ, sym, Bool-cases, if◌then◌else◌, arith, false, refl, inl, inr, ◌≢◌, true, ◌∙◌, [], ◌⊎◌, ◌∷◌,
  ◌≡◌, List,
}
use nimble_client_c.Platform.{Platform}
use nimble_client_c.Client.{World, ClientState}
use nimble_client_c.Lifecycle
use nimble_client_c.Realize.{
  same_state, NimbleClientRealize, RealizeState, realize_update, realize_reset, quit_game,
  join_game, towards, towards_synced, run_client, is_cleared,
}

-- What the application may go on to do.
pub data Action (P : Platform) : Type 0 where
  update_at : ℤ → Action P
  join_with : P.JoinContent → Action P

act : {P : Platform} → Action P → NimbleClientRealize P → World P → NimbleClientRealize P × World P
act (update_at now) r w = realize_update r w now
act (join_with content) r w = (join_game r content, w)

pub acts :
    {P : Platform}
    → List (Action P)
    → NimbleClientRealize P
    → World P
    → NimbleClientRealize P × World P
acts [] r w = (r, w)
acts (a ∷ more) r w = let (r', w') = act a r w in acts more r' w'

-- A reset realizer: cleared, over a client that has at most begun to ask for a connection.
pub record IsStuck {P : Platform} (r : NimbleClientRealize P) : Type 0 where
  pub cleared_state : r.state ≡ RealizeState.cleared
  pub client_waits :
      (r.client.state ≡ ClientState.idle) ⊎ (r.client.state ≡ ClientState.requesting_connect)

towards_synced-IsStuck :
    {P : Platform} (s : ClientState) (r : NimbleClientRealize P)
    → r.client.state ≡ s
    → IsStuck r
    → IsStuck (towards_synced s r)
unfolding towards_synced
towards_synced-IsStuck ClientState.idle r e k = record {
  cleared_state = k.cleared_state;
  client_waits = inr refl;
}
towards_synced-IsStuck ClientState.connected r e k = absurd (ground (arith, k.client_waits))
towards_synced-IsStuck ClientState.synced r e k = absurd (ground (arith, k.client_waits))
towards_synced-IsStuck _ r e k = k

towards-IsStuck :
    {P : Platform} (t : RealizeState) (r : NimbleClientRealize P)
    → IsStuck r
    → IsStuck (towards t r)
unfolding towards
towards-IsStuck RealizeState.init r k = k
towards-IsStuck RealizeState.re_init r k = k
towards-IsStuck RealizeState.disconnected r k = k
towards-IsStuck RealizeState.cleared r k = record {
  cleared_state = refl;
  client_waits = k.client_waits;
}
towards-IsStuck RealizeState.synced r k = towards_synced-IsStuck r.client.state r refl k

module _ {P : Platform} (r : NimbleClientRealize P) (w : World P) (now : ℤ) where
  run_client_cleared : is_cleared r.state ≡ true → run_client r w now ≡ (r, w)
  unfolding run_client
  run_client_cleared e = rw e refl

  realize_update_cleared :
      is_cleared r.state ≡ true
      → is_disconnected r.client.state ≡ false
      → realize_update r w now
        ≡ (if same_state r.target_state r.state then r else towards r.target_state r, w)
  unfolding realize_update
  realize_update_cleared e d =
      rw (d, run_client_cleared e)
        (elim (Bool-cases (same_state r.target_state r.state)) [
          | inl q ↦ rw q refl
          | inr q ↦ rw q refl
        ])

  update-IsStuck : IsStuck r → IsStuck (realize_update r w now).0 × ((realize_update r w now).1 ≡ w)
  update-IsStuck k =
      let cleared_test : is_cleared r.state ≡ true = ground (arith, k.cleared_state) in
      let live : is_disconnected r.client.state ≡ false = ground (arith, k.client_waits) in
      rw (realize_update_cleared cleared_test live)
        (elim (Bool-cases (same_state r.target_state r.state)) [
          | inl q ↦ rw q (k, refl)
          | inr q ↦ rw q (towards-IsStuck r.target_state r k, refl)
        ])

join_game-IsStuck :
    {P : Platform} (r : NimbleClientRealize P) (content : P.JoinContent)
    → IsStuck r
    → IsStuck (join_game r content)
unfolding join_game
join_game-IsStuck r content k = record {
  cleared_state = k.cleared_state;
  client_waits = k.client_waits;
}

acts-IsStuck :
    {P : Platform} (actions : List (Action P)) (r : NimbleClientRealize P) (w : World P)
    → IsStuck r
    → IsStuck (acts actions r w).0 × ((acts actions r w).1 ≡ w)
unfolding acts act
acts-IsStuck [] r w k = (k, refl)
acts-IsStuck (update_at now ∷ actions) r w k =
    let (k', same) = update-IsStuck r w now k in
    let (k2, same') =
      acts-IsStuck actions (realize_update r w now).0 (realize_update r w now).1 k' in
    (k2, same' ∙ same)
acts-IsStuck (join_with content ∷ actions) r w k =
    acts-IsStuck actions (join_game r content) w (join_game-IsStuck r content k)

reset-IsStuck :
    {P : Platform} (r : NimbleClientRealize P) (w : World P) → IsStuck (realize_reset r w).0
unfolding realize_reset Lifecycle.reset
reset-IsStuck r w = record { cleared_state = refl; client_waits = inl refl }

-- After a reset, whatever updates and joins follow, the realizer stays cleared and its client idle
-- or requesting a connection, and the world stays as the reset left it: nothing is sent, and no
-- datagram is taken.
pub acts-realize_reset :
    {P : Platform} (actions : List (Action P)) (r : NimbleClientRealize P) (w : World P)
    → let (r', w') = realize_reset r w in
      IsStuck (acts actions r' w').0 × ((acts actions r' w').1 ≡ w')
acts-realize_reset actions r w =
    acts-IsStuck actions (realize_reset r w).0 (realize_reset r w).1 (reset-IsStuck r w)

-- The update of a realizer whose client is disconnected.
realize_update_disconnected :
    {P : Platform} (r : NimbleClientRealize P) (w : World P) (now : ℤ)
    → r.client.state ≡ ClientState.disconnected
    → realize_update r w now ≡ (record r { state = RealizeState.disconnected }, w)
unfolding realize_update
realize_update_disconnected r w now d =
    let lost : is_disconnected r.client.state ≡ true = ground arith in rw lost refl

-- A realizer whose client is disconnected.
abbrev pub IsLost : {P : Platform} → NimbleClientRealize P → Type 0
IsLost r = (r.client.state ≡ ClientState.disconnected) × (r.state ≢ RealizeState.cleared)

acts-IsLost :
    {P : Platform} (actions : List (Action P)) (r : NimbleClientRealize P) (w : World P)
    → IsLost r
    → IsLost (acts actions r w).0 × ((acts actions r w).1 ≡ w)
unfolding acts act join_game
acts-IsLost [] r w k = (k, refl)
acts-IsLost (update_at now ∷ actions) r w k =
    let same = realize_update_disconnected r w now k.0 in
    subst (λ q. IsLost (acts actions q.0 q.1).0 × ((acts actions q.0 q.1).1 ≡ w)) (sym same)
      (acts-IsLost actions (record r { state = RealizeState.disconnected }) w (k.0, λ e. cc))
acts-IsLost (join_with content ∷ actions) r w k = acts-IsLost actions (join_game r content) w k

-- After quitting the game from a state other than the cleared one, whatever updates and joins
-- follow, the client stays disconnected, the world as it was, and the realizer never reaches the
-- cleared state that quitting sets as its target.
pub acts-quit_game :
    {P : Platform} (actions : List (Action P)) (r : NimbleClientRealize P) (w : World P)
    → r.state ≢ RealizeState.cleared
    → IsLost (acts actions (quit_game r) w).0 × ((acts actions (quit_game r) w).1 ≡ w)
unfolding quit_game
acts-quit_game actions r w k = acts-IsLost actions (quit_game r) w (refl, k)

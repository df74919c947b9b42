-- ===== src/Realize/Stages.antt =====
-- One update of a realizer on its way to the synced state: network_realizer.c over client.c.
use nimble_client_c.Realize.Hearing.{update_answered, update_silent, IsHealthy}
use nimble_client_c.Realize.Progress.{
  realize_update-pushed, realize_update_running, towards_synced-pushed, pushed, reached, IsRunning,
}
use nimble_client_c.Realize.Answers.{body, standing, Answer, Delivers, verdict}
use nimble_client_c.Client.{
  DisconnectReason, keep_connection, joining_participant, datagram, synced, disconnected, World,
  ClientState,
}
use nimble_client_c.Realize.{realize_update, RealizeState, towards_synced, NimbleClientRealize}
use nimble_client_c.Prelude.{
  ◌<◌, ◌+◌, suc, ap, refl, ◌∙◌, sym, [], arith, ◌≡◌, ◌∷◌, ◌≢◌, ℕ, List, ℤ,
}
use nimble_client_c.Platform.{IncomingCommand, Platform}
use nimble_client_c.Lifecycle

-- A connection that is kept, and that `n` more doubtful ticks do not bring near its end.
abbrev pub Bears : ℕ → DisconnectReason × ℕ → Type 0
Bears n (reason, counter) = (reason ≡ keep_connection) × (counter + n < 60)

pub Bears-IsHealthy : (n : ℕ) {v : DisconnectReason × ℕ} → Bears n v → IsHealthy v
Bears-IsHealthy n {v} (keeps, few) = (keeps, omega (arith, few))

-- How far a realizer on its way is, and how many doubtful ticks it still bears.
pub record Stage {P : Platform} (n : ℕ) (s : ClientState) (r : NimbleClientRealize P) : Type 0 where
  pub running : IsRunning r
  pub at : r.client.state ≡ s
  pub joining : r.client.join_participant_phase ≡ joining_participant
  pub bears : Bears n (verdict r.client)

reached_elsewhere : (u : ClientState) (s : RealizeState) → u ≢ synced → reached u s ≡ s
reached_elsewhere u s h = ground arith

pushed-live : (u : ClientState) → u ≢ disconnected → pushed u ≢ disconnected
pushed-live u h = ground arith

module _ {P : Platform} where
  towards_synced-verdict :
      (s : ClientState) (r : NimbleClientRealize P)
      → let r' = towards_synced s r in
        (verdict r'.client ≡ verdict r.client)
        × (r'.target_state ≡ r.target_state)
        × (r.client.join_participant_phase ≡ joining_participant
            → r'.client.join_participant_phase ≡ joining_participant)
  unfolding towards_synced
  towards_synced-verdict s r = ground arith

  -- An update of the client that ends short of the synced state pushes the realizer on.
  pub realize_update-Stage :
      (r : NimbleClientRealize P) (w : World P) (now : ℤ) (n : ℕ) (u : ClientState)
      → IsRunning r
      → (Lifecycle.update r.client w now).client.state ≡ u
      → (Lifecycle.update r.client w now).client.join_participant_phase ≡ joining_participant
      → Bears n (verdict (Lifecycle.update r.client w now).client)
      → u ≢ synced
      → u ≢ disconnected
      → Stage n (pushed u) (realize_update r w now).0
  realize_update-Stage r w now n u k e j h s d =
      let o = Lifecycle.update r.client w now in
      let pushing = record r { client = o.client } in
      let (client, own) = towards_synced-pushed o.client.state pushing refl in
      let (decided, target, phase) = towards_synced-verdict o.client.state pushing in
      let same = own ∙ ap (λ s'. reached s' r.state) e ∙ reached_elsewhere u r.state s in
      rw (realize_update_running r w now k) (record {
        running = (
          target ∙ k.0,
          (λ x. k.1 (sym same ∙ x)),
          (λ x. k.2 (sym same ∙ x)),
          (λ x. pushed-live u d (sym (ap pushed e) ∙ sym client ∙ x)),
        );
        at = client ∙ ap pushed e;
        joining = phase j;
        bears = rw decided h;
      })

  pub realize_update_silent :
      (r : NimbleClientRealize P) (w : World P) (now : ℤ) (n : ℕ) (s : ClientState)
      → Stage n s r
      → s ≢ synced
      → w.inbox ≡ []
      → let (r', w') = realize_update r w now in Stage n (pushed s) r' × (w'.inbox ≡ [])
  realize_update_silent r w now n s k other quiet =
      let (state, decided, empty, phase) =
        update_silent r.client w now (λ e. other (sym k.at ∙ e)) (Bears-IsHealthy n k.bears)
          quiet in
      let (_, _, world) = realize_update-pushed r w now k.running in
      (
        realize_update-Stage r w now n s k.running (state ∙ k.at) (phase ∙ k.joining)
            (rw decided k.bears) other (λ e. k.running.3 (k.at ∙ e)),
        ap (λ x. x.inbox) world ∙ empty,
      )

module _ {P : Platform} (r : NimbleClientRealize P) (w : World P) (now : ℤ) (octets : List ℕ)
    (cmd : IncomingCommand) (n : ℕ) (s : ClientState) where
  pub realize_update_answered :
      (u : ClientState)
      → Stage n s r
      → w.inbox ≡ datagram octets ∷ []
      → Delivers P r.client.ordered_datagram_in octets cmd
      → Answer (standing r.client) (body P r.client.ordered_datagram_in octets) cmd u
      → u ≢ synced
      → u ≢ disconnected
      → let (r', w') = realize_update r w now in Stage n (pushed u) r' × (w'.inbox ≡ [])
  realize_update_answered u k waiting d a us ud =
      let (state, decided, empty, phase, _, _) =
        update_answered r.client w now octets cmd u k.running.3 (Bears-IsHealthy n k.bears) waiting
          d a in
      let (_, _, world) = realize_update-pushed r w now k.running in
      (
        realize_update-Stage r w now n u k.running state (phase ∙ k.joining)
            (rw (decided us) k.bears) us ud,
        ap (λ x. x.inbox) world ∙ empty,
      )

  pub realize_update_gets_there :
      Stage n s r
      → w.inbox ≡ datagram octets ∷ []
      → Delivers P r.client.ordered_datagram_in octets cmd
      → Answer (standing r.client) (body P r.client.ordered_datagram_in octets) cmd synced
      → let (r', _) = realize_update r w now in
        (r'.state ≡ RealizeState.synced) × (r'.client.state ≡ synced)
  realize_update_gets_there k waiting d a =
      let (state, _, _, _, _, _) =
        update_answered r.client w now octets cmd synced k.running.3 (Bears-IsHealthy n k.bears)
          waiting d a in
      let (client, own, _) = realize_update-pushed r w now k.running in
      (own ∙ ap (λ u. reached u r.state) state, client ∙ ap pushed state)

-- A synced realizer whose client is still joining, and can be left without an answer for `n` updates.
pub record Asks {P : Platform} (n : ℕ) (r : NimbleClientRealize P) : Type 0 where
  pub target : r.target_state ≡ RealizeState.synced
  pub own : r.state ≡ RealizeState.synced
  pub at : r.client.state ≡ synced
  pub joining : r.client.join_participant_phase ≡ joining_participant
  pub keeps : r.client.quality.reason ≡ keep_connection
  pub patient : r.client.quality.considering_disconnect_counter + n < 60

module _ {P : Platform} (r : NimbleClientRealize P) (w : World P) (now : ℤ) (octets : List ℕ)
    (cmd : IncomingCommand) (n : ℕ) (s : ClientState) where
  -- The realizer that gets there is still joining.
  pub realize_update-Asks :
      Stage (suc n) s r
      → w.inbox ≡ datagram octets ∷ []
      → Delivers P r.client.ordered_datagram_in octets cmd
      → Answer (standing r.client) (body P r.client.ordered_datagram_in octets) cmd synced
      → let (r', w') = realize_update r w now in Asks n r' × (w'.inbox ≡ [])
  realize_update-Asks k waiting d a =
      let (state, _, empty, phase, keeps, counts) =
        update_answered r.client w now octets cmd synced k.running.3
          (Bears-IsHealthy (suc n) k.bears) waiting d a in
      let o = Lifecycle.update r.client w now in
      let pushing = record r { client = o.client } in
      let (client, own) = towards_synced-pushed o.client.state pushing refl in
      let (decided, target, same) = towards_synced-verdict o.client.state pushing in
      let few : o.client.quality.considering_disconnect_counter + n < 60 =
        omega (arith, counts, k.bears.1) in
      rw (realize_update_running r w now k.running) (
        record {
          target = target ∙ k.running.0;
          own = own ∙ ap (λ u. reached u r.state) state;
          at = client ∙ ap pushed state;
          joining = same (phase ∙ k.joining);
          keeps = ap (λ v. v.0) decided ∙ keeps;
          patient = rw (ap (λ v. v.1) decided) few;
        },
        empty,
      )

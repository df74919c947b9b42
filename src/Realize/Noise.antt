-- ===== src/Realize/Noise.antt =====
-- Updates of a realizer on its way while what arrives is of no use: repeated or late datagrams and
-- failures of the transport, network_realizer.c over client.c and incoming.c.
use nimble_client_c.Realize.Refusing.{update_silent-Same, update_refused, LateLaw, Same, IsRefused}
pub mod Handshake
pub mod Session
use nimble_client_c.Realize.Progress.{realize_update_running, pushed}
use nimble_client_c.Realize.Stages.{Bears-IsHealthy, realize_update-Stage, Stage}
use nimble_client_c.Realize.{realize_update, NimbleClientRealize, towards_synced}
use nimble_client_c.Protocol.Updating.{wait_or_send-kept}
use nimble_client_c.Lifecycle.Pacing.{
  update_quiet, update_out_of_order-phase, update_out_of_order, update_failed,
}
use nimble_client_c.Realize.Hearing.{update_silent, IsHealthy}
use nimble_client_c.Realize.Answers.{verdict}
use nimble_client_c.Lifecycle.{check_if_disconnect_is_needed, judge_connection, begin_update}
use nimble_client_c.Prelude.{
  All-append, sym, All, ◌++◌, ℕ, refl, ◌∙◌, pos, ap, [], length, ◌∷◌, ◌<◌, List, ◌≢◌, arith, false,
  ◌≡◌, ℤ, is_positive,
}
use nimble_client_c.Client.{
  ClientState, disconnected, synced, datagram, World, failure, NimbleClient, Received,
}
use nimble_client_c.Platform.{Platform}
use nimble_client_c.Lifecycle

module _ {P : Platform} where
  towards_synced-order :
      (s : ClientState) (r : NimbleClientRealize P)
      → (towards_synced s r).client.ordered_datagram_in ≡ r.client.ordered_datagram_in
  unfolding towards_synced
  towards_synced-order s r = ground arith

-- How far a realizer on its way is, with the ordering logic of its client.
pub record Holds {P : Platform} (n : ℕ) (s : ClientState) (l : P.OrderedIn)
    (r : NimbleClientRealize P) : Type 0 where
  pub stage : Stage n s r
  pub order : r.client.ordered_datagram_in ≡ l

module _ {P : Platform} where
  realize_update-Holds :
      (r : NimbleClientRealize P) (w : World P) (now : ℤ) (n : ℕ) (s : ClientState)
      (l : P.OrderedIn)
      → Holds n s l r
      → s ≢ synced
      → Same r.client (Lifecycle.update r.client w now).client
      → let (r', w') = realize_update r w now in
        Holds n (pushed s) l r' × (w'.inbox ≡ (Lifecycle.update r.client w now).world.inbox)
  realize_update-Holds r w now n s l k other (state, decided, phase, order) =
      let o = Lifecycle.update r.client w now in
      let live : s ≢ disconnected = λ e. k.stage.running.3 (k.stage.at ∙ e) in
      let running = realize_update_running r w now k.stage.running in
      (
        record {
          stage =
              realize_update-Stage r w now n s k.stage.running (state ∙ k.stage.at)
                (phase ∙ k.stage.joining) (rw decided k.stage.bears) other live;
          order =
              ap (λ x. x.0.client.ordered_datagram_in) running
              ∙ towards_synced-order o.client.state (record r { client = o.client })
              ∙ order
              ∙ k.order;
        },
        ap (λ x. x.1.inbox) running,
      )

-- The updates at the given times.
unfoldable pub updates_at :
    {P : Platform} → List ℤ → NimbleClientRealize P × World P → NimbleClientRealize P × World P
updates_at [] x = x
updates_at (now ∷ times) (r, w) = updates_at times (realize_update r w now)

-- An update, behind what has arrived since the one before it.
pub record Round : Type 0 where
  pub received : List Received
  pub time : ℤ

abbrev pub arrive :
    {P : Platform}
    → List Received
    → NimbleClientRealize P × World P
    → NimbleClientRealize P × World P
arrive received (r, w) = (r, record w { inbox = w.inbox ++ received })

unfoldable pub hear :
    {P : Platform} → List Round → NimbleClientRealize P × World P → NimbleClientRealize P × World P
hear [] x = x
hear (e ∷ rounds) x = let (r, w) = arrive e.received x in hear rounds (realize_update r w e.time)

abbrev pub AreRefused : (P : Platform) → P.OrderedIn → List Received → Type 0
AreRefused P l received = All (IsRefused P l) received

abbrev pub behind_first : List Received → List Received
behind_first [] = []
behind_first (x ∷ q) = q

pub AreRefused-behind_first :
    (P : Platform) (l : P.OrderedIn) (xs : List Received)
    → AreRefused P l xs
    → AreRefused P l (behind_first xs)
AreRefused-behind_first P l [] a = tt
AreRefused-behind_first P l (x ∷ xs) a = a.1

module _ {P : Platform} (L : LateLaw P) where
  realize_update_noisy :
      (q : List Received) (r : NimbleClientRealize P) (w : World P) (now : ℤ) (n : ℕ)
      (s : ClientState) (l : P.OrderedIn)
      → Holds n s l r
      → s ≢ synced
      → AreRefused P l q
      → w.inbox ≡ q
      → let (r', w') = realize_update r w now in
        Holds n (pushed s) l r' × (w'.inbox ≡ behind_first q)
  realize_update_noisy [] r w now n s l k other refused waiting =
      let (same, left) =
        update_silent-Same r.client w now (λ e. other (sym k.stage.at ∙ e))
          (Bears-IsHealthy n k.stage.bears) waiting in
      let (k', world) = realize_update-Holds r w now n s l k other same in (k', world ∙ left)
  realize_update_noisy (x ∷ q) r w now n s l k other refused waiting =
      let (same, left) =
        update_refused L r.client w now x q k.stage.running.3 (rw k.order refused.0) waiting in
      let (k', world) = realize_update-Holds r w now n s l k other same.0 in (k', world ∙ left)

  hear-Holds :
      (rounds : List Round) (r : NimbleClientRealize P) (w : World P) (n : ℕ) (s : ClientState)
      (l : P.OrderedIn)
      → Holds n s l r
      → s ≢ synced
      → pushed s ≡ s
      → AreRefused P l w.inbox
      → All (λ e. AreRefused P l e.received) rounds
      → let (r', w') = hear rounds (r, w) in Holds n s l r' × AreRefused P l w'.inbox
  unfolding hear
  hear-Holds [] r w n s l k other stays waiting noise = (k, waiting)
  hear-Holds (e ∷ rounds) r w n s l k other stays waiting noise =
      let q = w.inbox ++ e.received in
      let (r', w') = realize_update r (record w { inbox = q }) e.time in
      let refused = All-append (IsRefused P l) w.inbox e.received waiting noise.0 in
      let (k', left) =
        realize_update_noisy q r (record w { inbox = q }) e.time n s l k other refused refl in
      hear-Holds rounds r' w' n s l (rw stays at k') other stays
        (rw left (AreRefused-behind_first P l q refused)) noise.1

  -- The updates that work off what is refused bring a datagram behind it to the front.
  updates_at-Holds :
      (times : List ℤ) (q : List Received) (d : Received) (r : NimbleClientRealize P) (w : World P)
      (n : ℕ) (s : ClientState) (l : P.OrderedIn)
      → Holds n s l r
      → s ≢ synced
      → pushed s ≡ s
      → AreRefused P l q
      → length times ≡ length q
      → w.inbox ≡ q ++ d ∷ []
      → let (r', w') = updates_at times (r, w) in Holds n s l r' × (w'.inbox ≡ d ∷ [])
  unfolding updates_at
  updates_at-Holds [] [] d r w n s l k other stays refused same waiting = (k, waiting)
  updates_at-Holds [] (x ∷ q) d r w n s l k other stays refused same waiting = absurd (omega arith)
  updates_at-Holds (now ∷ times) [] d r w n s l k other stays refused same waiting =
      absurd (omega arith)
  updates_at-Holds (now ∷ times) (x ∷ q) d r w n s l k other stays refused same waiting =
      let (r', w') = realize_update r w now in
      let (now_same, left) =
        update_refused L r.client w now x (q ++ d ∷ []) k.stage.running.3 (rw k.order refused.0)
          waiting in
      let (k', world) = realize_update-Holds r w now n s l k other now_same.0 in
      updates_at-Holds times q d r' w' n s l (rw stays at k') other stays refused.1 (omega arith)
        (world ∙ left)
